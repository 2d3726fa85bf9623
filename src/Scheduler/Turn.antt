-- ===== src/Scheduler/Turn.antt =====
-- One turn of `StartProcessingRequests` of pkg/scheduler/scheduler.go, and the goroutine that it
-- starts to add a worker. What is left for later (a retry after its delay, the goroutine) is part of
-- the turn's outcome.
pub mod Prepared
pub mod Handled
pub mod Accounted
pub mod Controllers
use beta.Base.{
  ℕ, Bool, true, false, Option, none, some, List, [], ◌∷◌, Result, ok, err, ◌==◌, if◌then◌else◌,
}
use beta.Base.Int.{ℤ}
use beta.Base.Io.{Io}
use beta.Types.{Worker, ContainerRequest}
use beta.Repository.Worker.Redis.{RepoError}
use beta.Repository.Worker.Index.{get_all_workers}
use beta.Scheduler.Select.{SortSlice, SelectError, select_worker}
use beta.Scheduler.Pools.{WorkerPoolController, WorkerPoolManager, SortFunc, get_controllers}
use beta.Scheduler.Backlog.{BacklogAction, add_request_to_backlog}
use beta.Scheduler.Dispatch.{Services, State, schedule_request}

pub data Outcome : Type 0 where
  idle pop_failed : Outcome
  scheduled : Worker → ContainerRequest → Outcome
  retried : BacklogAction → Outcome
  dropped : ContainerRequest → Outcome
  -- the controllers that the goroutine tries in this order
  scaling : List WorkerPoolController → ContainerRequest → Outcome

-- What stays the same from turn to turn; `elapsed` is the age of a request when it is added again.
pub record Settings : Type 0 where
  pub sort_workers : SortSlice
  pub sort_pools : SortFunc
  pub manager : WorkerPoolManager
  pub beyond : ℤ

abbrev pub or_zero : Result (Unit {0}) ℕ → ℕ
or_zero (ok n) = n
or_zero (err e) = 0

abbrev pub listed : Result RepoError (List Worker) → Result (Unit {0}) (List Worker)
listed (ok ws) = ok ws
listed (err e) = err tt

module _ (S : Services) (settings : Settings) (elapsed : ℕ) where
  -- After `scheduleRequest`
  abbrev pub handed : Worker → Bool × ContainerRequest × State S → Outcome × State S
  handed w (true, r, st) = (scheduled w r, st)
  handed w (false, r, st) = (retried (add_request_to_backlog settings.beyond elapsed r), st)

  abbrev pub to_controllers :
      ContainerRequest → Result (Unit {0}) (List WorkerPoolController) → State S → Outcome × State S
  to_controllers r (err e) st = (dropped r, st)
  to_controllers r (ok cs) st = (scaling cs r, st)

  abbrev pub to_worker : ContainerRequest → Result SelectError Worker → State S → Outcome × State S
  to_worker r (ok w) st = handed w (schedule_request S w r st)
  to_worker r (err e) st =
      to_controllers r (get_controllers settings.sort_pools settings.manager r) st

  abbrev pub with_popped : Result (Unit {0}) (Option ContainerRequest) → State S → Outcome × State S
  with_popped (err e) st = (pop_failed, st)
  with_popped (ok none) st = (pop_failed, st)
  with_popped (ok (some r)) st =
      let (answer, db) = get_all_workers S.workers st.worker_db in
      to_worker r (select_worker settings.sort_workers (listed answer) r)
        (record st { worker_db = db })

  abbrev pub with_length : Result (Unit {0}) ℕ → State S → Outcome × State S
  with_length answer st =
      if or_zero answer == 0
      then (idle, st)
      else (let (popped, db) = S.backlog.zpopmin st.backlog_db in
          with_popped popped (record st { backlog_db = db }))

  unfoldable pub process_turn : State S → Outcome × State S
  process_turn st =
      let (answer, db) = S.backlog.zcard st.backlog_db in
      with_length answer (record st { backlog_db = db })

  -- What the goroutine does after one `AddWorker`; `rest` is the loop over the later controllers.
  abbrev pub after_add :
      (State S → Outcome × State S)
      → ContainerRequest
      → Result (Unit {0}) Worker × S.workers.Db
      → State S
      → Outcome × State S
  after_add rest r (ok w, db) st = handed w (schedule_request S w r (record st { worker_db = db }))
  after_add rest r (err e, db) st = rest (record st { worker_db = db })

  -- The goroutine; `add_worker` is the controllers' own `AddWorker`. The pools hold no nil controller,
  -- which the goroutine would pass over.
  unfoldable pub try_controllers :
      (WorkerPoolController → ContainerRequest → Io S.workers.Db (Unit {0}) Worker)
      → List WorkerPoolController
      → ContainerRequest
      → State S
      → Outcome × State S
  try_controllers add_worker [] r st =
      (retried (add_request_to_backlog settings.beyond elapsed r), st)
  try_controllers add_worker (c ∷ cs) r st =
      after_add (try_controllers add_worker cs r) r (add_worker c r st.worker_db) st

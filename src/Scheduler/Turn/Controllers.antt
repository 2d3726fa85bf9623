-- ===== src/Scheduler/Turn/Controllers.antt =====
-- The goroutine that adds a worker for a request that fits on none.
use beta.Base.{◌≡◌, refl, sym, ap, subst, ◌⊎◌, inl, inr, ℕ, List, [], ◌∷◌, Memᴰ, Result, ok, err}
use beta.Base.Io.{Io}
use beta.Types.{Worker, ContainerRequest}
use beta.Repository.Worker.Redis.{WorkerStore}
use beta.Scheduler.Pools.{WorkerPoolController}
use beta.Scheduler.Backlog.Readded.{Readded, add_request_to_backlog-Readded}
use beta.Scheduler.Dispatch.{Services, State}
use beta.Scheduler.Turn.{
  Outcome, idle, pop_failed, scheduled, retried, dropped, scaling, Settings, after_add,
  try_controllers,
}
use beta.Scheduler.Turn.Handled.{workers_of, Taken, TurnedAway, Handed, schedule_request-Handed}

module _ (S : Services) (settings : Settings) (elapsed : ℕ)
    (add_worker : WorkerPoolController → ContainerRequest → Io S.workers.Db (Unit {0}) Worker)
    (r : ContainerRequest) where
  -- The worker is new: a controller has answered it, in a state of the worker repository that the
  -- controllers tried before have left.
  pub record Added (cs : List WorkerPoolController) (w : Worker) (v : WorkerStore) : Type 0 where
    pub controller : WorkerPoolController
    pub offered : Memᴰ controller cs
    pub before : S.workers.Db
    pub answer : (add_worker controller r before).0 ≡ ok w
    pub after : S.workers.view (add_worker controller r before).1 ≡ v

  -- Every controller failed.
  abbrev pub NoneAdded : List WorkerPoolController → Type 0
  NoneAdded cs =
      (c : WorkerPoolController)
      → Memᴰ c cs
      → (before : S.workers.Db) × (u : Unit {0}) × ((add_worker c r before).0 ≡ err u)

  -- The request is delivered to a worker that a controller added; or it is added again, since that
  -- worker did not take it or since every controller failed.
  abbrev pub Placed : S.containers.Db → List WorkerPoolController → Outcome → State S → Type 0
  Placed containers cs (scheduled w r') st' =
      (v : WorkerStore) × Added cs w v × Taken S containers v w r r' (workers_of S st')
  Placed containers cs (retried action) st' =
      ((w : Worker) × (v : WorkerStore) × (r' : ContainerRequest) × Added cs w v
        × TurnedAway S containers v w r r'
        × Readded elapsed r' action)
      ⊎ (NoneAdded cs × Readded elapsed r action)
  Placed containers cs (dropped r') st' = ⊥
  Placed containers cs (scaling ds r') st' = ⊥
  Placed containers cs idle st' = ⊥
  Placed containers cs pop_failed st' = ⊥

  Added-later :
      {c : WorkerPoolController} {cs : List WorkerPoolController} {w : Worker} {v : WorkerStore}
      → Added cs w v
      → Added (c ∷ cs) w v
  Added-later a = record {
    controller = a.controller;
    offered = Memᴰ.tail a.offered;
    before = a.before;
    answer = a.answer;
    after = a.after;
  }

  -- The controller in front has failed.
  Placed-later :
      (containers : S.containers.Db) (c : WorkerPoolController) (cs : List WorkerPoolController)
      (o : Outcome) (st' : State S)
      → ((before : S.workers.Db) × (u : Unit {0}) × ((add_worker c r before).0 ≡ err u))
      → Placed containers cs o st'
      → Placed containers (c ∷ cs) o st'
  Placed-later containers c cs (scheduled w r') st' failed (v, added, taken) =
      (v, Added-later added, taken)
  Placed-later containers c cs (retried action) st' failed (inl (w, v, r', added, away, again)) =
      inl (w, v, r', Added-later added, away, again)
  Placed-later containers c cs (retried action) st' failed (inr (none_added, readded)) = inr (
    λ x m. elim m [
      | Memᴰ.head e ↦
          subst
            (λ y. (before : S.workers.Db) × (u : Unit {0}) × ((add_worker y r before).0 ≡ err u))
            (sym e) failed
      | Memᴰ.tail below ↦ none_added x below
    ],
    readded,
  )
  Placed-later containers c cs (dropped r') st' failed h = absurd h
  Placed-later containers c cs (scaling ds r') st' failed h = absurd h
  Placed-later containers c cs idle st' failed h = absurd h
  Placed-later containers c cs pop_failed st' failed h = absurd h

  -- A worker that was found or added, and that takes the request or turns it away.
  Settled-Placed :
      (containers : S.containers.Db) (v : WorkerStore) (cs : List WorkerPoolController) (w : Worker)
      (o : Outcome) (st' : State S)
      → Added cs w v
      → Handed S settings elapsed containers r w v o (workers_of S st')
      → Placed containers cs o st'
  Settled-Placed containers v cs w (scheduled w' r') st' added (same, taken) = (
    v,
    subst (λ x. Added cs x v) (sym same) added,
    subst (λ x. Taken S containers v x r r' (workers_of S st')) (sym same) taken,
  )
  Settled-Placed containers v cs w (retried action) st' added (r', away, again) =
      inl (w, v, r', added, away, again)
  Settled-Placed containers v cs w (dropped r') st' added h = absurd h
  Settled-Placed containers v cs w (scaling ds r') st' added h = absurd h
  Settled-Placed containers v cs w idle st' added h = absurd h
  Settled-Placed containers v cs w pop_failed st' added h = absurd h

  after_add-Placed :
      (c : WorkerPoolController) (cs : List WorkerPoolController) (st : State S)
      (x : Result (Unit {0}) Worker × S.workers.Db)
      → add_worker c r st.worker_db ≡ x
      → ((st : State S)
          → let y = try_controllers S settings elapsed add_worker cs r st in
            Placed st.container_db cs y.0 y.1)
      → let y =
          after_add S settings elapsed
            (try_controllers S settings elapsed add_worker cs r)
            r
            x
            st in
        Placed st.container_db (c ∷ cs) y.0 y.1
  after_add-Placed c cs st (ok w, db) e rest =
      Settled-Placed st.container_db _ (c ∷ cs) w _ _
        (record {
          controller = c;
          offered = Memᴰ.head refl;
          before = st.worker_db;
          answer = ap (λ y. y.0) e;
          after = ap (λ y. S.workers.view y.1) e;
        })
        (schedule_request-Handed S settings elapsed r w (record st { worker_db = db }))
  after_add-Placed c cs st (err u, db) e rest =
      Placed-later st.container_db c cs _ _ (st.worker_db, u, ap (λ y. y.0) e)
        (rest (record st { worker_db = db }))

  -- The goroutine ends in one of three ways. The request, prepared for a worker that one of the
  -- controllers answered, is in the queue of that worker, whose GPU was stored for the container and
  -- from which its resources were taken; or such a worker did not take it, since storing its GPU
  -- failed or the worker repository refused it, and it is added again as it was or as it was
  -- prepared; or every controller failed and it is added again as it was. Where it is added again it
  -- is pushed at once, or after two or four seconds, with one push more counted, or given up after
  -- three pushes or ten minutes.
  pub try_controllers-Placed :
      (cs : List WorkerPoolController) (st : State S)
      → let y = try_controllers S settings elapsed add_worker cs r st in
        Placed st.container_db cs y.0 y.1
  unfolding try_controllers
  try_controllers-Placed [] st =
      inr (λ c m. elim m [ ], add_request_to_backlog-Readded settings.beyond elapsed r)
  try_controllers-Placed (c ∷ cs) st =
      after_add-Placed c cs st (add_worker c r st.worker_db) refl (try_controllers-Placed cs)

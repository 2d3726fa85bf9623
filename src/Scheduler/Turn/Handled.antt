-- ===== src/Scheduler/Turn/Handled.antt =====
-- What becomes of a request that a turn of the processing loop has popped: what `scheduleRequest` and
-- `getControllers` do with it.
use beta.Base.{
  ◌≡◌, ◌∙◌, refl, sym, ap, subst, ◌⊎◌, inl, inr, ℕ, some, List, [], ◌∷◌, ◌++◌, Memᴰ, Result, ok,
  err,
}
use beta.Types.{Worker, ContainerRequest, remove_capacity}
use beta.Repository.Worker.Redis.{WorkerStore, RepoError, set_worker, set_requests}
use beta.Repository.Worker.{stored_or_zero, updated_capacity, schedule_container_request}
use beta.Repository.Container.{update_assigned_container_gpu}
use beta.Repository.Worker.Capacity.{schedule_container_request-Ensures}
use beta.Repository.Container.Redis.{ContainerError}
use beta.Scheduler.Select.{SelectError, select_worker}
use beta.Scheduler.Select.Best.{Selected, select_worker-Selected}
use beta.Scheduler.Filters.Fit.{Fits}
use beta.Scheduler.Pools.{WorkerPoolController, get_controllers}
use beta.Scheduler.Backlog.Readded.{Readded, add_request_to_backlog-Readded}
use beta.Scheduler.Turn.Prepared.{Prepared, prepared_for-Prepared}
use beta.Scheduler.Dispatch.{Services, State, prepared_for, hand_over, succeeded, schedule_request}
use beta.Scheduler.Turn.{
  Outcome, idle, pop_failed, scheduled, retried, dropped, scaling, Settings, listed, handed,
  to_controllers, to_worker,
}

-- The worker was chosen among those that were listed.
abbrev pub Chosen : ContainerRequest → Result RepoError (List Worker) → Worker → Type 0
Chosen r found w = (ws : List Worker) × (found ≡ ok ws) × Selected r ws (ok w)

-- The workers could not be listed, or the request fits on none of them.
abbrev pub Unserved : ContainerRequest → Result RepoError (List Worker) → Type 0
Unserved r (err e) = Unit {0}
Unserved r (ok ws) = (w : Worker) → Memᴰ w ws → ¬ Fits r w

-- The resources of the request were taken off the stored worker, and the request was appended to
-- the worker's queue; no other worker and no other queue has changed.
pub record Delivered (v : WorkerStore) (w : Worker) (r : ContainerRequest) (v' : WorkerStore)
    : Type 0 where
  pub remaining : Worker
  pub reserved :
      updated_capacity w r remove_capacity (stored_or_zero w.id (v.workers w.id)) ≡ ok remaining
  pub queued :
      v' ≡ set_requests w.id (v.requests w.id ++ r ∷ []) (set_worker w.id (some remaining) v)

module _ (S : Services) where
  -- The stored values of the workers and of the backlog.
  abbrev pub workers_of : State S → WorkerStore
  workers_of st = S.workers.view st.worker_db

  abbrev pub backlog_of : State S → List ContainerRequest
  backlog_of st = S.backlog.view st.backlog_db

  -- The request `r` did not get to the worker: its GPU could not be stored, and the request is as it
  -- was; or the worker repository refused it, and it is prepared for this worker.
  abbrev pub TurnedAway :
      S.containers.Db → WorkerStore → Worker → ContainerRequest → ContainerRequest → Type 0
  TurnedAway containers v w r r' =
      ((r' ≡ r)
        × ((e : ContainerError) × ((update_assigned_container_gpu S.containers r.container_id w.gpu
                containers).0
              ≡ err e)))
      ⊎ ((r' ≡ prepared_for S.credentials w r)
          × Prepared w r r'
          × ((before : S.workers.Db) × (e : RepoError) × (S.workers.view before ≡ v)
              × ((schedule_container_request S.workers w r' before).0 ≡ err e)))

  -- The worker takes the request: its GPU was stored, and it is prepared for this worker.
  abbrev pub Taken :
      S.containers.Db
      → WorkerStore
      → Worker
      → ContainerRequest
      → ContainerRequest
      → WorkerStore
      → Type 0
  Taken containers v w r r' v' =
      ((update_assigned_container_gpu S.containers r.container_id w.gpu containers).0 ≡ ok tt)
      × (r' ≡ prepared_for S.credentials w r)
      × Prepared w r r'
      × Delivered v w r' v'

  module _ (settings : Settings) (elapsed : ℕ) where
    abbrev controllers : ContainerRequest → Result (Unit {0}) (List WorkerPoolController)
    controllers r = get_controllers settings.sort_pools settings.manager r

    -- A request that was handed to the worker `w`.
    abbrev pub Handed :
        S.containers.Db → ContainerRequest → Worker → WorkerStore → Outcome → WorkerStore → Type 0
    Handed containers r w v (scheduled w' r') v' = (w' ≡ w) × Taken containers v w r r' v'
    Handed containers r w v (retried action) v' =
        (r' : ContainerRequest) × TurnedAway containers v w r r' × Readded elapsed r' action
    Handed containers r w v (dropped r') v' = ⊥
    Handed containers r w v (scaling cs r') v' = ⊥
    Handed containers r w v idle v' = ⊥
    Handed containers r w v pop_failed v' = ⊥

    -- What became of a popped request, with the containers before, and the stored values of the
    -- workers before and after.
    abbrev pub Settled :
        S.containers.Db
        → ContainerRequest
        → Result RepoError (List Worker)
        → WorkerStore
        → Outcome
        → WorkerStore
        → Type 0
    Settled containers r found v (scheduled w r') v' =
        Chosen r found w × Taken containers v w r r' v'
    Settled containers r found v (retried action) v' =
        (w : Worker) × (r' : ContainerRequest) × Chosen r found w
        × TurnedAway containers v w r r'
        × Readded elapsed r' action
    Settled containers r found v (dropped r') v' =
        (r' ≡ r) × Unserved r found × (controllers r ≡ err tt) × (v' ≡ v)
    Settled containers r found v (scaling cs r') v' =
        (r' ≡ r) × Unserved r found × (controllers r ≡ ok cs) × (v' ≡ v)
    Settled containers r found v idle v' = ⊥
    Settled containers r found v pop_failed v' = ⊥

    module _ (r : ContainerRequest) where
      -- A request that the worker repository accepted is in its queue.
      accepted-Handed :
          (w : Worker) (st : State S) (x : Result RepoError (Unit {0}) × S.workers.Db)
          → (update_assigned_container_gpu S.containers r.container_id w.gpu st.container_db).0
            ≡ ok tt
          → schedule_container_request S.workers w (prepared_for S.credentials w r) st.worker_db ≡ x
          → (c : S.containers.Db)
          → let y = handed S settings elapsed w (
            succeeded x.0,
            prepared_for S.credentials w r,
            record { container_db = c; worker_db = x.1; backlog_db = st.backlog_db },
          ) in
            Handed st.container_db r w (workers_of st) y.0 (workers_of y.1)
      accepted-Handed w st (ok u, db) stored e c =
          let (remaining, reserved, queued) =
            (schedule_container_request-Ensures S.workers w (prepared_for S.credentials w r)
                st.worker_db).holds
              tt (ap (λ y. y.0) e) in
          (
            refl,
            (
              stored,
              refl,
              prepared_for-Prepared S.credentials w r,
              record {
                remaining = remaining;
                reserved = reserved;
                queued = ap (λ y. S.workers.view y.1) (sym e) ∙ queued;
              },
            ),
          )
      accepted-Handed w st (err f, db) stored e c = (
        prepared_for S.credentials w r,
        inr (
          refl,
          prepared_for-Prepared S.credentials w r,
          (st.worker_db, f, refl, ap (λ y. y.0) e),
        ),
        add_request_to_backlog-Readded settings.beyond elapsed _,
      )

      stored-Handed :
          (w : Worker) (st : State S) (x : Result ContainerError (Unit {0}) × S.containers.Db)
          → update_assigned_container_gpu S.containers r.container_id w.gpu st.container_db ≡ x
          → let y =
              handed S settings elapsed w
                (hand_over S w r (record st { container_db = x.1 }) x.0) in
            Handed st.container_db r w (workers_of st) y.0 (workers_of y.1)
      stored-Handed w st (err f, c) e = (
        r,
        inl (refl, (f, ap (λ y. y.0) e)),
        add_request_to_backlog-Readded settings.beyond elapsed r,
      )
      stored-Handed w st (ok u, c) e = accepted-Handed w st _ (ap (λ y. y.0) e) refl c

      pub schedule_request-Handed :
          (w : Worker) (st : State S)
          → let x = handed S settings elapsed w (schedule_request S w r st) in
            Handed st.container_db r w (workers_of st) x.0 (workers_of x.1)
      unfolding schedule_request
      schedule_request-Handed w st = stored-Handed w st _ refl

    module _ (r : ContainerRequest) (found : Result RepoError (List Worker)) where
      Handed-Settled :
          (containers : S.containers.Db) (w : Worker) (v v' : WorkerStore) (o : Outcome)
          → Chosen r found w
          → Handed containers r w v o v'
          → Settled containers r found v o v'
      Handed-Settled containers w v v' (scheduled w' r') chosen (same, taken) = (
        subst (Chosen r found) (sym same) chosen,
        subst (λ x. Taken containers v x r r' v') (sym same) taken,
      )
      Handed-Settled containers w v v' (retried action) chosen (r', away, again) =
          (w, r', chosen, away, again)
      Handed-Settled containers w v v' (dropped r') chosen h = absurd h
      Handed-Settled containers w v v' (scaling cs r') chosen h = absurd h
      Handed-Settled containers w v v' idle chosen h = absurd h
      Handed-Settled containers w v v' pop_failed chosen h = absurd h

      to_controllers-Settled :
          (answer : Result (Unit {0}) (List WorkerPoolController)) (st : State S)
          → Unserved r found
          → controllers r ≡ answer
          → let x = to_controllers S settings elapsed r answer st in
            Settled st.container_db r found (workers_of st) x.0 (workers_of x.1)
      to_controllers-Settled (err u) st unserved e = (refl, unserved, e, refl)
      to_controllers-Settled (ok cs) st unserved e = (refl, unserved, e, refl)

      pub to_worker-Settled :
          (answer : Result SelectError Worker) (st : State S)
          → ((w : Worker) → answer ≡ ok w → Chosen r found w)
          → ((e : SelectError) → answer ≡ err e → Unserved r found)
          → let x = to_worker S settings elapsed r answer st in
            Settled st.container_db r found (workers_of st) x.0 (workers_of x.1)
      to_worker-Settled (ok w) st chosen unserved =
          Handed-Settled _ w _ _ _ (chosen w refl) (schedule_request-Handed r w st)
      to_worker-Settled (err e) st chosen unserved =
          to_controllers-Settled _ st (unserved e refl) refl

    module _ (r : ContainerRequest) where
      abbrev pub choice : Result RepoError (List Worker) → Result SelectError Worker
      choice found = select_worker settings.sort_workers (listed found) r

      pub choice-Chosen :
          (found : Result RepoError (List Worker)) (w : Worker)
          → choice found ≡ ok w
          → Chosen r found w
      unfolding select_worker
      choice-Chosen (err e) w h = cc
      choice-Chosen (ok ws) w h =
          (ws, refl, subst (Selected r ws) h (select_worker-Selected settings.sort_workers r ws))

      pub choice-Unserved :
          (found : Result RepoError (List Worker)) (e : SelectError)
          → choice found ≡ err e
          → Unserved r found
      choice-Unserved (err x) e h = tt
      choice-Unserved (ok ws) e h = elim (select_worker-Selected settings.sort_workers r ws) [
        | inl (none_suitable, none_fits) ↦ none_fits
        | inr (w', chosen, kept, best) ↦ cc
      ]

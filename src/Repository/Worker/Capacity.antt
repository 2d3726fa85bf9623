-- ===== src/Repository/Worker/Capacity.antt =====
-- `UpdateWorkerCapacity` and `ScheduleContainerRequest`: what a successful call has stored.
use beta.Base.{◌≡◌, ◌∙◌, ap, subst, String, some, [], ◌∷◌, ◌++◌, ok}
use beta.Base.Io.{
  Io, ◌>>=◌, lift, Ensures, >>=-Ensures, >>-Ensures, finally-Ensures, pure-Ensures, lift-Ensures,
  call-Ensures,
}
use beta.Types.{Worker, ContainerRequest, CapacityUpdateType, remove_capacity}
use beta.Repository.Worker.Redis.{WorkerRedis, RepoError, set_worker, set_requests}
use beta.Repository.Worker.{
  stored_or_zero, updated_capacity, get_worker_from_key, update_worker_capacity,
  schedule_container_request,
}

module _ (R : WorkerRedis) where
  open R use {Db, view, acquire, release, hgetall, hset}

  -- The worker that `getWorkerFromKey` reads.
  abbrev pub stored_worker : Db → String → Worker
  stored_worker d id = stored_or_zero id ((view d).workers id)

  pub get_worker_from_key-Ensures :
      (id : String) (d : Db)
      → Ensures (get_worker_from_key R id) d (λ w d'. (w ≡ stored_worker d id) × (view d' ≡ view d))
  unfolding get_worker_from_key
  get_worker_from_key-Ensures id d = >>=-Ensures _ _ λ found e.
      let (same, answer) = R.hgetall-Reads id d in
      pure-Ensures _ (ap (stored_or_zero id) (answer found e), same)

  abbrev read_changed : Worker → ContainerRequest → CapacityUpdateType → Io R.Db RepoError Worker
  read_changed worker r t =
      get_worker_from_key R worker.id >>= λ stored. lift (updated_capacity worker r t stored)

  read_changed-Ensures :
      (worker : Worker) (r : ContainerRequest) (t : CapacityUpdateType) (d : Db)
      → Ensures (read_changed worker r t) d λ w' d'.
        (updated_capacity worker r t (stored_worker d worker.id) ≡ ok w') × (view d' ≡ view d)
  read_changed-Ensures worker r t d = >>=-Ensures _ _ λ stored e.
      let (read, same) = (get_worker_from_key-Ensures worker.id d).holds stored e in
      lift-Ensures _ λ w' changed. (rw (← read) changed, same)

  -- A call that succeeds has written the changed worker, and nothing else.
  pub update_worker_capacity-Ensures :
      (worker : Worker) (r : ContainerRequest) (t : CapacityUpdateType) (d : Db)
      → Ensures (update_worker_capacity R worker r t) d λ _ d'.
        (w' : Worker) × (updated_capacity worker r t (stored_worker d worker.id) ≡ ok w')
        × (view d' ≡ set_worker worker.id (some w') (view d))
  unfolding update_worker_capacity
  update_worker_capacity-Ensures worker r t d = >>-Ensures _ _ λ _. finally-Ensures _ _ (
      >>=-Ensures _ _ λ w' e. call-Ensures λ a written.
        let locked = (R.acquire-Reads worker.id d).0 in
        let (changed, same) = (read_changed-Ensures worker r t _).holds w' e in
        (
          w',
          subst
              (λ v.
                updated_capacity worker r t (stored_or_zero worker.id (v.workers worker.id))
                ≡ ok w')
              locked changed,
          R.release-view worker.id _
              ∙ (R.hset-Writes worker.id w' _).0 a written
              ∙ ap (set_worker worker.id (some w')) (same ∙ locked),
        ))

  -- A request is scheduled by taking its resources off the stored worker and appending it to the
  -- worker's queue.
  pub schedule_container_request-Ensures :
      (worker : Worker) (r : ContainerRequest) (d : Db)
      → Ensures (schedule_container_request R worker r) d λ _ d'.
        (w' : Worker) × (updated_capacity worker r remove_capacity (stored_worker d worker.id)
          ≡ ok w')
        × (view d'
            ≡ set_requests worker.id
                ((view d).requests worker.id ++ r ∷ [])
                (set_worker worker.id (some w') (view d)))
  unfolding schedule_container_request
  schedule_container_request-Ensures worker r d = >>-Ensures _ _ λ e. call-Ensures λ a pushed.
      let (w', changed, stored) =
        (update_worker_capacity-Ensures worker r remove_capacity d).holds tt e in
      (
        w',
        changed,
        (R.rpush-Writes worker.id r _).0 a pushed
            ∙ ap (λ v. set_requests worker.id (v.requests worker.id ++ r ∷ []) v) stored,
      )

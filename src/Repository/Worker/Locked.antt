-- ===== src/Repository/Worker/Locked.antt =====
-- Reading all workers changes no stored value.
use beta.Base.{String, Option, none, some, List, [], ◌∷◌}
use beta.Base.Keeps.{Keeps, >>=-Keeps, pure-Keeps, attempt-Keeps, finally-Keeps}
use beta.Repository.Worker.Redis.{WorkerRedis}
use beta.Repository.Worker.{get_worker_from_key}
use beta.Repository.Worker.Index.{read_locked, get_workers_locked, get_workers, get_all_workers}

module _ (R : WorkerRedis) where
  open R use {view}

  get_worker_from_key-Keeps : (k : String) → Keeps view (get_worker_from_key R k)
  unfolding get_worker_from_key
  get_worker_from_key-Keeps k =
      >>=-Keeps view _ _ (λ d. (R.hgetall-Reads k d).0) λ found. pure-Keeps view _ _

  read_locked-Keeps : (k : String) (o : Option (Unit {0})) → Keeps view (read_locked R k o)
  read_locked-Keeps k none = pure-Keeps view _ _
  read_locked-Keeps k (some u) =
      attempt-Keeps view _ (finally-Keeps view _ _ (get_worker_from_key-Keeps k) (R.release-view k))

  get_workers_locked-Keeps : (ks : List String) → Keeps view (get_workers_locked R ks)
  unfolding get_workers_locked
  get_workers_locked-Keeps [] = pure-Keeps view _ _
  get_workers_locked-Keeps (k ∷ ks) =
      >>=-Keeps view _ _
        (>>=-Keeps view _ _ (attempt-Keeps view _ λ d. (R.acquire-Reads k d).0)
          (read_locked-Keeps k))
        λ found. >>=-Keeps view _ _ (get_workers_locked-Keeps ks) λ ws. pure-Keeps view _ _

  pub get_all_workers-Keeps : Keeps view (get_all_workers R)
  unfolding get_all_workers get_workers
  get_all_workers-Keeps =
      >>=-Keeps view _ _ (λ d. (R.smembers-Reads d).0) (get_workers_locked-Keeps)

-- ===== src/Scheduler/Cleaner.antt =====
-- pkg/scheduler/pool_cleaner.go: the clean-up of the Kubernetes jobs of a pool's workers. The state
-- is that of Redis and that of Kubernetes. Deleted-worker events are left out.
pub mod Spares
use beta.Base.{
  ℕ, ◌+◌, ◌≡◌, ◌≢◌, String, Bool, true, false, Option, none, some, List, [], ◌∷◌, Result, ok, err,
  ltb, if◌then◌else◌,
}
use beta.Base.Io.{Io}
use beta.Repository.Worker.Redis.{WorkerRedis, RepoError}
use beta.Repository.Worker.Removed.{is_not_found}
use beta.Repository.Worker.{remove_worker, get_worker_by_id}

pub data PodPhase : Type 0 where
  pod_pending pod_running pod_succeeded pod_failed pod_unknown : PodPhase

-- `worker_id` is the label of the worker's id; `created` is in nanoseconds.
pub record Pod : Type 0 where
  pub worker_id : Option String
  pub phase : PodPhase
  pub created : ℕ

-- The calls of the Kubernetes API; a job is given by its name.
pub record KubeClient : Type 1 where
  pub Cluster : Type 0
  pub has_job : Cluster → String → Bool
  pub list_jobs : Cluster → Result (Unit {0}) (List String) × Cluster
  pub list_pods : String → Cluster → Result (Unit {0}) (List Pod) × Cluster
  pub delete_job : String → Cluster → Result (Unit {0}) (Unit {0}) × Cluster
  pub list_jobs-keeps : (k : Cluster) (j : String) → has_job (list_jobs k).1 j ≡ has_job k j
  pub list_pods-keeps :
      (job : String) (k : Cluster) (j : String) → has_job (list_pods job k).1 j ≡ has_job k j
  pub delete_job-keeps :
      (job : String) (k : Cluster) (j : String)
      → job ≢ j
      → has_job (delete_job job k).1 j ≡ has_job k j

abbrev pub is_done : PodPhase → Bool
is_done pod_succeeded = true
is_done pod_failed = true
is_done _ = false

abbrev pub is_pod_pending : PodPhase → Bool
is_pod_pending pod_pending = true
is_pod_pending _ = false

-- Only `ErrWorkerNotFound` tells that the worker has no state.
abbrev pub has_no_state : {A : Type 0} → Result RepoError A → Bool
has_no_state (ok a) = false
has_no_state (err e) = is_not_found e

-- `limit` is `CleanupPendingWorkerAgeLimit`, in nanoseconds; one time stands for the whole pass.
module _ (R : WorkerRedis) (K : KubeClient) (limit now : ℕ) where
  abbrev pub World : Type 0
  World = R.Db × K.Cluster

  -- Both deletions are tried, whether the other fails or not.
  unfoldable pub delete_worker_resources : String → String → World → World
  delete_worker_resources worker_id job (d, k) =
      ((remove_worker R worker_id d).1, (K.delete_job job k).1)

  abbrev pub delete_if_stateless : String → String → World → World
  delete_if_stateless worker_id job (d, k) =
      let (answer, d') = get_worker_by_id R worker_id d in
      if has_no_state answer then delete_worker_resources worker_id job (d', k) else (d', k)

  abbrev pub stale_labelled : Option String → PodPhase → String → World → World
  stale_labelled none phase job s = s
  stale_labelled (some worker_id) phase job s =
      if is_done phase then s else delete_if_stateless worker_id job s

  unfoldable pub delete_stale_job : Pod → String → World → World
  delete_stale_job pod job s = stale_labelled pod.worker_id pod.phase job s

  -- It is pending, and not younger than the limit.
  abbrev pub is_overdue : Pod → Bool
  is_overdue pod =
      if is_pod_pending pod.phase
      then (if ltb now (pod.created + limit) then false else true)
      else false

  abbrev pub pending_labelled : Option String → Bool → String → World → World
  pending_labelled none overdue job s = s
  pending_labelled (some worker_id) overdue job s =
      if overdue then delete_worker_resources worker_id job s else s

  unfoldable pub delete_pending_job : Pod → String → World → World
  delete_pending_job pod job s = pending_labelled pod.worker_id (is_overdue pod) job s

  unfoldable pub clean_pods : String → List Pod → World → World
  clean_pods job [] s = s
  clean_pods job (pod ∷ pods) s =
      clean_pods job pods (delete_pending_job pod job (delete_stale_job pod job s))

  abbrev pub with_pods : String → Result (Unit {0}) (List Pod) → World → World
  with_pods job (err e) s = s
  with_pods job (ok pods) s = clean_pods job pods s

  unfoldable pub clean_job : String → World → World
  clean_job job (d, k) = let (pods, k') = K.list_pods job k in with_pods job pods (d, k')

  unfoldable pub clean_jobs : List String → World → World
  clean_jobs [] s = s
  clean_jobs (job ∷ jobs) s = clean_jobs jobs (clean_job job s)

  abbrev pub with_jobs : Result (Unit {0}) (List String) → World → World
  with_jobs (err e) s = s
  with_jobs (ok jobs) s = clean_jobs jobs s

  unfoldable pub clean : World → World
  clean (d, k) = let (jobs, k') = K.list_jobs k in with_jobs jobs (d, k')

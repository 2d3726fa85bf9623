-- ===== src/Examples/Requests.antt =====
-- Requests on their way: the controllers they are offered to, and their retries.
use beta.Base.{
  List, ◌++◌, ℕ, ◌≤◌, ◌≡◌, refl, ◌⊎◌, true, false, none, some, [], ◌∷◌, All, length, ok,
}
use beta.Base.Int.{ℤ, pos}
use beta.Types.{ContainerRequest}
use beta.Scheduler.Pools.{
  WorkerPoolController, WorkerPool, WorkerPoolManager, degraded, healthy, get_controllers,
}
use beta.Scheduler.Pools.Choice.{Offered, Answered, get_controllers-Offered}
use beta.Scheduler.Backlog.{added_again}
use beta.Scheduler.Backlog.Retries.{InTime, added_again-three}
use beta.Examples.Sorting.{sorting_pools}
use beta.Examples.Data.{cpu_request, gpu_request}
use beta.Scheduler.Sizing.{WorkerPoolSizingConfig}

abbrev pub t4_controller : WorkerPoolController
t4_controller = record {
  name = "t4";
  is_preemptable = false;
  requires_pool_selector = false;
  container_runtime = "runc";
  state = ok healthy;
}

abbrev t4_pool : WorkerPool
t4_pool = record { name = "t4"; gpu_type = "T4"; priority = pos 2; controller = t4_controller }

abbrev sick_pool : WorkerPool
sick_pool = record t4_pool {
  name = "sick";
  controller = record t4_controller { name = "sick"; state = ok degraded };
}

abbrev manager : WorkerPoolManager
manager = record { pool_map = ("sick", sick_pool) ∷ ("t4", t4_pool) ∷ []; failover_enabled = true }

get_controllers-Offered_example :
    Answered (Offered manager gpu_request) (get_controllers sorting_pools manager gpu_request)
get_controllers-Offered_example = get_controllers-Offered sorting_pools manager gpu_request

added_again-three_example :
    ((added_again (pos 0) (1 ∷ 2 ∷ 3 ∷ []) cpu_request ≡ none)
      × (¬ (All InTime (2 ∷ 3 ∷ []) × (length {A = ℕ} (2 ∷ 3 ∷ []) ≤ 2))))
    ⊎ ((delays rest : List ℤ) × (r' : ContainerRequest) × (added_again
            (pos 0)
            (1 ∷ 2 ∷ 3 ∷ [])
            cpu_request
          ≡ some (delays, r'))
        × All InTime (2 ∷ 3 ∷ [])
        × (r'.retry_count ≡ length {A = ℕ} (1 ∷ 2 ∷ 3 ∷ []))
        × (length {A = ℕ} (1 ∷ 2 ∷ 3 ∷ []) ≤ 3)
        × (length delays ≡ length {A = ℕ} (1 ∷ 2 ∷ 3 ∷ []))
        × (delays ++ rest ≡ pos 0 ∷ pos 2000000000 ∷ pos 4000000000 ∷ []))
added_again-three_example = added_again-three (pos 0) 1 (2 ∷ 3 ∷ []) cpu_request refl

abbrev sizing : WorkerPoolSizingConfig
sizing = record {
  min_free_cpu = pos 10000;
  min_free_memory = pos 4096;
  min_free_gpu = 0;
  default_worker_cpu = pos 4000;
  default_worker_memory = pos 8192;
  default_worker_gpu_type = "";
  default_worker_gpu_count = 0;
}

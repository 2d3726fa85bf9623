-- ===== src/Scheduler/Filters.antt =====
-- The worker filters of pkg/scheduler/scheduler.go. `GetAllWorkers` hands out fresh structs, so the
-- change of `worker.Priority` in place is a new record in the filtered list.
pub mod Fit
use beta.Base.{
  ℕ, String, Bool, true, false, not, ◌&&◌, ◌||◌, Option, none, some, List, [], ◌∷◌, ltb, str_eq,
  non_empty, if◌then◌else◌, keep_if,
}
use beta.Base.Int.{ℤ, pos, ltb_ℤ, ◌-ℤ◌}
use beta.Base.Machine.{i32}
use beta.Types.{
  WorkerStatus, disabled, available, pending, other_status, Worker, ContainerRequest, requires_gpu,
  gpu_any, all_gpu_types, map_get, index_gpus, gpu_types_to_map, contains,
}

abbrev pub gvisor : String
gvisor = "gvisor"

abbrev pub pool_allows : ContainerRequest → Worker → Bool
pool_allows r w =
    non_empty r.pool_selector && str_eq w.pool_name r.pool_selector
    || not (non_empty r.pool_selector) && not w.requires_pool_selector

unfoldable pub filter_workers_by_pool_selector : List Worker → ContainerRequest → List Worker
filter_workers_by_pool_selector workers r = keep_if (pool_allows r) workers

abbrev pub is_disabled : WorkerStatus → Bool
is_disabled disabled = true
is_disabled _ = false

-- The priorities of the requested GPU types: their places in the request, or in the list of all
-- types where the request names "any".
unfoldable pub gpu_requests_map : ContainerRequest → List (String × ℕ)
gpu_requests_map r =
    if contains r.gpu_request gpu_any
    then gpu_types_to_map all_gpu_types
    else index_gpus 0 r.gpu_request []

-- The GPU branch of the loop body: `none` is `continue`.
unfoldable pub admit_gpu : Option ℕ → Worker → ContainerRequest → Option Worker
admit_gpu none w r = none
admit_gpu (some modifier) w r =
    if ltb w.free_gpu_count r.gpu_count
    then none
    else some (record w { priority = i32 (w.priority -ℤ i32 (pos modifier)) })

-- The body of the loop over the workers.
unfoldable pub admit_resources : ContainerRequest → Worker → Option Worker
unfolding admit_gpu
admit_resources r w =
    if ltb_ℤ w.free_cpu r.cpu || ltb_ℤ w.free_memory r.memory
    then none
    else if is_disabled w.status
    then none
    else if requires_gpu r && not (non_empty w.gpu) || not (requires_gpu r) && non_empty w.gpu
    then none
    else if requires_gpu r
    then admit_gpu (map_get w.gpu (gpu_requests_map r)) w r
    else some w

abbrev pub append_some : Option Worker → List Worker → List Worker
append_some none ws = ws
append_some (some w) ws = w ∷ ws

unfoldable pub filter_workers_by_resources : List Worker → ContainerRequest → List Worker
filter_workers_by_resources [] r = []
filter_workers_by_resources (w ∷ ws) r =
    append_some (admit_resources r w) (filter_workers_by_resources ws r)

abbrev pub flags_allow : ContainerRequest → Worker → Bool
flags_allow r w =
    if not r.preemptable && w.preemptable
    then false
    else if r.docker_enabled && not (str_eq w.runtime gvisor)
    then false
    else true

unfoldable pub filter_workers_by_flags : List Worker → ContainerRequest → List Worker
filter_workers_by_flags workers r = keep_if (flags_allow r) workers

-- The three filters in the order of `selectWorker`.
unfoldable pub filter_workers : List Worker → ContainerRequest → List Worker
filter_workers workers r =
    filter_workers_by_flags
      (filter_workers_by_resources (filter_workers_by_pool_selector workers r) r) r

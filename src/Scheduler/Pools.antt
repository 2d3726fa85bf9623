-- ===== src/Scheduler/Pools.antt =====
-- pkg/scheduler/pool_manager.go, and the choice of pool controllers for a request in
-- pkg/scheduler/scheduler.go. A controller is given by what its methods answer; `state` is the
-- answer of `State()` while a request is handled.
pub mod Offers
pub mod Choice
use beta.Base.{
  ℕ, String, Bool, true, false, not, ◌&&◌, ◌||◌, Option, none, some, List, [], ◌∷◌, ◌++◌, map,
  Permᴰ, All, Result, ok, err, str_eq, non_empty, if◌then◌else◌, lookup, put, keep_if,
}
use beta.Base.Int.{ℤ, pos, ◌≤ℤ◌}
use beta.Types.{ContainerRequest, requires_gpu, gpu_any}
use beta.Scheduler.Filters.{gvisor}

pub data WorkerPoolStatus : Type 0 where
  healthy degraded : WorkerPoolStatus
  other_pool_status : String → WorkerPoolStatus

pub record WorkerPoolController : Type 0 where
  pub name : String
  pub is_preemptable : Bool
  pub requires_pool_selector : Bool
  pub container_runtime : String
  pub state : Result (Unit {0}) WorkerPoolStatus

-- `gpu_type` and `priority` are fields of `Config`.
pub record WorkerPool : Type 0 where
  pub name : String
  pub gpu_type : String
  pub priority : ℤ  -- int32
  pub controller : WorkerPoolController

pub record WorkerPoolManager : Type 0 where
  pub pool_map : List (String × WorkerPool)
  pub failover_enabled : Bool

abbrev pub is_degraded : WorkerPoolStatus → Bool
is_degraded degraded = true
is_degraded _ = false

abbrev pub state_healthy : Result (Unit {0}) WorkerPoolStatus → Bool
state_healthy (err e) = false
state_healthy (ok s) = not (is_degraded s)

unfoldable pub is_pool_healthy : WorkerPoolManager → WorkerPool → Bool
is_pool_healthy m pool = if m.failover_enabled then state_healthy pool.controller.state else true

unfoldable pub get_pool : WorkerPoolManager → String → Option WorkerPool
get_pool m name = lookup name m.pool_map

-- The callback of `Range` in `GetPoolByFilters`: whether the pool is appended.
unfoldable pub matches_filters : WorkerPoolManager → String → WorkerPool → Bool
unfolding is_pool_healthy
matches_filters m gpu_type pool =
    if not (str_eq pool.gpu_type gpu_type) && not (str_eq gpu_type gpu_any)
    then false
    else if str_eq gpu_type gpu_any && not (non_empty pool.gpu_type)
    then false
    else if not (is_pool_healthy m pool)
    then false
    else true

-- The priorities do not increase.
abbrev pub ByPriority : List WorkerPool → Type 0
ByPriority [] = Unit {0}
ByPriority (p ∷ l) = All (λ (q : WorkerPool). q.priority ≤ℤ p.priority) l × ByPriority l

-- What `slices.SortFunc` does with the comparison of `GetPoolByFilters`; it is not stable.
pub record SortFunc : Type 0 where
  pub sort : List WorkerPool → List WorkerPool
  pub sort-perm : (l : List WorkerPool) → Permᴰ l (sort l)
  pub sort-ByPriority : (l : List WorkerPool) → ByPriority (sort l)

abbrev pub pools_of : List (String × WorkerPool) → List WorkerPool
pools_of l = map (λ (e : String × WorkerPool). e.1) l

unfoldable pub get_pool_by_filters : SortFunc → WorkerPoolManager → String → List WorkerPool
unfolding matches_filters
get_pool_by_filters s m gpu_type =
    s.sort (keep_if (matches_filters m gpu_type) (pools_of m.pool_map))

unfoldable pub first_pool : (WorkerPool → Bool) → List WorkerPool → Option WorkerPool
first_pool p [] = none
first_pool p (pool ∷ l) = let later = first_pool p l in if p pool then some pool else later

unfoldable pub get_pool_by_gpu : WorkerPoolManager → String → Option WorkerPool
unfolding first_pool is_pool_healthy
get_pool_by_gpu m gpu_type =
    first_pool
      (λ pool. if not (str_eq pool.gpu_type gpu_type) then false else is_pool_healthy m pool)
      (pools_of m.pool_map)

-- `pool` has the name, the configuration and the controller that are set.
unfoldable pub set_pool : String → WorkerPool → WorkerPoolManager → WorkerPoolManager
set_pool name pool m = record m { pool_map = put name (record pool { name = name }) m.pool_map }

-- Whether the loop of `filterControllersByFlags` keeps a controller.
unfoldable pub controller_allowed : ContainerRequest → WorkerPoolController → Bool
controller_allowed r c =
    if not r.preemptable && c.is_preemptable
    then false
    else if non_empty r.pool_selector && not (str_eq c.name r.pool_selector)
        || not (non_empty r.pool_selector) && c.requires_pool_selector
    then false
    else if r.docker_enabled && not (str_eq c.container_runtime gvisor)
    then false
    else true

unfoldable pub filter_controllers_by_flags :
    List WorkerPoolController → ContainerRequest → List WorkerPoolController
unfolding controller_allowed
filter_controllers_by_flags controllers r = keep_if (controller_allowed r) controllers

abbrev pub controllers_of : List WorkerPool → List WorkerPoolController
controllers_of l = map (λ (p : WorkerPool). p.controller) l

-- The loop over the requested GPU types; "any" ends it.
unfoldable pub gpu_controllers :
    SortFunc → WorkerPoolManager → List String → List WorkerPoolController
unfolding get_pool_by_filters
gpu_controllers s m [] = []
gpu_controllers s m (gpu ∷ gpus) =
    let rest = gpu_controllers s m gpus in
    let here = controllers_of (get_pool_by_filters s m gpu) in
    if str_eq gpu gpu_any then here else here ++ rest

abbrev pub unless_empty : List WorkerPoolController → Result (Unit {0}) (List WorkerPoolController)
unless_empty [] = err tt
unless_empty (c ∷ cs) = ok (c ∷ cs)

abbrev pub selected_pool :
    Option WorkerPool → ContainerRequest → Result (Unit {0}) (List WorkerPoolController)
selected_pool none r = err tt
selected_pool (some p) r = unless_empty (filter_controllers_by_flags (p.controller ∷ []) r)

unfoldable pub get_controllers :
    SortFunc → WorkerPoolManager → ContainerRequest → Result (Unit {0}) (List WorkerPoolController)
unfolding get_pool gpu_controllers get_pool_by_filters filter_controllers_by_flags
get_controllers s m r =
    if non_empty r.pool_selector
    then selected_pool (get_pool m r.pool_selector) r
    else if not (requires_gpu r)
    then unless_empty (filter_controllers_by_flags (controllers_of (get_pool_by_filters s m "")) r)
    else unless_empty (filter_controllers_by_flags (gpu_controllers s m r.gpu_request) r)

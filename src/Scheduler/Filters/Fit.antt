-- ===== src/Scheduler/Filters/Fit.antt =====
-- What the three worker filters let through, worker by worker.
use beta.Base.{
  ℕ, ◌+◌, ◌≤◌, ◌≡◌, ◌∙◌, ap, refl, ◌≢◌, inl, inr, String, Bool, true, false, ◌||◌, Option, none,
  some, List, [], ◌∷◌, arith, if◌then◌else◌, keep_if, All, Bool-cases, Option-cases, Memᴰ,
  str_eq_iff,
}
use beta.Base.Int.{ℤ, pos, ◌-ℤ◌, ◌≤ℤ◌}
use beta.Base.Machine.{i32}
use beta.Types.{
  Worker, ContainerRequest, disabled, requires_gpu, gpu_any, all_gpu_types, map_get, index_gpus,
  gpu_types_to_map, contains,
}
use beta.Scheduler.Filters.{
  gvisor, pool_allows, flags_allow, admit_gpu, admit_resources, gpu_requests_map, append_some,
  filter_workers_by_pool_selector, filter_workers_by_resources, filter_workers_by_flags,
  filter_workers,
}

abbrev pub is_some {ℓ} : {A : Type ℓ} → Option A → Bool
is_some none = false
is_some (some a) = true

-- The GPU types that the request can run on.
abbrev pub allowed_gpus : ContainerRequest → List String
allowed_gpus r = if contains r.gpu_request gpu_any then all_gpu_types else r.gpu_request

-- A worker on which the request may run.
pub record Fits (r : ContainerRequest) (w : Worker) : Type 0 where
  pub enough_cpu : r.cpu ≤ℤ w.free_cpu
  pub enough_memory : r.memory ≤ℤ w.free_memory
  pub not_cordoned : w.status ≢ disabled
  pub pool : r.pool_selector ≢ "" → w.pool_name ≡ r.pool_selector
  pub no_pool : r.pool_selector ≡ "" → w.requires_pool_selector ≡ false
  pub cpu_only : requires_gpu r ≡ false → w.gpu ≡ ""
  pub has_gpu : requires_gpu r ≡ true → w.gpu ≢ ""
  pub gpu_type : requires_gpu r ≡ true → contains (allowed_gpus r) w.gpu ≡ true
  pub enough_gpus : requires_gpu r ≡ true → r.gpu_count ≤ w.free_gpu_count
  pub preemption : w.preemptable ≡ true → r.preemptable ≡ true
  pub docker : r.docker_enabled ≡ true → w.runtime ≡ gvisor

or_false : (b : Bool) → (b || false) ≡ b
or_false b = ground arith

map_get-index_gpus :
    (k : String) (i : ℕ) (gs : List String) (m : List (String × ℕ))
    → is_some (map_get k (index_gpus i gs m)) ≡ (contains gs k || is_some (map_get k m))
unfolding map_get index_gpus contains
map_get-index_gpus k i [] m = refl
map_get-index_gpus k i (g ∷ gs) m = ground (arith, map_get-index_gpus k (i + 1) gs ((g, i) ∷ m))

-- A type has a priority exactly if the request can run on it.
pub gpu_requests_map-allowed :
    (r : ContainerRequest) (g : String)
    → is_some (map_get g (gpu_requests_map r)) ≡ contains (allowed_gpus r) g
unfolding gpu_requests_map gpu_types_to_map map_get
gpu_requests_map-allowed r g = elim (Bool-cases (contains r.gpu_request gpu_any)) [
  | inl any ↦ rw any (map_get-index_gpus g 0 all_gpu_types [] ∙ or_false _)
  | inr named ↦ rw named (map_get-index_gpus g 0 r.gpu_request [] ∙ or_false _)
]

-- The bodies of the three loops for one worker.
pub gate : (Worker → Bool) → Option Worker → Option Worker
gate q none = none
gate q (some w) = if q w then some w else none

pub admit : ContainerRequest → Worker → Option Worker
admit r w = if pool_allows r w then gate (flags_allow r) (admit_resources r w) else none

-- The filters keep a worker only if the request may run on it.
pub admit-Fits : (r : ContainerRequest) (w : Worker) {w' : Worker} → admit r w ≡ some w' → Fits r w
unfolding admit gate admit_resources admit_gpu
admit-Fits r w h = ground (
  arith,
  str_eq_iff w.pool_name r.pool_selector,
  str_eq_iff r.pool_selector "",
  str_eq_iff w.gpu "",
  str_eq_iff w.runtime gvisor,
  gpu_requests_map-allowed r w.gpu,
)

abbrev lowered_priority : ContainerRequest → Worker → Option ℕ → ℤ
lowered_priority r w none = w.priority
lowered_priority r w (some place) =
    if requires_gpu r then i32 (w.priority -ℤ i32 (pos place)) else w.priority

-- The worker with the priority that a GPU request leaves it.
pub lowered : ContainerRequest → Worker → Worker
lowered r w = record w { priority = lowered_priority r w (map_get w.gpu (gpu_requests_map r)) }

-- A worker on which the request may run passes, with the place of its GPU type taken off.
pub Fits-admit : (r : ContainerRequest) (w : Worker) → Fits r w → admit r w ≡ some (lowered r w)
unfolding admit gate admit_resources admit_gpu lowered
Fits-admit r w h = ground (
  arith,
  str_eq_iff w.pool_name r.pool_selector,
  str_eq_iff r.pool_selector "",
  str_eq_iff w.gpu "",
  str_eq_iff w.runtime gvisor,
  gpu_requests_map-allowed r w.gpu,
)

-- The three loops are one.
pub collect : (Worker → Option Worker) → List Worker → List Worker
collect f [] = []
collect f (w ∷ ws) = append_some (f w) (collect f ws)

filter_workers_by_resources-collect :
    (ws : List Worker) (r : ContainerRequest)
    → filter_workers_by_resources ws r ≡ collect (admit_resources r) ws
unfolding filter_workers_by_resources collect
filter_workers_by_resources-collect [] r = refl
filter_workers_by_resources-collect (w ∷ ws) r =
    ap (append_some (admit_resources r w)) (filter_workers_by_resources-collect ws r)

keep_if-append_some :
    (q : Worker → Bool) (o : Option Worker) (ws : List Worker)
    → keep_if q (append_some o ws) ≡ append_some (gate q o) (keep_if q ws)
unfolding keep_if gate
keep_if-append_some q none ws = refl
keep_if-append_some q (some w) ws = ground arith

keep_if-collect :
    (p q : Worker → Bool) (f : Worker → Option Worker) (ws : List Worker)
    → keep_if q (collect f (keep_if p ws)) ≡ collect (λ w. if p w then gate q (f w) else none) ws
unfolding keep_if collect
keep_if-collect p q f [] = refl
keep_if-collect p q f (w ∷ ws) = elim (Bool-cases (p w)) [
  | inl passes ↦ rw (passes) (
      keep_if-append_some q (f w) (collect f (keep_if p ws))
      ∙ ap (append_some (gate q (f w))) (keep_if-collect p q f ws))
  | inr fails ↦ rw fails (keep_if-collect p q f ws)
]

pub filter_workers-collect :
    (ws : List Worker) (r : ContainerRequest) → filter_workers ws r ≡ collect (admit r) ws
unfolding filter_workers filter_workers_by_pool_selector filter_workers_by_flags admit
filter_workers-collect ws r =
    rw (filter_workers_by_resources-collect (keep_if (pool_allows r) ws) r)
      (keep_if-collect (pool_allows r) (flags_allow r) (admit_resources r) ws)

-- `w'` is a worker of the list, on which the request may run, with its priority lowered.
abbrev pub Kept : ContainerRequest → List Worker → Worker → Type 0
Kept r ws w' = (w : Worker) × Memᴰ w ws × Fits r w × (w' ≡ lowered r w)

All-Kept :
    (r : ContainerRequest) (ws all : List Worker)
    → ((w : Worker) → Memᴰ w ws → Memᴰ w all)
    → All (Kept r all) (collect (admit r) ws)
unfolding collect
All-Kept r [] all sub = tt
All-Kept r (w ∷ ws) all sub =
    let rest = All-Kept r ws all (λ x m. sub x (Memᴰ.tail m)) in
    elim (Option-cases (admit r w)) [
      | inl e ↦ rw e rest
      | inr (w', e) ↦
          let fits = admit-Fits r w e in
          rw e ((w, sub w (Memᴰ.head refl), fits, cc (Fits-admit r w fits)), rest)
    ]

mem-append_some :
    {w : Worker} {ws : List Worker} (o : Option Worker) → Memᴰ w ws → Memᴰ w (append_some o ws)
mem-append_some none m = m
mem-append_some (some x) m = Memᴰ.tail m

mem-collect :
    (r : ContainerRequest) (ws : List Worker) (w : Worker)
    → Memᴰ w ws
    → Fits r w
    → Memᴰ (lowered r w) (collect (admit r) ws)
unfolding collect
mem-collect r [] w m fits = elim m [ ]
mem-collect r (x ∷ ws) w (Memᴰ.head e) fits = rw (← e) (rw (Fits-admit r w fits) (Memᴰ.head refl))
mem-collect r (x ∷ ws) w (Memᴰ.tail m) fits =
    mem-append_some (admit r x) (mem-collect r ws w m fits)

-- The filtered list holds workers of the list only, each fit for the request.
pub filter_workers-Kept :
    (ws : List Worker) (r : ContainerRequest) → All (Kept r ws) (filter_workers ws r)
filter_workers-Kept ws r = rw (filter_workers-collect ws r) (All-Kept r ws ws (λ w m. m))

-- It holds every worker that is fit for the request.
pub mem-filter_workers :
    (ws : List Worker) (r : ContainerRequest) (w : Worker)
    → Memᴰ w ws
    → Fits r w
    → Memᴰ (lowered r w) (filter_workers ws r)
mem-filter_workers ws r w m fits = rw (filter_workers-collect ws r) (mem-collect r ws w m fits)

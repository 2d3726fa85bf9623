-- ===== src/Scheduler/Pools/Offers.antt =====
-- Which pool controllers a request is offered to.
use mathlib.Core.List.{Memᴰ}
use mathlib.Core.List.Memᴰ
use beta.Base.{
  ◌≡◌, ◌≢◌, refl, subst, ◌⊎◌, inl, inr, String, true, false, List, [], ◌∷◌, ◌++◌, Result, ok, err,
  arith, str_eq, str_eq_iff, if◌then◌else◌, Bool-cases,
}
use beta.Base.Members.{mem-perm, mem-perm_back, mem-keep_if, keep_if-mem}
use beta.Types.{ContainerRequest, gpu_any}
use beta.Scheduler.Filters.{gvisor}
use beta.Scheduler.Pools.{
  WorkerPoolController, WorkerPool, WorkerPoolManager, WorkerPoolStatus, degraded, is_pool_healthy,
  state_healthy, matches_filters, SortFunc, pools_of, get_pool_by_filters, controller_allowed,
  controllers_of, gpu_controllers,
}

-- A controller that the request may use.
pub record MayUse (r : ContainerRequest) (c : WorkerPoolController) : Type 0 where
  pub preemption : c.is_preemptable ≡ true → r.preemptable ≡ true
  pub pool : r.pool_selector ≢ "" → c.name ≡ r.pool_selector
  pub no_pool : r.pool_selector ≡ "" → c.requires_pool_selector ≡ false
  pub docker : r.docker_enabled ≡ true → c.container_runtime ≡ gvisor

-- With failover, a pool whose state is unknown or degraded is passed over.
abbrev pub IsHealthy : WorkerPoolManager → WorkerPool → Type 0
IsHealthy m p =
    m.failover_enabled ≡ true
    → (s : WorkerPoolStatus) × (p.controller.state ≡ ok s) × (s ≢ degraded)

-- One of the requested types is the pool's; "any" stands for every type but none, and ends the list.
pub data Requested (t : String) : List String → Type 0 where
  named : {g : String} {gs : List String} → g ≢ gpu_any → t ≡ g → Requested t (g ∷ gs)
  any : {g : String} {gs : List String} → g ≡ gpu_any → t ≢ "" → Requested t (g ∷ gs)
  later : {g : String} {gs : List String} → g ≢ gpu_any → Requested t gs → Requested t (g ∷ gs)

pub controller_allowed-MayUse :
    (r : ContainerRequest) (c : WorkerPoolController) → controller_allowed r c ≡ true → MayUse r c
unfolding controller_allowed
controller_allowed-MayUse r c h = ground (
  arith,
  str_eq_iff r.pool_selector "",
  str_eq_iff c.name r.pool_selector,
  str_eq_iff c.container_runtime gvisor,
)

pub MayUse-controller_allowed :
    (r : ContainerRequest) (c : WorkerPoolController) → MayUse r c → controller_allowed r c ≡ true
unfolding controller_allowed
MayUse-controller_allowed r c h = ground (
  arith,
  h.preemption,
  h.pool,
  h.no_pool,
  h.docker,
  str_eq_iff r.pool_selector "",
  str_eq_iff c.name r.pool_selector,
  str_eq_iff c.container_runtime gvisor,
)

is_pool_healthy-IsHealthy :
    (m : WorkerPoolManager) (p : WorkerPool) → is_pool_healthy m p ≡ true → IsHealthy m p
unfolding is_pool_healthy
is_pool_healthy-IsHealthy m p h f = step p.controller.state (ground arith)
  where
    step :
        (s : Result (Unit {0}) WorkerPoolStatus)
        → state_healthy s ≡ true
        → (t : WorkerPoolStatus) × (s ≡ ok t) × (t ≢ degraded)
    step (err e) h = cc
    step (ok s) h = (s, refl, λ e. ground arith)

IsHealthy-is_pool_healthy :
    (m : WorkerPoolManager) (p : WorkerPool) → IsHealthy m p → is_pool_healthy m p ≡ true
unfolding is_pool_healthy
IsHealthy-is_pool_healthy m p h = elim (Bool-cases m.failover_enabled) [
  | inl on ↦ let (s, e, ne) = h on in ground arith
  | inr off ↦ ground arith
]

-- A healthy pool of the manager with the controller, whose type is as wanted.
pub record Supplied (m : WorkerPoolManager) (wanted : String → Type 0) (c : WorkerPoolController)
    : Type 0 where
  pub pool : WorkerPool
  pub member : Memᴰ pool (pools_of m.pool_map)
  pub healthy : IsHealthy m pool
  pub type_wanted : wanted pool.gpu_type
  pub controls : pool.controller ≡ c

-- The filter for one GPU type.
abbrev pub Matches : String → String → Type 0
Matches g t = ((g ≢ gpu_any) × (t ≡ g)) ⊎ ((g ≡ gpu_any) × (t ≢ ""))

matches_filters-Matches :
    (m : WorkerPoolManager) (g : String) (p : WorkerPool)
    → matches_filters m g p ≡ true
    → (is_pool_healthy m p ≡ true) × Matches g p.gpu_type
unfolding matches_filters
matches_filters-Matches m g p h =
    ground (arith, str_eq_iff p.gpu_type g, str_eq_iff g gpu_any, str_eq_iff p.gpu_type "")

Matches-matches_filters :
    (m : WorkerPoolManager) (g : String) (p : WorkerPool)
    → is_pool_healthy m p ≡ true
    → Matches g p.gpu_type
    → matches_filters m g p ≡ true
unfolding matches_filters
Matches-matches_filters m g p h k =
    ground (arith, str_eq_iff p.gpu_type g, str_eq_iff g gpu_any, str_eq_iff p.gpu_type "")

str_ne : (s t : String) → s ≢ t → str_eq s t ≡ false
str_ne s t ne = ground (arith, str_eq_iff s t)

module _ (s : SortFunc) (m : WorkerPoolManager) where
  pub filtered-Supplied :
      (g : String) (c : WorkerPoolController)
      → Memᴰ c (controllers_of (get_pool_by_filters s m g))
      → Supplied m (Matches g) c
  unfolding get_pool_by_filters
  filtered-Supplied g c h =
      let (p, listed, e) = Memᴰ.of_map (λ (q : WorkerPool). q.controller) _ h in
      let (member, matching) =
        mem-keep_if (matches_filters m g) _ (mem-perm_back (s.sort-perm _) listed) in
      let (healthy, type_wanted) = matches_filters-Matches m g p matching in
      record {
        pool = p;
        member = member;
        healthy = is_pool_healthy-IsHealthy m p healthy;
        type_wanted = type_wanted;
        controls = e;
      }

  pub Supplied-filtered :
      (g : String) (c : WorkerPoolController)
      → Supplied m (Matches g) c
      → Memᴰ c (controllers_of (get_pool_by_filters s m g))
  unfolding get_pool_by_filters
  Supplied-filtered g c h = rw (← h.controls) (
      Memᴰ.map (λ (q : WorkerPool). q.controller)
        (mem-perm (s.sort-perm _) (
          keep_if-mem (matches_filters m g) _ h.member (
            Matches-matches_filters m g h.pool (IsHealthy-is_pool_healthy m h.pool h.healthy)
              h.type_wanted))))

  pub Supplied-map :
      {P Q : String → Type 0} {c : WorkerPoolController}
      → ((t : String) → P t → Q t)
      → Supplied m P c
      → Supplied m Q c
  Supplied-map f h = record {
    pool = h.pool;
    member = h.member;
    healthy = h.healthy;
    type_wanted = f h.pool.gpu_type h.type_wanted;
    controls = h.controls;
  }

  Matches-Requested :
      (g : String) (gs : List String) (t : String) → Matches g t → Requested t (g ∷ gs)
  Matches-Requested g gs t (inl (ne, e)) = named ne e
  Matches-Requested g gs t (inr (e, ne)) = any e ne

  pub gpu_controllers-Supplied :
      (gs : List String) (c : WorkerPoolController)
      → Memᴰ c (gpu_controllers s m gs)
      → Supplied m (λ t. Requested t gs) c
  unfolding gpu_controllers
  gpu_controllers-Supplied [] c h = elim h [ ]
  gpu_controllers-Supplied (g ∷ gs) c h = elim (Bool-cases (str_eq g gpu_any)) [
    | inl last ↦ Supplied-map (Matches-Requested g gs) (
        filtered-Supplied g c (
          subst
            (λ b. Memᴰ c (
              if b
              then controllers_of (get_pool_by_filters s m g)
              else controllers_of (get_pool_by_filters s m g) ++ gpu_controllers s m gs))
            last h))
    | inr more ↦
        elim (Memᴰ.append_cases (controllers_of (get_pool_by_filters s m g)) (
          subst
            (λ b. Memᴰ c (
              if b
              then controllers_of (get_pool_by_filters s m g)
              else controllers_of (get_pool_by_filters s m g) ++ gpu_controllers s m gs))
            more h)) [
              | inl here ↦ Supplied-map (Matches-Requested g gs) (filtered-Supplied g c here)
              | inr below ↦
                  Supplied-map (λ t. later (ground (arith, str_eq_iff g gpu_any)))
                    (gpu_controllers-Supplied gs c below)
            ]
  ]

  pub Supplied-gpu_controllers :
      (gs : List String) (c : WorkerPoolController)
      → Supplied m (λ t. Requested t gs) c
      → Memᴰ c (gpu_controllers s m gs)
  unfolding gpu_controllers
  Supplied-gpu_controllers gs c h = go gs h.type_wanted
    where
      from :
          (g : String)
          → Matches g h.pool.gpu_type
          → Memᴰ c (controllers_of (get_pool_by_filters s m g))
      from g k = Supplied-filtered g c (record {
        pool = h.pool;
        member = h.member;
        healthy = h.healthy;
        type_wanted = k;
        controls = h.controls;
      })

      go : (gs : List String) → Requested h.pool.gpu_type gs → Memᴰ c (gpu_controllers s m gs)
      go [] k = elim k [ ]
      go (g ∷ gs) (named ne e) =
          rw (str_ne g gpu_any ne) (Memᴰ.append_left _ (from g (inl (ne, e))))
      go (g ∷ gs) (any e ne) = rw ((str_eq_iff g gpu_any).1 e) (from g (inr (e, ne)))
      go (g ∷ gs) (later ne k) =
          rw (str_ne g gpu_any ne)
            (Memᴰ.append_right (controllers_of (get_pool_by_filters s m g)) (go gs k))

-- ===== src/Scheduler/Pools/Choice.antt =====
-- The answer of `getControllers`: exactly the controllers that the request is offered to.
use beta.Base.{
  Option, none, some, ◌≡◌, ◌≢◌, refl, sym, ◌⊎◌, inl, inr, ◌↔◌, String, true, false, List, [], ◌∷◌,
  Memᴰ, Result, ok, err, arith, str_eq_iff, non_empty, lookup, keep_if, Bool-cases,
}
use beta.Base.Members.{mem-keep_if, keep_if-mem}
use beta.Types.{ContainerRequest, requires_gpu, gpu_any}
use beta.Scheduler.Pools.{
  selected_pool, WorkerPoolController, WorkerPool, WorkerPoolManager, SortFunc, get_pool,
  get_pool_by_filters, controller_allowed, filter_controllers_by_flags, controllers_of,
  gpu_controllers, unless_empty, get_controllers,
}
use beta.Scheduler.Pools.Offers.{
  MayUse, Requested, Supplied, Matches, controller_allowed-MayUse, MayUse-controller_allowed,
  filtered-Supplied, Supplied-filtered, Supplied-map, gpu_controllers-Supplied,
  Supplied-gpu_controllers,
}

-- The GPU type of a pool that the request can run in.
abbrev pub Wanted : ContainerRequest → String → Type 0
Wanted r t =
    ((requires_gpu r ≡ false) × (t ≡ "")) ⊎ ((requires_gpu r ≡ true) × Requested t r.gpu_request)

-- The pool that the request selects, or, where it selects none, a healthy pool of a wanted type.
abbrev pub Sourced : WorkerPoolManager → ContainerRequest → WorkerPoolController → Type 0
Sourced m r c =
    ((r.pool_selector ≢ "")
      × (p : WorkerPool) × (lookup r.pool_selector m.pool_map ≡ some p)
      × (p.controller ≡ c))
    ⊎ ((r.pool_selector ≡ "") × Supplied m (Wanted r) c)

pub record Offered (m : WorkerPoolManager) (r : ContainerRequest) (c : WorkerPoolController)
    : Type 0 where
  pub may_use : MayUse r c
  pub sourced : Sourced m r c

abbrev pub Answered :
    (WorkerPoolController → Type 0) → Result (Unit {0}) (List WorkerPoolController) → Type 0
Answered P answer =
    ((answer ≡ err tt) × ((c : WorkerPoolController) → ¬ P c))
    ⊎ ((cs : List WorkerPoolController) × (answer ≡ ok cs)
        × (cs ≢ [])
        × ((c : WorkerPoolController) → Memᴰ c cs ↔ P c))

-- A list with the sourced controllers, filtered by the flags.
filtered-Answered :
    (m : WorkerPoolManager) (r : ContainerRequest) (cs : List WorkerPoolController)
    → ((c : WorkerPoolController) → Memᴰ c cs → Sourced m r c)
    → ((c : WorkerPoolController) → Sourced m r c → Memᴰ c cs)
    → Answered (Offered m r) (unless_empty (filter_controllers_by_flags cs r))
unfolding filter_controllers_by_flags
filtered-Answered m r cs sound complete = go (keep_if (controller_allowed r) cs) into back
  where
    into : (c : WorkerPoolController) → Memᴰ c (keep_if (controller_allowed r) cs) → Offered m r c
    into c k =
        let (listed, allowed) = mem-keep_if (controller_allowed r) cs k in
        record { may_use = controller_allowed-MayUse r c allowed; sourced = sound c listed }

    back : (c : WorkerPoolController) → Offered m r c → Memᴰ c (keep_if (controller_allowed r) cs)
    back c h =
        keep_if-mem (controller_allowed r) cs (complete c h.sourced)
          (MayUse-controller_allowed r c h.may_use)

    go :
        (l : List WorkerPoolController)
        → ((c : WorkerPoolController) → Memᴰ c l → Offered m r c)
        → ((c : WorkerPoolController) → Offered m r c → Memᴰ c l)
        → Answered (Offered m r) (unless_empty l)
    go [] f g = inl (refl, λ c h. elim (g c h) [ ])
    go (x ∷ l) f g = inr (x ∷ l, refl, (λ e. cc e), λ c. (f c, g c))

module _ (m : WorkerPoolManager) (r : ContainerRequest) where
  only : (p : WorkerPool) (c : WorkerPoolController) → Memᴰ c (p.controller ∷ []) → c ≡ p.controller
  only p c (Memᴰ.head e) = e
  only p c (Memᴰ.tail k) = elim k [ ]

  selected-Answered :
      r.pool_selector ≢ ""
      → (o : Option WorkerPool) → lookup r.pool_selector m.pool_map ≡ o
      → Answered (Offered m r) (selected_pool o r)
  selected-Answered named none missing = inl (
    refl,
    λ c h. elim h.sourced [
      | inl (ne, p, found, e) ↦ cc (found, missing)
      | inr (e, q) ↦ absurd (named e)
    ],
  )
  selected-Answered named (some p) found =
      filtered-Answered m r (p.controller ∷ []) (λ c k. inl (named, p, found, sym (only p c k)))
        (λ c k. elim k [
          | inl (ne, q, other, e) ↦ Memᴰ.head (cc (found, other, e))
          | inr (e, q) ↦ absurd (named e)
        ])

  -- Without a selector the sourced controllers are those of the wanted pools.
  unselected-Answered :
      r.pool_selector ≡ ""
      → (cs : List WorkerPoolController)
      → ((c : WorkerPoolController) → Memᴰ c cs → Supplied m (Wanted r) c)
      → ((c : WorkerPoolController) → Supplied m (Wanted r) c → Memᴰ c cs)
      → Answered (Offered m r) (unless_empty (filter_controllers_by_flags cs r))
  unselected-Answered empty cs sound complete =
      filtered-Answered m r cs (λ c k. inr (empty, sound c k))
        (λ c k. elim k [ inl (ne, p, found, e) ↦ absurd (ne empty) | inr (e, q) ↦ complete c q ])

  Wanted-Requested : requires_gpu r ≡ true → (t : String) → Wanted r t → Requested t r.gpu_request
  Wanted-Requested gpu t (inl (e, q)) = cc (e, gpu)
  Wanted-Requested gpu t (inr (e, q)) = q

  Wanted-Matches : requires_gpu r ≡ false → (t : String) → Wanted r t → Matches "" t
  Wanted-Matches cpu t (inl (e, q)) = inl (λ h. cc h, q)
  Wanted-Matches cpu t (inr (e, q)) = cc (e, cpu)

  Matches-Wanted : requires_gpu r ≡ false → (t : String) → Matches "" t → Wanted r t
  Matches-Wanted cpu t q = inl (cpu, ground (arith, str_eq_iff gpu_any ""))

-- `getControllers` answers an error exactly if no controller is offered the request; else its list
-- is not empty and holds exactly those controllers: of the selected pool, or without a selector of
-- each pool, healthy where failover is on, with a wanted GPU type, that the flags of the request
-- allow. A request with a GPU but no list of GPU types is offered to none.
pub get_controllers-Offered :
    (s : SortFunc) (m : WorkerPoolManager) (r : ContainerRequest)
    → Answered (Offered m r) (get_controllers s m r)
unfolding get_controllers get_pool
get_controllers-Offered s m r = elim (Bool-cases (non_empty r.pool_selector)) [
  | inl selected ↦
      rw selected (selected-Answered m r (ground (arith, str_eq_iff r.pool_selector "")) _ refl)
  | inr unselected ↦
      let empty : r.pool_selector ≡ "" = ground (arith, str_eq_iff r.pool_selector "") in
      rw unselected (elim (Bool-cases (requires_gpu r)) [
        | inl gpu ↦ rw gpu (
            unselected-Answered m r empty (gpu_controllers s m r.gpu_request)
              (λ c k.
                Supplied-map s m (λ t q. inr (gpu, q))
                  (gpu_controllers-Supplied s m r.gpu_request c k))
              (λ c k.
                Supplied-gpu_controllers s m r.gpu_request c
                  (Supplied-map s m (Wanted-Requested m r gpu) k)))
        | inr cpu ↦ rw cpu (
            unselected-Answered m r empty (controllers_of (get_pool_by_filters s m ""))
              (λ c k. Supplied-map s m (Matches-Wanted m r cpu) (filtered-Supplied s m "" c k))
              (λ c k. Supplied-filtered s m "" c (Supplied-map s m (Wanted-Matches m r cpu) k)))
      ])
]

-- ===== src/Scheduler/Select/Best.antt =====
-- The worker that `selectWorker` returns is the best of those that fit.
use beta.Base.{
  ◌≡◌, refl, sym, ◌⊎◌, inl, inr, List, [], ◌∷◌, map, Memᴰ, All, Permᴰ, Result, ok, err, arith,
  subst,
}
use beta.Base.Int.{◌≤ℤ◌}
use beta.Types.{Worker, ContainerRequest}
use beta.Scheduler.Filters.{filter_workers}
use beta.Scheduler.Filters.Fit.{Fits, Kept, lowered, filter_workers-Kept, mem-filter_workers}
use beta.Scheduler.Select.{
  ScoredWorker, SortSlice, Descending, SelectError, no_suitable_worker, score_worker, scored,
  first_worker, pick, select_worker,
}

All-perm {ℓ κ} : {A : Type ℓ} (P : A → Type κ) {xs ys : List A} → Permᴰ xs ys → All P xs → All P ys
All-perm P Permᴰ.nil h = tt
All-perm P (Permᴰ.cons e p) h = (subst P e h.0, All-perm P p h.1)
All-perm P (Permᴰ.swap e f) h = (subst P f h.1.0, (subst P e h.0, h.1.1))
All-perm P (Permᴰ.trans p q) h = All-perm P q (All-perm P p h)

All-perm_back {ℓ κ} :
    {A : Type ℓ} (P : A → Type κ) {xs ys : List A} → Permᴰ xs ys → All P ys → All P xs
All-perm_back P Permᴰ.nil h = tt
All-perm_back P (Permᴰ.cons e p) h = (subst P (sym e) h.0, All-perm_back P p h.1)
All-perm_back P (Permᴰ.swap e f) h = (subst P (sym e) h.1.0, (subst P (sym f) h.0, h.1.1))
All-perm_back P (Permᴰ.trans p q) h = All-perm_back P p (All-perm_back P q h)

All-scored {κ} :
    (P : Worker → Type κ) (ws : List Worker)
    → All P ws
    → All (λ (s : ScoredWorker). P s.worker × (s.score ≡ score_worker s.worker)) (map scored ws)
All-scored P [] h = tt
All-scored P (w ∷ ws) h = ((h.0, refl), All-scored P ws h.1)

All-map_scored {κ} :
    (P : ScoredWorker → Type κ) (w : Worker) (ws : List Worker)
    → All P (map scored ws)
    → Memᴰ w ws
    → P (scored w)
All-map_scored P w [] h m = elim m [ ]
All-map_scored P w (x ∷ ws) h (Memᴰ.head e) = subst (λ y. P (scored y)) (sym e) h.0
All-map_scored P w (x ∷ ws) h (Memᴰ.tail m) = All-map_scored P w ws h.1 m

-- `w` is one of the kept workers, and scores at least as high as each.
record IsBest (kept : List Worker) (P : Worker → Type 0) (w : Worker) : Type 0 where
  holds : P w
  highest : (x : Worker) → Memᴰ x kept → score_worker x ≤ℤ score_worker w

-- An empty list is refused by `pick`; of any other the first sorted entry is returned.
abbrev Picked : List Worker → (Worker → Type 0) → Result SelectError Worker → Type 0
Picked kept P r =
    ((kept ≡ []) × (r ≡ err no_suitable_worker)) ⊎ ((w : Worker) × (r ≡ ok w) × IsBest kept P w)

first_worker-IsBest :
    (P : Worker → Type 0) (k : Worker) (ks : List Worker) (sorted : List ScoredWorker)
    → Permᴰ (map scored (k ∷ ks)) sorted
    → Descending sorted
    → All P (k ∷ ks)
    → (w : Worker) × (first_worker sorted ≡ ok w) × IsBest (k ∷ ks) P w
first_worker-IsBest P k ks [] p d h = absurd (All-perm_back (λ _. ⊥) p tt).0
first_worker-IsBest P k ks (s ∷ l) p d h =
    let (kept, score) = (All-perm _ p (All-scored P (k ∷ ks) h)).0 in
    (
      s.worker,
      refl,
      record {
        holds = kept;
        highest = λ x m. rw (← score) (
            All-map_scored (λ t. t.score ≤ℤ s.score) x (k ∷ ks)
              (All-perm_back (λ t. t.score ≤ℤ s.score) p (omega arith, d.0)) m);
      },
    )

pick-Picked :
    (s : SortSlice) (P : Worker → Type 0) (ws : List Worker) → All P ws → Picked ws P (pick s ws)
pick-Picked s P [] h = inl (refl, refl)
pick-Picked s P (w ∷ ws) h =
    inr (first_worker-IsBest P w ws _ (s.sort-perm _) (s.sort-Descending _) h)

-- What `selectWorker` answers when the workers could be listed.
abbrev pub Selected : ContainerRequest → List Worker → Result SelectError Worker → Type 0
Selected r ws answer =
    ((answer ≡ err no_suitable_worker) × ((w : Worker) → Memᴰ w ws → ¬ Fits r w))
    ⊎ ((w' : Worker) × (answer ≡ ok w')
        × Kept r ws w'
        × ((w : Worker) → Memᴰ w ws → Fits r w → score_worker (lowered r w) ≤ℤ score_worker w'))

not-mem-nil : {A : Type 0} {a : A} {xs : List A} → xs ≡ [] → Memᴰ a xs → ⊥
not-mem-nil {a = a} e m = elim (subst (Memᴰ a) e m) [ ]

-- For every way in which the unstable sort may order equal scores, `selectWorker` answers "no
-- suitable worker" exactly if the request fits no listed worker; else it returns a listed worker on
-- which the request fits (only its priority is lowered by the place of its GPU type), and no worker
-- on which the request fits has a higher score. The index of the first entry is never out of range.
pub select_worker-Selected :
    (s : SortSlice) (r : ContainerRequest) (ws : List Worker)
    → Selected r ws (select_worker s (ok ws) r)
unfolding select_worker
select_worker-Selected s r ws =
    elim (pick-Picked s (Kept r ws) (filter_workers ws r) (filter_workers-Kept ws r)) [
      | inl (empty, e) ↦ inl (e, λ w m fits. not-mem-nil empty (mem-filter_workers ws r w m fits))
      | inr (w', e, best) ↦ inr (
        w',
        e,
        best.holds,
        λ w m fits. best.highest (lowered r w) (mem-filter_workers ws r w m fits),
      )
    ]

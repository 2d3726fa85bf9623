-- ===== src/Examples/Sorting.antt =====
-- An insertion sort, the highest key first, for the sorts that the scheduler calls.
use beta.Base.{refl, List, [], ◌∷◌, Permᴰ, All, arith, inl, inr, if◌then◌else◌, Bool-cases}
use beta.Base.Int.{ℤ, ltb_ℤ, ◌≤ℤ◌}
use beta.Scheduler.Select.{ScoredWorker, Descending, SortSlice}
use beta.Scheduler.Pools.{WorkerPool, ByPriority, SortFunc}

module _ {A : Type 0} (key : A → ℤ) where
  place : A → List A → List A
  place s [] = s ∷ []
  place s (t ∷ l) = if ltb_ℤ (key s) (key t) then t ∷ place s l else s ∷ t ∷ l

  insertion_sort : List A → List A
  insertion_sort [] = []
  insertion_sort (s ∷ l) = place s (insertion_sort l)

  abbrev Falling : List A → Type 0
  Falling [] = Unit {0}
  Falling (s ∷ l) = All (λ t. key t ≤ℤ key s) l × Falling l

  perm_refl : (l : List A) → Permᴰ l l
  perm_refl [] = Permᴰ.nil
  perm_refl (s ∷ l) = Permᴰ.cons refl (perm_refl l)

  place-perm : (s : A) (l : List A) → Permᴰ (s ∷ l) (place s l)
  unfolding place
  place-perm s [] = Permᴰ.cons refl Permᴰ.nil
  place-perm s (t ∷ l) = elim (Bool-cases (ltb_ℤ (key s) (key t))) [
    | inl lower ↦ rw lower (Permᴰ.trans (Permᴰ.swap refl refl) (Permᴰ.cons refl (place-perm s l)))
    | inr not_lower ↦ rw not_lower (perm_refl (s ∷ t ∷ l))
  ]

  insertion_sort-perm : (l : List A) → Permᴰ l (insertion_sort l)
  unfolding insertion_sort
  insertion_sort-perm [] = Permᴰ.nil
  insertion_sort-perm (s ∷ l) =
      Permᴰ.trans (Permᴰ.cons refl (insertion_sort-perm l)) (place-perm s (insertion_sort l))

  place-All :
      (bound s : A) (l : List A)
      → key s ≤ℤ key bound
      → All (λ t. key t ≤ℤ key bound) l
      → All (λ t. key t ≤ℤ key bound) (place s l)
  unfolding place
  place-All bound s [] h a = (h, tt)
  place-All bound s (t ∷ l) h a = elim (Bool-cases (ltb_ℤ (key s) (key t))) [
    | inl lower ↦ rw lower (a.0, place-All bound s l h a.1)
    | inr not_lower ↦ rw not_lower (h, a)
  ]

  All-le :
      (low high : A) (l : List A)
      → key low ≤ℤ key high
      → All (λ t. key t ≤ℤ key low) l
      → All (λ t. key t ≤ℤ key high) l
  All-le low high [] h a = tt
  All-le low high (t ∷ l) h a = (omega arith, All-le low high l h a.1)

  place-Falling : (s : A) (l : List A) → Falling l → Falling (place s l)
  unfolding place
  place-Falling s [] d = (tt, tt)
  place-Falling s (t ∷ l) d = elim (Bool-cases (ltb_ℤ (key s) (key t))) [
    | inl lower ↦ rw lower (place-All t s l (ground arith) d.0, place-Falling s l d.1)
    | inr not_lower ↦
        let above : key t ≤ℤ key s = ground arith in
        rw not_lower ((above, All-le t s l above d.0), (d.0, d.1))
  ]

  insertion_sort-Falling : (l : List A) → Falling (insertion_sort l)
  unfolding insertion_sort
  insertion_sort-Falling [] = tt
  insertion_sort-Falling (s ∷ l) = place-Falling s (insertion_sort l) (insertion_sort-Falling l)

Falling-Descending : (l : List ScoredWorker) → Falling (λ s. s.score) l → Descending l
Falling-Descending [] d = tt
Falling-Descending (s ∷ l) d = (d.0, Falling-Descending l d.1)

Falling-ByPriority : (l : List WorkerPool) → Falling (λ s. s.priority) l → ByPriority l
Falling-ByPriority [] d = tt
Falling-ByPriority (s ∷ l) d = (d.0, Falling-ByPriority l d.1)

pub sorting : SortSlice
sorting = record {
  sort = insertion_sort (λ (s : ScoredWorker). s.score);
  sort-perm = insertion_sort-perm (λ (s : ScoredWorker). s.score);
  sort-Descending =
      λ l. Falling-Descending _ (insertion_sort-Falling (λ (s : ScoredWorker). s.score) l);
}

pub sorting_pools : SortFunc
sorting_pools = record {
  sort = insertion_sort (λ (p : WorkerPool). p.priority);
  sort-perm = insertion_sort-perm (λ (p : WorkerPool). p.priority);
  sort-ByPriority =
      λ l. Falling-ByPriority _ (insertion_sort-Falling (λ (p : WorkerPool). p.priority) l);
}

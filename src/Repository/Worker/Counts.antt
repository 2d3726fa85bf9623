-- ===== src/Repository/Worker/Counts.antt =====
-- Which GPU types are reported as available.
use beta.Base.{
  ℕ, ◌+◌, ◌<◌, ◌≡◌, ◌≢◌, refl, ◌⊎◌, ◌↔◌, inl, inr, ◌∙◌, ap, String, Bool, true, false, Option, none,
  some, List, [], ◌∷◌, arith, ltb, str_eq, str_eq_iff, non_empty, if◌then◌else◌, lookup, put,
  lookup-put_self, lookup-put_ne, IsMap, put-IsMap, Bool-cases,
}
use beta.Types.{Worker, gpu_any, all_gpu_types, contains}
use beta.Repository.Worker.Index.{
  GpuCounts, or_zero, no_counts, add_counts, no_availability, counted_availability, mark_available,
  gpu_availability,
}

-- The GPUs of a type that the workers have, free or not.
abbrev pub total_gpus : String → List Worker → ℕ
total_gpus g [] = 0
total_gpus g (w ∷ ws) = (if str_eq w.gpu g then w.total_gpu_count else 0) + total_gpus g ws

counted : (Worker → ℕ) → Worker → GpuCounts → GpuCounts
counted count w m = if non_empty w.gpu then put w.gpu (or_zero (lookup w.gpu m) + count w) m else m

counted-IsMap :
    (count : Worker → ℕ) (w : Worker) (m : GpuCounts) → IsMap m → IsMap (counted count w m)
unfolding counted
counted-IsMap count w m h = ground (arith, put-IsMap w.gpu (or_zero (lookup w.gpu m) + count w) m h)

lookup-counted :
    (g : String) (w : Worker) (m : GpuCounts)
    → g ≢ ""
    → or_zero (lookup g (counted (λ x. x.total_gpu_count) w m))
      ≡ or_zero (lookup g m) + (if str_eq w.gpu g then w.total_gpu_count else 0)
unfolding counted
lookup-counted g w m named = elim (Bool-cases (str_eq w.gpu g)) [
  | inl same ↦
      let e : w.gpu ≡ g = ground (arith, str_eq_iff w.gpu g) in
      ground (
        arith,
        str_eq_iff w.gpu "",
        lookup-put_self w.gpu (or_zero (lookup w.gpu m) + w.total_gpu_count) m,
        e,
      )
  | inr other ↦
      let ne : g ≢ w.gpu = ground (arith, str_eq_iff w.gpu g) in
      ground (arith, lookup-put_ne w.gpu g (or_zero (lookup w.gpu m) + w.total_gpu_count) m ne)
]

add_counts-IsMap :
    (count : Worker → ℕ) (ws : List Worker) (m : GpuCounts)
    → IsMap m
    → IsMap (add_counts count ws m)
unfolding add_counts counted
add_counts-IsMap count [] m h = h
add_counts-IsMap count (w ∷ ws) m h =
    add_counts-IsMap count ws (counted count w m) (counted-IsMap count w m h)

lookup-add_counts :
    (g : String) (ws : List Worker) (m : GpuCounts)
    → g ≢ ""
    → or_zero (lookup g (add_counts (λ x. x.total_gpu_count) ws m))
      ≡ or_zero (lookup g m) + total_gpus g ws
unfolding add_counts counted
lookup-add_counts g [] m named = omega arith
lookup-add_counts g (w ∷ ws) m named = omega (
  arith,
  lookup-add_counts g ws (counted (λ x. x.total_gpu_count) w m) named,
  lookup-counted g w m named,
)

abbrev counted_or : Option ℕ → Option Bool → Option Bool
counted_or none b = b
counted_or (some n) b = some (ltb 0 n)

-- Each count decides the availability of its type.
lookup-counted_availability :
    (g : String) (counts : GpuCounts) (m : List (String × Bool))
    → g ≢ gpu_any
    → IsMap counts
    → lookup g (counted_availability counts m) ≡ counted_or (lookup g counts) (lookup g m)
unfolding counted_availability
lookup-counted_availability g [] m ne h = refl
lookup-counted_availability g ((k, n) ∷ counts) m ne h = elim (Bool-cases (str_eq k g)) [
  | inl same ↦
      let e : k ≡ g = ground (arith, str_eq_iff k g) in
      let not_any : str_eq k gpu_any ≡ false = ground (arith, str_eq_iff k gpu_any, e) in
      let absent : lookup g counts ≡ none = rw (← e) h.0 in
      rw same (
        rw not_any (
          lookup-counted_availability g counts (put k (ltb 0 n) m) ne h.1
          ∙ rw absent (rw (← e) (lookup-put_self k (ltb 0 n) m))))
  | inr other ↦
      let neq : g ≢ k = ground (arith, str_eq_iff k g) in
      rw other (elim (Bool-cases (str_eq k gpu_any)) [
        | inl any ↦ rw any (lookup-counted_availability g counts m ne h.1)
        | inr named ↦ rw named (
            lookup-counted_availability g counts (put k (ltb 0 n) m) ne h.1
            ∙ ap (counted_or (lookup g counts)) (lookup-put_ne k g (ltb 0 n) m neq))
      ])
]

lookup-mark_available :
    (g : String) (gs : List String) (m : List (String × Bool))
    → lookup g (mark_available gs m) ≡ (if contains gs g then some true else lookup g m)
unfolding mark_available contains
lookup-mark_available g [] m = refl
lookup-mark_available g (x ∷ gs) m = elim (Bool-cases (str_eq x g)) [
  | inl same ↦
      let e : x ≡ g = ground (arith, str_eq_iff x g) in
      rw same (
        lookup-mark_available g gs (put x true m)
        ∙ (let found : lookup g (put x true m) ≡ some true = rw (← e) (lookup-put_self x true m) in
            rw found (ground arith)))
  | inr other ↦
      let ne : g ≢ x = ground (arith, str_eq_iff x g) in
      rw other (lookup-mark_available g gs (put x true m) ∙ rw (lookup-put_ne x g true m ne) refl)
]

no_availability-not_true :
    (g : String) (gs : List String) → lookup g (no_availability gs) ≢ some true
no_availability-not_true g [] e = cc e
no_availability-not_true g (x ∷ gs) e = ground (arith, no_availability-not_true g gs)

no_counts_zero : (g : String) (gs : List String) → or_zero (lookup g (no_counts gs)) ≡ 0
no_counts_zero g [] = refl
no_counts_zero g (x ∷ gs) = ground (arith, no_counts_zero g gs)

all_types-IsMap : IsMap (no_counts all_gpu_types)
all_types-IsMap = ground arith

decided :
    (o : Option ℕ) (b : Option Bool) (c : Bool) (total : ℕ)
    → or_zero o ≡ total
    → b ≢ some true
    → ((if c then some true else counted_or o b) ≡ some true) ↔ ((0 < total) ⊎ (c ≡ true))
decided none b c total e ne = ground arith
decided (some n) b c total e ne = ground arith

-- For workers `ws` and the preemptible types of the configuration, `GetGpuAvailability` reports a GPU
-- type, other than "any" and the empty one, as available exactly if the workers have a GPU of it,
-- free or not, or it is preemptible.
pub gpu_availability-counts :
    (preemptible : List String) (ws : List Worker) (g : String)
    → g ≢ gpu_any
    → g ≢ ""
    → (lookup g (
          gpu_availability preemptible
            (add_counts (λ w. w.total_gpu_count) ws (no_counts all_gpu_types)))
        ≡ some true)
      ↔ ((0 < total_gpus g ws) ⊎ (contains preemptible g ≡ true))
unfolding gpu_availability
gpu_availability-counts preemptible ws g ne named =
    let counts = add_counts (λ w. w.total_gpu_count) ws (no_counts all_gpu_types) in
    let base = no_availability all_gpu_types in
    let unique =
      add_counts-IsMap (λ w. w.total_gpu_count) ws (no_counts all_gpu_types) all_types-IsMap in
    let total : or_zero (lookup g counts) ≡ total_gpus g ws = omega (
      arith,
      lookup-add_counts g ws (no_counts all_gpu_types) named,
      no_counts_zero g all_gpu_types,
    ) in
    rw (lookup-mark_available g preemptible (counted_availability counts base)) (
      rw (lookup-counted_availability g counts base ne unique) (
        decided (lookup g counts) (lookup g base) (contains preemptible g) (total_gpus g ws) total
          (no_availability-not_true g all_gpu_types)))

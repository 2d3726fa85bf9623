-- ===== src/WorkerNode/Gpu/Disjoint.antt =====
-- No GPU device is ever held twice.
use native.Mathlib.Decide.{dec_lt}
use beta.Base.Io.{ok-injective}
use beta.Base.{
  ℕ, zero, suc, ◌+◌, ◌≤◌, ◌<◌, ◌≡◌, refl, ap, subst, inl, inr, String, true, false, List, [], ◌∷◌,
  ◌++◌, ok, err, arith, ltb, ◌==◌, if◌then◌else◌, length, put, erase, Bool-cases,
}
use beta.WorkerNode.Gpu.{
  AllocationMap, GpuError, holds, all_devices, distinct, not_held, take, allocable, choose_devices,
}

-- How often a device stands in a list, and in the allocations of all containers.
abbrev pub count : ℕ → List ℕ → ℕ
count d [] = 0
count d (x ∷ xs) = (if x == d then 1 else 0) + count d xs

abbrev pub holders : ℕ → AllocationMap → ℕ
holders d [] = 0
holders d ((k, ds) ∷ m) = count d ds + holders d m

pub holders-put :
    (d : ℕ) (k : String) (ds : List ℕ) (m : AllocationMap)
    → holders d (put k ds m) ≤ holders d m + count d ds
holders-put d k ds [] = omega arith
holders-put d k ds ((j, es) ∷ m) = ground (arith, holders-put d k ds m)

pub holders-erase : (d : ℕ) (k : String) (m : AllocationMap) → holders d (erase k m) ≤ holders d m
holders-erase d k [] = omega arith
holders-erase d k ((j, es) ∷ m) = ground (arith, holders-erase d k m)

count-append : (d : ℕ) (xs ys : List ℕ) → count d (xs ++ ys) ≡ count d xs + count d ys
count-append d [] ys = omega arith
count-append d (x ∷ xs) ys = omega (arith, count-append d xs ys)

holders-all_devices : (d : ℕ) (m : AllocationMap) → count d (all_devices m) ≡ holders d m
holders-all_devices d [] = refl
holders-all_devices d ((k, ds) ∷ m) =
    omega (arith, count-append d ds (all_devices m), holders-all_devices d m)

holds-count : (d : ℕ) (ds : List ℕ) → 0 < count d ds → holds ds d ≡ true
holds-count d [] h = absurd (omega arith)
holds-count d (x ∷ ds) h = ground (arith, holds-count d ds)

holds-distinct : (d : ℕ) (ds : List ℕ) → holds ds d ≡ true → holds (distinct ds) d ≡ true
holds-distinct d [] h = h
holds-distinct d (x ∷ ds) h = ground (arith, holds-distinct d ds)

not_held-count :
    (d : ℕ) (current ds : List ℕ)
    → (count d (not_held current ds) ≤ count d ds)
      × (0 < count d (not_held current ds) → holds current d ≡ false)
unfolding not_held
not_held-count d current [] = (omega arith, λ h. absurd (omega arith))
not_held-count d current (x ∷ ds) =
    let (fewer, free) = not_held-count d current ds in
    elim (Bool-cases (holds current x)) [
      | inl held ↦ rw held (omega (arith, fewer), free)
      | inr open_device ↦ rw open_device (ground (arith, fewer), λ h. step open_device (free) h)
    ]
  where
    step :
        holds current x ≡ false
        → (0 < count d (not_held current ds) → holds current d ≡ false)
        → 0 < (if x == d then 1 else 0) + count d (not_held current ds)
        → holds current d ≡ false
    step e f h = elim (Bool-cases (x == d)) [
      | inl same ↦ let eq : x ≡ d = ground arith in rw (← eq) e
      | inr other ↦ f (ground arith)
    ]

take-count : (d n : ℕ) (ds : List ℕ) → count d (take n ds) ≤ count d ds
take-count d zero ds = omega arith
take-count d (suc n) [] = omega arith
take-count d (suc n) (x ∷ ds) = omega (arith, take-count d n ds)

length-take : (n : ℕ) (ds : List ℕ) → n ≤ length ds → length (take n ds) ≡ n
length-take zero ds h = refl
length-take (suc n) [] h = absurd (omega arith)
length-take (suc n) (x ∷ ds) h = ap suc (length-take n ds (omega arith))

-- What a choice of devices guarantees.
pub record Chosen (m : AllocationMap) (devices : List ℕ) (requested : ℕ) (ds : List ℕ)
    : Type 0 where
  pub as_many : length ds ≡ requested
  pub listed : (d : ℕ) → count d ds ≤ count d devices
  pub free : (d : ℕ) → 0 < count d ds → holders d m ≡ 0

allocable-free :
    (m : AllocationMap) (devices : List ℕ) (d : ℕ)
    → (count d (allocable m devices) ≤ count d devices)
      × (0 < count d (allocable m devices) → holders d m ≡ 0)
unfolding allocable
allocable-free m devices d =
    elim (Bool-cases (ltb (length (distinct (all_devices m))) (length devices))) [
      | inl room ↦
          let (fewer, open_device) = not_held-count d (distinct (all_devices m)) devices in
          rw room (fewer, λ h. unheld (open_device h))
      | inr full ↦ rw full (omega arith, λ h. absurd (omega arith))
    ]
  where
    unheld : holds (distinct (all_devices m)) d ≡ false → holders d m ≡ 0
    unheld e = elim (dec_lt 0 (holders d m)) [
      | yes held ↦ absurd (
          cc (
            e,
            holds-distinct d (all_devices m)
                (holds-count d (all_devices m) (omega (arith, holders-all_devices d m))),
          ))
      | no none_held ↦ omega arith
    ]

pub choose_devices-Chosen :
    (m : AllocationMap) (devices : List ℕ) (requested : ℕ) (ds : List ℕ)
    → choose_devices m (ok devices) requested ≡ ok ds
    → Chosen m devices requested ds
unfolding choose_devices
choose_devices-Chosen m devices requested ds e =
    elim (Bool-cases (ltb (length (allocable m devices)) requested)) [
      | inl few ↦ absurd (ground arith)
      | inr enough ↦
          let same : take requested (allocable m devices) ≡ ds = ok-injective (
            subst
              (λ b.
                (if b
                  then err (GpuError.not_enough_gpus requested (length devices))
                  else ok (take requested (allocable m devices)))
                ≡ ok ds)
              enough e) in
          rw (← same) (record {
            as_many = length-take requested (allocable m devices) (ground arith);
            listed = λ d. omega (
              arith,
              take-count d requested (allocable m devices),
              (allocable-free m devices d).0,
            );
            free = λ d h.
                (allocable-free m devices d).1
                  (omega (arith, take-count d requested (allocable m devices)));
          })
    ]

-- ===== src/WorkerNode/Network/Choice.antt =====
-- Which address is chosen.
use native.Mathlib.Decide.{dec_lt}
use beta.Base.{
  ◌≡◌, subst, ℕ, zero, suc, ◌+◌, ◌≤◌, ◌<◌, inl, inr, true, false, Bool-cases, Option, none, some,
  List, arith, ◌==◌, ◌||◌,
}
use beta.WorkerNode.Network.{occurs, first_free, choose_address}

-- The lowest octet that is not allocated, from `low` up to `high`; or all of them are allocated.
abbrev pub Lowest : List ℕ → ℕ → ℕ → Option ℕ → Type 0
Lowest allocated low high none = (y : ℕ) → low ≤ y → y < high → occurs y allocated ≡ true
Lowest allocated low high (some x) =
    (low ≤ x)
    × (x < high)
    × (occurs x allocated ≡ false)
    × ((y : ℕ) → low ≤ y → y < x → occurs y allocated ≡ true)

-- An octet that is taken is passed over.
taken-Lowest :
    (allocated : List ℕ) (low n : ℕ) (o : Option ℕ)
    → occurs low allocated ≡ true
    → Lowest allocated (low + 1) (low + 1 + n) o
    → Lowest allocated low (low + suc n) o
taken-Lowest allocated low n none taken h = λ y above below. elim (dec_lt low y) [
  | yes later ↦ h y (omega arith) (omega arith)
  | no same ↦ subst (λ z. occurs z allocated ≡ true) (let e : low ≡ y = omega arith in e) taken
]
taken-Lowest allocated low n (some x) taken (least, most, free, h) = (
  omega arith,
  omega arith,
  free,
  λ y above below. elim (dec_lt low y) [
    | yes later ↦ h y (omega arith) below
    | no same ↦ subst (λ z. occurs z allocated ≡ true) (let e : low ≡ y = omega arith in e) taken
  ],
)

first_free-Lowest :
    (n octet : ℕ) (allocated : List ℕ)
    → 2 ≤ octet
    → Lowest allocated octet (octet + n) (first_free n octet allocated)
unfolding first_free
first_free-Lowest zero octet allocated low = λ y above below. absurd (omega arith)
first_free-Lowest (suc n) octet allocated low =
    let proper : (octet == 1 || octet == 0) ≡ false = ground arith in
    rw proper (elim (Bool-cases (occurs octet allocated)) [
      | inl taken ↦ rw taken (
          taken-Lowest allocated octet n (first_free n (octet + 1) allocated) taken
            (first_free-Lowest n (octet + 1) allocated (omega arith)))
      | inr free ↦ rw free (omega arith, omega arith, free, λ y above below. absurd (omega arith))
    ])

-- The address that is chosen is the lowest free one from 192.168.1.2 to 192.168.1.255; none is
-- chosen exactly if all of these are allocated. The last one is the subnet's broadcast address.
pub choose_address-Lowest : (allocated : List ℕ) → Lowest allocated 2 256 (choose_address allocated)
unfolding choose_address first_free
choose_address-Lowest allocated = first_free-Lowest 254 2 allocated (omega arith)

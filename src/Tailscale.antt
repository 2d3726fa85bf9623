-- ===== src/Tailscale.antt =====
-- GetHostnameForService of pkg/network/tailscale.go: the hostnames of a service are dialled in a
-- random order until one answers. Random numbers come from a source that is a parameter; a
-- hostname answers the dialling or not, for as long as the search takes.
pub mod Search
use beta.Base.{
  ℕ, zero, suc, String, Bool, true, false, Option, none, some, List, [], ◌∷◌, Result, ok, err,
  length, get_elem?, if◌then◌else◌,
}

-- `out_of_fuel` is no outcome of the code: the search has not ended by then.
pub data Answer : Type 0 where
  hostname : String → Answer
  no_valid_hostname repository_failed index_out_of_range out_of_fuel : Answer

-- append(l[:i], l[i+1:]...)
abbrev pub remove_at {ℓ} : {A : Type ℓ} → ℕ → List A → List A
remove_at i [] = []
remove_at zero (x ∷ xs) = xs
remove_at (suc i) (x ∷ xs) = x ∷ remove_at i xs

module _ {Seed : Type 0} (intn : Seed → ℕ → ℕ × Seed) (answers : String → Bool) where
  abbrev pub dialled : Option String → Answer → Answer
  dialled none rest = index_out_of_range
  dialled (some h) rest = if answers h then hostname h else rest

  -- The loop; `fuel` bounds its rounds.
  unfoldable pub search : ℕ → List String → Seed → Answer
  search zero hostnames seed = out_of_fuel
  search (suc fuel) [] seed = no_valid_hostname
  search (suc fuel) (h ∷ hs) seed =
      let hostnames = h ∷ hs in
      let (index, seed') = intn seed (length hostnames) in
      let rest = search fuel (remove_at index hostnames) seed' in
      dialled (get_elem? hostnames index) rest

  unfoldable pub get_hostname_for_service : Result (Unit {0}) (List String) → Seed → Answer
  unfolding search
  get_hostname_for_service (err e) seed = repository_failed
  get_hostname_for_service (ok hostnames) seed = search (suc (length hostnames)) hostnames seed

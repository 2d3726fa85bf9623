-- ===== src/Tailscale/Search.antt =====
-- The search ends, and finds a hostname that answers if there is one.
use beta.Base.{
  ℕ, zero, suc, ◌<◌, ◌≡◌, refl, sym, ap, subst, ◌⊎◌, inl, inr, String, Bool, true, false, some,
  List, [], ◌∷◌, Memᴰ, ok, length, get_elem?, arith, Bool-cases,
}
use beta.Tailscale.{
  Answer, hostname, no_valid_hostname, remove_at, dialled, search, get_hostname_for_service,
}

module _ {ℓ} {A : Type ℓ} where
  get_elem?-some : (xs : List A) (i : ℕ) → i < length xs → (x : A) × (get_elem? xs i ≡ some x)
  get_elem?-some [] i h = absurd (omega arith)
  get_elem?-some (x ∷ xs) zero h = (x, refl)
  get_elem?-some (x ∷ xs) (suc i) h = get_elem?-some xs i (omega arith)

  mem-get_elem? : (xs : List A) (i : ℕ) (x : A) → get_elem? xs i ≡ some x → Memᴰ x xs
  mem-get_elem? [] i x e = cc
  mem-get_elem? (y ∷ xs) zero x e = Memᴰ.head (cc)
  mem-get_elem? (y ∷ xs) (suc i) x e = Memᴰ.tail (mem-get_elem? xs i x e)

  length-remove_at :
      (xs : List A) (i : ℕ) → i < length xs → length xs ≡ suc (length (remove_at i xs))
  length-remove_at [] i h = absurd (omega arith)
  length-remove_at (x ∷ xs) zero h = refl
  length-remove_at (x ∷ xs) (suc i) h = ap suc (length-remove_at xs i (omega arith))

  mem-remove_at : (xs : List A) (i : ℕ) (y : A) → Memᴰ y (remove_at i xs) → Memᴰ y xs
  mem-remove_at [] i y m = elim m [ ]
  mem-remove_at (x ∷ xs) zero y m = Memᴰ.tail m
  mem-remove_at (x ∷ xs) (suc i) y (Memᴰ.head e) = Memᴰ.head e
  mem-remove_at (x ∷ xs) (suc i) y (Memᴰ.tail m) = Memᴰ.tail (mem-remove_at xs i y m)

  -- What is removed is the element at the index.
  mem-removed :
      (xs : List A) (i : ℕ) (x y : A)
      → get_elem? xs i ≡ some x
      → Memᴰ y xs
      → (y ≡ x) ⊎ Memᴰ y (remove_at i xs)
  mem-removed [] i x y e m = elim m [ ]
  mem-removed (z ∷ xs) zero x y e (Memᴰ.head f) = inl (cc)
  mem-removed (z ∷ xs) zero x y e (Memᴰ.tail m) = inr m
  mem-removed (z ∷ xs) (suc i) x y e (Memᴰ.head f) = inr (Memᴰ.head f)
  mem-removed (z ∷ xs) (suc i) x y e (Memᴰ.tail m) = elim (mem-removed xs i x y e m) [
    | inl same ↦ inl same
    | inr below ↦ inr (Memᴰ.tail below)
  ]

-- A hostname of the service that answers, or none of them does.
pub data Ends (answers : String → Bool) (hostnames : List String) : Answer → Type 0 where
  found : (h : String) → Memᴰ h hostnames → answers h ≡ true → Ends answers hostnames (hostname h)
  nowhere :
      ((h : String) → Memᴰ h hostnames → answers h ≡ false)
      → Ends answers hostnames no_valid_hostname

module _ {Seed : Type 0} (intn : Seed → ℕ → ℕ × Seed) (answers : String → Bool)
    (in_range : (seed : Seed) (n : ℕ) → 0 < n → (intn seed n).0 < n) where
  Ends-remove_at :
      (hostnames : List String) (i : ℕ) (h : String) (a : Answer)
      → get_elem? hostnames i ≡ some h
      → answers h ≡ false
      → Ends answers (remove_at i hostnames) a
      → Ends answers hostnames a
  Ends-remove_at hostnames i h a e silent (found g m live) =
      found g (mem-remove_at hostnames i g m) live
  Ends-remove_at hostnames i h a e silent (nowhere all) = nowhere λ g m.
      elim (mem-removed hostnames i h g e m) [
        | inl same ↦ subst (λ x. answers x ≡ false) (sym same) silent
        | inr below ↦ all g below
      ]

  dialled-Ends :
      (hostnames : List String) (i : ℕ) (rest : Answer)
      → i < length hostnames
      → Ends answers (remove_at i hostnames) rest
      → Ends answers hostnames (dialled intn answers (get_elem? hostnames i) rest)
  dialled-Ends hostnames i rest h ends =
      let (g, e) = get_elem?-some hostnames i h in
      elim (Bool-cases (answers g)) [
        | inl live ↦ rw (e, live) (found g (mem-get_elem? hostnames i g e) live)
        | inr silent ↦ rw (e, silent) (Ends-remove_at hostnames i g rest e silent ends)
      ]

  search-Ends :
      (fuel : ℕ) (hostnames : List String) (seed : Seed)
      → length hostnames < fuel
      → Ends answers hostnames (search intn answers fuel hostnames seed)
  unfolding search
  search-Ends zero hostnames seed h = absurd (omega arith)
  search-Ends (suc fuel) [] seed h = nowhere λ g m. elim m [ ]
  search-Ends (suc fuel) (g ∷ gs) seed h =
      let hostnames = g ∷ gs in
      let i = (intn seed (length hostnames)).0 in
      let bound : i < length hostnames = in_range seed (length hostnames) (omega arith) in
      dialled-Ends hostnames i _ bound (
        search-Ends fuel (remove_at i hostnames) _
          (omega (arith, length-remove_at hostnames i bound)))

  -- Whatever random numbers come up, the search for a hostname of a service ends within one round
  -- for each hostname: with one of them that answers, or with "no valid hostname" only if none of
  -- them answers.
  pub get_hostname_for_service-Ends :
      (hostnames : List String) (seed : Seed)
      → Ends answers hostnames (get_hostname_for_service intn answers (ok hostnames) seed)
  unfolding get_hostname_for_service
  get_hostname_for_service-Ends hostnames seed =
      search-Ends (suc (length hostnames)) hostnames seed (omega arith)

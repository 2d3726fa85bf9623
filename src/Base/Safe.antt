-- ===== src/Base/Safe.antt =====
-- Calls that keep a property of the state, on every way out, and answer values with a property.
use mathlib.Core.Path.{◌≡◌, refl, subst, ◌∙◌}
use mathlib.Core.Option.{some}
use beta.Base.Results.{Result, ok, err}
use beta.Base.Io.{
  Io, continue, ◌>>=◌, ◌>>◌, pure, fail, lift, finally, attempt, or_none, ok-injective,
}

or_none-some : {E A : Type 0} (r : Result E A) (a : A) → or_none r ≡ some a → r ≡ ok a
or_none-some (ok b) a e = cc
or_none-some (err x) a e = cc

module _ {Db : Type 0} (Q : Db → Type 0) where
  abbrev pub Safe : {E A : Type 0} → Io Db E A → (A → Type 0) → Type 0
  Safe {A = A} m P = (d : Db) → Q d → Q (m d).1 × ((a : A) → (m d).0 ≡ ok a → P a)

  abbrev pub Preserves : {E A : Type 0} → Io Db E A → Type 0
  Preserves m = (d : Db) → Q d → Q (m d).1

  continue-safe :
      {E A B : Type 0} (f : A → Io Db E B) (P : A → Type 0) (P' : B → Type 0) (x : Result E A × Db)
      → Q x.1 × ((a : A) → x.0 ≡ ok a → P a)
      → ((a : A) → P a → Safe (f a) P')
      → Q (continue f x).1 × ((b : B) → (continue f x).0 ≡ ok b → P' b)
  continue-safe f P P' (ok a, d) (q, p) h = h a (p a refl) d q
  continue-safe f P P' (err e, d) (q, p) h = (q, λ b e'. cc)

  pub >>=-Safe :
      {E A B : Type 0} {P : A → Type 0} {P' : B → Type 0} (m : Io Db E A) (f : A → Io Db E B)
      → Safe m P
      → ((a : A) → P a → Safe (f a) P')
      → Safe (m >>= f) P'
  unfolding ◌>>=◌
  >>=-Safe {P} {P'} m f h k d q = continue-safe f P P' (m d) (h d q) k

  pub Preserves-Safe : {E A : Type 0} (m : Io Db E A) → Preserves m → Safe m (λ _. Unit {0})
  Preserves-Safe m h d q = (h d q, λ a e. tt)

  pub >>=-Preserves :
      {E A B : Type 0} (m : Io Db E A) (f : A → Io Db E B)
      → Preserves m
      → ((a : A) → Preserves (f a))
      → Preserves (m >>= f)
  >>=-Preserves m f h k d q =
      (>>=-Safe {P' = λ _. Unit {0}} m f (Preserves-Safe m h) (λ a _. Preserves-Safe (f a) (k a)) d
        q).0

  pub >>-Safe :
      {E A : Type 0} {P : A → Type 0} (m : Io Db E (Unit {0})) (k : Io Db E A)
      → Preserves m
      → Safe k P
      → Safe (m >> k) P
  unfolding ◌>>◌
  >>-Safe m k h g = >>=-Safe m (λ _. k) (Preserves-Safe m h) λ u _. g

  pub >>-Preserves :
      {E B : Type 0} (m : Io Db E (Unit {0})) (k : Io Db E B)
      → Preserves m
      → Preserves k
      → Preserves (m >> k)
  unfolding ◌>>◌
  >>-Preserves m k h g = >>=-Preserves m (λ _. k) h λ _. g

  pub pure-Preserves : {A : Type 0} (E : Type 0) (a : A) → Preserves (pure {E = E} a)
  unfolding pure
  pure-Preserves E a d q = q

  pub pure-Safe : {E A : Type 0} {P : A → Type 0} (a : A) → P a → Safe (pure {E = E} a) P
  unfolding pure
  pure-Safe {P = P} a p d q = (q, λ b e. subst P (ok-injective e) p)

  pub fail-Preserves : {E : Type 0} (A : Type 0) (e : E) → Preserves (fail {A = A} e)
  unfolding fail
  fail-Preserves A e d q = q

  pub lift-Preserves : {E A : Type 0} (r : Result E A) → Preserves (lift r)
  unfolding lift
  lift-Preserves r d q = q

  pub attempt-Preserves : {E A : Type 0} (m : Io Db E A) → Preserves m → Preserves (attempt m)
  unfolding attempt
  attempt-Preserves m h d q = h d q

  pub finally-Preserves :
      {E A : Type 0} (m : Io Db E A) (cleanup : Db → Db)
      → Preserves m
      → ((d : Db) → Q d → Q (cleanup d))
      → Preserves (finally m cleanup)
  unfolding finally
  finally-Preserves m cleanup h k d q = k (m d).1 (h d q)

  -- A call whose failure is passed over, by its answer if there is one.
  pub attempt-Safe :
      {E A : Type 0} {P : A → Type 0} (m : Io Db E A)
      → Safe m P
      → Safe (attempt m) (λ o. (a : A) → o ≡ some a → P a)
  unfolding attempt
  attempt-Safe m h d q =
      let (q', p) = h d q in (q', λ o e a f. p a (or_none-some (m d).0 a (ok-injective e ∙ f)))

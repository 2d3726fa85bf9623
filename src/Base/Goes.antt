-- ===== src/Base/Goes.antt =====
-- Calls that answer, with what then holds of the answer and of the new state.
use mathlib.Core.Path.{◌≡◌, refl, sym, ap, subst}
use mathlib.Core.Option.{some}
use beta.Base.Results.{Result, ok, err}
use beta.Base.Io.{Io, continue, ◌>>=◌, ◌>>◌, pure, attempt, or_none, ok-injective}

pub record Goes {Db E A : Type 0} (m : Io Db E A) (d : Db) (P : A → Db → Type 0) : Type 0 where
  pub answer : A
  pub answers : (m d).0 ≡ ok answer
  pub holds : P answer (m d).1

module _ {Db E : Type 0} where
  continue-goes :
      {A B : Type 0} (P : A → Db → Type 0) (P' : B → Db → Type 0) (f : A → Io Db E B)
      (x : Result E A × Db) (a : A)
      → x.0 ≡ ok a
      → P a x.1
      → ((a : A) (d : Db) → P a d → Goes (f a) d P')
      → (b : B) × ((continue f x).0 ≡ ok b) × P' b (continue f x).1
  continue-goes P P' f (ok c, d) a e p h =
      let g = h c d (subst (λ z. P z d) (sym (ok-injective e)) p) in (g.answer, g.answers, g.holds)
  continue-goes P P' f (err x, d) a e p h = cc

  pub >>=-Goes :
      {A B : Type 0} {P : A → Db → Type 0} {P' : B → Db → Type 0} (m : Io Db E A)
      (f : A → Io Db E B) {d : Db}
      → Goes m d P
      → ((a : A) (d' : Db) → P a d' → Goes (f a) d' P')
      → Goes (m >>= f) d P'
  unfolding ◌>>=◌
  >>=-Goes {P = P} {P' = P'} m f {d} h k =
      let (b, e, p) = continue-goes P P' f (m d) h.answer h.answers h.holds k in
      record { answer = b; answers = e; holds = p }

  pub >>-Goes :
      {B : Type 0} {P : Db → Type 0} {P' : B → Db → Type 0} (m : Io Db E (Unit {0})) (k : Io Db E B)
      {d : Db}
      → Goes m d (λ _. P)
      → ((d' : Db) → P d' → Goes k d' P')
      → Goes (m >> k) d P'
  unfolding ◌>>◌
  >>-Goes m k h g = >>=-Goes m (λ _. k) h λ a d' p. g d' p

  pub pure-Goes :
      {A : Type 0} {P : A → Db → Type 0} (a : A) {d : Db} → P a d → Goes {E = E} (pure a) d P
  unfolding pure
  pure-Goes a p = record { answer = a; answers = refl; holds = p }

  pub attempt-Goes :
      {A : Type 0} {P : A → Db → Type 0} (m : Io Db E A) {d : Db}
      → Goes m d P
      → Goes (attempt m) d (λ o d'. (a : A) × (o ≡ some a) × P a d')
  unfolding attempt
  attempt-Goes m {d} h = record {
    answer = some h.answer;
    answers = ap (λ r. ok (or_none r)) h.answers;
    holds = (h.answer, refl, h.holds);
  }

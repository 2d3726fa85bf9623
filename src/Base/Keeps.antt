-- ===== src/Base/Keeps.antt =====
-- Calls that leave the stored values as they are, whether they answer or fail.
use mathlib.Core.Path.{◌≡◌, refl, ◌∙◌}
use beta.Base.Results.{Result, ok, err}
use beta.Base.Io.{Io, continue, ◌>>=◌, ◌>>◌, pure, fail, finally, attempt, relabel}

module _ {Db V : Type 0} (view : Db → V) where
  abbrev pub Keeps : {E A : Type 0} → Io Db E A → Type 0
  Keeps m = (d : Db) → view (m d).1 ≡ view d

  continue-Keeps :
      {E A B : Type 0} (f : A → Io Db E B) (x : Result E A × Db)
      → ((a : A) → Keeps (f a))
      → view (continue f x).1 ≡ view x.1
  continue-Keeps f (ok a, d) h = h a d
  continue-Keeps f (err e, d) h = refl

  pub >>=-Keeps :
      {E A B : Type 0} (m : Io Db E A) (f : A → Io Db E B)
      → Keeps m
      → ((a : A) → Keeps (f a))
      → Keeps (m >>= f)
  unfolding ◌>>=◌
  >>=-Keeps m f h k d = continue-Keeps f (m d) k ∙ h d

  pub >>-Keeps :
      {E B : Type 0} (m : Io Db E (Unit {0})) (k : Io Db E B) → Keeps m → Keeps k → Keeps (m >> k)
  unfolding ◌>>◌
  >>-Keeps m k h g = >>=-Keeps m (λ _. k) h λ _. g

  pub pure-Keeps : {A : Type 0} (E : Type 0) (a : A) → Keeps (pure {E = E} a)
  unfolding pure
  pure-Keeps E a d = refl

  pub fail-Keeps : {E : Type 0} (A : Type 0) (e : E) → Keeps (fail {A = A} e)
  unfolding fail
  fail-Keeps A e d = refl

  pub attempt-Keeps : {E A : Type 0} (m : Io Db E A) → Keeps m → Keeps (attempt m)
  unfolding attempt
  attempt-Keeps m h d = h d

  pub relabel-Keeps : {E F A : Type 0} (f : E → F) (m : Io Db E A) → Keeps m → Keeps (relabel f m)
  unfolding relabel
  relabel-Keeps f m h d = h d

  pub finally-Keeps :
      {E A : Type 0} (m : Io Db E A) (cleanup : Db → Db)
      → Keeps m
      → ((d : Db) → view (cleanup d) ≡ view d)
      → Keeps (finally m cleanup)
  unfolding finally
  finally-Keeps m cleanup h k d = k (m d).1 ∙ h d

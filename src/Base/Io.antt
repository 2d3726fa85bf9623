-- ===== src/Base/Io.antt =====
-- Code that talks to a service: a command maps the service's state to an answer and a new state.
use mathlib.Core.Path.{◌≡◌, refl, subst, sym, ap}
use mathlib.Core.Logic.{◌⊎◌}
use mathlib.Core.Option.{Option, none, some}
use beta.Base.Results.{Result, ok, err}

abbrev pub Io : Type 0 → Type 0 → Type 0 → Type 0
Io Db E A = Db → Result E A × Db

-- A failure ends the chain; the state that it left stays.
abbrev pub continue : {Db E A B : Type 0} → (A → Io Db E B) → Result E A × Db → Result E B × Db
continue f (ok a, d) = f a d
continue f (err e, d) = (err e, d)

infixl 5 ◌>>=◌ ◌>>◌
unfoldable pub ◌>>=◌ : {Db E A B : Type 0} → Io Db E A → (A → Io Db E B) → Io Db E B
◌>>=◌ m f d = continue f (m d)

unfoldable pub ◌>>◌ : {Db E B : Type 0} → Io Db E (Unit {0}) → Io Db E B → Io Db E B
unfolding ◌>>=◌
m >> k = m >>= λ _. k

unfoldable pub pure : {Db E A : Type 0} → A → Io Db E A
pure a d = (ok a, d)

unfoldable pub fail : {Db E A : Type 0} → E → Io Db E A
fail e d = (err e, d)

unfoldable pub lift : {Db E A : Type 0} → Result E A → Io Db E A
lift r d = (r, d)

-- `defer`: the cleanup runs on every way out, and its own answer is dropped.
unfoldable pub finally : {Db E A : Type 0} → Io Db E A → (Db → Db) → Io Db E A
finally m cleanup d = let (r, d') = m d in (r, cleanup d')

abbrev pub or_none : {E A : Type 0} → Result E A → Option A
or_none (ok a) = some a
or_none (err e) = none

-- `if err := m(); err != nil { log }`
unfoldable pub attempt : {Db E A : Type 0} → Io Db E A → Io Db E (Option A)
attempt m d = let (r, d') = m d in (ok (or_none r), d')

module _ {Db V : Type 0} (view : Db → V) {E A : Type 0} where
  -- A read leaves the stored values alone, and answers by them unless it fails.
  abbrev pub Reads : Io Db E A → (V → A) → Type 0
  Reads m answer =
      (d : Db) → (view (m d).1 ≡ view d) × ((a : A) → (m d).0 ≡ ok a → a ≡ answer (view d))

  -- A write that answers has taken place; one that fails has taken place or not.
  abbrev pub Writes : Io Db E A → (V → V) → Type 0
  Writes m change =
      (d : Db)
      → ((a : A) → (m d).0 ≡ ok a → view (m d).1 ≡ change (view d))
        × ((view (m d).1 ≡ view d) ⊎ (view (m d).1 ≡ change (view d)))

  -- A command that both answers by the stored values and changes them, in one.
  abbrev pub Updates : Io Db E A → (V → V) → (V → A) → Type 0
  Updates m change answer =
      (d : Db)
      → ((a : A) → (m d).0 ≡ ok a → (a ≡ answer (view d)) × (view (m d).1 ≡ change (view d)))
        × ((view (m d).1 ≡ view d) ⊎ (view (m d).1 ≡ change (view d)))

pub ok-injective : {E A : Type 0} {a b : A} → ◌≡◌ {A = Result E A} (ok a) (ok b) → a ≡ b
ok-injective h = cc

-- What holds of the answer and the new state if the call answers.
pub record Ensures {ℓ} {Db E A : Type 0} (m : Io Db E A) (d : Db) (P : A → Db → Type ℓ)
    : Type ℓ where
  pub holds : (a : A) → (m d).0 ≡ ok a → P a (m d).1

module _ {ℓ} {Db E A B : Type 0} where
  continue-holds :
      (f : A → Io Db E B) (P : B → Db → Type ℓ) (x : Result E A × Db)
      → ((a : A) → x.0 ≡ ok a → Ensures (f a) x.1 P)
      → (b : B) → (continue f x).0 ≡ ok b
      → P b (continue f x).1
  continue-holds f P (ok a, d) h b e = (h a refl).holds b e
  continue-holds f P (err x, d) h b e = cc

  -- A chain is proved step by step.
  pub >>=-Ensures :
      (m : Io Db E A) (f : A → Io Db E B) {d : Db} {P : B → Db → Type ℓ}
      → ((a : A) → (m d).0 ≡ ok a → Ensures (f a) (m d).1 P)
      → Ensures (m >>= f) d P
  unfolding ◌>>=◌
  >>=-Ensures m f {d} {P} h = record { holds = continue-holds f P (m d) h }

module _ {ℓ} {Db E A : Type 0} {P : A → Db → Type ℓ} {d : Db} where
  pub >>-Ensures :
      (m : Io Db E (Unit {0})) (k : Io Db E A)
      → ((m d).0 ≡ ok tt → Ensures k (m d).1 P)
      → Ensures (m >> k) d P
  unfolding ◌>>◌
  >>-Ensures m k h = >>=-Ensures m (λ _. k) λ a e. h e

  pub finally-Ensures :
      (m : Io Db E A) (cleanup : Db → Db)
      → Ensures m d (λ a d'. P a (cleanup d'))
      → Ensures (finally m cleanup) d P
  unfolding finally
  finally-Ensures m cleanup h = record { holds = h.holds }

  pub pure-Ensures : (a : A) → P a d → Ensures {E = E} (pure a) d P
  unfolding pure
  pure-Ensures a p = record { holds = λ b e. subst (λ c. P c d) (ok-injective e) p }

  pub lift-Ensures : (r : Result E A) → ((a : A) → r ≡ ok a → P a d) → Ensures (lift r) d P
  unfolding lift
  lift-Ensures r h = record { holds = h }

  pub fail-Ensures : (e : E) → Ensures (fail e) d P
  unfolding fail
  fail-Ensures e = record { holds = λ a h. cc }

  pub call-Ensures : {m : Io Db E A} → ((a : A) → (m d).0 ≡ ok a → P a (m d).1) → Ensures m d P
  call-Ensures h = record { holds = h }

module _ {ℓ} {Db E A : Type 0} {P : Option A → Db → Type ℓ} {d : Db} where
  pub attempt-Ensures : (m : Io Db E A) → P (or_none (m d).0) (m d).1 → Ensures (attempt m) d P
  unfolding attempt
  attempt-Ensures m p = record { holds = λ o e. subst (λ x. P x (m d).1) (ok-injective e) p }

module _ {ℓ} {Db E A : Type 0} where
  -- A weaker statement follows.
  pub Ensures-map :
      {m : Io Db E A} {d : Db} {P Q : A → Db → Type ℓ}
      → Ensures m d P
      → ((a : A) (d' : Db) → P a d' → Q a d')
      → Ensures m d Q
  Ensures-map h f = record { holds = λ a e. f a _ (h.holds a e) }

-- A read that answers, and whose failure would have been passed over.
pub attempt_read-Ensures :
    {Db V E A : Type 0} (view : Db → V) (m : Io Db E A) (answer : V → A) (d : Db)
    → Reads view m answer
    → (a : A) × ((m d).0 ≡ ok a)
    → Ensures (attempt m) d (λ o d'. (o ≡ some (answer (view d))) × (view d' ≡ view d))
attempt_read-Ensures view m answer d reads (a, e) = attempt-Ensures m (
  subst (λ r. or_none r ≡ some (answer (view d))) (sym e) (ap some ((reads d).1 a e)),
  (reads d).0,
)

-- What holds after the first step, and is kept by the second.
pub >>-keeps :
    {Db E A : Type 0} (P : Db → Type 0) (m : Io Db E (Unit {0})) (k : Io Db E A) (d : Db)
    → Ensures m d (λ _ d'. P d')
    → ((d' : Db) (a : A) → (k d').0 ≡ ok a → P d' → P (k d').1)
    → Ensures (m >> k) d (λ _ d'. P d')
>>-keeps P m k d first then =
    >>-Ensures m k λ e. call-Ensures λ a f. then (m d).1 a f (first.holds tt e)

-- The errors of a call under another name.
abbrev pub map_error : {E F A : Type 0} → (E → F) → Result E A → Result F A
map_error f (ok a) = ok a
map_error f (err e) = err (f e)

unfoldable pub relabel : {Db E F A : Type 0} → (E → F) → Io Db E A → Io Db F A
relabel f m d = let (r, d') = m d in (map_error f r, d')

pub map_error-ok :
    {E F A : Type 0} (f : E → F) (r : Result E A) (a : A) → map_error f r ≡ ok a → r ≡ ok a
map_error-ok f (ok b) a e = cc (ok-injective e)
map_error-ok f (err x) a e = cc

module _ {ℓ} {Db E F A : Type 0} {P : A → Db → Type ℓ} {d : Db} where
  pub relabel-Ensures : (f : E → F) (m : Io Db E A) → Ensures m d P → Ensures (relabel f m) d P
  unfolding relabel
  relabel-Ensures f m h = record { holds = λ a e. h.holds a (map_error-ok f (m d).0 a e) }

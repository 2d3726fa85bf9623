-- ===== src/Base/Maps.antt =====
-- A Go map with text keys as an association list. Its order is that of one iteration, which Go
-- leaves open; a key is meant to occur once.
use Prim.Native.String.{String}
use mathlib.Core.Path.{◌≡◌, refl, ◌∙◌}
use mathlib.Core.Logic.{◌≢◌, inl, inr}
use mathlib.Core.Option.{Option, none, some}
use native.Mathlib.Omega.{arith}
use mathlib.Core.List.{List, [], ◌∷◌}
use beta.Base.Tests.{str_eq, str_eq_iff, Bool-cases, if◌then◌else◌}

module _ {V : Type 0} where
  abbrev pub lookup : String → List (String × V) → Option V
  lookup k [] = none
  lookup k ((j, v) ∷ m) = let later = lookup k m in if str_eq j k then some v else later

  abbrev pub put : String → V → List (String × V) → List (String × V)
  put k v [] = (k, v) ∷ []
  put k v ((j, w) ∷ m) = let later = put k v m in if str_eq j k then (k, v) ∷ m else (j, w) ∷ later

  abbrev pub erase : String → List (String × V) → List (String × V)
  erase k [] = []
  erase k ((j, w) ∷ m) = let later = erase k m in if str_eq j k then later else (j, w) ∷ later

  -- A change of the entry of a key, where there is one.
  abbrev pub modify : String → (V → V) → List (String × V) → List (String × V)
  modify k f [] = []
  modify k f ((j, w) ∷ m) =
      let later = modify k f m in if str_eq j k then (j, f w) ∷ m else (j, w) ∷ later

module _ {V : Type 0} where
  pub lookup-put_self : (k : String) (v : V) (m : List (String × V)) → lookup k (put k v m) ≡ some v
  lookup-put_self k v [] = ground (arith, str_eq_iff k k)
  lookup-put_self k v ((j, w) ∷ m) =
      ground (arith, str_eq_iff k k, str_eq_iff j k, lookup-put_self k v m)

  pub lookup-put_ne :
      (k i : String) (v : V) (m : List (String × V)) → i ≢ k → lookup i (put k v m) ≡ lookup i m
  lookup-put_ne k i v [] ne = ground (arith, str_eq_iff k i)
  lookup-put_ne k i v ((j, w) ∷ m) ne =
      ground (arith, str_eq_iff k i, str_eq_iff j k, str_eq_iff j i, lookup-put_ne k i v m ne)

  -- Each key stands once.
  abbrev pub IsMap : List (String × V) → Type 0
  IsMap [] = Unit {0}
  IsMap ((k, v) ∷ m) = (lookup k m ≡ none) × IsMap m

  pub put-IsMap : (k : String) (v : V) (m : List (String × V)) → IsMap m → IsMap (put k v m)
  put-IsMap k v [] h = (refl, tt)
  put-IsMap k v ((j, w) ∷ m) h = elim (Bool-cases (str_eq j k)) [
    | inl same ↦ let e : j ≡ k = ground (arith, str_eq_iff j k) in rw same (rw (← e) h.0, h.1)
    | inr other ↦
        let ne : j ≢ k = ground (arith, str_eq_iff j k) in
        rw other (lookup-put_ne k j v m ne ∙ h.0, put-IsMap k v m h.1)
  ]

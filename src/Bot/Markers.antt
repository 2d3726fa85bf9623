-- ===== src/Bot/Markers.antt =====
-- The markers that the inputs of a transition ask for.
use beta.Base.{
  ℕ, zero, suc, ◌≡◌, String, Bool, true, ◌&&◌, not, Option, none, some, List, [], ◌∷◌, ◌++◌, length,
  ok, lookup,
}
use beta.Base.Int.{ℤ, pos, pos_part, ltb_ℤ}
use beta.Bot.{BotRedis, Marker, Inputs}

module _ {ℓ} {A : Type ℓ} where
  abbrev pub take : ℕ → List A → List A
  take zero xs = []
  take (suc n) [] = []
  take (suc n) (x ∷ xs) = x ∷ take n xs

  abbrev pub drop : ℕ → List A → List A
  drop zero xs = xs
  drop (suc n) [] = []
  drop (suc n) (x ∷ xs) = drop n xs

-- Every location has the markers that the inputs ask of it.
abbrev pub holds_inputs : Inputs → (String → List Marker) → Bool
holds_inputs [] places = true
holds_inputs ((l, required) ∷ inputs) places =
    not (ltb_ℤ (pos (length (places l))) required) && holds_inputs inputs places

-- How many markers the inputs ask of a location.
abbrev pub amount : Option ℤ → ℕ
amount none = 0
amount (some required) = pos_part required

abbrev pub demand : Inputs → String → ℕ
demand inputs l = amount (lookup l inputs)

-- The first markers of the locations, as many as are asked of each.
abbrev pub taken : Inputs → (String → List Marker) → List Marker
taken [] places = []
taken ((l, required) ∷ inputs) places = take (pos_part required) (places l) ++ taken inputs places

-- Redis answers.
pub record IsUp (R : BotRedis) : Type 0 where
  pub llen-answers : (l : String) (d : R.Db) → (n : ℕ) × ((R.llen l d).0 ≡ ok n)
  pub lpop-answers : (l : String) (d : R.Db) → (o : Option Marker) × ((R.lpop l d).0 ≡ ok o)

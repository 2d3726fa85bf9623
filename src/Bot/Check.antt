-- ===== src/Bot/Check.antt =====
-- What the first loop over the inputs of a transition do, while no Redis command fails.
use beta.Base.{
  ℕ, ◌≡◌, ◌∙◌, refl, sym, ap, subst, inl, inr, String, true, false, Option, none, some, List, [],
  ◌∷◌, length, if◌then◌else◌, Bool-cases, arith,
}
use beta.Base.Int.{ℤ}
use beta.Base.Io.{attempt}
use beta.Base.Goes.{Goes, >>=-Goes, pure-Goes, attempt-Goes}
use beta.Bot.{
  BotRedis, Net, Marker, Inputs, count_markers, check_inputs, is_short, to_pop, after_count,
}
use beta.Bot.Markers.{holds_inputs, IsUp}

-- The inputs, if the transition can fire.
abbrev pub when_held : Inputs → (String → List Marker) → Option Inputs
when_held inputs places = if holds_inputs inputs places then some inputs else none

when_held-cons :
    (l : String) (required : ℤ) (inputs : Inputs) (places : String → List Marker) (n : ℕ)
    → n ≡ length (places l)
    → is_short required (some n) ≡ false
    → to_pop l required (some n) (when_held inputs places)
      ≡ when_held ((l, required) ∷ inputs) places
when_held-cons l required inputs places n e f = ground arith

when_held-short :
    (l : String) (required : ℤ) (inputs : Inputs) (places : String → List Marker) (n : ℕ)
    → n ≡ length (places l)
    → is_short required (some n) ≡ true
    → none ≡ when_held ((l, required) ∷ inputs) places
when_held-short l required inputs places n e f = ground arith

module _ (R : BotRedis) (up : IsUp R) where
  open R use {Db, view}

  count_markers-Goes :
      (l : String) (d : Db)
      → Goes (count_markers R l) d λ n d'. (n ≡ length ((view d).places l)) × (view d' ≡ view d)
  unfolding count_markers
  count_markers-Goes l d =
      let (n, e) = up.llen-answers l d in
      let (same, answer) = R.llen-Reads l d in
      record { answer = n; answers = e; holds = (answer n e, same) }

  -- The check finds all the inputs or that one location has too few markers.
  abbrev Checked : Inputs → Db → Option Inputs → Db → Type 0
  Checked inputs d o d' = (view d' ≡ view d) × (o ≡ when_held inputs (view d).places)

  after_count-Goes :
      (l : String) (required : ℤ) (inputs : Inputs) (d d' : Db) (n : ℕ)
      → n ≡ length ((view d).places l)
      → view d' ≡ view d
      → Goes (check_inputs R inputs) d' (Checked inputs d)
      → Goes
          (after_count R l required (check_inputs R inputs) (some n))
          d'
          (Checked ((l, required) ∷ inputs) d)
  after_count-Goes l required inputs d d' n known same rest =
      elim (Bool-cases (is_short required (some n))) [
        | inl short ↦
            rw short (
              pure-Goes none
                (same, when_held-short l required inputs (view d).places n known short))
        | inr enough ↦ rw enough (
            >>=-Goes (check_inputs R inputs) _ rest λ o d'' (same', e). pure-Goes _ (
              same',
              ap (to_pop l required (some n)) e
                  ∙ when_held-cons l required inputs (view d).places n known enough,
            ))
      ]

  pub check_inputs-Goes :
      (inputs : Inputs) (d d' : Db)
      → view d' ≡ view d
      → Goes (check_inputs R inputs) d' (Checked inputs d)
  unfolding check_inputs
  check_inputs-Goes [] d d' same = pure-Goes (some []) (same, refl)
  check_inputs-Goes ((l, required) ∷ inputs) d d' same =
      >>=-Goes (attempt (count_markers R l)) _
        (attempt-Goes (count_markers R l) (count_markers-Goes l d'))
        λ o d'' (n, e, read).
          subst
            (λ o.
              Goes (after_count R l required (check_inputs R inputs) o) d''
                (Checked ((l, required) ∷ inputs) d))
            (sym e)
            (after_count-Goes l required inputs d d'' n
              (read.0 ∙ ap (λ (v : Net). length (v.places l)) same) (read.1 ∙ same)
              (check_inputs-Goes inputs d d'' (read.1 ∙ same)))

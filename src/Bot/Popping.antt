-- ===== src/Bot/Popping.antt =====
-- What the second loop over the inputs of a transition do, while no Redis command fails.
use beta.Base.{
  ℕ, zero, suc, ◌≡◌, ◌≢◌, ◌∙◌, refl, sym, ap, subst, inl, inr, String, Option, none, some, List, [],
  ◌∷◌, ◌++◌, str_eq, str_eq_iff, Bool-cases, lookup, IsMap, arith,
}
use beta.Base.Int.{ℤ, pos_part}
use beta.Base.Io.{attempt}
use beta.Base.Goes.{Goes, >>=-Goes, pure-Goes, attempt-Goes}
use beta.Bot.{
  BotRedis, Net, Marker, Inputs, head?, tail, change_place, pop_marker, pop_markers, and_popped,
  pop_inputs,
}
use beta.Bot.Markers.{take, drop, amount, demand, taken, IsUp}

-- The inputs were taken from the locations, and nothing else has changed.
pub record Took (inputs : Inputs) (net : Net) (ms : List Marker) (net' : Net) : Type 0 where
  pub markers : ms ≡ taken inputs net.places
  pub places : (l : String) → net'.places l ≡ drop (demand inputs l) (net.places l)
  pub sent : net'.sent ≡ net.sent

-- The first markers of one location were taken.
pub record TookFrom (l : String) (n : ℕ) (net : Net) (ms : List Marker) (net' : Net) : Type 0 where
  pub markers : ms ≡ take n (net.places l)
  pub here : net'.places l ≡ drop n (net.places l)
  pub elsewhere : (j : String) → l ≢ j → net'.places j ≡ net.places j
  pub sent : net'.sent ≡ net.sent

take-nil : (n : ℕ) → take n (tail {A = Marker} []) ≡ []
take-nil zero = refl
take-nil (suc n) = refl

take_head :
    (n : ℕ) (ms : List Marker) (o : Option Marker)
    → o ≡ head? ms
    → and_popped (some o) (take n (tail ms)) ≡ take (suc n) ms
take_head n [] none e = take-nil n
take_head n [] (some m) e = cc
take_head n (x ∷ ms) none e = cc
take_head n (x ∷ ms) (some m) e = cc

drop_tail : (n : ℕ) (ms : List Marker) → drop n (tail ms) ≡ drop (suc n) ms
drop_tail zero [] = refl
drop_tail (suc n) [] = refl
drop_tail n (x ∷ ms) = refl

lookup_other :
    (l j : String) (x : ℤ) (inputs : Inputs) → l ≢ j → lookup j ((l, x) ∷ inputs) ≡ lookup j inputs
lookup_other l j x inputs ne = ground (arith, str_eq_iff l j)

lookup_same : (l : String) (x : ℤ) (inputs : Inputs) → lookup l ((l, x) ∷ inputs) ≡ some x
lookup_same l x inputs = ground (arith, str_eq_iff l l)

-- Markers that the inputs do not ask for do not matter.
taken-elsewhere :
    (l : String) (inputs : Inputs) (p p' : String → List Marker)
    → lookup l inputs ≡ none
    → ((j : String) → l ≢ j → p' j ≡ p j)
    → taken inputs p' ≡ taken inputs p
taken-elsewhere l [] p p' absent same = refl
taken-elsewhere l ((j, x) ∷ inputs) p p' absent same =
    let ne : l ≢ j = λ e. ground (arith, str_eq_iff j l) in
    let absent' : lookup l inputs ≡ none = ground (arith, str_eq_iff j l) in
    cc (same j ne, taken-elsewhere l inputs p p' absent' same)

-- One marker is popped before the others.
TookFrom-suc :
    {l : String} {n : ℕ} {net net' net'' : Net} {o : Option Marker} {ms : List Marker}
    → o ≡ head? (net.places l)
    → net' ≡ change_place l tail net
    → TookFrom l n net' ms net''
    → TookFrom l (suc n) net (and_popped (some o) ms) net''
TookFrom-suc {l} {n} {net} {net'} {net''} {o} {ms} popped changed t = record {
  markers =
      ap (and_popped (some o)) (t.markers ∙ ap (take n) here) ∙ take_head n (net.places l) o popped;
  here = t.here ∙ ap (drop n) here ∙ drop_tail n (net.places l);
  elsewhere = λ j ne.
      t.elsewhere j ne ∙ ap (λ (v : Net). v.places j) changed ∙ ground (arith, str_eq_iff l j);
  sent = t.sent ∙ ap (λ (v : Net). v.sent) changed;
}
  where
    here : net'.places l ≡ tail (net.places l)
    here = ap (λ (v : Net). v.places l) changed ∙ ground (arith, str_eq_iff l l)

-- The markers of one location are taken before those of the others.
Took-cons :
    {l : String} {required : ℤ} {inputs : Inputs} {net net' net'' : Net} {ms more : List Marker}
    → lookup l inputs ≡ none
    → TookFrom l (pos_part required) net ms net'
    → Took inputs net' more net''
    → Took ((l, required) ∷ inputs) net (ms ++ more) net''
Took-cons {l} {required} {inputs} {net} {net'} {net''} {ms} {more} absent t u = record {
  markers =
      cc (t.markers, u.markers, taken-elsewhere l inputs net.places net'.places absent t.elsewhere);
  places = λ j. elim (Bool-cases (str_eq l j)) [
    | inl same ↦
        subst (λ k. net''.places k ≡ drop (demand ((l, required) ∷ inputs) k) (net.places k))
          ((str_eq_iff l j).0 same) at_l
    | inr other ↦
        let ne : l ≢ j = ground (arith, str_eq_iff l j) in
        u.places j
        ∙ ap (drop (demand inputs j)) (t.elsewhere j ne)
        ∙ ap (λ o. drop (amount o) (net.places j)) (sym (lookup_other l j required inputs ne))
  ];
  sent = u.sent ∙ t.sent;
}
  where
    at_l : net''.places l ≡ drop (demand ((l, required) ∷ inputs) l) (net.places l)
    at_l =
        u.places l
        ∙ ap (λ o. drop (amount o) (net'.places l)) absent
        ∙ t.here
        ∙ ap (λ o. drop (amount o) (net.places l)) (sym (lookup_same l required inputs))

module _ (R : BotRedis) (up : IsUp R) where
  open R use {Db, view}

  pop_marker-Goes :
      (l : String) (d : Db)
      → Goes
          (pop_marker R l)
          d
          λ o d'. (o ≡ head? ((view d).places l)) × (view d' ≡ change_place l tail (view d))
  unfolding pop_marker
  pop_marker-Goes l d =
      let (o, e) = up.lpop-answers l d in
      record { answer = o; answers = e; holds = (R.lpop-Updates l d).0 o e }

  pop_markers-Goes :
      (l : String) (n : ℕ) (d : Db)
      → Goes (pop_markers R l n) d λ ms d'. TookFrom l n (view d) ms (view d')
  unfolding pop_markers
  pop_markers-Goes l zero d =
      pure-Goes [] (record { markers = refl; here = refl; elsewhere = λ j ne. refl; sent = refl })
  pop_markers-Goes l (suc n) d =
      >>=-Goes (attempt (pop_marker R l)) _ (attempt-Goes (pop_marker R l) (pop_marker-Goes l d))
        λ o d' (o', e, popped). >>=-Goes (pop_markers R l n) _ (pop_markers-Goes l n d') λ ms d'' t.
          pure-Goes _ (
            subst (λ x. TookFrom l (suc n) (view d) (and_popped x ms) (view d'')) (sym e)
              (TookFrom-suc popped.0 popped.1 t))

  pub pop_inputs-Goes :
      (inputs : Inputs) (d : Db)
      → IsMap inputs
      → Goes (pop_inputs R inputs) d λ ms d'. Took inputs (view d) ms (view d')
  unfolding pop_inputs
  pop_inputs-Goes [] d h = pure-Goes [] (record { markers = refl; places = λ l. refl; sent = refl })
  pop_inputs-Goes ((l, required) ∷ inputs) d (absent, h) =
      >>=-Goes (pop_markers R l (pos_part required)) _ (pop_markers-Goes l (pos_part required) d)
        λ ms d' t.
          >>=-Goes (pop_inputs R inputs) _ (pop_inputs-Goes inputs d' h)
            λ more d'' u. pure-Goes (ms ++ more) (Took-cons absent t u)

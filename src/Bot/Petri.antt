-- ===== src/Bot/Petri.antt =====
-- The step of a session as a Petri net, while no Redis command fails.
use beta.Base.{
  Result, err, ◌≡◌, ◌∙◌, refl, sym, ap, subst, ◌⊎◌, inl, inr, String, Bool, true, false, none, some,
  List, [], ◌∷◌, ◌++◌, ok, lookup, IsMap, All, Bool-cases, if◌then◌else◌,
}
use beta.Base.Io.{Io, ◌>>=◌, attempt, or_none, finally}
use beta.Base.Goes.{Goes, >>=-Goes, >>-Goes, pure-Goes}
use beta.Bot.{
  BotRedis, BotError, BotTransitionConfig, Net, Marker, Inputs, Sent, check_inputs, pop_inputs,
  dispatch, event_of, when_enabled, with_inputs, fire, fire_all, when_locked, step,
}
use beta.Bot.Markers.{drop, holds_inputs, amount, demand, taken, IsUp}
use beta.Bot.Check.{check_inputs-Goes}
use beta.Bot.Popping.{Took, pop_inputs-Goes}

abbrev pub is_enabled : Inputs → (String → List Marker) → Bool
is_enabled [] places = false
is_enabled (i ∷ is) places = holds_inputs (i ∷ is) places

-- Another order of the same entries.
pub record IsVisit (visit : Inputs → Inputs) : Type 0 where
  pub entries : (m : Inputs) (l : String) → lookup l (visit m) ≡ lookup l m
  pub once : (m : Inputs) → IsMap m → IsMap (visit m)

abbrev pub task_of : (Inputs → Inputs) → BotTransitionConfig → Net → Sent
task_of visit t net = record {
  transition = t.name;
  markers = taken (visit t.inputs) net.places;
  waits = t.confirm;
}

-- A call of the dispatcher with the task that failed.
abbrev pub Lost : BotRedis → Sent → Type 0
Lost R s = (d : R.Db) × (e : BotError) × ((R.send s d).0 ≡ err e)

-- The inputs are taken from their locations, and go with one task; it is not sent only if the
-- dispatcher fails.
pub record Fired (R : BotRedis) (visit : Inputs → Inputs) (t : BotTransitionConfig) (net net' : Net)
    : Type 0 where
  pub places : (l : String) → net'.places l ≡ drop (demand t.inputs l) (net.places l)
  pub sent :
      (net'.sent ≡ net.sent ++ task_of visit t net ∷ [])
      ⊎ ((net'.sent ≡ net.sent) × Lost R (task_of visit t net))

-- Each transition in turn fires if it is enabled, and else changes nothing.
pub data Fires (R : BotRedis) (visit : Inputs → Inputs)
    : List BotTransitionConfig → Net → Net → Type 0 where
  done : (net : Net) → Fires R visit [] net net
  fired :
      {t : BotTransitionConfig} {ts : List BotTransitionConfig} {net net' net'' : Net}
      → is_enabled t.inputs net.places ≡ true
      → Fired R visit t net net'
      → Fires R visit ts net' net''
      → Fires R visit (t ∷ ts) net net''
  skipped :
      {t : BotTransitionConfig} {ts : List BotTransitionConfig} {net net' net'' : Net}
      → is_enabled t.inputs net.places ≡ false
      → net' ≡ net
      → Fires R visit ts net' net''
      → Fires R visit (t ∷ ts) net net''

-- One transition.
abbrev One : BotRedis → (Inputs → Inputs) → BotTransitionConfig → Net → Net → Type 0
One R visit t net net' =
    ((is_enabled t.inputs net.places ≡ true) × Fired R visit t net net')
    ⊎ ((is_enabled t.inputs net.places ≡ false) × (net' ≡ net))

module _ (R : BotRedis) (up : IsUp R) (visit : Inputs → Inputs) (v : IsVisit visit) where
  open R use {Db, view}

  -- A call whose failure is passed over answers, whatever became of it.
  attempt_any-Goes :
      {A : Type 0} (m : Io Db BotError A) (d : Db) → Goes (attempt m) d λ o d'. d' ≡ (m d).1
  unfolding attempt
  attempt_any-Goes m d = record { answer = or_none (m d).0; answers = refl; holds = refl }

  sent_or_Lost :
      (s : Sent) (d : Db) (answer : Result BotError String) (net' : Net)
      → (R.send s d).0 ≡ answer
      → net' ≡ view (R.send s d).1
      → ((l : String) → net'.places l ≡ (view d).places l)
        × ((net'.sent ≡ (view d).sent ++ s ∷ []) ⊎ ((net'.sent ≡ (view d).sent) × Lost R s))
  sent_or_Lost s d (ok a) net' e same =
      let f = same ∙ (R.send-Writes s d).0 a e in
      (λ l. ap (λ (w : Net). w.places l) f, inl (ap (λ (w : Net). w.sent) f))
  sent_or_Lost s d (err x) net' e same = elim (R.send-Writes s d).1 [
    | inl f ↦ (
      λ l. ap (λ (w : Net). w.places l) (same ∙ f),
      inr (ap (λ (w : Net). w.sent) (same ∙ f), (d, x, e)),
    )
    | inr f ↦
        (λ l. ap (λ (w : Net). w.places l) (same ∙ f), inl (ap (λ (w : Net). w.sent) (same ∙ f)))
  ]

  abbrev Dispatched : BotTransitionConfig → List Marker → Net → Net → Type 0
  Dispatched t ms net net' =
      let s : Sent = record { transition = t.name; markers = ms; waits = t.confirm } in
      ((l : String) → net'.places l ≡ net.places l)
      × ((net'.sent ≡ net.sent ++ s ∷ []) ⊎ ((net'.sent ≡ net.sent) × Lost R s))

  dispatch-Goes :
      (t : BotTransitionConfig) (ms : List Marker) (d : Db)
      → Goes (dispatch R t ms) d λ _ d'. Dispatched t ms (view d) (view d')
  unfolding dispatch
  dispatch-Goes t ms d =
      let s : Sent = record { transition = t.name; markers = ms; waits = t.confirm } in
      >>=-Goes (attempt (R.send s)) _ (attempt_any-Goes (R.send s) d) λ o d' e.
        >>=-Goes (attempt (R.push_event (event_of t o))) _
          (attempt_any-Goes (R.push_event (event_of t o)) d')
          λ o' d'' f. pure-Goes tt (
            sent_or_Lost s d (R.send s d).0 (view d'') refl
              (ap view f ∙ R.push_event-Keeps (event_of t o) d' ∙ ap view e))

  Took-Fired :
      {t : BotTransitionConfig} {net net' net'' : Net} {ms : List Marker}
      → Took (visit t.inputs) net ms net'
      → Dispatched t ms net' net''
      → Fired R visit t net net''
  Took-Fired {t} {net} {net'} {net''} {ms} k (places, sent) = record {
    places = λ l.
        places l ∙ k.places l ∙ ap (λ o. drop (amount o) (net.places l)) (v.entries t.inputs l);
    sent = elim sent [
      | inl e ↦ inl (
          e
          ∙ ap
              (λ (x : List Marker × List Sent).
                x.1 ++ record { transition = t.name; markers = x.0; waits = t.confirm } ∷ [])
              (cc (k.markers, k.sent)))
      | inr (e, lost) ↦ inr (
        e ∙ k.sent,
        subst (λ ms. Lost R (record { transition = t.name; markers = ms; waits = t.confirm }))
            k.markers lost,
      )
    ];
  }

  enabled_by :
      (t : BotTransitionConfig) (inputs : Inputs) (places : String → List Marker) (b : Bool)
      → inputs ≡ t.inputs
      → is_enabled inputs places ≡ b
      → is_enabled t.inputs places ≡ b
  enabled_by t inputs places b e f = subst (λ m. is_enabled m places ≡ b) e f

  when_enabled-Goes :
      (t : BotTransitionConfig) (d d' : Db)
      → view d' ≡ view d
      → IsMap t.inputs
      → is_enabled t.inputs (view d).places ≡ true
      → Goes (when_enabled R visit t (some t.inputs)) d' λ _ d''. One R visit t (view d) (view d'')
  when_enabled-Goes t d d' same h enabled =
      >>=-Goes (pop_inputs R (visit t.inputs)) _
        (pop_inputs-Goes R up (visit t.inputs) d' (v.once t.inputs h))
        λ ms d2 took.
          let g = dispatch-Goes t ms d2 in
          record {
            answer = g.answer;
            answers = g.answers;
            holds = inl (
              enabled,
              subst (λ n. Fired R visit t n (view (dispatch R t ms d2).1)) same
                  (Took-Fired took g.holds),
            );
          }

  with_inputs-Goes :
      (t : BotTransitionConfig) (inputs : Inputs) (d : Db)
      → inputs ≡ t.inputs
      → IsMap t.inputs
      → Goes (with_inputs R visit t inputs) d λ _ d'. One R visit t (view d) (view d')
  with_inputs-Goes t [] d e h =
      pure-Goes tt (inr (enabled_by t [] (view d).places false e refl, refl))
  with_inputs-Goes t (i ∷ is) d e h =
      >>=-Goes (check_inputs R (i ∷ is)) (when_enabled R visit t)
        (check_inputs-Goes R up (i ∷ is) d d refl)
        λ o d' (same, checked). elim (Bool-cases (holds_inputs (i ∷ is) (view d).places)) [
          | inl held ↦
              subst
                (λ o. Goes (when_enabled R visit t o) d' λ _ d''. One R visit t (view d) (view d''))
                (sym (checked ∙ ap (λ b. if b then some (i ∷ is) else none) held ∙ ap some e))
                (when_enabled-Goes t d d' same h
                  (enabled_by t (i ∷ is) (view d).places true e held))
          | inr short ↦
              subst
                (λ o. Goes (when_enabled R visit t o) d' λ _ d''. One R visit t (view d) (view d''))
                (sym (checked ∙ ap (λ b. if b then some (i ∷ is) else none) short))
                (pure-Goes tt (inr (enabled_by t (i ∷ is) (view d).places false e short, same)))
        ]

  fire-Goes :
      (t : BotTransitionConfig) (d : Db)
      → IsMap t.inputs
      → Goes (fire R visit t) d λ _ d'. One R visit t (view d) (view d')
  unfolding fire
  fire-Goes t d h = with_inputs-Goes t t.inputs d refl h

  One-Fires :
      {t : BotTransitionConfig} {ts : List BotTransitionConfig} {net net' net'' : Net}
      → One R visit t net net'
      → Fires R visit ts net' net''
      → Fires R visit (t ∷ ts) net net''
  One-Fires (inl (enabled, f)) rest = fired enabled f rest
  One-Fires (inr (disabled, e)) rest = skipped disabled e rest

  fire_all-Goes :
      (ts : List BotTransitionConfig) (d : Db)
      → All (λ (t : BotTransitionConfig). IsMap t.inputs) ts
      → Goes (fire_all R visit ts) d λ _ d'. Fires R visit ts (view d) (view d')
  unfolding fire_all
  fire_all-Goes [] d h = pure-Goes tt (done (view d))
  fire_all-Goes (t ∷ ts) d (h, hs) =
      >>-Goes {P = λ d'. One R visit t (view d) (view d')} (fire R visit t) (fire_all R visit ts)
        (fire-Goes t d h)
        λ d' one.
          let g = fire_all-Goes ts d' hs in
          record { answer = g.answer; answers = g.answers; holds = One-Fires one g.holds }

  -- While Redis answers and the lock is obtained, in whatever order the locations are visited: a step
  -- goes through the transitions, whose inputs name each location once, by the rules of a Petri net.
  -- One that has inputs, and as many markers at each of their locations as it asks for, takes exactly
  -- these from the front of the locations, and they go with one task for the dispatcher, or are lost,
  -- which is only if a call of the dispatcher with this task fails; any other changes nothing.
  pub step-Fires :
      (ts : List BotTransitionConfig) (d : Db)
      → (R.acquire d).0 ≡ ok tt
      → All (λ (t : BotTransitionConfig). IsMap t.inputs) ts
      → Fires R visit ts (view d) (view (step R visit ts d).1)
  unfolding step finally attempt ◌>>=◌
  step-Fires ts d e h =
      let d1 : Db = (R.acquire d).1 in
      let d2 : Db = (fire_all R visit ts d1).1 in
      let inner : Fires R visit ts (view d) (view d2) =
        subst (λ n. Fires R visit ts n (view d2)) (R.acquire-Keeps d)
          (fire_all-Goes ts d1 h).holds in
      subst (λ r. Fires R visit ts (view d) (view (when_locked R visit ts (or_none r) d1).1))
        (sym e) (subst (Fires R visit ts (view d)) (sym (R.release-view d2)) inner)

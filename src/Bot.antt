-- ===== src/Bot.antt =====
-- pkg/abstractions/experimental/bot: the network of a bot session, whose locations hold markers in
-- Redis, and the step that fires its transitions. The workspace, the stub and the session, which
-- every key names, are fixed; the encoding of markers is part of the commands.
pub mod Markers
pub mod Check
pub mod Popping
pub mod Petri
use beta.Base.{
  ℕ, zero, suc, ◌+◌, ◌≡◌, String, Bool, true, false, Option, none, some, List, [], ◌∷◌, ◌++◌,
  length, str_eq, if◌then◌else◌,
}
use beta.Base.Int.{ℤ, pos, pos_part, ltb_ℤ}
use beta.Base.Io.{Io, Reads, Writes, Updates, ◌>>=◌, ◌>>◌, pure, fail, attempt, finally}
use beta.Base.Keeps.{Keeps}

pub record Marker : Type 0 where
  pub location_name : String
  pub fields : List (String × String)
  pub source_task_id : String

-- A map is the list of its entries, in an order in which `range` visits them.
abbrev pub Inputs : Type 0
Inputs = List (String × ℤ)

-- What a step reads of the configuration of a transition.
pub record BotTransitionConfig : Type 0 where
  pub name : String
  pub inputs : Inputs
  pub confirm : Bool

-- A task that was handed to the dispatcher: to be executed, or to wait for a confirmation.
pub record Sent : Type 0 where
  pub transition : String
  pub markers : List Marker
  pub waits : Bool

pub data BotEvent : Type 0 where
  confirm_transition transition_fired : String → String → BotEvent
  transition_failed : String → BotEvent

-- The markers of the locations, and the tasks that were sent.
pub record Net : Type 0 where
  pub places : String → List Marker
  pub sent : List Sent

abbrev pub head? {ℓ} : {A : Type ℓ} → List A → Option A
head? [] = none
head? (x ∷ xs) = some x

abbrev pub tail {ℓ} : {A : Type ℓ} → List A → List A
tail [] = []
tail (x ∷ xs) = xs

abbrev pub change_place : String → (List Marker → List Marker) → Net → Net
change_place l f net = record net {
  places = λ j. if str_eq l j then f (net.places j) else net.places j;
}

pub data BotError : Type 0 where
  redis_failed lock_not_obtained not_sent : BotError

pub record BotRedis : Type 1 where
  pub Db : Type 0
  pub view : Db → Net
  pub acquire : Io Db BotError (Unit {0})
  pub release : Db → Db
  pub llen : String → Io Db BotError ℕ
  pub lpop : String → Io Db BotError (Option Marker)
  pub rpush : String → Marker → Io Db BotError (Unit {0})
  -- The dispatcher's `Send`, or `SendAndExecute` for a task that does not wait; its answer is the
  -- id of the task.
  pub send : Sent → Io Db BotError String
  pub push_event : BotEvent → Io Db BotError (Unit {0})
  pub acquire-Keeps : Keeps view acquire
  pub release-view : (d : Db) → view (release d) ≡ view d
  pub llen-Reads : (l : String) → Reads view (llen l) (λ net. length (net.places l))
  pub lpop-Updates :
      (l : String) → Updates view (lpop l) (change_place l tail) (λ net. head? (net.places l))
  pub rpush-Writes :
      (l : String) (m : Marker) → Writes view (rpush l m) (change_place l (λ ms. ms ++ m ∷ []))
  pub send-Writes :
      (s : Sent) → Writes view (send s) (λ net. record net { sent = net.sent ++ s ∷ [] })
  pub push_event-Keeps : (e : BotEvent) → Keeps view (push_event e)

-- Too few markers are known to be there.
abbrev pub is_short : ℤ → Option ℕ → Bool
is_short required none = false
is_short required (some count) = ltb_ℤ (pos count) required

-- A location that could not be counted is passed over, and then not popped from.
abbrev pub to_pop : String → ℤ → Option ℕ → Option Inputs → Option Inputs
to_pop l required count none = none
to_pop l required none (some rest) = some rest
to_pop l required (some count) (some rest) = some ((l, required) ∷ rest)

-- A marker that could not be popped is left out.
abbrev pub and_popped : Option (Option Marker) → List Marker → List Marker
and_popped (some (some m)) ms = m ∷ ms
and_popped _ ms = ms

abbrev pub event_of : BotTransitionConfig → Option String → BotEvent
event_of t none = transition_failed t.name
event_of t (some task_id) =
    if t.confirm then confirm_transition t.name task_id else transition_fired t.name task_id

module _ (R : BotRedis) where
  open R use {Db, acquire, release, llen, lpop, rpush, send, push_event}

  unfoldable pub count_markers : String → Io Db BotError ℕ
  count_markers l = llen l

  unfoldable pub push_marker : String → Marker → Io Db BotError (Unit {0})
  push_marker l m = rpush l m

  unfoldable pub pop_marker : String → Io Db BotError (Option Marker)
  pop_marker l = lpop l

  abbrev pub after_count :
      String → ℤ → Io Db BotError (Option Inputs) → Option ℕ → Io Db BotError (Option Inputs)
  after_count l required rest count =
      if is_short required count
      then pure none
      else (rest >>= λ r. pure (to_pop l required count r))

  -- The loop over the inputs: `markersToPop`, or `none` if the transition cannot fire.
  unfoldable pub check_inputs : Inputs → Io Db BotError (Option Inputs)
  check_inputs [] = pure (some [])
  check_inputs ((l, required) ∷ inputs) =
      let rest = check_inputs inputs in attempt (count_markers l) >>= after_count l required rest

  unfoldable pub pop_markers : String → ℕ → Io Db BotError (List Marker)
  pop_markers l zero = pure []
  pop_markers l (suc n) =
      attempt (pop_marker l) >>= λ o. pop_markers l n >>= λ ms. pure (and_popped o ms)

  unfoldable pub pop_inputs : Inputs → Io Db BotError (List Marker)
  pop_inputs [] = pure []
  pop_inputs ((l, required) ∷ inputs) =
      pop_markers l (pos_part required) >>= λ ms. pop_inputs inputs >>= λ more. pure (ms ++ more)

  -- What happens with the popped markers: they go with a task, and an event tells how that went.
  unfoldable pub dispatch : BotTransitionConfig → List Marker → Io Db BotError (Unit {0})
  dispatch t markers =
      let s : Sent = record { transition = t.name; markers = markers; waits = t.confirm } in
      attempt (send s) >>= λ o. attempt (push_event (event_of t o)) >>= λ _. pure tt

  -- `visit` is the order in which the second loop meets the entries of `markersToPop`.
  module _ (visit : Inputs → Inputs) where
    abbrev pub when_enabled : BotTransitionConfig → Option Inputs → Io Db BotError (Unit {0})
    when_enabled t none = pure tt
    when_enabled t (some inputs) = pop_inputs (visit inputs) >>= dispatch t

    abbrev pub with_inputs : BotTransitionConfig → Inputs → Io Db BotError (Unit {0})
    with_inputs t [] = pure tt
    with_inputs t (i ∷ is) = check_inputs (i ∷ is) >>= when_enabled t

    unfoldable pub fire : BotTransitionConfig → Io Db BotError (Unit {0})
    fire t = with_inputs t t.inputs

    unfoldable pub fire_all : List BotTransitionConfig → Io Db BotError (Unit {0})
    fire_all [] = pure tt
    fire_all (t ∷ ts) = fire t >> fire_all ts

    abbrev pub when_locked :
        List BotTransitionConfig → Option (Unit {0}) → Io Db BotError (Unit {0})
    when_locked ts none = pure tt
    when_locked ts (some _) = finally (fire_all ts) release

    unfoldable pub step : List BotTransitionConfig → Io Db BotError (Unit {0})
    step ts = attempt acquire >>= when_locked ts

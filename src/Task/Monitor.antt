-- ===== src/Task/Monitor.antt =====
-- What the monitor keeps of one task's keys.
use beta.Base.{
  ◌≡◌, ◌∙◌, refl, sym, ap, subst, ℕ, inl, inr, Bool, true, false, Bool-cases, Option, none, some,
  Option-cases, Result, ok, err, leb, ltb,
}
use beta.Base.Io.{attempt}
use beta.Base.Safe.{
  Safe, >>=-Safe, >>=-Preserves, Preserves-Safe, attempt-Safe, pure-Preserves, attempt-Preserves,
}
use beta.Task.Redis.{TaskRedis, TaskKey, TaskMessage, Slot, is_present}
use beta.Task.Store.{is_claimed}
use beta.Task.Dispatcher.{
  Task, IsTask, Executors, AreTasks, Encoding, with_retry, when_unclaimed, retry_task, when_heard,
  when_asked, with_task, monitor_task,
}
use beta.Task.Slots.{Holds, same-Preserves, is_claimed-Preserves}
use beta.Task.Steps.{
  MayRemove, MayRetry, complete_quietly-Preserves, cancelled-Preserves, retry_task-Preserves, Keep,
}

-- The task is what the registered executor makes of the message.
abbrev pub MadeFor : (R : TaskRedis) → Executors R → TaskMessage → Task R → Type 0
MadeFor R executors msg t =
    (factory : TaskMessage → Result (Unit {0}) (Task R)) × (executors msg.executor ≡ some factory)
    × (factory msg ≡ ok t)

module _ (R : TaskRedis) (P : Slot → Type 0) (j : TaskKey) where
  open R use {view, Db}

  -- What the monitor's reasons to act on the task of `msg` must allow.
  pub record MayMonitor (executors : Executors R) (clock now : ℕ) (msg : TaskMessage) : Type 0 where
    pub unknown : executors msg.executor ≡ none → MayRemove P
    pub expired :
        (s : Slot)
        → P s
        → is_present s.claim ≡ false
        → ltb msg.policy.expires clock ≡ true
        → MayRemove P
    pub missed :
        (t : Task R)
        → MadeFor R executors msg t
        → IsTask msg t
        → (s : Slot) → P s
        → is_present s.claim ≡ true
        → (d : Db) → P (view d j)
        → (t.heart_beat d).0 ≡ ok false
        → MayRemove P
          × (leb t.message.policy.max_retries t.message.retries ≡ false
              → MayRetry P (with_retry t.message now))

  -- The claim that a test has found belongs to a slot with the property.
  abbrev Answered : TaskKey → Bool → Type 0
  Answered k b = k ≡ j → (s : Slot) × P s × (b ≡ is_present s.claim)

  is_claimed-Safe : (k : TaskKey) → Safe (Holds R P j) (is_claimed R k) (Answered k)
  unfolding is_claimed
  is_claimed-Safe k d q =
      let (same, answer) = R.exists_claim-Reads k d in
      (
        is_claimed-Preserves R P j k d q,
        λ b e k_eq. (view d j, q, answer b e ∙ ap (λ x. is_present (view d x).claim) k_eq),
      )

  module _ {msg : TaskMessage} (t : Task R) (lawful : IsTask msg t) (executors : Executors R)
      (made : MadeFor R executors msg t) (clock now : ℕ) (encode : Encoding)
      (allowed : msg.key ≡ j → MayMonitor executors clock now msg) where
    own_key : t.message.key ≡ j → msg.key ≡ j
    own_key e = ap (λ m. m.key) (sym lawful.same_message) ∙ e

    -- An answer "no heart beat" of a claimed task.
    abbrev Missed : Bool → Type 0
    Missed b = b ≡ false → (d : Db) × P (view d j) × ((t.heart_beat d).0 ≡ ok false)

    heart_beat-Safe : Safe (Holds R P j) t.heart_beat Missed
    heart_beat-Safe d q = (
      same-Preserves R P j t.heart_beat lawful.heart_beat-Keeps d q,
      λ b e f. (d, q, e ∙ ap ok f),
    )

    when_heard-Preserves :
        (o : Option Bool)
        → ((b : Bool) → o ≡ some b → Missed b)
        → (t.message.key ≡ j → (s : Slot) × P s × (true ≡ is_present s.claim))
        → Keep R P j (when_heard R t now encode o)
    when_heard-Preserves none missed claimed = pure-Preserves (Holds R P j) _ _
    when_heard-Preserves (some true) missed claimed = pure-Preserves (Holds R P j) _ _
    when_heard-Preserves (some false) missed claimed =
        >>=-Preserves (Holds R P j) (attempt (retry_task R t now encode)) _
          (attempt-Preserves (Holds R P j) (retry_task R t now encode) (
            retry_task-Preserves R P j t lawful now encode (λ e. (reason e).0)
              (λ more e. (reason e).1 more)))
          λ _. pure-Preserves (Holds R P j) _ _
      where
        reason :
            t.message.key ≡ j
            → MayRemove P
              × (leb t.message.policy.max_retries t.message.retries ≡ false
                  → MayRetry P (with_retry t.message now))
        reason e =
            let (s, p, c) = claimed e in
            let (d, q, silent) = missed false refl refl in
            (allowed (own_key e)).missed t made lawful s p (sym c) d q silent

    when_unclaimed-Preserves :
        (t.message.key ≡ j → (s : Slot) × P s × (false ≡ is_present s.claim))
        → Keep R P j (when_unclaimed R clock t)
    when_unclaimed-Preserves unclaimed = elim (Bool-cases (ltb t.message.policy.expires clock)) [
      | inl late ↦ rw late (
          cancelled-Preserves R P j t lawful _ λ e.
            let (s, p, c) = unclaimed e in
            (allowed (own_key e)).expired s p (sym c)
              (subst (λ m. ltb m.policy.expires clock ≡ true) lawful.same_message late))
      | inr early ↦ rw early (pure-Preserves (Holds R P j) _ _)
    ]

    when_asked-Preserves :
        (o : Option Bool)
        → ((b : Bool) → o ≡ some b → Answered t.message.key b)
        → Keep R P j (when_asked R clock t now encode o)
    when_asked-Preserves none answered = pure-Preserves (Holds R P j) _ _
    when_asked-Preserves (some true) answered = λ d q.
        (>>=-Safe (Holds R P j) {P' = λ _. Unit {0}} (attempt t.heart_beat) _
          (attempt-Safe (Holds R P j) t.heart_beat heart_beat-Safe)
          (λ o missed.
            Preserves-Safe (Holds R P j) _ (when_heard-Preserves o missed (answered true refl)))
          d q).0
    when_asked-Preserves (some false) answered = when_unclaimed-Preserves (answered false refl)

    with_task-Preserves : Keep R P j (with_task R clock msg.key now encode (ok t))
    with_task-Preserves d q =
        (>>=-Safe (Holds R P j) {P' = λ _. Unit {0}} (attempt (is_claimed R msg.key)) _
          (attempt-Safe (Holds R P j) (is_claimed R msg.key) (is_claimed-Safe msg.key))
          (λ o answered.
            Preserves-Safe (Holds R P j) _
              (when_asked-Preserves o λ b e own. answered b e (own_key own)))
          d q).0

  made-Preserves :
      (executors : Executors R) (clock now : ℕ) (encode : Encoding) (msg : TaskMessage)
      (answer : Result (Unit {0}) (Task R))
      → ((t : Task R) → answer ≡ ok t → IsTask msg t)
      → ((t : Task R) → answer ≡ ok t → MadeFor R executors msg t)
      → (msg.key ≡ j → MayMonitor executors clock now msg)
      → Keep R P j (with_task R clock msg.key now encode answer)
  made-Preserves executors clock now encode msg (err e) lawful made allowed =
      pure-Preserves (Holds R P j) _ _
  made-Preserves executors clock now encode msg (ok t) lawful made allowed =
      with_task-Preserves t (lawful t refl) executors (made t refl) clock now encode allowed

  pub monitor_task-Preserves :
      (executors : Executors R) (clock now : ℕ) (encode : Encoding) (msg : TaskMessage)
      → AreTasks R executors
      → (msg.key ≡ j → MayMonitor executors clock now msg)
      → Keep R P j (monitor_task R executors clock now encode msg)
  unfolding monitor_task
  monitor_task-Preserves executors clock now encode msg tasks allowed =
      elim (Option-cases (executors msg.executor)) [
        | inl unknown ↦
            rw unknown (complete_quietly-Preserves R P j msg.key λ e. (allowed e).unknown unknown)
        | inr (factory, registered) ↦ rw registered (
            made-Preserves executors clock now encode msg (factory msg)
              (λ t e. tasks msg.executor factory msg t registered e)
              (λ t e. (factory, registered, e)) allowed)
      ]

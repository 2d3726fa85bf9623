-- ===== src/Task/Rounds.antt =====
-- A task whose containers never send a heart beat: the monitor retries it until its policy ends
-- that.
use beta.Base.{
  ◌≡◌, ◌∙◌, refl, sym, ap, subst, ℕ, zero, suc, ◌+◌, ◌-◌, ◌^◌, ◌≤◌, ◌<◌, String, Bool, true, false,
  Option, some, Result, ok, leb, arith, if◌then◌else◌,
}
use beta.Base.Io.{Io, ◌>>=◌, ◌>>◌, pure, attempt}
use beta.Base.Goes.{Goes, >>=-Goes, >>-Goes, pure-Goes, attempt-Goes}
use beta.Task.Redis.{TaskRedis, TaskKey, TaskMessage, TaskError, Slot, no_slot, is_present}
use beta.Task.Store.{claim_task, get_task_state, found, is_claimed}
use beta.Task.Dispatcher.{
  Task, exceeded_retry_limit, IsTask, Executors, Encoding, claim, with_retry, retry_task,
  monitor_task, when_heard, when_asked, with_task,
}
use beta.Task.Outcome.{waiting, slot_after, retry_task-Stored, claim_task-Ensures}
use beta.Task.Answers.{Answers, IsUp, claim-answers, retry_task-answers}

module _ (R : TaskRedis) (executors : Executors R) (clock now : ℕ) (encode : Encoding) where
  open R use {Db, view}

  -- A container claims the task, and the monitor looks at it once.
  abbrev pub round : TaskKey → String → Io Db TaskError (Unit {0})
  round k container_id =
      claim R k container_id
      >> (get_task_state R k >>= λ msg. monitor_task R executors clock now encode msg)

  abbrev pub rounds : ℕ → TaskKey → String → Io Db TaskError (Unit {0})
  rounds zero k c = pure tt
  rounds (suc n) k c = round k c >> rounds n k c

  -- The tasks of the executor can be made and encoded, answer to `Cancel` and `Retry`, and never
  -- have a heart beat.
  pub record IsSilent (executor : String) : Type 0 where
    pub factory : TaskMessage → Result (Unit {0}) (Task R)
    pub registered : executors executor ≡ some factory
    pub make : TaskMessage → Task R
    pub makes : (msg : TaskMessage) → factory msg ≡ ok (make msg)
    pub lawful : (msg : TaskMessage) → IsTask msg (make msg)
    pub encodes : (msg : TaskMessage) → encode msg ≡ ok tt
    pub silent : (msg : TaskMessage) (d : Db) → ((make msg).heart_beat d).0 ≡ ok false
    pub cancels : (msg : TaskMessage) → Answers R ((make msg).cancel exceeded_retry_limit)
    pub retries : (msg : TaskMessage) → Answers R (make msg).retry

  abbrev next_slot : TaskMessage → Slot
  next_slot msg =
      if leb msg.policy.max_retries msg.retries then no_slot else waiting (with_retry msg now)

  module _ (up : IsUp R) where
    is_claimed-Goes :
        (k : TaskKey) (d : Db)
        → Goes (is_claimed R k) d λ b d'. (b ≡ is_present (view d k).claim) × (view d' ≡ view d)
    unfolding is_claimed
    is_claimed-Goes k d =
        let (b, e) = up.exists_claim-answers k d in
        let (same, answer) = R.exists_claim-Reads k d in
        record { answer = b; answers = e; holds = (answer b e, same) }

    module _ (msg : TaskMessage) (s : IsSilent msg.executor) where
      abbrev t : Task R
      t = s.make msg

      heart_beat-Goes : (d : Db) → Goes t.heart_beat d λ b d'. (b ≡ false) × (view d' ≡ view d)
      heart_beat-Goes d = record {
        answer = false;
        answers = s.silent msg d;
        holds = (refl, (s.lawful msg).heart_beat-Keeps d);
      }

      retry_task-Goes :
          (d : Db)
          → Goes (retry_task R t now encode) d λ _ d'. view d' t.message.key ≡ slot_after R t now
      retry_task-Goes d =
          let (a, e) =
            retry_task-answers R up t now encode (s.encodes _) (s.retries msg) (s.cancels msg) d in
          record {
            answer = a;
            answers = e;
            holds = (retry_task-Stored R t (s.lawful msg) now encode d).0.holds a e;
          }

      -- The state is in the claim: only a claimed task is asked for its heart beat.
      when_asked-Goes :
          (o : Option Bool) (d : Db)
          → o ≡ some true
          → Goes
              (when_asked R clock t now encode o)
              d
              λ _ d'. view d' t.message.key ≡ slot_after R t now
      when_asked-Goes o d claimed = rw claimed (
          >>=-Goes (attempt t.heart_beat) (when_heard R t now encode)
            (attempt-Goes t.heart_beat (heart_beat-Goes d))
            λ h d1 (b, heard, (silent, same)). rw heard (
              rw silent (
                >>=-Goes (attempt (retry_task R t now encode)) (λ _. pure tt)
                  (attempt-Goes (retry_task R t now encode) (retry_task-Goes d1))
                  λ o d2 (u, done, slot). pure-Goes tt slot)))

      monitor_task-Goes :
          (d : Db)
          → is_present (view d msg.key).claim ≡ true
          → Goes
              (monitor_task R executors clock now encode msg)
              d
              λ _ d'. view d' msg.key ≡ next_slot msg
      unfolding monitor_task
      monitor_task-Goes d claimed = rw s.registered (
          rw (s.makes msg) (
            subst
              (λ (m : TaskMessage).
                Goes (with_task R clock msg.key now encode (ok t)) d
                  λ _ d'. view d' m.key ≡ next_slot m)
              (s.lawful msg).same_message
              (>>=-Goes (attempt (is_claimed R msg.key)) (when_asked R clock t now encode)
                (attempt-Goes (is_claimed R msg.key) (is_claimed-Goes msg.key d))
                λ o d1 (b, asked, (answer, same)).
                  when_asked-Goes o d1 (asked ∙ ap some (answer ∙ claimed)))))

    module _ (executor : String) (s : IsSilent executor) (k : TaskKey) (c : String) where
      claim-Goes :
          (d : Db)
          → Goes
              (claim R k c)
              d
              λ _ d'. (is_present (view d' k).claim ≡ true) × ((view d' k).entry ≡ (view d k).entry)
      unfolding claim claim_task
      claim-Goes d =
          let (a, e) = claim-answers R up k c d in
          record {
            answer = a;
            answers = e;
            holds =
                let slot = claim_task-Ensures R k c d in
                (ap (λ x. is_present x.claim) (slot.holds a e), ap (λ x. x.entry) (slot.holds a e));
          }

      get_task_state-Goes :
          (msg : TaskMessage) (d : Db)
          → (view d k).entry ≡ some msg
          → Goes (get_task_state R k) d λ m d'. (m ≡ msg) × (view d' ≡ view d)
      unfolding get_task_state
      get_task_state-Goes msg d stored =
          let (o, e) = up.get_entry-answers k d in
          let (same, answer) = R.get_entry-Reads k d in
          >>=-Goes {P = λ o d'. (o ≡ some msg) × (view d' ≡ view d)} (R.get_entry k) (found R)
            (record { answer = o; answers = e; holds = (answer o e ∙ stored, same) })
            λ o d' (read, kept). rw read (pure-Goes msg (refl, kept))

      round-Goes :
          (msg : TaskMessage) (d : Db)
          → msg.executor ≡ executor
          → msg.key ≡ k
          → (view d k).entry ≡ some msg
          → Goes (round k c) d λ _ d'. view d' k ≡ next_slot msg
      round-Goes msg d made own stored =
          >>-Goes (claim R k c) _ (claim-Goes d) λ d1 (present, entry).
            >>=-Goes (get_task_state R k) _ (get_task_state-Goes msg d1 (entry ∙ stored))
              λ m d2 (read, same). rw read (
                subst
                  (λ i.
                    Goes (monitor_task R executors clock now encode msg) d2
                      λ _ d'. view d' i ≡ next_slot msg)
                  own
                  (monitor_task-Goes msg (subst IsSilent (sym made) s) d2 (
                    ap (λ i. is_present (view d2 i).claim) own
                    ∙ ap (λ v. is_present (v k).claim) same
                    ∙ present)))

      rounds-Goes :
          (n : ℕ) (msg : TaskMessage) (d : Db)
          → msg.executor ≡ executor
          → msg.key ≡ k
          → msg.policy.max_retries < 2 ^ 64
          → msg.retries + n ≡ msg.policy.max_retries
          → (view d k).entry ≡ some msg
          → Goes (rounds (suc n) k c) d λ _ d'. view d' k ≡ no_slot
      unfolding with_retry
      rounds-Goes zero msg d made own bound left stored =
          let spent : leb msg.policy.max_retries msg.retries ≡ true = ground arith in
          >>-Goes (round k c) (pure tt) (round-Goes msg d made own stored)
            λ d1 slot. pure-Goes tt (slot ∙ rw spent refl)
      rounds-Goes (suc n) msg d made own bound left stored =
          let more : leb msg.policy.max_retries msg.retries ≡ false = ground arith in
          let again : next_slot msg ≡ waiting (with_retry msg now) = rw more refl in
          >>-Goes (round k c) (rounds (suc n) k c) (round-Goes msg d made own stored) λ d1 slot.
            rounds-Goes n (with_retry msg now) d1 made own bound (omega arith)
              (ap (λ x. x.entry) (slot ∙ again))

      -- While no Redis command fails: a stored task whose executor is registered and whose containers
      -- claim it but never send a heart beat is given up after exactly as many rounds of a claim and a
      -- look of the monitor as it has retries left, and one more; then all its keys are gone. Its
      -- policy's number of retries is a 64-bit number.
      pub rounds-given_up :
          (msg : TaskMessage) (d : Db)
          → msg.executor ≡ executor
          → msg.key ≡ k
          → msg.policy.max_retries < 2 ^ 64
          → msg.retries ≤ msg.policy.max_retries
          → (view d k).entry ≡ some msg
          → let (answer, d') = rounds (suc (msg.policy.max_retries - msg.retries)) k c d in
            (answer ≡ ok tt) × (view d' k ≡ no_slot)
      rounds-given_up msg d made own bound allowed stored =
          let g =
            rounds-Goes (msg.policy.max_retries - msg.retries) msg d made own bound (omega arith)
              stored in
          (g.answers, g.holds)

-- ===== src/Task/Outcome.antt =====
-- What a successful `RetryTask` has stored.
use beta.Base.{
  ◌+◌, ◌%◌, ◌≤◌, ◌<◌, ◌⊎◌, arith, ◌≡◌, ◌≢◌, ◌∙◌, refl, sym, ap, ℕ, inl, inr, String, true, false,
  Bool-cases, none, some, Result, ok, err, leb, if◌then◌else◌,
}
use beta.Base.Io.{Io, lift, Ensures, Writes, >>-Ensures, finally-Ensures, call-Ensures, Ensures-map}
use beta.Task.Redis.{TaskRedis, TaskKey, TaskMessage, TaskError, Slot, no_slot, change_slot}
use beta.Task.Store.{
  claim_task, remove_task_claim, set_task_state, set_entry_or_delete, or_clean_up,
  delete_task_state,
}
use beta.Task.Dispatcher.{
  Task, exceeded_retry_limit, IsTask, Encoding, with_retry, complete, cancel_and_complete, reinsert,
  retry_task,
}
use beta.Task.Slots.{key_eq_refl}
use beta.Task.Steps.{retry_task-Preserves}

-- The slot of a task that waits to be claimed again.
abbrev pub waiting : TaskMessage → Slot
waiting msg = record {
  entry = some msg;
  claim = none;
  indexed = true;
  stub_indexed = true;
  claim_indexed = false;
}

-- The changes that single commands make.
abbrev pub claimed_by : String → Slot → Slot
claimed_by container_id s = record s { claim = some container_id }

abbrev pub in_claims : Slot → Slot
in_claims s = record s { claim_indexed = true }

abbrev pub unclaimed : Slot → Slot
unclaimed s = record s { claim = none }

abbrev pub not_in_claims : Slot → Slot
not_in_claims s = record s { claim_indexed = false }

abbrev pub in_index : Slot → Slot
in_index s = record s { indexed = true }

abbrev pub entered : TaskMessage → Slot → Slot
entered msg s = record s { entry = some msg }

abbrev pub in_stub_index : Slot → Slot
in_stub_index s = record s { stub_indexed = true }

module _ (R : TaskRedis) where
  open R use {view, Db}

  pub change_slot_self :
      (k : TaskKey) (f : Slot → Slot) (v : TaskKey → Slot) → change_slot k f v k ≡ f (v k)
  change_slot_self k f v = rw (key_eq_refl k) refl

  pub Writes-Ensures :
      (k : TaskKey) (f : Slot → Slot) (m : Io Db TaskError (Unit {0})) (d : Db)
      → Writes view m (change_slot k f)
      → Ensures m d (λ _ d'. view d' k ≡ f (view d k))
  Writes-Ensures k f m d w =
      call-Ensures λ a e. ap (λ v. v k) ((w d).0 a e) ∙ change_slot_self k f (view d)

  delete_task_state-Ensures :
      (k : TaskKey) (d : Db) → Ensures (delete_task_state R k) d (λ _ d'. view d' k ≡ no_slot)
  unfolding delete_task_state
  delete_task_state-Ensures k d =
      call-Ensures λ a e.
        ap (λ v. v k) (R.delete_all-Writes k d e) ∙ change_slot_self k (λ s. no_slot) (view d)

  pub complete-Ensures :
      (k : TaskKey) (d : Db) → Ensures (complete R k) d (λ _ d'. view d' k ≡ no_slot)
  unfolding complete
  complete-Ensures k d = delete_task_state-Ensures k d

  pub claim_task-Ensures :
      (k : TaskKey) (container_id : String) (d : Db)
      → Ensures
          (claim_task R k container_id)
          d
          λ _ d'. view d' k ≡ in_claims (claimed_by container_id (view d k))
  unfolding claim_task
  claim_task-Ensures k c d = >>-Ensures _ _ λ e. call-Ensures λ a f.
      (Writes-Ensures k in_claims (R.sadd_claim k) _ (R.sadd_claim-Writes k)).holds a f
      ∙ ap in_claims (
          (Writes-Ensures k (claimed_by c) (R.set_claim k c) d (R.set_claim-Writes k c)).holds tt e)

  remove_task_claim-Ensures :
      (k : TaskKey) (d : Db)
      → Ensures (remove_task_claim R k) d λ _ d'. view d' k ≡ not_in_claims (unclaimed (view d k))
  unfolding remove_task_claim
  remove_task_claim-Ensures k d = >>-Ensures _ _ λ e. call-Ensures λ a f.
      (Writes-Ensures k not_in_claims (R.srem_claim k) _ (R.srem_claim-Writes k)).holds a f
      ∙ ap not_in_claims
          ((Writes-Ensures k unclaimed (R.del_claim k) d (R.del_claim-Writes k)).holds tt e)

  or_clean_up-ok :
      (cleanup : Io Db TaskError (Unit {0})) (x : Result TaskError (Unit {0}) × Db)
      → (or_clean_up R cleanup x).0 ≡ ok tt
      → (x.0 ≡ ok tt) × ((or_clean_up R cleanup x).1 ≡ x.1)
  or_clean_up-ok cleanup (ok u, d) e = (e, refl)
  or_clean_up-ok cleanup (err x, d) e = cc

  set_entry_or_delete-Ensures :
      (k : TaskKey) (msg : TaskMessage) (d : Db)
      → Ensures (set_entry_or_delete R k msg) d λ _ d'. view d' k ≡ entered msg (view d k)
  set_entry_or_delete-Ensures k msg d = call-Ensures λ a e.
      let (answered, same) = or_clean_up-ok (delete_task_state R k) (R.set_entry k msg d) e in
      ap (λ x. view x k) same
      ∙ (Writes-Ensures k (entered msg) (R.set_entry k msg) d (R.set_entry-Writes k msg)).holds tt
          answered

  pub set_task_state-Ensures :
      (k : TaskKey) (msg : TaskMessage) (d : Db)
      → Ensures
          (set_task_state R k msg)
          d
          λ _ d'. view d' k ≡ in_stub_index (entered msg (in_index (view d k)))
  unfolding set_task_state
  set_task_state-Ensures k msg d = >>-Ensures _ _ λ e. >>-Ensures _ _ λ f. call-Ensures λ a g.
      (Writes-Ensures k in_stub_index (R.sadd_stub k) _ (R.sadd_stub-Writes k)).holds a g
      ∙ ap in_stub_index (
          (set_entry_or_delete-Ensures k msg _).holds tt f
          ∙ ap (entered msg)
              ((Writes-Ensures k in_index (R.sadd_index k) d (R.sadd_index-Writes k)).holds tt e))

  abbrev pub slot_after : Task R → ℕ → Slot
  slot_after t now =
      if leb t.message.policy.max_retries t.message.retries
      then no_slot
      else waiting (with_retry t.message now)

  module _ {msg : TaskMessage} (t : Task R) (lawful : IsTask msg t) (now : ℕ)
      (encode : Encoding) where
    reinsert-Ensures :
        leb t.message.policy.max_retries t.message.retries ≡ false
        → (d : Db)
        → Ensures
            (reinsert R t now encode)
            d
            λ _ d'. view d' t.message.key ≡ waiting (with_retry t.message now)
    unfolding lift
    reinsert-Ensures more d = >>-Ensures (remove_task_claim R t.message.key) _ λ e.
        >>-Ensures _ _ λ f. >>-Ensures _ _ λ g. call-Ensures λ a h.
          ap (λ v. v t.message.key) (lawful.retry-Keeps _)
          ∙ (set_task_state-Ensures t.message.key (with_retry t.message now) _).holds tt g
          ∙ ap (λ s. in_stub_index (entered (with_retry t.message now) (in_index s)))
              ((remove_task_claim-Ensures t.message.key d).holds tt e)

    body-Ensures :
        (d : Db)
        → Ensures
            (if leb t.message.policy.max_retries t.message.retries
              then cancel_and_complete R t
              else reinsert R t now encode)
            d
            λ _ d'. view d' t.message.key ≡ slot_after t now
    body-Ensures d = elim (Bool-cases (leb t.message.policy.max_retries t.message.retries)) [
      | inl spent ↦ rw spent (
          >>-Ensures (t.cancel exceeded_retry_limit) (complete R t.message.key)
            λ e. complete-Ensures t.message.key _)
      | inr more ↦ rw more (reinsert-Ensures more d)
    ]

    pub retry_task-Stored :
        (d : Db)
        → Ensures (retry_task R t now encode) d (λ _ d'. view d' t.message.key ≡ slot_after t now)
          × ((j : TaskKey) → j ≢ t.message.key → view (retry_task R t now encode d).1 j ≡ view d j)
    unfolding retry_task
    retry_task-Stored d = (
      >>-Ensures (R.acquire t.message.key) _ λ e. finally-Ensures _ (R.release t.message.key) (
          Ensures-map (body-Ensures _)
            λ a d' h. ap (λ v. v t.message.key) (R.release-view t.message.key d') ∙ h),
      λ j ne.
          retry_task-Preserves R (λ s. s ≡ view d j) j t lawful now encode
            (λ e. absurd (ne (sym e))) (λ more e. absurd (ne (sym e))) d refl,
    )

    -- The task was cancelled while its keys were as before, and then they were deleted.
    pub record GivenUp (d d' : Db) : Type 0 where
      pub spent : t.message.policy.max_retries ≤ t.message.retries
      pub at_cancel : Db
      pub untouched : view at_cancel ≡ view d
      pub cancelled : (t.cancel exceeded_retry_limit at_cancel).0 ≡ ok tt
      pub gone : view d' t.message.key ≡ no_slot

    -- The task waits to be claimed again, with one retry more (a 64-bit uint).
    pub record TriedAgain (d' : Db) : Type 0 where
      pub more : t.message.retries < t.message.policy.max_retries
      pub stored : view d' t.message.key ≡ record {
        entry = some (record t.message {
          retries = (t.message.retries + 1) % 18446744073709551616;
          timestamp = now;
        });
        claim = none;
        indexed = true;
        stub_indexed = true;
        claim_indexed = false;
      }

    choice-Ensures :
        (d d0 : Db)
        → view d ≡ view d0
        → Ensures
            (if leb t.message.policy.max_retries t.message.retries
              then cancel_and_complete R t
              else reinsert R t now encode)
            d
            λ _ d'. GivenUp d0 d' ⊎ TriedAgain d'
    unfolding with_retry
    choice-Ensures d d0 same =
        elim (Bool-cases (leb t.message.policy.max_retries t.message.retries)) [
          | inl spent ↦ rw spent (
              >>-Ensures (t.cancel exceeded_retry_limit) (complete R t.message.key) λ e.
                Ensures-map (complete-Ensures t.message.key _) λ a d' gone. inl (record {
                  spent = ground arith;
                  at_cancel = d;
                  untouched = same;
                  cancelled = e;
                  gone = gone;
                }))
          | inr more ↦ rw more (
              Ensures-map (reinsert-Ensures more d)
                λ a d' h. inr (record { more = ground arith; stored = h }))
        ]

    -- `RetryTask` that succeeds has done exactly this: a task that has used up its retries was
    -- cancelled, its keys being as before, and then all of them were deleted; any other one is stored
    -- with one retry more and the time of the retry and otherwise as it was, is a member of both
    -- indexes, and has no claim left. The keys of every other task are as before, also if it fails.
    pub retry_task-Ensures :
        (d : Db)
        → Ensures (retry_task R t now encode) d (λ _ d'. GivenUp d d' ⊎ TriedAgain d')
          × ((j : TaskKey) → j ≢ t.message.key → view (retry_task R t now encode d).1 j ≡ view d j)
    unfolding retry_task
    retry_task-Ensures d = (
      >>-Ensures (R.acquire t.message.key) _ λ e. finally-Ensures _ (R.release t.message.key) (
          Ensures-map (choice-Ensures _ d (R.acquire-Reads t.message.key d).0)
            λ a d' h. released d' h),
      (retry_task-Stored d).1,
    )
      where
        released :
            (d' : Db)
            → GivenUp d d' ⊎ TriedAgain d'
            → GivenUp d (R.release t.message.key d') ⊎ TriedAgain (R.release t.message.key d')
        released d' (inl h) = inl (record {
          spent = h.spent;
          at_cancel = h.at_cancel;
          untouched = h.untouched;
          cancelled = h.cancelled;
          gone = ap (λ v. v t.message.key) (R.release-view t.message.key d') ∙ h.gone;
        })
        released d' (inr h) = inr (record {
          more = h.more;
          stored = ap (λ v. v t.message.key) (R.release-view t.message.key d') ∙ h.stored;
        })

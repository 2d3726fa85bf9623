-- ===== src/Task/Steps.antt =====
-- What the dispatcher's operations keep of one task's keys, on every way out.
use beta.Base.{
  ◌≡◌, ◌≢◌, sym, ap, subst, ℕ, inl, inr, true, false, Bool-cases, none, some, leb, if◌then◌else◌,
}
use beta.Base.Io.{Io, ◌>>=◌, attempt}
use beta.Base.Safe.{
  Preserves, >>=-Preserves, >>-Preserves, pure-Preserves, lift-Preserves, attempt-Preserves,
  finally-Preserves,
}
use beta.Task.Redis.{TaskRedis, TaskKey, TaskMessage, Slot, Removed, key_eq}
use beta.Task.Dispatcher.{
  TaskCancellationReason, Task, IsTask, Encoding, with_retry, complete, cancel_and_complete,
  reinsert, retry_task, complete_quietly,
}
use beta.Task.Slots.{
  Holds, key_eq-≡, key_eq_refl, same-Preserves, delete_task_state-Preserves,
  remove_task_claim-Preserves, set_task_state-Preserves,
}

-- What a retry of the task with key `k` that stores `msg` may do to the slot.
pub record MayRetry (P : Slot → Type 0) (msg : TaskMessage) : Type 0 where
  pub no_claim : (s : Slot) → P s → P (record s { claim = none })
  pub no_claim_index : (s : Slot) → P s → P (record s { claim_indexed = false })
  pub index : (s : Slot) → P s → P (record s { indexed = true })
  pub entry : (s : Slot) → P s → P (record s { entry = some msg })
  pub stub_index : (s : Slot) → P s → P (record s { stub_indexed = true })

abbrev pub MayRemove : (Slot → Type 0) → Type 0
MayRemove P = (s s' : Slot) → Removed s s' → P s → P s'

module _ (R : TaskRedis) (P : Slot → Type 0) (j : TaskKey) where
  open R use {view, Db}

  abbrev pub Keep : {E A : Type 0} → Io Db E A → Type 0
  Keep m = Preserves (Holds R P j) m

  pub complete-Preserves : (k : TaskKey) → (k ≡ j → MayRemove P) → Keep (complete R k)
  unfolding complete
  complete-Preserves k h = delete_task_state-Preserves R P j k h

  pub complete_quietly-Preserves :
      (k : TaskKey) → (k ≡ j → MayRemove P) → Keep (complete_quietly R k)
  complete_quietly-Preserves k h =
      >>=-Preserves (Holds R P j) (attempt (complete R k)) _
        (attempt-Preserves (Holds R P j) (complete R k) (complete-Preserves k h))
        λ _. pure-Preserves (Holds R P j) _ _

  module _ {msg : TaskMessage} (t : Task R) (lawful : IsTask msg t) where
    cancel-Preserves :
        (reason : TaskCancellationReason)
        → (t.message.key ≡ j → MayRemove P)
        → Keep (t.cancel reason)
    cancel-Preserves reason h d q = elim (Bool-cases (key_eq t.message.key j)) [
      | inl same ↦
          let e = key_eq-≡ t.message.key j same in
          h e _ _
            (subst (λ k. Removed (view d k) (view (t.cancel reason d).1 k)) e
              (lawful.cancel-Removed reason d))
            q
      | inr other ↦
          let ne : j ≢ t.message.key = λ e. cc (other, key_eq_refl j, ap (λ k. key_eq k j) e) in
          subst P (sym (lawful.cancel-Keeps reason j ne d)) q
    ]

    pub cancelled-Preserves :
        (reason : TaskCancellationReason)
        → (t.message.key ≡ j → MayRemove P)
        → Keep (attempt (t.cancel reason) >>= λ _. complete_quietly R t.message.key)
    cancelled-Preserves reason removes =
        >>=-Preserves (Holds R P j) (attempt (t.cancel reason)) _
          (attempt-Preserves (Holds R P j) (t.cancel reason) (cancel-Preserves reason removes))
          λ _. complete_quietly-Preserves t.message.key removes

    reinsert-Preserves :
        (now : ℕ) (encode : Encoding)
        → (t.message.key ≡ j → MayRemove P)
        → (t.message.key ≡ j → MayRetry P (with_retry t.message now))
        → Keep (reinsert R t now encode)
    reinsert-Preserves now encode removes retries =
        >>-Preserves (Holds R P j) _ _
          (remove_task_claim-Preserves R P j t.message.key (λ e. (retries e).no_claim)
            (λ e. (retries e).no_claim_index))
          (>>-Preserves (Holds R P j) _ _ (lift-Preserves (Holds R P j) _) (
            >>-Preserves (Holds R P j) _ _
              (set_task_state-Preserves R P j t.message.key (with_retry t.message now)
                (λ e. (retries e).index) (λ e. (retries e).entry) (λ e. (retries e).stub_index)
                removes)
              (same-Preserves R P j t.retry lawful.retry-Keeps)))

    pub retry_task-Preserves :
        (now : ℕ) (encode : Encoding)
        → (t.message.key ≡ j → MayRemove P)
        → (leb t.message.policy.max_retries t.message.retries ≡ false
            → t.message.key ≡ j
            → MayRetry P (with_retry t.message now))
        → Keep (retry_task R t now encode)
    unfolding retry_task
    retry_task-Preserves now encode removes retries =
        >>-Preserves (Holds R P j) _ _
          (same-Preserves R P j (R.acquire t.message.key) λ d. (R.acquire-Reads t.message.key d).0)
          (finally-Preserves (Holds R P j) _ _ body
            λ d q. subst (λ v. P (v j)) (sym (R.release-view t.message.key d)) q)
      where
        body : Keep (
            if leb t.message.policy.max_retries t.message.retries
            then cancel_and_complete R t
            else reinsert R t now encode)
        body = elim (Bool-cases (leb t.message.policy.max_retries t.message.retries)) [
          | inl spent ↦ rw spent (
              >>-Preserves (Holds R P j) _ _ (cancel-Preserves _ removes)
                (complete-Preserves t.message.key removes))
          | inr more ↦ rw more (reinsert-Preserves now encode removes (retries more))
        ]

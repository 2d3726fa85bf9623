-- ===== src/Task/Answers.antt =====
-- Operations answer while no Redis command fails.
use beta.Base.{◌≡◌, sym, subst, ℕ, String, Bool-cases, Result, ok, err, leb, inl, inr}
use beta.Base.Io.{Io, continue, ◌>>=◌, ◌>>◌, lift, finally, ok-injective}
use beta.Task.Redis.{TaskRedis, TaskKey, TaskMessage, TaskError}
use beta.Task.Store.{
  claim_task, remove_task_claim, set_task_state, set_entry_or_delete, or_clean_up,
  delete_task_state,
}
use beta.Task.Dispatcher.{
  Task, exceeded_retry_limit, Encoding, claim, with_retry, complete, cancel_and_complete, reinsert,
  retry_task,
}

module _ (R : TaskRedis) where
  open R use {Db, view}

  abbrev pub Answers : {A : Type 0} → Io Db TaskError A → Type 0
  Answers {A = A} m = (d : Db) → (a : A) × ((m d).0 ≡ ok a)

  continue-answers :
      {A B : Type 0} (f : A → Io Db TaskError B) (x : Result TaskError A × Db) (a : A)
      → x.0 ≡ ok a
      → Answers (f a)
      → (b : B) × ((continue f x).0 ≡ ok b)
  continue-answers f (ok c, d) a e h =
      subst (λ z. (b : _) × ((f z d).0 ≡ ok b)) (sym (ok-injective e)) (h d)
  continue-answers f (err x, d) a e h = cc

  >>=-Answers :
      {A B : Type 0} (m : Io Db TaskError A) (f : A → Io Db TaskError B)
      → Answers m
      → ((a : A) → Answers (f a))
      → Answers (m >>= f)
  unfolding ◌>>=◌
  >>=-Answers m f h k d = let (a, e) = h d in continue-answers f (m d) a e (k a)

  >>-Answers :
      {B : Type 0} (m : Io Db TaskError (Unit {0})) (k : Io Db TaskError B)
      → Answers m
      → Answers k
      → Answers (m >> k)
  unfolding ◌>>◌
  >>-Answers m k h g = >>=-Answers m (λ _. k) h λ _. g

  -- No command fails.
  pub record IsUp : Type 0 where
    pub set_claim-answers : (k : TaskKey) (c : String) → Answers (R.set_claim k c)
    pub del_claim-answers : (k : TaskKey) → Answers (R.del_claim k)
    pub sadd_claim-answers : (k : TaskKey) → Answers (R.sadd_claim k)
    pub srem_claim-answers : (k : TaskKey) → Answers (R.srem_claim k)
    pub sadd_index-answers : (k : TaskKey) → Answers (R.sadd_index k)
    pub sadd_stub-answers : (k : TaskKey) → Answers (R.sadd_stub k)
    pub set_entry-answers : (k : TaskKey) (m : TaskMessage) → Answers (R.set_entry k m)
    pub get_entry-answers : (k : TaskKey) → Answers (R.get_entry k)
    pub delete_all-answers : (k : TaskKey) → Answers (R.delete_all k)
    pub acquire-answers : (k : TaskKey) → Answers (R.acquire k)
    pub exists_claim-answers : (k : TaskKey) → Answers (R.exists_claim k)

  module _ (up : IsUp) where
    pub claim-answers : (k : TaskKey) (c : String) → Answers (claim R k c)
    unfolding claim claim_task
    claim-answers k c =
        >>-Answers (R.set_claim k c) (R.sadd_claim k) (up.set_claim-answers k c)
          (up.sadd_claim-answers k)

    or_clean_up-answers :
        (cleanup : Io Db TaskError (Unit {0})) (x : Result TaskError (Unit {0}) × Db)
        → (a : Unit {0}) × (x.0 ≡ ok a)
        → (a : Unit {0}) × ((or_clean_up R cleanup x).0 ≡ ok a)
    or_clean_up-answers cleanup (ok u, d) h = h
    or_clean_up-answers cleanup (err e, d) (a, h) = cc

    set_task_state-answers : (k : TaskKey) (m : TaskMessage) → Answers (set_task_state R k m)
    unfolding set_task_state
    set_task_state-answers k m = >>-Answers (R.sadd_index k) _ (up.sadd_index-answers k) (
        >>-Answers (set_entry_or_delete R k m) (R.sadd_stub k)
          (λ d.
            or_clean_up-answers (delete_task_state R k) (R.set_entry k m d)
              (up.set_entry-answers k m d))
          (up.sadd_stub-answers k))

    reinsert-answers :
        (t : Task R) (now : ℕ) (encode : Encoding)
        → encode (with_retry t.message now) ≡ ok tt
        → Answers t.retry
        → Answers (reinsert R t now encode)
    unfolding remove_task_claim lift
    reinsert-answers t now encode encoded retrying =
        >>-Answers (remove_task_claim R t.message.key) _
          (>>-Answers (R.del_claim t.message.key) (R.srem_claim t.message.key)
            (up.del_claim-answers t.message.key) (up.srem_claim-answers t.message.key))
          (>>-Answers (lift (encode (with_retry t.message now))) _ (λ d. (tt, encoded))
            (>>-Answers (set_task_state R t.message.key (with_retry t.message now)) t.retry
              (set_task_state-answers t.message.key (with_retry t.message now)) retrying))

    cancel_and_complete-answers :
        (t : Task R) → Answers (t.cancel exceeded_retry_limit) → Answers (cancel_and_complete R t)
    unfolding complete delete_task_state
    cancel_and_complete-answers t cancelling =
        >>-Answers (t.cancel exceeded_retry_limit) (complete R t.message.key) cancelling
          (up.delete_all-answers t.message.key)

    pub retry_task-answers :
        (t : Task R) (now : ℕ) (encode : Encoding)
        → encode (with_retry t.message now) ≡ ok tt
        → Answers t.retry
        → Answers (t.cancel exceeded_retry_limit)
        → Answers (retry_task R t now encode)
    unfolding retry_task finally
    retry_task-answers t now encode encoded retrying cancelling =
        >>-Answers (R.acquire t.message.key) _ (up.acquire-answers t.message.key)
          (elim (Bool-cases (leb t.message.policy.max_retries t.message.retries)) [
            | inl spent ↦ λ d. rw spent (cancel_and_complete-answers t cancelling d)
            | inr more ↦ λ d. rw more (reinsert-answers t now encode encoded retrying d)
          ])

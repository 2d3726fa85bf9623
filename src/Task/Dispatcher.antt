-- ===== src/Task/Dispatcher.antt =====
-- `Dispatcher` of pkg/task/dispatch.go. A task is what its executor's factory makes of a message;
-- `Execute` is left to its executor.
use beta.Base.{
  ℕ, ◌+◌, ◌%◌, ◌^◌, ◌≡◌, ◌≢◌, String, Bool, true, false, Option, none, some, List, [], ◌∷◌, Result,
  ok, err, leb, ltb, if◌then◌else◌,
}
use beta.Base.Io.{Io, ◌>>=◌, ◌>>◌, pure, lift, attempt, finally}
use beta.Base.Keeps.{Keeps}
use beta.Task.Redis.{
  TaskRedis, TaskKey, TaskMessage, TaskPolicy, TaskError, invalid_executor, factory_failed, Removed,
}
use beta.Task.Store.{
  claim_task, remove_task_claim, is_claimed, delete_task_state, set_task_state, get_task_state,
  get_tasks_in_flight,
}

pub data TaskCancellationReason : Type 0 where
  expired exceeded_retry_limit request_cancelled invalid_request_payload : TaskCancellationReason

-- `TaskInterface`, without `Execute`; a method may use Redis.
pub record Task (R : TaskRedis) : Type 0 where
  pub message : TaskMessage
  pub cancel : TaskCancellationReason → Io R.Db TaskError (Unit {0})
  pub retry : Io R.Db TaskError (Unit {0})
  pub heart_beat : Io R.Db TaskError Bool

-- The registered executors: a factory for each name.
abbrev pub Executors : TaskRedis → Type 0
Executors R = String → Option (TaskMessage → Result (Unit {0}) (Task R))

-- A task keeps its message. Its methods leave the other tasks' keys alone; only `Cancel` may change
-- its own, by deleting them.
pub record IsTask {R : TaskRedis} (msg : TaskMessage) (t : Task R) : Type 0 where
  pub same_message : t.message ≡ msg
  pub cancel-Keeps :
      (reason : TaskCancellationReason) (k : TaskKey)
      → k ≢ t.message.key
      → Keeps (λ d. R.view d k) (t.cancel reason)
  pub cancel-Removed :
      (reason : TaskCancellationReason) (d : R.Db)
      → Removed (R.view d t.message.key) (R.view (t.cancel reason d).1 t.message.key)
  pub retry-Keeps : Keeps R.view t.retry
  pub heart_beat-Keeps : Keeps R.view t.heart_beat

abbrev pub AreTasks : (R : TaskRedis) → Executors R → Type 0
AreTasks R executors =
    (name : String) (factory : TaskMessage → Result (Unit {0}) (Task R)) (msg : TaskMessage)
    (t : Task R)
    → executors name ≡ some factory
    → factory msg ≡ ok t
    → IsTask msg t

-- What `Encode` answers for a message.
abbrev pub Encoding : Type 0
Encoding = TaskMessage → Result TaskError (Unit {0})

-- The task id of the key is a fresh UUID. The arguments of a task are left out, and with them what
-- `Encode` and `Decode` do to them: encoding is a parameter, and decoding gives the message back.
unfoldable pub new_message : String → TaskKey → TaskPolicy → ℕ → TaskMessage
new_message executor k policy now = record {
  key = k;
  executor = executor;
  policy = policy;
  retries = 0;
  timestamp = now;
}

-- Retries is a 64-bit uint.
unfoldable pub with_retry : TaskMessage → ℕ → TaskMessage
with_retry msg now = record msg { retries = (msg.retries + 1) % 2 ^ 64; timestamp = now }

module _ (R : TaskRedis) where
  open R use {Db}

  abbrev pub made : Result (Unit {0}) (Task R) → Result TaskError (Task R)
  made (ok t) = ok t
  made (err e) = err factory_failed

  abbrev pub make_task :
      String
      → Option (TaskMessage → Result (Unit {0}) (Task R))
      → TaskMessage
      → Result TaskError (Task R)
  make_task name none msg = err (invalid_executor name)
  make_task name (some factory) msg = made (factory msg)

  unfoldable pub send :
      Executors R → String → TaskKey → TaskPolicy → ℕ → Encoding → Io Db TaskError (Task R)
  unfolding new_message
  send executors executor k policy now encode =
      let msg = new_message executor k policy now in
      lift (make_task executor (executors executor) msg) >>= λ t.
      lift (encode msg) >> (set_task_state R k msg >> pure t)

  unfoldable pub retrieve : Executors R → TaskKey → Io Db TaskError (Task R)
  retrieve executors k =
      get_task_state R k >>= λ msg. lift (make_task msg.executor (executors msg.executor) msg)

  unfoldable pub complete : TaskKey → Io Db TaskError (Unit {0})
  complete k = delete_task_state R k

  unfoldable pub claim : TaskKey → String → Io Db TaskError (Unit {0})
  claim k container_id = claim_task R k container_id

  abbrev pub cancel_and_complete : Task R → Io Db TaskError (Unit {0})
  cancel_and_complete t = t.cancel exceeded_retry_limit >> complete t.message.key

  abbrev pub reinsert : Task R → ℕ → Encoding → Io Db TaskError (Unit {0})
  reinsert t now encode =
      remove_task_claim R t.message.key
      >> (lift (encode (with_retry t.message now))
          >> (set_task_state R t.message.key (with_retry t.message now) >> t.retry))

  unfoldable pub retry_task : Task R → ℕ → Encoding → Io Db TaskError (Unit {0})
  retry_task t now encode =
      R.acquire t.message.key
      >> finally
          (if leb t.message.policy.max_retries t.message.retries
            then cancel_and_complete t
            else reinsert t now encode)
          (R.release t.message.key)

  abbrev pub complete_quietly : TaskKey → Io Db TaskError (Unit {0})
  complete_quietly k = attempt (complete k) >>= λ _. pure tt

  -- The body of the loop of `monitor` for one task; the errors that are only logged are dropped.
  -- `clock` is the time in nanoseconds, `now` in seconds.
  abbrev pub when_unclaimed : ℕ → Task R → Io Db TaskError (Unit {0})
  when_unclaimed clock t =
      if ltb t.message.policy.expires clock
      then (attempt (t.cancel expired) >>= λ _. complete_quietly t.message.key)
      else pure tt

  abbrev pub when_heard : Task R → ℕ → Encoding → Option Bool → Io Db TaskError (Unit {0})
  when_heard t now encode (some false) = attempt (retry_task t now encode) >>= λ _. pure tt
  when_heard t now encode _ = pure tt

  abbrev pub when_asked : ℕ → Task R → ℕ → Encoding → Option Bool → Io Db TaskError (Unit {0})
  when_asked clock t now encode none = pure tt
  when_asked clock t now encode (some true) = attempt t.heart_beat >>= when_heard t now encode
  when_asked clock t now encode (some false) = when_unclaimed clock t

  abbrev pub with_task :
      ℕ → TaskKey → ℕ → Encoding → Result (Unit {0}) (Task R) → Io Db TaskError (Unit {0})
  with_task clock k now encode (err e) = pure tt
  with_task clock k now encode (ok t) = attempt (is_claimed R k) >>= when_asked clock t now encode

  abbrev pub with_factory :
      ℕ
      → TaskMessage
      → ℕ
      → Encoding
      → Option (TaskMessage → Result (Unit {0}) (Task R))
      → Io Db TaskError (Unit {0})
  with_factory clock msg now encode none = complete_quietly msg.key
  with_factory clock msg now encode (some factory) =
      with_task clock msg.key now encode (factory msg)

  unfoldable pub monitor_task :
      Executors R → ℕ → ℕ → Encoding → TaskMessage → Io Db TaskError (Unit {0})
  monitor_task executors clock now encode msg =
      with_factory clock msg now encode (executors msg.executor)

  -- One tick; the clock is read for each task, here through the place of the task in the list.
  unfoldable pub monitor_tasks :
      Executors R → (ℕ → ℕ × ℕ) → Encoding → ℕ → List TaskMessage → Io Db TaskError (Unit {0})
  unfolding monitor_task
  monitor_tasks executors clock encode n [] = pure tt
  monitor_tasks executors clock encode n (msg ∷ msgs) =
      monitor_task executors (clock n).0 (clock n).1 encode msg
      >> monitor_tasks executors clock encode (n + 1) msgs

  unfoldable pub monitor_tick : Executors R → (ℕ → ℕ × ℕ) → Encoding → Io Db TaskError (Unit {0})
  unfolding monitor_tasks
  monitor_tick executors clock encode =
      get_tasks_in_flight R >>= monitor_tasks executors clock encode 0

-- ===== src/Task/Store.antt =====
-- `TaskRedisRepository` of pkg/repository/task_redis.go.
use beta.Base.{ℕ, String, Bool, Option, none, some, List, [], ◌∷◌, Result, ok, err, length}
use beta.Base.Io.{Io, ◌>>=◌, ◌>>◌, pure, fail, attempt}
use beta.Task.Redis.{TaskRedis, TaskKey, TaskMessage, TaskError, not_found}

module _ (R : TaskRedis) where
  open R use {
    Db, set_claim, del_claim, exists_claim, sadd_claim, srem_claim, smembers_claims, sadd_index,
    smembers_index, sadd_stub, smembers_stub, set_entry, get_entry, delete_all,
  }

  unfoldable pub claim_task : TaskKey → String → Io Db TaskError (Unit {0})
  claim_task k container_id = set_claim k container_id >> sadd_claim k

  unfoldable pub remove_task_claim : TaskKey → Io Db TaskError (Unit {0})
  remove_task_claim k = del_claim k >> srem_claim k

  unfoldable pub tasks_claimed : String → String → Io Db TaskError ℕ
  tasks_claimed workspace_name stub_id =
      smembers_claims workspace_name stub_id >>= λ tasks. pure (length tasks)

  unfoldable pub is_claimed : TaskKey → Io Db TaskError Bool
  is_claimed k = exists_claim k

  unfoldable pub delete_task_state : TaskKey → Io Db TaskError (Unit {0})
  delete_task_state k = delete_all k

  -- A call that fails is followed by a cleanup, whose own answer is dropped.
  abbrev pub or_clean_up :
      Io Db TaskError (Unit {0})
      → Result TaskError (Unit {0}) × Db
      → Result TaskError (Unit {0}) × Db
  or_clean_up cleanup (ok u, d) = (ok u, d)
  or_clean_up cleanup (err e, d) = (err e, (cleanup d).1)

  abbrev pub set_entry_or_delete : TaskKey → TaskMessage → Io Db TaskError (Unit {0})
  set_entry_or_delete k msg d = or_clean_up (delete_task_state k) (set_entry k msg d)

  unfoldable pub set_task_state : TaskKey → TaskMessage → Io Db TaskError (Unit {0})
  set_task_state k msg = sadd_index k >> (set_entry_or_delete k msg >> sadd_stub k)

  abbrev pub found : Option TaskMessage → Io Db TaskError TaskMessage
  found none = fail not_found
  found (some msg) = pure msg

  unfoldable pub get_task_state : TaskKey → Io Db TaskError TaskMessage
  get_task_state k = get_entry k >>= found

  unfoldable pub tasks_in_flight : String → String → Io Db TaskError ℕ
  tasks_in_flight workspace_name stub_id =
      smembers_stub workspace_name stub_id >>= λ tasks. pure (length tasks)

  -- A key of the index without an entry is deleted; one that could not be read is passed over.
  abbrev pub drop_dangling : TaskKey → Option (Option TaskMessage) → Io Db TaskError (Unit {0})
  drop_dangling k none = pure tt
  drop_dangling k (some none) = attempt (delete_task_state k) >>= λ _. pure tt
  drop_dangling k (some (some msg)) = pure tt

  abbrev pub add_found : Option (Option TaskMessage) → List TaskMessage → List TaskMessage
  add_found (some (some msg)) messages = msg ∷ messages
  add_found _ messages = messages

  unfoldable pub in_flight_among : List TaskKey → Io Db TaskError (List TaskMessage)
  in_flight_among [] = pure []
  in_flight_among (k ∷ ks) = attempt (get_entry k) >>= λ read.
      drop_dangling k read >> (in_flight_among ks >>= λ rest. pure (add_found read rest))

  unfoldable pub get_tasks_in_flight : Io Db TaskError (List TaskMessage)
  unfolding in_flight_among
  get_tasks_in_flight = smembers_index >>= in_flight_among

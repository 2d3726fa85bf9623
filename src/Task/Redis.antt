-- ===== src/Task/Redis.antt =====
-- The task message of pkg/types/task.go, and the Redis commands that pkg/repository/task_redis.go
-- sends. The arguments of a task are passed on as they are and are left out; the encoding of a
-- message is part of the commands.
use beta.Base.{
  ℕ, ◌≡◌, ◌⊎◌, String, Bool, true, false, ◌&&◌, Option, none, some, List, Memᴰ, ◌↔◌, ok, str_eq,
  if◌then◌else◌,
}
use beta.Base.Int.{ℤ}
use beta.Base.Io.{Io, Reads, Writes}
use beta.Base.Keeps.{Keeps}

pub record TaskPolicy : Type 0 where
  pub max_retries : ℕ  -- uint
  pub timeout : ℤ
  pub expires : ℕ  -- nanoseconds
  pub ttl : ℕ  -- uint32

-- The names that the keys of a task are built from. None of them has a ':', so that
-- `GetTasksInFlight` finds them again by splitting a key.
pub record TaskKey : Type 0 where
  pub workspace_name : String
  pub stub_id : String
  pub task_id : String

pub record TaskMessage : Type 0 where
  pub key : TaskKey
  pub executor : String
  pub policy : TaskPolicy
  pub retries : ℕ  -- uint
  pub timestamp : ℕ

abbrev pub key_eq : TaskKey → TaskKey → Bool
key_eq j k =
    str_eq j.workspace_name k.workspace_name
    && str_eq j.stub_id k.stub_id
    && str_eq j.task_id k.task_id

-- What Redis holds for one task: its entry, its claim, and whether it is a member of the index of
-- all tasks, of its stub's index and of its stub's claim index.
pub record Slot : Type 0 where
  pub entry : Option TaskMessage
  pub claim : Option String
  pub indexed : Bool
  pub stub_indexed : Bool
  pub claim_indexed : Bool

abbrev pub no_slot : Slot
no_slot = record {
  entry = none;
  claim = none;
  indexed = false;
  stub_indexed = false;
  claim_indexed = false;
}

abbrev pub TaskStore : Type 0
TaskStore = TaskKey → Slot

abbrev pub change_slot : TaskKey → (Slot → Slot) → TaskStore → TaskStore
change_slot k f s j = if key_eq k j then f (s j) else s j

-- Some of the five deletions have taken place.
pub record Removed (s s' : Slot) : Type 0 where
  pub entry : (s'.entry ≡ s.entry) ⊎ (s'.entry ≡ none)
  pub claim : (s'.claim ≡ s.claim) ⊎ (s'.claim ≡ none)
  pub indexed : (s'.indexed ≡ s.indexed) ⊎ (s'.indexed ≡ false)
  pub stub_indexed : (s'.stub_indexed ≡ s.stub_indexed) ⊎ (s'.stub_indexed ≡ false)
  pub claim_indexed : (s'.claim_indexed ≡ s.claim_indexed) ⊎ (s'.claim_indexed ≡ false)

abbrev pub is_present {ℓ} : {A : Type ℓ} → Option A → Bool
is_present none = false
is_present (some a) = true

pub data TaskError : Type 0 where
  redis_failed lock_not_obtained not_found : TaskError
  invalid_executor : String → TaskError
  factory_failed not_encoded not_cancelled not_retried no_heartbeat : TaskError

pub record TaskRedis : Type 1 where
  pub Db : Type 0
  pub view : Db → TaskStore
  pub set_claim : TaskKey → String → Io Db TaskError (Unit {0})
  pub del_claim : TaskKey → Io Db TaskError (Unit {0})
  pub exists_claim : TaskKey → Io Db TaskError Bool
  pub sadd_claim : TaskKey → Io Db TaskError (Unit {0})
  pub srem_claim : TaskKey → Io Db TaskError (Unit {0})
  pub smembers_claims : String → String → Io Db TaskError (List String)
  pub sadd_index : TaskKey → Io Db TaskError (Unit {0})
  pub smembers_index : Io Db TaskError (List TaskKey)
  pub sadd_stub : TaskKey → Io Db TaskError (Unit {0})
  pub smembers_stub : String → String → Io Db TaskError (List String)
  pub set_entry : TaskKey → TaskMessage → Io Db TaskError (Unit {0})
  pub get_entry : TaskKey → Io Db TaskError (Option TaskMessage)
  -- The five deletions of `DeleteTaskState`, sent in one pipeline.
  pub delete_all : TaskKey → Io Db TaskError (Unit {0})
  -- The retry lock of a task.
  pub acquire : TaskKey → Io Db TaskError (Unit {0})
  pub release : TaskKey → Db → Db
  pub set_claim-Writes :
      (k : TaskKey) (c : String)
      → Writes view (set_claim k c) (change_slot k (λ s. record s { claim = some c }))
  pub del_claim-Writes :
      (k : TaskKey) → Writes view (del_claim k) (change_slot k (λ s. record s { claim = none }))
  pub exists_claim-Reads : (k : TaskKey) → Reads view (exists_claim k) (λ s. is_present (s k).claim)
  pub sadd_claim-Writes :
      (k : TaskKey)
      → Writes view (sadd_claim k) (change_slot k (λ s. record s { claim_indexed = true }))
  pub srem_claim-Writes :
      (k : TaskKey)
      → Writes view (srem_claim k) (change_slot k (λ s. record s { claim_indexed = false }))
  pub smembers_claims-Keeps : (ws stub : String) → Keeps view (smembers_claims ws stub)
  pub sadd_index-Writes :
      (k : TaskKey) → Writes view (sadd_index k) (change_slot k (λ s. record s { indexed = true }))
  pub smembers_index-Keeps : Keeps view smembers_index
  pub smembers_index-members :
      (d : Db) (l : List TaskKey)
      → (smembers_index d).0 ≡ ok l
      → (k : TaskKey) → Memᴰ k l ↔ ((view d k).indexed ≡ true)
  pub sadd_stub-Writes :
      (k : TaskKey)
      → Writes view (sadd_stub k) (change_slot k (λ s. record s { stub_indexed = true }))
  pub smembers_stub-Keeps : (ws stub : String) → Keeps view (smembers_stub ws stub)
  pub set_entry-Writes :
      (k : TaskKey) (m : TaskMessage)
      → Writes view (set_entry k m) (change_slot k (λ s. record s { entry = some m }))
  pub get_entry-Reads : (k : TaskKey) → Reads view (get_entry k) (λ s. (s k).entry)
  pub delete_all-Writes :
      (k : TaskKey) (d : Db)
      → (delete_all k d).0 ≡ ok tt
      → view (delete_all k d).1 ≡ change_slot k (λ s. no_slot) (view d)
  -- A pipeline that fails may have been carried out in part.
  pub delete_all-Removed :
      (k : TaskKey) (d : Db)
      → (s : Slot) × (view (delete_all k d).1 ≡ change_slot k (λ _. s) (view d))
        × Removed (view d k) s
  pub acquire-Reads : (k : TaskKey) → Reads view (acquire k) (λ s. tt)
  pub release-view : (k : TaskKey) (d : Db) → view (release k d) ≡ view d

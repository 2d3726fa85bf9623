-- ===== src/Repository/Worker/Redis.antt =====
-- The Redis commands that pkg/repository/worker_redis.go sends. Redis, its client and the lock
-- service are not part of the repository: a command is a field here, with its documented effect on
-- the stored values as a law. A key is given by the id that it is built from; `common.ToSlice` and
-- `common.ToStruct` around a hash are part of the command; expiry of a key is no command.
use beta.Base.{
  ℕ, String, Bool, true, false, Option, none, some, List, [], ◌∷◌, ◌++◌, ◌≡◌, ok, str_eq,
  if◌then◌else◌, length, map,
}
use beta.Base.Io.{Io, Reads, Writes}
use beta.Types.{Worker, ContainerRequest}

pub data RepoError : Type 0 where
  redis_failed lock_not_obtained : RepoError
  worker_not_found : String → RepoError
  invalid_resource_version out_of_capacity invalid_capacity_update : RepoError

-- The stored values.
pub record WorkerStore : Type 0 where
  pub workers : String → Option Worker
  pub index : List String
  pub requests : String → List ContainerRequest

abbrev pub update {ℓ} : {A : Type ℓ} → (String → A) → String → A → String → A
update f k v j = if str_eq k j then v else f j

abbrev pub without : String → List String → List String
without k [] = []
without k (j ∷ l) = let rest = without k l in if str_eq k j then rest else j ∷ rest

abbrev pub set_worker : String → Option Worker → WorkerStore → WorkerStore
set_worker id w s = record s { workers = update s.workers id w }

abbrev pub set_requests : String → List ContainerRequest → WorkerStore → WorkerStore
set_requests id l s = record s { requests = update s.requests id l }

-- SADD keeps one copy of a member.
abbrev pub index_add : String → WorkerStore → WorkerStore
index_add id s = record s { index = id ∷ without id s.index }

abbrev pub index_remove : String → WorkerStore → WorkerStore
index_remove id s = record s { index = without id s.index }

abbrev pub is_present : Option Worker → Bool
is_present none = false
is_present (some w) = true

abbrev pub head? : List ContainerRequest → Option ContainerRequest
head? [] = none
head? (r ∷ l) = some r

abbrev pub tail : List ContainerRequest → List ContainerRequest
tail [] = []
tail (r ∷ l) = l

pub record WorkerRedis : Type 1 where
  pub Db : Type 0
  pub view : Db → WorkerStore
  pub acquire : String → Io Db RepoError (Unit {0})
  pub release : String → Db → Db
  pub hgetall : String → Io Db RepoError (Option Worker)
  pub hset : String → Worker → Io Db RepoError (Unit {0})
  pub exists : String → Io Db RepoError Bool
  pub expire : String → ℕ → Io Db RepoError (Unit {0})
  pub del_state : String → Io Db RepoError (Unit {0})
  pub del_requests : String → Io Db RepoError (Unit {0})
  pub sadd : String → Io Db RepoError (Unit {0})
  pub srem : String → Io Db RepoError (Unit {0})
  pub rpush : String → ContainerRequest → Io Db RepoError (Unit {0})
  pub llen : String → Io Db RepoError ℕ
  pub lpop : String → Io Db RepoError ContainerRequest
  pub smembers : Io Db RepoError (List String)
  -- HGETALL of each key in one pipeline; one that fails makes the pipeline fail.
  pub hgetall_each : List String → Io Db RepoError (List (Option Worker))
  pub acquire-Reads : (k : String) → Reads view (acquire k) (λ s. tt)
  pub release-view : (k : String) (d : Db) → view (release k d) ≡ view d
  pub hgetall-Reads : (k : String) → Reads view (hgetall k) (λ s. s.workers k)
  pub hset-Writes : (k : String) (w : Worker) → Writes view (hset k w) (set_worker k (some w))
  pub exists-Reads : (k : String) → Reads view (exists k) (λ s. is_present (s.workers k))
  pub expire-Reads : (k : String) (n : ℕ) → Reads view (expire k n) (λ s. tt)
  pub del_state-Writes : (k : String) → Writes view (del_state k) (set_worker k none)
  pub del_requests-Writes : (k : String) → Writes view (del_requests k) (set_requests k [])
  pub sadd-Writes : (k : String) → Writes view (sadd k) (index_add k)
  pub srem-Writes : (k : String) → Writes view (srem k) (index_remove k)
  pub rpush-Writes :
      (k : String) (r : ContainerRequest)
      → Writes view (rpush k r) (λ s. set_requests k (s.requests k ++ r ∷ []) s)
  pub llen-Reads : (k : String) → Reads view (llen k) (λ s. length (s.requests k))
  pub lpop-Writes :
      (k : String) → Writes view (lpop k) (λ s. set_requests k (tail (s.requests k)) s)
  -- An empty list is an error (`redis.Nil`).
  pub lpop-answer :
      (k : String) (d : Db) (r : ContainerRequest)
      → (lpop k d).0 ≡ ok r
      → head? ((view d).requests k) ≡ some r
  pub smembers-Reads : Reads view smembers (λ s. s.index)
  pub hgetall_each-Reads : (ks : List String) → Reads view (hgetall_each ks) (λ s. map s.workers ks)

-- ===== src/Repository/Container/Redis.antt =====
-- The Redis commands that pkg/repository/container_redis.go sends, with their documented effect on
-- the stored values. A key is given by the id that it is built from; `common.ToSlice` and
-- `common.ToStruct` around a hash are part of the command; expiry of a key is no command.
use beta.Base.{
  String, Bool, true, false, Option, none, some, List, [], ◌∷◌, ◌≡◌, str_eq, if◌then◌else◌,
}
use beta.Base.Int.{ℤ, pos}
use beta.Base.Io.{Io, Reads, Writes}
use beta.Types.{ContainerState}

pub data ContainerError : Type 0 where
  redis_failed lock_not_obtained invalid_status : ContainerError
  state_not_found : String → ContainerError
  throttled_gpu throttled_cpu : ContainerError

pub record ContainerStore : Type 0 where
  pub states : String → Option ContainerState
  pub stub_index : String → List String
  pub workspace_index : String → List String
  pub worker_index : String → List String
  pub exit_codes : String → Option ℤ
  pub addresses : String → Option String

abbrev pub update {ℓ} : {A : Type ℓ} → (String → A) → String → A → String → A
update f k v j = if str_eq k j then v else f j

abbrev pub without : String → List String → List String
without k [] = []
without k (j ∷ l) = let rest = without k l in if str_eq k j then rest else j ∷ rest

abbrev pub is_present {ℓ} : {A : Type ℓ} → Option A → Bool
is_present none = false
is_present (some w) = true

abbrev pub set_state : String → Option ContainerState → ContainerStore → ContainerStore
set_state id c s = record s { states = update s.states id c }

abbrev pub started_at_of : Option ContainerState → ℤ
started_at_of none = pos 0
started_at_of (some c) = c.started_at

-- HSET of all fields but `started_at`, which an older hash keeps.
abbrev pub merge_state : String → ContainerState → ContainerStore → ContainerStore
merge_state id c s =
    set_state id (some (record c { container_id = id; started_at = started_at_of (s.states id) })) s

pub data Index : Type 0 where
  by_stub by_workspace by_worker : String → Index

abbrev pub members : Index → ContainerStore → List String
members (by_stub k) s = s.stub_index k
members (by_workspace k) s = s.workspace_index k
members (by_worker k) s = s.worker_index k

abbrev pub set_members : Index → List String → ContainerStore → ContainerStore
set_members (by_stub k) l s = record s { stub_index = update s.stub_index k l }
set_members (by_workspace k) l s = record s { workspace_index = update s.workspace_index k l }
set_members (by_worker k) l s = record s { worker_index = update s.worker_index k l }

abbrev pub add_member : Index → String → ContainerStore → ContainerStore
add_member i id s = set_members i (id ∷ without id (members i s)) s

abbrev pub remove_member : Index → String → ContainerStore → ContainerStore
remove_member i id s = set_members i (without id (members i s)) s

abbrev pub set_exit_code : String → ℤ → ContainerStore → ContainerStore
set_exit_code id c s = record s { exit_codes = update s.exit_codes id (some c) }

pub record ContainerRedis : Type 1 where
  pub Db : Type 0
  pub view : Db → ContainerStore
  pub acquire : String → Io Db ContainerError (Unit {0})
  pub release : String → Db → Db
  -- `redislock.Obtain` on the workspace's limit: `false` is `ErrNotObtained`
  pub obtain_limit : String → Io Db ContainerError Bool
  pub release_limit : String → Db → Db
  pub hgetall : String → Io Db ContainerError (Option ContainerState)
  pub hset : String → ContainerState → Io Db ContainerError (Unit {0})
  pub hset_new : String → ContainerState → Io Db ContainerError (Unit {0})
  pub exists : String → Io Db ContainerError Bool
  pub exit_code_exists : String → Io Db ContainerError Bool
  pub expire : String → ℤ → Io Db ContainerError (Unit {0})
  pub del_state : String → Io Db ContainerError (Unit {0})
  pub del_addresses : String → Io Db ContainerError (Unit {0})
  pub sadd : Index → String → Io Db ContainerError (Unit {0})
  pub srem : Index → String → Io Db ContainerError (Unit {0})
  pub smembers : Index → Io Db ContainerError (List String)
  pub set_ex_exit_code : String → ℤ → Io Db ContainerError (Unit {0})
  pub acquire-Reads : (k : String) → Reads view (acquire k) (λ s. tt)
  pub release-view : (k : String) (d : Db) → view (release k d) ≡ view d
  pub obtain_limit-view : (k : String) (d : Db) → view (obtain_limit k d).1 ≡ view d
  pub release_limit-view : (k : String) (d : Db) → view (release_limit k d) ≡ view d
  pub hgetall-Reads : (k : String) → Reads view (hgetall k) (λ s. s.states k)
  pub hset-Writes :
      (k : String) (c : ContainerState) → Writes view (hset k c) (set_state k (some c))
  pub hset_new-Writes :
      (k : String) (c : ContainerState) → Writes view (hset_new k c) (merge_state k c)
  pub exists-Reads : (k : String) → Reads view (exists k) (λ s. is_present (s.states k))
  pub exit_code_exists-Reads :
      (k : String) → Reads view (exit_code_exists k) (λ s. is_present (s.exit_codes k))
  pub expire-Reads : (k : String) (n : ℤ) → Reads view (expire k n) (λ s. tt)
  pub del_state-Writes : (k : String) → Writes view (del_state k) (set_state k none)
  pub del_addresses-Writes :
      (k : String)
      → Writes view (del_addresses k) (λ s. record s { addresses = update s.addresses k none })
  pub sadd-Writes : (i : Index) (k : String) → Writes view (sadd i k) (add_member i k)
  pub srem-Writes : (i : Index) (k : String) → Writes view (srem i k) (remove_member i k)
  pub smembers-Reads : (i : Index) → Reads view (smembers i) (members i)
  pub set_ex_exit_code-Writes :
      (k : String) (c : ℤ) → Writes view (set_ex_exit_code k c) (set_exit_code k c)

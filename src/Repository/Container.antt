-- ===== src/Repository/Container.antt =====
-- pkg/repository/container_redis.go: the states of containers, their indexes, and admission under a
-- workspace's concurrency limit.
pub mod Redis
pub mod Reading
pub mod Listing
pub mod Quota
use beta.Base.{
  ℕ, ◌+◌, String, Bool, true, false, Option, none, some, List, [], ◌∷◌, ok, err, ltb, non_empty,
  if◌then◌else◌,
}
use beta.Base.Int.{ℤ, pos, ltb_ℤ, ◌+ℤ◌}
use beta.Base.Machine.{i64}
use beta.Base.Io.{Io, ◌>>=◌, ◌>>◌, pure, fail, lift, finally, attempt}
use beta.Types.Related.{ConcurrencyLimit}
use beta.Types.{
  ContainerState, ContainerStatus, pending, running, stopping, other_container_status,
  ContainerRequest,
}
use Redis.{
  ContainerRedis, ContainerError, invalid_status, state_not_found, throttled_gpu, throttled_cpu,
  Index, by_stub, by_workspace, by_worker,
}

abbrev pub ttl_while_pending : ℤ
ttl_while_pending = pos 600

-- What `ToStruct` makes of an empty hash.
abbrev pub zero_state : ContainerState
zero_state = record {
  container_id = "";
  stub_id = "";
  status = other_container_status "";
  scheduled_at = pos 0;
  workspace_id = "";
  gpu = "";
  gpu_count = 0;
  cpu = pos 0;
  memory = pos 0;
  started_at = pos 0;
}

abbrev pub state_or_zero : Option ContainerState → ContainerState
state_or_zero none = zero_state
state_or_zero (some c) = c

abbrev pub known_status : ContainerStatus → Bool
known_status pending = true
known_status running = true
known_status stopping = true
known_status (other_container_status s) = false

abbrev pub is_running : ContainerStatus → Bool
is_running running = true
is_running _ = false

abbrev pub is_stopping : ContainerStatus → Bool
is_stopping stopping = true
is_stopping _ = false

abbrev pub is_active_status : ContainerStatus → Bool
is_active_status pending = true
is_active_status running = true
is_active_status _ = false

-- The status change of `UpdateContainerStatus`; `now` is `time.Now().Unix()`.
unfoldable pub with_status : ℤ → ContainerStatus → ContainerState → ContainerState
with_status now status c =
    let started =
      if is_running status
      then (if is_running c.status then c.started_at else now)
      else c.started_at in
    record c { started_at = started; status = status }

-- The state that a new request is given.
unfoldable pub pending_state : ℤ → ContainerRequest → ContainerState
pending_state now r = record {
  container_id = r.container_id;
  stub_id = r.stub_id;
  status = pending;
  scheduled_at = now;
  workspace_id = r.workspace_id;
  gpu = r.gpu;
  gpu_count = r.gpu_count;
  cpu = r.cpu;
  memory = r.memory;
  started_at = pos 0;
}

-- The two sums of the loop over the active containers. The GPU count is an `int` sum of uint32
-- values, which 2^31 containers do not overflow.
unfoldable pub total_gpu_count : ℕ → List ContainerState → ℕ
total_gpu_count n [] = n
total_gpu_count n (c ∷ cs) =
    total_gpu_count (if is_stopping c.status then n else n + c.gpu_count) cs

unfoldable pub total_cpu : ℤ → List ContainerState → ℤ
total_cpu n [] = n
total_cpu n (c ∷ cs) = total_cpu (if is_stopping c.status then n else i64 (n +ℤ c.cpu)) cs

abbrev pub with_id : Option (Option ContainerState) → Option ContainerState
with_id none = none
with_id (some none) = none
with_id (some (some c)) = if non_empty c.container_id then some c else none

abbrev pub append_some : Option ContainerState → List ContainerState → List ContainerState
append_some none l = l
append_some (some c) l = c ∷ l

module _ (R : ContainerRedis) where
  open R use {
    Db, acquire, release, obtain_limit, release_limit, hgetall, hset, hset_new, exists,
    exit_code_exists, expire, del_state, del_addresses, sadd, srem, smembers, set_ex_exit_code,
  }

  abbrev found_state : String → Option ContainerState → Io Db ContainerError ContainerState
  found_state id none = fail (state_not_found id)
  found_state id (some c) = pure c

  unfoldable pub get_container_state : String → Io Db ContainerError ContainerState
  get_container_state id = do acquire id; finally (hgetall id >>= found_state id) (release id)

  unfoldable pub set_container_state : String → ContainerState → Io Db ContainerError (Unit {0})
  set_container_state id c = do
    acquire id
    finally
        (hset_new id c
          >> expire id ttl_while_pending
          >> sadd (by_stub c.stub_id) id
          >> sadd (by_workspace c.workspace_id) id)
        (release id)

  unfoldable pub set_container_exit_code : String → ℤ → Io Db ContainerError (Unit {0})
  set_container_exit_code id code = set_ex_exit_code id code

  unfoldable pub update_container_status :
      ℤ → String → ContainerStatus → ℤ → Io Db ContainerError (Unit {0})
  update_container_status now id status expiry =
      if known_status status
      then (acquire id
          >> finally
              (hgetall id
                >>= (λ c. hset id (with_status now status (state_or_zero c)))
                >> expire id expiry)
              (release id))
      else fail invalid_status

  unfoldable pub update_assigned_container_gpu : String → String → Io Db ContainerError (Unit {0})
  update_assigned_container_gpu id gpu = do
    acquire id
    finally (hgetall id >>= λ c. hset id (record (state_or_zero c) { gpu = gpu })) (release id)

  -- The three address keys are one command here.
  unfoldable pub delete_container_state : String → Io Db ContainerError (Unit {0})
  delete_container_state id = do acquire id; finally (del_state id >> del_addresses id) (release id)

  -- A key without a state stays in the index while its exit code is kept.
  abbrev drop_unless_exited :
      Index → String → Option Bool → Io Db ContainerError (Option ContainerState)
  drop_unless_exited i id none = pure none
  drop_unless_exited i id (some true) = pure none
  drop_unless_exited i id (some false) = attempt (srem i id) >>= λ _. pure none

  abbrev read_listed : Index → String → Option Bool → Io Db ContainerError (Option ContainerState)
  read_listed i id none = pure none
  read_listed i id (some false) = attempt (exit_code_exists id) >>= drop_unless_exited i id
  read_listed i id (some true) = attempt (hgetall id) >>= λ o. pure (with_id o)

  -- The body of the loop; a failed command is a `continue`.
  unfoldable pub list_one : Index → String → Io Db ContainerError (Option ContainerState)
  list_one i id = attempt (exists id) >>= read_listed i id

  unfoldable pub list_container_state_by_index :
      Index → List String → Io Db ContainerError (List ContainerState)
  list_container_state_by_index i [] = pure []
  list_container_state_by_index i (id ∷ ids) =
      list_one i id >>= λ c. list_container_state_by_index i ids >>= λ cs. pure (append_some c cs)

  unfoldable pub get_active_containers : Index → Io Db ContainerError (List ContainerState)
  get_active_containers i = smembers i >>= list_container_state_by_index i

  unfoldable pub check_quota :
      ConcurrencyLimit → ContainerRequest → List ContainerState → Io Db ContainerError (Unit {0})
  check_quota q r cs =
      if ltb q.gpu_limit (total_gpu_count 0 cs + r.gpu_count)
      then fail throttled_gpu
      else if ltb_ℤ (pos q.cpu_millicore_limit) (i64 (total_cpu (pos 0) cs +ℤ r.cpu))
      then fail throttled_cpu
      else pure tt

  abbrev check_limit : Option ConcurrencyLimit → ContainerRequest → Io Db ContainerError (Unit {0})
  check_limit none r = pure tt
  check_limit (some q) r = get_active_containers (by_workspace r.workspace_id) >>= check_quota q r

  -- A lock that is not obtained is no error: the request goes on without it. The lock is nil then, and
  -- its release is the release of the limit here, which leaves the stored values alone.
  unfoldable pub set_container_state_with_concurrency_limit :
      ℤ → Option ConcurrencyLimit → ContainerRequest → Io Db ContainerError (Unit {0})
  set_container_state_with_concurrency_limit now quota r =
      obtain_limit r.workspace_id >>= λ obtained.
      finally (check_limit quota r >> set_container_state r.container_id (pending_state now r))
        (release_limit r.workspace_id)

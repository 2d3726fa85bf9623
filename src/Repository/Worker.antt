-- ===== src/Repository/Worker.antt =====
-- pkg/repository/worker_redis.go: the workers, their index and their request queues in Redis.
pub mod Removed
pub mod Redis
pub mod Capacity
pub mod Accounting
pub mod Index
pub mod Listing
pub mod Cordon
pub mod Counts
pub mod Locked
use beta.Base.{
  ℕ, ◌+◌, String, Bool, true, false, ◌||◌, Option, none, some, List, [], ◌∷◌, Result, ok, err, ltb,
  ◌==◌, str_eq, non_empty, if◌then◌else◌,
}
use beta.Base.Int.{ℤ, pos, ltb_ℤ, ◌+ℤ◌, ◌-ℤ◌}
use beta.Base.Machine.{i64, u32, sub_u32}
use beta.Base.Io.{Io, ◌>>=◌, ◌>>◌, pure, fail, lift, finally}
use beta.Types.{
  Worker, WorkerStatus, available, pending, disabled, other_status, ContainerRequest,
  CapacityUpdateType, add_capacity, remove_capacity, other_capacity_update,
}
use Redis.{
  WorkerRedis, RepoError, worker_not_found, invalid_resource_version, out_of_capacity,
  invalid_capacity_update,
}

-- What `ToStruct` makes of an empty hash.
abbrev pub zero_worker : String → Worker
zero_worker id = record {
  id = id;
  status = other_status "";
  total_cpu = pos 0;
  total_memory = pos 0;
  total_gpu_count = 0;
  free_cpu = pos 0;
  free_memory = pos 0;
  free_gpu_count = 0;
  gpu = "";
  pool_name = "";
  machine_id = "";
  resource_version = pos 0;
  requires_pool_selector = false;
  priority = pos 0;
  preemptable = false;
  build_version = "";
  runtime = "";
}

abbrev pub stored_or_zero : String → Option Worker → Worker
stored_or_zero id none = zero_worker id
stored_or_zero id (some w) = w

abbrev pub same_version : ℤ → ℤ → Bool
same_version a b = if ltb_ℤ a b then false else if ltb_ℤ b a then false else true

add_request : ContainerRequest → Worker → Worker
add_request r w = record w {
  free_cpu = i64 (w.free_cpu +ℤ r.cpu);
  free_memory = i64 (w.free_memory +ℤ r.memory);
  free_gpu_count =
      if non_empty r.gpu then u32 (w.free_gpu_count + r.gpu_count) else w.free_gpu_count;
}

subtract_request : ContainerRequest → Worker → Worker
subtract_request r w = record w {
  free_cpu = i64 (w.free_cpu -ℤ r.cpu);
  free_memory = i64 (w.free_memory -ℤ r.memory);
  free_gpu_count =
      if non_empty r.gpu then sub_u32 w.free_gpu_count r.gpu_count else w.free_gpu_count;
}

-- The last test is `updatedWorker.FreeGpuCount < 0` on a uint32.
abbrev in_deficit : Worker → Bool
in_deficit w = ltb_ℤ w.free_cpu (pos 0) || ltb_ℤ w.free_memory (pos 0) || ltb w.free_gpu_count 0

-- The `switch` of `UpdateWorkerCapacity`.
unfoldable pub change_capacity :
    CapacityUpdateType → ContainerRequest → Worker → Result RepoError Worker
unfolding add_request subtract_request
change_capacity add_capacity r w = ok (add_request r w)
change_capacity remove_capacity r w =
    if in_deficit (subtract_request r w) then err out_of_capacity else ok (subtract_request r w)
change_capacity (other_capacity_update n) r w = err invalid_capacity_update

abbrev pub bump_version : Worker → Worker
bump_version w = record w { resource_version = i64 (w.resource_version +ℤ pos 1) }

abbrev pub bumped : Result RepoError Worker → Result RepoError Worker
bumped (ok w) = ok (bump_version w)
bumped (err e) = err e

-- From the stored worker to the one that is written back.
unfoldable pub updated_capacity :
    Worker → ContainerRequest → CapacityUpdateType → Worker → Result RepoError Worker
updated_capacity worker r t stored =
    if same_version stored.resource_version worker.resource_version
    then bumped (change_capacity t r stored)
    else err invalid_resource_version

abbrev worker_state_ttl_s : ℕ
worker_state_ttl_s = 60

module _ (R : WorkerRedis) where
  open R use {
    Db, acquire, release, hgetall, hset, exists, expire, del_state, del_requests, sadd, srem, rpush,
    llen, lpop,
  }

  unfoldable pub get_worker_from_key : String → Io Db RepoError Worker
  get_worker_from_key id = do found ← hgetall id; pure (stored_or_zero id found)

  -- `ttl` is `CleanupPendingWorkerAgeLimit` of the configuration.
  unfoldable pub add_worker : ℕ → Worker → Io Db RepoError (Unit {0})
  add_worker ttl w = do
    acquire w.id
    finally (sadd w.id >> hset w.id (record w { resource_version = pos 0 }) >> expire w.id ttl)
        (release w.id)

  abbrev pub delete_worker : String → Bool → Io Db RepoError (Unit {0})
  delete_worker id present =
      if present then (srem id >> del_state id >> del_requests id) else fail (worker_not_found id)

  unfoldable pub remove_worker : String → Io Db RepoError (Unit {0})
  remove_worker id = do acquire id; finally (exists id >>= delete_worker id) (release id)

  unfoldable pub update_worker_status : String → WorkerStatus → Io Db RepoError (Unit {0})
  update_worker_status id status = do
    acquire id
    finally
        (get_worker_from_key id
          >>= (λ w. hset id (bump_version (record w { status = status })))
          >> expire id worker_state_ttl_s)
        (release id)

  unfoldable pub set_worker_keep_alive : String → Io Db RepoError (Unit {0})
  set_worker_keep_alive id = expire id worker_state_ttl_s

  unfoldable pub toggle_worker_available : String → Io Db RepoError (Unit {0})
  toggle_worker_available id = update_worker_status id available

  abbrev pub read_if : String → Bool → Io Db RepoError Worker
  read_if id present = if present then get_worker_from_key id else fail (worker_not_found id)

  unfoldable pub get_worker_by_id : String → Io Db RepoError Worker
  get_worker_by_id id = do acquire id; finally (exists id >>= read_if id) (release id)

  -- The stored worker is never nil here, so the branch that falls back to the argument is dead.
  unfoldable pub update_worker_capacity :
      Worker → ContainerRequest → CapacityUpdateType → Io Db RepoError (Unit {0})
  update_worker_capacity worker r t = do
    acquire worker.id
    finally
        (get_worker_from_key worker.id
          >>= (λ stored. lift (updated_capacity worker r t stored))
          >>= hset worker.id)
        (release worker.id)

  unfoldable pub schedule_container_request : Worker → ContainerRequest → Io Db RepoError (Unit {0})
  schedule_container_request worker r = do
    update_worker_capacity worker r remove_capacity
    rpush worker.id r

  abbrev pop_unless_empty : String → ℕ → Io Db RepoError (Option ContainerRequest)
  pop_unless_empty id n = if n == 0 then pure none else (lpop id >>= λ r. pure (some r))

  unfoldable pub get_next_container_request : String → Io Db RepoError (Option ContainerRequest)
  get_next_container_request id = do n ← llen id; pop_unless_empty id n

-- ===== src/WorkerNode/Lifecycle.antt =====
-- The containers of a worker from the request to the return of its capacity: `handleContainerRequest`
-- and `manageWorkerCapacity` of pkg/worker/worker.go, and `spawn`, `finalizeContainer`,
-- `clearContainer` and the stop events of pkg/worker/lifecycle.go.
pub mod Steps
pub mod Kept
pub mod Balance
pub mod Blocked
pub mod Codes
use beta.Base.{
  ℕ, ℕ, zero, suc, String, Bool, true, false, not, ◌&&◌, Option, none, some, List, [], ◌∷◌, ◌++◌,
  Result, ok, err, str_eq, non_empty, if◌then◌else◌, lookup, put, modify, erase,
}
use beta.Base.Int.{ℤ, pos, negsuc, ltb_ℤ}
use beta.Base.Machine.{i32}
use beta.Types.{ContainerRequest}
use beta.Wire.Parts.{storage_available}
use beta.WorkerNode.Gpu.{ContainerNvidiaManager, unassign_gpu_devices}
use beta.WorkerNode.Requests.{
  ContainerError, exit_code_error, run_failed, Setup, RunAnswers, RunOutcome, refused, failed,
  abandoned, built, spawned, panicked, run_container,
}

pub data StopReason : Type 0 where
  scheduler ttl user admin unknown : StopReason

pub record Instance : Type 0 where
  pub stop_reason : StopReason
  pub exit_code : ℤ

-- The loop that returns capacities waits, holds a request, or has ended with one in its hands.
pub data CapacityLoop : Type 0 where
  waiting : CapacityLoop
  holding ended : ContainerRequest → CapacityLoop

-- `clearing` are the containers that have ended or failed and whose `clearContainer` is to come;
-- `exit_codes` are those that were sent to the repository, the last one first.
pub record WorkerProcess : Type 0 where
  pub container_lock : Bool
  pub instances : List (String × Instance)
  pub running : List ContainerRequest
  pub clearing : List (ContainerRequest × ℤ)
  pub completed_requests : List ContainerRequest
  pub capacity_loop : CapacityLoop
  pub devices : ContainerNvidiaManager
  pub exit_codes : List (String × ℤ)

abbrev pub new_worker : ℕ → WorkerProcess
new_worker gpu_count = record {
  container_lock = false;
  instances = [];
  running = [];
  clearing = [];
  completed_requests = [];
  capacity_loop = waiting;
  devices = record { gpu_allocation_map = []; gpu_count = gpu_count };
  exit_codes = [];
}

-- The worker after a request was handled: with its lock kept, with a container that is being
-- cleared, with a build that is given up, with a container that runs, or after a panic.
pub data AfterRequest : Type 0 where
  kept_lock cleared_later left started : WorkerProcess → AfterRequest
  crashed : AfterRequest

abbrev pub new_instance : Instance
new_instance = record { stop_reason = unknown; exit_code = pos 0 }

abbrev pub is_known : Option Instance → Bool
is_known none = false
is_known (some i) = true

abbrev pub add_instance : ContainerRequest → WorkerProcess → WorkerProcess
add_instance r w = record w { instances = put r.container_id new_instance w.instances }

abbrev pub send_exit_code : String → ℤ → WorkerProcess → WorkerProcess
send_exit_code id code w = record w { exit_codes = (id, i32 code) ∷ w.exit_codes }

abbrev pub exit_code_of : ContainerError → ℤ
exit_code_of (exit_code_error n) = n
exit_code_of run_failed = pos 1

abbrev pub clear_later : ContainerRequest → ℤ → WorkerProcess → WorkerProcess
clear_later r code w = record w { clearing = (r, code) ∷ w.clearing }

abbrev pub run_error : ContainerRequest → ContainerError → WorkerProcess → WorkerProcess
run_error r e w = clear_later r (exit_code_of e) (send_exit_code r.container_id (exit_code_of e) w)

abbrev pub after_run : RunOutcome → WorkerProcess → AfterRequest
after_run (refused e r) w = cleared_later (run_error r e w)
after_run (failed e r) w = cleared_later (run_error r e (add_instance r w))
after_run (abandoned r) w = left (add_instance r w)
after_run (built r) w = cleared_later (
    clear_later r (pos 0) (
      send_exit_code r.container_id (pos 0)
        (send_exit_code r.container_id (pos 0) (add_instance r w))))
after_run (spawned r) w =
    let w' = add_instance r w in started (record w' { running = r ∷ w'.running })
after_run panicked w = crashed

abbrev pub is_refused : {E A : Type 0} → Result E A → Bool
is_refused (ok a) = false
is_refused (err e) = true

-- A request whose lock is taken; two of its ways out do not unlock.
unfoldable pub handle_container_request :
    Setup → RunAnswers → ContainerRequest → WorkerProcess → AfterRequest
handle_container_request cfg a r w =
    if is_known (lookup r.container_id w.instances)
    then kept_lock (record w { container_lock = true })
    else if storage_available r.workspace && is_refused a.mount
    then kept_lock (record w { container_lock = true })
    else after_run (run_container cfg a r) w

-- How `spawn` ends: by an early return, or with the exit code of the runtime and whether the
-- container ran out of memory.
pub data SpawnEnd : Type 0 where
  returned_early : SpawnEnd
  exited : ℤ → Bool → SpawnEnd

abbrev pub same_ℤ : ℤ → ℤ → Bool
same_ℤ m n = not (ltb_ℤ m n) && not (ltb_ℤ n m)

abbrev pub stop_reason_of : Option Instance → StopReason
stop_reason_of none = unknown
stop_reason_of (some i) = i.stop_reason

abbrev pub unstopped_exit_code : ℤ → Bool → ℤ
unstopped_exit_code code is_oom_killed =
    if is_oom_killed
    then pos 137
    else if same_ℤ code (pos 137)
    then pos 0
    else if same_ℤ code (negsuc 0)
    then pos 0
    else code

abbrev pub exit_code_for : StopReason → ℤ → Bool → ℤ
exit_code_for scheduler code is_oom_killed = pos 558
exit_code_for ttl code is_oom_killed = pos 559
exit_code_for user code is_oom_killed = pos 560
exit_code_for admin code is_oom_killed = pos 561
exit_code_for unknown code is_oom_killed = unstopped_exit_code code is_oom_killed

abbrev pub spawn_exit_code : SpawnEnd → Option Instance → ℤ
spawn_exit_code returned_early i = negsuc 0
spawn_exit_code (exited code is_oom_killed) i = exit_code_for (stop_reason_of i) code is_oom_killed

abbrev pub finalized : ℤ → ℤ
finalized code = if ltb_ℤ code (pos 0) then pos 1 else if same_ℤ code (pos 143) then pos 0 else code

-- `finalizeContainer` up to its call of `clearContainer`.
abbrev pub finalize_container : ContainerRequest → ℤ → WorkerProcess → WorkerProcess
finalize_container r code w =
    clear_later r (finalized code) (send_exit_code r.container_id (finalized code) w)

-- The deferred call of a container that ran.
unfoldable pub end_spawn : SpawnEnd → ContainerRequest → WorkerProcess → WorkerProcess
end_spawn e r w = finalize_container r (spawn_exit_code e (lookup r.container_id w.instances)) w

abbrev pub with_exit_code : ℤ → Instance → Instance
with_exit_code code i = record i { exit_code = code }

-- `clearContainer` up to the goroutine that it starts.
unfoldable pub clear_container : ContainerRequest → ℤ → WorkerProcess → WorkerProcess
clear_container r code w = record w {
  devices = if non_empty r.gpu then unassign_gpu_devices r.container_id w.devices else w.devices;
  completed_requests = w.completed_requests ++ r ∷ [];
  instances = modify r.container_id (with_exit_code code) w.instances;
}

abbrev pub delete_container : String → WorkerProcess → WorkerProcess
delete_container id w = record w { instances = erase id w.instances }

-- The reason that a stop event leaves with its container.
abbrev pub set_stop_reason : StopReason → Instance → Instance
set_stop_reason reason i = record i { stop_reason = reason }

abbrev pub stop_event : String → StopReason → WorkerProcess → WorkerProcess
stop_event id reason w = record w { instances = modify id (set_stop_reason reason) w.instances }

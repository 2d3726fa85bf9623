-- ===== src/Scheduler/Health.antt =====
-- pkg/scheduler/pool_health.go: the state of a pool, and whether it is degraded. What the
-- repositories of containers and machines answer is given; durations are in nanoseconds.
pub mod Measures
pub mod Degraded
use beta.Base.{
  ℕ, zero, suc, ◌+◌, ◌-◌, ◌/◌, ◌*◌, String, Bool, true, false, not, ◌&&◌, ◌||◌, Option, none, some,
  List, [], ◌∷◌, ◌++◌, Result, ok, err, ltb, str_eq, if◌then◌else◌, length,
}
use beta.Base.Int.{ℤ, pos, negsuc, ltb_ℤ, ◌+ℤ◌, ◌-ℤ◌, ◌*ℤ◌}
use beta.Base.Machine.{i64, half64}
use beta.Base.Io.{Io, ◌>>=◌, ◌>>◌, pure, fail, lift, relabel}
use beta.Types.{
  Worker, WorkerStatus, available, pending, ContainerState, ContainerStatus, stopping, running,
}
use beta.Repository.Worker.Redis.{WorkerRedis, RepoError}
use beta.Repository.Worker.Index.{
  is_pending, get_all_workers_in_pool, cordon_all_pending_workers_in_pool,
}
use beta.Scheduler.Pools.{WorkerPoolStatus, healthy, degraded, other_pool_status, is_degraded}
use beta.Scheduler.Sizing.{WorkerPoolCapacity}

pub data MachineStatus : Type 0 where
  machine_pending machine_registered machine_ready other_machine_status : MachineStatus

pub record FailoverConfig : Type 0 where
  pub enabled : Bool
  pub max_pending_workers : ℤ
  pub max_scheduling_latency_ms : ℤ
  pub min_machines_available : ℤ

pub record WorkerPoolState : Type 0 where
  pub status : WorkerPoolStatus
  pub scheduling_latency : ℤ
  pub free_capacity : WorkerPoolCapacity
  pub pending_workers : ℕ
  pub available_workers : ℕ
  pub pending_containers : ℕ
  pub running_containers : ℕ
  pub registered_machines : ℕ
  pub pending_machines : ℕ
  pub ready_machines : ℕ

-- Go's division of integers, which drops the fraction.
abbrev pub quotient : ℤ → ℕ → ℤ
quotient (pos n) m = pos (n / m)
quotient (negsuc n) m = pos 0 -ℤ pos (suc n / m)

-- `Time.Sub` stops at the ends of an int64.
abbrev pub saturate : ℤ → ℤ
saturate z =
    if ltb_ℤ (pos (half64 - 1)) z
    then pos (half64 - 1)
    else if ltb_ℤ z (negsuc (half64 - 1))
    then negsuc (half64 - 1)
    else z

abbrev pub second_ns : ℕ
second_ns = 1000000000

-- A time in seconds, in nanoseconds.
abbrev pub unix : ℤ → ℤ
unix t = t *ℤ pos second_ns

abbrev pub is_running : ContainerStatus → Bool
is_running running = true
is_running _ = false

abbrev pub is_waiting : ContainerStatus → Bool
is_waiting pending = true
is_waiting _ = false

abbrev pub is_zero : ℤ → Bool
is_zero (pos zero) = true
is_zero (pos (suc n)) = false
is_zero (negsuc n) = false

-- `now` is the time at which the loop reaches the container.
unfoldable pub latency_of : ℤ → ContainerState → Option ℤ
latency_of now c =
    if is_zero c.started_at && is_running c.status
    then none
    else if is_waiting c.status
    then some (saturate (now -ℤ unix c.scheduled_at))
    else some (saturate (unix c.started_at -ℤ unix c.scheduled_at))

abbrev pub add_latency : Option ℤ → List ℤ → List ℤ
add_latency none ls = ls
add_latency (some l) ls = l ∷ ls

abbrev pub latencies : ℤ → List ContainerState → List ℤ
latencies now [] = []
latencies now (c ∷ cs) = add_latency (latency_of now c) (latencies now cs)

abbrev pub total_of : ℤ → List ℤ → ℤ
total_of total [] = total
total_of total (l ∷ ls) = total_of (i64 (total +ℤ l)) ls

unfoldable pub average_latency : List ℤ → ℤ
average_latency [] = pos 0
average_latency (l ∷ ls) = quotient (total_of (pos 0) (l ∷ ls)) (length (l ∷ ls))

abbrev pub count_if {ℓ} : {A : Type ℓ} → (A → Bool) → List A → ℕ
count_if p [] = 0
count_if p (a ∷ l) = let rest = count_if p l in if p a then suc rest else rest

-- The containers of the workers, where they could be read.
abbrev pub containers_of :
    (String → Result (Unit {0}) (List ContainerState)) → List Worker → List ContainerState
containers_of active [] = []
containers_of active (w ∷ ws) = readable (active w.id) ++ containers_of active ws
  where
    readable : Result (Unit {0}) (List ContainerState) → List ContainerState
    readable (ok cs) = cs
    readable (err e) = []

abbrev pub is_ready : MachineStatus → Bool
is_ready machine_ready = true
is_ready _ = false

abbrev pub is_registered : MachineStatus → Bool
is_registered machine_registered = true
is_registered _ = false

abbrev pub is_machine_pending : MachineStatus → Bool
is_machine_pending machine_pending = true
is_machine_pending _ = false

abbrev pub is_worker_available : WorkerStatus → Bool
is_worker_available available = true
is_worker_available _ = false

-- From what the repositories and `FreeCapacity` have answered; the status is set later.
unfoldable pub measured :
    ℤ
    → List Worker
    → List MachineStatus
    → (String → Result (Unit {0}) (List ContainerState))
    → WorkerPoolCapacity
    → WorkerPoolState
unfolding average_latency
measured now ws machines active free =
    let cs = containers_of active ws in
    record {
      status = other_pool_status "";
      scheduling_latency = quotient (average_latency (latencies now cs)) 1000000;
      free_capacity = free;
      pending_workers = count_if (λ (w : Worker). is_pending w.status) ws;
      available_workers = count_if (λ (w : Worker). is_worker_available w.status) ws;
      pending_containers = count_if (λ (c : ContainerState). is_waiting c.status) cs;
      running_containers = count_if (λ (c : ContainerState). is_running c.status) cs;
      registered_machines = count_if is_registered machines;
      pending_machines = count_if is_machine_pending machines;
      ready_machines = count_if is_ready machines;
    }

pub data HealthError : Type 0 where
  workers_failed : RepoError → HealthError
  machines_failed capacity_failed state_failed : HealthError
  cordon_failed : RepoError → HealthError

-- What a turn of the monitor is given: the pool, and what the other repositories answer.
pub record PoolView : Type 0 where
  pub pool_name : String
  pub is_external : Bool
  pub machines : Result (Unit {0}) (List MachineStatus)
  pub active_containers : String → Result (Unit {0}) (List ContainerState)
  pub free : Result (Unit {0}) WorkerPoolCapacity
  -- `State()`: `ok none` where no state is found
  pub previous : Result (Unit {0}) (Option WorkerPoolStatus)
  pub now : ℤ

abbrev pub machines_of : PoolView → Result HealthError (List MachineStatus)
machines_of p = if p.is_external then listed p.machines else ok []
  where
    listed : Result (Unit {0}) (List MachineStatus) → Result HealthError (List MachineStatus)
    listed (ok ms) = ok ms
    listed (err e) = err machines_failed

abbrev pub free_of : PoolView → Result HealthError WorkerPoolCapacity
free_of p = known p.free
  where
    known : Result (Unit {0}) WorkerPoolCapacity → Result HealthError WorkerPoolCapacity
    known (ok c) = ok c
    known (err e) = err capacity_failed

abbrev pub status_before : PoolView → Result HealthError WorkerPoolStatus
status_before p = known p.previous
  where
    known : Result (Unit {0}) (Option WorkerPoolStatus) → Result HealthError WorkerPoolStatus
    known (ok none) = ok healthy
    known (ok (some s)) = ok s
    known (err e) = err state_failed

unfoldable pub next_status : FailoverConfig → Bool → WorkerPoolState → WorkerPoolStatus
next_status f is_external s =
    if not (ltb_ℤ (pos s.pending_workers) f.max_pending_workers)
      || ltb_ℤ f.max_scheduling_latency_ms s.scheduling_latency
      || ltb_ℤ (pos s.ready_machines) f.min_machines_available && is_external
    then degraded
    else healthy

module _ (R : WorkerRedis) where
  unfoldable pub get_pool_state : PoolView → Io R.Db HealthError WorkerPoolState
  unfolding measured
  get_pool_state p = relabel workers_failed (get_all_workers_in_pool R p.pool_name) >>= λ ws.
      lift (machines_of p) >>= λ ms.
      lift (free_of p) >>= λ free. pure (measured p.now ws ms p.active_containers free)

  -- Only a pool that becomes degraded has its workers cordoned.
  abbrev pub cordon_if : Bool → String → Io R.Db HealthError (Unit {0})
  cordon_if b pool =
      if b then relabel cordon_failed (cordon_all_pending_workers_in_pool R pool) else pure tt

  -- The status is set in place; the answer is the state that is then stored.
  unfoldable pub update_pool_status :
      FailoverConfig → PoolView → WorkerPoolState → Io R.Db HealthError WorkerPoolState
  unfolding next_status
  update_pool_status f p next =
      let status = next_status f p.is_external next in
      lift (status_before p) >>= λ before.
      cordon_if (f.enabled && not (is_degraded before) && is_degraded status) p.pool_name
      >> pure (record next { status = status })

  -- One turn under the lock of the pool's state: what is stored, if anything is.
  unfoldable pub health_turn : FailoverConfig → PoolView → Io R.Db HealthError WorkerPoolState
  unfolding get_pool_state update_pool_status
  health_turn f p = get_pool_state p >>= update_pool_status f p

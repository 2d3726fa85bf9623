-- ===== src/Autoscaler/Scale.antt =====
-- The samples and the scale functions. A nil pointer that is read, and a division by zero, end in
-- `panic`. Replica limits are below 2^53, where `math.Min` on float64 is the minimum, and the tasks
-- per container below 2^63, where `int64` of them is not negative.
use beta.Base.{
  ℕ, zero, suc, ◌+◌, ◌-◌, ◌/◌, ◌%◌, min, Bool, true, false, ◌&&◌, Option, none, some, Result, ok,
  err, ltb, ◌==◌, if◌then◌else◌,
}
use beta.Base.Int.{ℤ, pos, negsuc}

pub data Fault : Type 0 where
  panic : Fault

pub record AutoscalerResult : Type 0 where
  pub desired_containers : ℤ
  pub result_valid : Bool

-- `types.Autoscaler`; the pointer in the stub's configuration is an `Option`.
pub record AutoscalerConfig : Type 0 where
  pub max_containers : ℕ
  pub tasks_per_container : ℕ
  pub min_containers : ℕ

-- `AutoscaledInstanceState`, with the number of failed containers.
pub record InstanceState : Type 0 where
  pub running_containers : ℕ
  pub pending_containers : ℕ
  pub stopping_containers : ℕ
  pub failed_containers : ℕ

abbrev pub invalid_result : AutoscalerResult
invalid_result = record { desired_containers = pos 0; result_valid = false }

abbrev pub valid_result : ℤ → AutoscalerResult
valid_result n = record { desired_containers = n; result_valid = true }

-- `a / b` and `a % b > 0` of Go for a positive `b`: towards zero, the remainder has a's sign.
abbrev pub quotient : ℤ → ℕ → ℤ
quotient (pos n) d = pos (n / d)
quotient (negsuc n) d = if suc n / d == 0 then pos 0 else negsuc (suc n / d - 1)

abbrev pub has_remainder : ℤ → ℕ → Bool
has_remainder (pos n) d = ltb 0 (n % d)
has_remainder (negsuc n) d = false

abbrev pub plus_one : ℤ → ℤ
plus_one (pos n) = pos (n + 1)
plus_one (negsuc zero) = pos 0
plus_one (negsuc (suc n)) = negsuc n

abbrev pub at_most : ℕ → ℤ → ℤ
at_most m (pos n) = pos (min m n)
at_most m (negsuc n) = negsuc n

abbrev pub is_minus_one : ℤ → Bool
is_minus_one (negsuc zero) = true
is_minus_one _ = false

abbrev pub is_zero : ℤ → Bool
is_zero (pos zero) = true
is_zero _ = false

-- The containers that hold `tasks` with `per` tasks in each.
unfoldable pub containers_for : ℤ → ℕ → ℤ
containers_for tasks per =
    if has_remainder tasks per then plus_one (quotient tasks per) else quotient tasks per

-- endpoint
pub record EndpointSample : Type 0 where
  pub total_requests : ℤ
  pub current_containers : ℤ

abbrev or_minus_one {ℓ} : {E : Type ℓ} → Result E ℕ → ℤ
or_minus_one (ok n) = pos n
or_minus_one (err e) = negsuc 0

-- `tasks` and `state` are what `TasksInFlight` and `State` answered. The pointer that `State`
-- returns with an error is nil.
unfoldable pub endpoint_sample_func :
    Result (Unit {0}) ℕ → Result (Unit {0}) InstanceState → Result Fault EndpointSample
endpoint_sample_func tasks (err e) = err panic
endpoint_sample_func tasks (ok state) = ok (record {
  total_requests = or_minus_one tasks;
  current_containers = pos (state.pending_containers + state.running_containers);
})

abbrev pub endpoint_tasks_per_container : Option AutoscalerConfig → ℕ
endpoint_tasks_per_container none = 1
endpoint_tasks_per_container (some a) =
    if ltb 0 a.tasks_per_container then a.tasks_per_container else 1

abbrev pub endpoint_max_containers : Option AutoscalerConfig → ℕ
endpoint_max_containers none = 1
endpoint_max_containers (some a) = a.max_containers

-- `max_replicas` is the gateway's `StubLimits.MaxReplicas`.
unfoldable pub endpoint_deployment_scale_func :
    Option AutoscalerConfig → ℕ → EndpointSample → AutoscalerResult
unfolding containers_for
endpoint_deployment_scale_func config max_replicas s =
    if is_zero s.total_requests
    then valid_result (pos 0)
    else if is_minus_one s.total_requests
    then invalid_result
    else valid_result (
        at_most (min (endpoint_max_containers config) max_replicas)
          (containers_for s.total_requests (endpoint_tasks_per_container config)))

-- `lock` is what `EXISTS` answered for the serve lock.
unfoldable pub serve_scale_func : Result (Unit {0}) ℕ → AutoscalerResult
serve_scale_func (err e) = invalid_result
serve_scale_func (ok n) = valid_result (if n == 0 then pos 0 else pos 1)

-- task queue; the task duration is a float64 that no scale function reads, and is left out.
pub record TaskQueueSample : Type 0 where
  pub queue_length : ℤ
  pub running_tasks : ℤ
  pub current_containers : ℤ

unfoldable pub task_queue_sample_func :
    Result (Unit {0}) ℕ
    → Result (Unit {0}) ℕ
    → Result (Unit {0}) InstanceState
    → Result Fault TaskQueueSample
task_queue_sample_func running queued (err e) = err panic
task_queue_sample_func running queued (ok state) = ok (record {
  queue_length = or_minus_one queued;
  running_tasks = or_minus_one running;
  current_containers = pos (state.pending_containers + state.running_containers);
})

abbrev task_queue_desired : Option AutoscalerConfig → ℕ → ℤ → Result Fault AutoscalerResult
task_queue_desired none max_replicas tasks = err panic
task_queue_desired (some a) max_replicas tasks =
    if a.tasks_per_container == 0
    then err panic
    else ok (
        valid_result (
          at_most (min a.max_containers max_replicas) (containers_for tasks a.tasks_per_container)))

unfoldable pub task_queue_scale_func :
    Option AutoscalerConfig → ℕ → TaskQueueSample → Result Fault AutoscalerResult
unfolding containers_for
task_queue_scale_func config max_replicas s =
    if is_zero s.queue_length
    then ok (valid_result (pos 0))
    else if is_minus_one s.queue_length
    then ok invalid_result
    else task_queue_desired config max_replicas s.queue_length

-- pod
pub data PodStub : Type 0 where
  pod_run sandbox pod_deployment other_stub : PodStub

pub record PodSample : Type 0 where
  pub current_containers : ℕ
  pub total_connections : ℕ

-- `connections` is what GET answered for the connection count: `none` is `redis.Nil`.
unfoldable pub pod_sample_func :
    Result (Unit {0}) InstanceState → Result (Unit {0}) (Option ℕ) → Result (Unit {0}) PodSample
pod_sample_func (err e) connections = err e
pod_sample_func (ok state) (err e) = err e
pod_sample_func (ok state) (ok none) = ok (record {
  current_containers = state.pending_containers + state.running_containers;
  total_connections = 0;
})
pod_sample_func (ok state) (ok (some n)) = ok (record {
  current_containers = state.pending_containers + state.running_containers;
  total_connections = n;
})

-- `keep_warm` is `KeepWarmSeconds > 0`.
abbrev run_once : Bool → PodSample → ℤ
run_once keep_warm s =
    if s.current_containers == 0
    then pos 0
    else if ltb 0 s.current_containers && keep_warm
    then pos 0
    else pos 1

unfoldable pub pod_scale_func : PodStub → Bool → AutoscalerConfig → PodSample → AutoscalerResult
pod_scale_func pod_run keep_warm config s = valid_result (run_once keep_warm s)
pod_scale_func sandbox keep_warm config s = valid_result (run_once keep_warm s)
pod_scale_func pod_deployment keep_warm config s =
    valid_result
      (if s.total_connections == 0 then pos config.min_containers else pos config.max_containers)
pod_scale_func other_stub keep_warm config s = valid_result (pos 1)

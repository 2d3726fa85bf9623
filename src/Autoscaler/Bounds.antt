-- ===== src/Autoscaler/Bounds.antt =====
-- The scale functions ask for enough containers, never too many, and the instance reaches them.
use native.Mathlib.Nat.{div-add-mod, mod-lt}
use native.Mathlib.Decide.{dec_lt}
use beta.Base.{
  ℕ, zero, suc, ◌+◌, ◌*◌, ◌/◌, ◌%◌, ◌≤◌, ◌<◌, ◌≡◌, refl, min, Bool, false, Option, none, some,
  Result, ok, err, ◌⊎◌, inl, inr, ◌↔◌, List, arith, leb, if◌then◌else◌,
}
use beta.Base.Int.{ℤ, pos, negsuc, ◌-ℤ◌}
use beta.Types.{ContainerState}
use beta.Autoscaler.Scale.{
  panic, AutoscalerConfig, InstanceState, containers_for, endpoint_tasks_per_container,
  endpoint_max_containers, endpoint_sample_func, endpoint_deployment_scale_func, valid_result,
  TaskQueueSample, task_queue_scale_func,
}
use beta.Autoscaler.Instance.{
  Action, keep, cancel_instance, start_containers, stop_containers, Handled, handle_scaling_event,
  scale, target, instance_state,
}

-- `n` is the least number of containers that holds the tasks.
pub record IsLeast (tasks per n : ℕ) : Type 0 where
  pub enough : tasks ≤ n * per
  pub no_spare : (m : ℕ) → tasks ≤ m * per → n ≤ m

per_pos : (config : Option AutoscalerConfig) → 0 < endpoint_tasks_per_container config
per_pos none = omega arith
per_pos (some a) = ground arith

quotient-IsLeast : (tasks per : ℕ) → 0 < per → tasks % per ≡ 0 → IsLeast tasks per (tasks / per)
quotient-IsLeast tasks per h e = record {
  enough = grind (arith, div-add-mod tasks per);
  no_spare = λ m k. grind (arith, div-add-mod tasks per);
}

quotient_suc-IsLeast :
    (tasks per : ℕ) → 0 < per → 0 < tasks % per → IsLeast tasks per (tasks / per + 1)
quotient_suc-IsLeast tasks per h e = record {
  enough = grind (arith, div-add-mod tasks per, mod-lt tasks h);
  no_spare = λ m k. grind (arith, div-add-mod tasks per);
}

containers_for-IsLeast :
    (tasks per : ℕ)
    → 0 < per
    → (n : ℕ) × (containers_for (pos tasks) per ≡ pos n) × IsLeast tasks per n
unfolding containers_for
containers_for-IsLeast tasks per h = elim (dec_lt 0 (tasks % per)) [
  | yes more ↦ (tasks / per + 1, ground arith, quotient_suc-IsLeast tasks per h more)
  | no none_left ↦ (tasks / per, ground arith, quotient-IsLeast tasks per h (omega arith))
]

-- The tasks that a container takes and the containers that are allowed: those of the configuration,
-- one where there is none, and one task where it names none.
abbrev pub Configured : Option AutoscalerConfig → ℕ → ℕ → Type 0
Configured none per most = (per ≡ 1) × (most ≡ 1)
Configured (some a) per most =
    (((0 < a.tasks_per_container) × (per ≡ a.tasks_per_container))
      ⊎ ((a.tasks_per_container ≡ 0) × (per ≡ 1)))
    × (most ≡ a.max_containers)

endpoint-Configured :
    (config : Option AutoscalerConfig)
    → Configured config (endpoint_tasks_per_container config) (endpoint_max_containers config)
endpoint-Configured none = (refl, refl)
endpoint-Configured (some a) = elim (dec_lt 0 a.tasks_per_container) [
  | yes named ↦ (inl (named, ground arith), refl)
  | no unnamed ↦ (inr (omega arith, ground arith), refl)
]

-- With at least one request in flight the endpoint autoscaler asks for the least number of
-- containers that hold the requests, but for at most the configured and the gateway's limit; with
-- none in flight for no container; and with an unknown number, -1, its result is marked invalid.
pub endpoint_scale-IsLeast :
    (config : Option AutoscalerConfig) (max_replicas tasks : ℕ) (current : ℤ)
    → (per most n : ℕ) × Configured config per most
      × IsLeast tasks per n
      × (endpoint_deployment_scale_func config max_replicas
            (record { total_requests = pos tasks; current_containers = current })
          ≡ valid_result (pos (min (min most max_replicas) n)))
      × ((endpoint_deployment_scale_func config max_replicas
            (record { total_requests = negsuc 0; current_containers = current })).result_valid
          ≡ false)
unfolding endpoint_deployment_scale_func containers_for
endpoint_scale-IsLeast config max_replicas zero current = (
  endpoint_tasks_per_container config,
  endpoint_max_containers config,
  0,
  endpoint-Configured config,
  record { enough = omega arith; no_spare = λ m k. omega arith },
  ground arith,
  refl,
)
endpoint_scale-IsLeast config max_replicas (suc t) current =
    let (n, e, least) =
      containers_for-IsLeast (suc t) (endpoint_tasks_per_container config) (per_pos config) in
    (
      endpoint_tasks_per_container config,
      endpoint_max_containers config,
      n,
      endpoint-Configured config,
      least,
      rw e refl,
      refl,
    )

-- `none` and a zero are the configurations at which the division is not made.
abbrev pub CanDivide : Option AutoscalerConfig → Type 0
CanDivide none = ⊥
CanDivide (some a) = 0 < a.tasks_per_container

-- The task queue autoscaler has no such guard: with tasks in the queue it panics exactly if the
-- stub has no autoscaler configuration or one with no tasks per container; else it asks for the
-- least number of containers that hold the tasks, within both limits.
pub task_queue_scale-IsLeast :
    (config : Option AutoscalerConfig) (max_replicas t : ℕ) (s : TaskQueueSample)
    → s.queue_length ≡ pos (suc t)
    → ((task_queue_scale_func config max_replicas s ≡ err panic) × (¬ CanDivide config))
      ⊎ ((a : AutoscalerConfig) × (config ≡ some a)
          × (n : ℕ) × IsLeast (suc t) a.tasks_per_container n
          × (task_queue_scale_func config max_replicas s
              ≡ ok (valid_result (pos (min (min a.max_containers max_replicas) n)))))
unfolding task_queue_scale_func
task_queue_scale-IsLeast none max_replicas t s e = inl (rw e refl, λ h. h)
task_queue_scale-IsLeast (some a) max_replicas t s e = elim (dec_lt 0 a.tasks_per_container) [
  | yes per ↦
      let (n, m, least) = containers_for-IsLeast (suc t) a.tasks_per_container per in
      inr (a, refl, n, least, ground (arith, m))
  | no per ↦ inl (ground arith, per)
]

-- The samplers of endpoints and task queues read the state of the instance after a failed call too,
-- where it is nil: they panic exactly if one of the two container listings failed.
pub endpoint_sample-panic :
    (tasks : Result (Unit {0}) ℕ) (containers : Result (Unit {0}) (List ContainerState))
    (failed : Result (Unit {0}) ℕ)
    → (endpoint_sample_func tasks (instance_state containers failed) ≡ err panic)
      ↔ ((containers ≡ err tt) ⊎ (failed ≡ err tt))
unfolding endpoint_sample_func instance_state
endpoint_sample-panic tasks containers failed = ground arith

-- What the instance aims at: nothing where too many containers failed or it is not active.
abbrev pub aim : ℕ → Bool → ℕ → InstanceState → ℕ
aim threshold active n s = if leb threshold s.failed_containers then 0 else if active then n else 0

-- The action that makes up the difference between the `c` containers that run or start and the `n`
-- aimed at; `stopping` containers keep an instance from its end.
abbrev pub MakesUp : Action → ℕ → ℕ → ℕ → Type 0
MakesUp cancel_instance n c stopping = (n ≡ 0) × (c + stopping ≡ 0)
MakesUp keep n c stopping = (n ≡ c) × (0 < c + stopping)
MakesUp (start_containers k) n c stopping = (n ≡ c + k) × (0 < k)
MakesUp (stop_containers k) n c stopping = (c ≡ n + k) × (0 < k)

scale-MakesUp :
    (threshold : ℕ) (z : ℤ) (n : ℕ) (s : InstanceState)
    → z ≡ pos n
    → MakesUp
        (scale threshold z s).action
        n
        (s.running_containers + s.pending_containers)
        s.stopping_containers
unfolding ◌-ℤ◌
scale-MakesUp threshold z n s e = rw e (ground arith)

-- A scaling event that gets the lock and the state asks for exactly the difference between the
-- containers that run or start and the number aimed at: it starts so many more, or asks to stop so
-- many (which of them can be stopped is the callback's), or leaves them; it ends the instance exactly
-- if nothing is aimed at and no container is left, stopping ones included.
pub handle_scaling_event-MakesUp :
    (threshold : ℕ) (active : Bool) (s : InstanceState) (n : ℕ)
    → (h : Handled) × (handle_scaling_event threshold active (ok tt) (ok s) (pos n) ≡ ok h)
      × MakesUp h.action
          (aim threshold active n s)
          (s.running_containers + s.pending_containers)
          s.stopping_containers
unfolding handle_scaling_event
handle_scaling_event-MakesUp threshold active s n = (
  _,
  refl,
  scale-MakesUp threshold (target threshold active (pos n) s) (aim threshold active n s) s
      (ground arith),
)

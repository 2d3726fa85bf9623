-- ===== src/Examples/Scaling.antt =====
-- Scaling an instance, and its request buffer.
use beta.Base.{ℕ, ◌≡◌, refl, min, true, false, some, ok, err, ◌⊎◌, arith, length}
use beta.Base.Int.{pos, negsuc}
use beta.Autoscaler.Scale.{
  panic, AutoscalerConfig, InstanceState, TaskQueueSample, endpoint_deployment_scale_func,
  task_queue_scale_func, valid_result,
}
use beta.Autoscaler.Instance.{Handled, handle_scaling_event}
use beta.Autoscaler.Bounds.{
  IsLeast, Configured, CanDivide, aim, endpoint_scale-IsLeast, task_queue_scale-IsLeast,
  handle_scaling_event-MakesUp, MakesUp,
}
use beta.RingBuffer.{RingBuffer, new_ring_buffer, push, pop, len}
use beta.RingBuffer.Queue.{IsRing, contents, new-IsRing, push-IsRing, queue_push, queue_pop}
use beta.RingBuffer.Refines.{push-queue_push, pop-queue_pop}

abbrev config : AutoscalerConfig
config = record { max_containers = 3; tasks_per_container = 4; min_containers = 1 }

abbrev backlog : TaskQueueSample
backlog = record { queue_length = pos 9; running_tasks = pos 0; current_containers = pos 1 }

abbrev state : InstanceState
state = record {
  running_containers = 4;
  pending_containers = 1;
  stopping_containers = 1;
  failed_containers = 1;
}

endpoint_scale-IsLeast_example :
    (per most n : ℕ) × Configured (some config) per most
    × IsLeast 9 per n
    × (endpoint_deployment_scale_func
          (some config)
          10
          (record { total_requests = pos 9; current_containers = pos 1 })
        ≡ valid_result (pos (min (min most 10) n)))
    × ((endpoint_deployment_scale_func
          (some config)
          10
          (record { total_requests = negsuc 0; current_containers = pos 1 })).result_valid
        ≡ false)
endpoint_scale-IsLeast_example = endpoint_scale-IsLeast (some config) 10 9 (pos 1)

task_queue_scale-IsLeast_example :
    ((task_queue_scale_func (some config) 10 backlog ≡ err panic) × (¬ CanDivide (some config)))
    ⊎ ((a : AutoscalerConfig) × (some config ≡ some a)
        × (n : ℕ) × IsLeast 9 a.tasks_per_container n
        × (task_queue_scale_func (some config) 10 backlog
            ≡ ok (valid_result (pos (min (min a.max_containers 10) n)))))
task_queue_scale-IsLeast_example = task_queue_scale-IsLeast (some config) 10 8 backlog refl

handle_scaling_event-MakesUp_example :
    (h : Handled) × (handle_scaling_event 3 true (ok tt) (ok state) (pos 2) ≡ ok h)
    × MakesUp h.action (aim 3 true 2 state) 5 state.stopping_containers
handle_scaling_event-MakesUp_example = handle_scaling_event-MakesUp 3 true state 2

abbrev ring : RingBuffer ℕ
ring = push (push (new_ring_buffer 0 2) 5 false) 6 true

ring-IsRing : IsRing ring
ring-IsRing =
    push-IsRing (push (new_ring_buffer 0 2) 5 false) 6 true
      (push-IsRing (new_ring_buffer 0 2) 5 false (new-IsRing 0 2 (omega arith)))

push-queue_push_example :
    IsRing (push ring 7 false)
    × (contents (push ring 7 false) ≡ queue_push ring.size (contents ring) 7 false)
push-queue_push_example = push-queue_push ring 7 false ring-IsRing

pop-queue_pop_example :
    IsRing (pop ring).1
    × ((pop ring).0 ≡ (queue_pop (contents ring)).0)
    × (contents (pop ring).1 ≡ (queue_pop (contents ring)).1)
    × (len ring ≡ length (contents ring))
pop-queue_pop_example = pop-queue_pop ring ring-IsRing

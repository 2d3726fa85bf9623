-- ===== src/Examples/Scheduling.antt =====
-- Selecting a worker and taking capacity off it.
use beta.Base.{◌≡◌, ◌≢◌, ◌+◌, ◌-◌, refl, ok, [], ◌∷◌, arith}
use beta.Base.Int.{◌+ℤ◌, ◌-ℤ◌}
use beta.Base.Machine.{i64}
use beta.Base.Io.{◌>>=◌, ◌>>◌, pure, lift, finally}
use beta.Types.{Worker, remove_capacity, add_capacity}
use beta.Scheduler.Select.{select_worker}
use beta.Scheduler.Select.Best.{Selected, select_worker-Selected}
use beta.Repository.Worker.{
  get_worker_from_key, change_capacity, updated_capacity, schedule_container_request,
  update_worker_capacity,
}
use beta.Repository.Worker.Accounting.{
  Scheduled, schedule_container_request-Scheduled, schedule_container_request-once,
  updated_capacity-gpu_wraps,
}
use beta.Examples.Sorting.{sorting}
use beta.Examples.Stores.{worker_memory, answer_with, change_by}
use beta.Examples.Data.{cpu_worker, gpu_worker, cpu_request, gpu_request, workers}

select_worker-Selected_example :
    Selected cpu_request
      (gpu_worker ∷ cpu_worker ∷ [])
      (select_worker sorting (ok (gpu_worker ∷ cpu_worker ∷ [])) cpu_request)
select_worker-Selected_example =
    select_worker-Selected sorting cpu_request (gpu_worker ∷ cpu_worker ∷ [])

schedule_succeeds :
    (schedule_container_request worker_memory cpu_worker cpu_request workers).0 ≡ ok tt
unfolding answer_with change_by schedule_container_request update_worker_capacity
    get_worker_from_key updated_capacity change_capacity i64 ◌-ℤ◌ ◌+ℤ◌ ◌>>=◌ ◌>>◌ pure lift finally
schedule_succeeds = refl

schedule_container_request-Scheduled_example :
    Scheduled cpu_worker cpu_request cpu_worker workers
      (schedule_container_request worker_memory cpu_worker cpu_request workers).1
schedule_container_request-Scheduled_example =
    schedule_container_request-Scheduled worker_memory cpu_worker cpu_request cpu_worker workers
      refl (omega arith) schedule_succeeds

schedule_container_request-once_example :
    (update_worker_capacity worker_memory cpu_worker gpu_request add_capacity
      (schedule_container_request worker_memory cpu_worker cpu_request workers).1).0
    ≢ ok tt
schedule_container_request-once_example =
    schedule_container_request-once worker_memory cpu_worker cpu_request gpu_request add_capacity
      workers (schedule_container_request worker_memory cpu_worker cpu_request workers).1
      schedule_succeeds refl

updated_capacity-gpu_wraps_example :
    (w' : Worker) × (updated_capacity gpu_worker gpu_request remove_capacity gpu_worker ≡ ok w')
    × (w'.free_gpu_count ≡ gpu_worker.free_gpu_count + 4294967296 - gpu_request.gpu_count)
updated_capacity-gpu_wraps_example =
    updated_capacity-gpu_wraps gpu_worker gpu_request gpu_worker (omega arith) refl (omega arith)
      (omega arith) (λ e. cc e) (omega arith)

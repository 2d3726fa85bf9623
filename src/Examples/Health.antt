-- ===== src/Examples/Health.antt =====
-- A pool that becomes degraded, with its workers in memory.
use beta.Base.{◌≡◌, refl, true, false, none, [], ◌∷◌, List, ok, err, keep_if}
use beta.Base.Int.{pos}
use beta.Base.Io.{◌>>=◌, ◌>>◌, pure, lift, relabel, attempt, finally}
use beta.Types.{Worker}
use beta.Repository.Worker.{get_worker_from_key, update_worker_status}
use beta.Repository.Worker.Index.{
  get_workers, get_workers_from_keys, collect_found, get_all_workers_in_pool, cordon_pending,
  cordon_all_pending_workers_in_pool,
}
use beta.Repository.Worker.Listing.{ListedIn}
use beta.Scheduler.Pools.{degraded}
use beta.Scheduler.Sizing.{WorkerPoolCapacity}
use beta.Scheduler.Health.{
  FailoverConfig, PoolView, WorkerPoolState, measured, average_latency, next_status, get_pool_state,
  update_pool_status, health_turn,
}
use beta.Scheduler.Health.Measures.{Measures}
use beta.Scheduler.Health.Degraded.{Judged, health_turn-Judged}
use beta.Examples.Stores.{worker_memory, answer_with, change_by}
use beta.Examples.Data.{gpu_worker, workers}

abbrev failover : FailoverConfig
failover = record {
  enabled = true;
  max_pending_workers = pos 1;
  max_scheduling_latency_ms = pos 5000;
  min_machines_available = pos 0;
}

abbrev free : WorkerPoolCapacity
free = record {
  free_cpu = pos 0;
  free_memory = pos 0;
  free_gpu = 0;
  pending_cpu = pos 0;
  pending_memory = pos 0;
  pending_gpu = 0;
}

abbrev pool : PoolView
pool = record {
  pool_name = "t4";
  is_external = false;
  machines = err tt;
  active_containers = λ id. ok [];
  free = ok free;
  previous = ok none;
  now = pos 100;
}

abbrev judged : WorkerPoolState
judged = record (measured (pos 100) (gpu_worker ∷ []) [] (λ id. ok []) free) { status = degraded }

judged_answer : (health_turn worker_memory failover pool workers).0 ≡ ok judged
unfolding health_turn get_pool_state update_pool_status measured average_latency next_status
    get_all_workers_in_pool get_workers get_workers_from_keys collect_found cordon_pending
    cordon_all_pending_workers_in_pool update_worker_status get_worker_from_key keep_if answer_with
    change_by ◌>>=◌ ◌>>◌ pure lift relabel attempt finally
judged_answer = refl

health_turn-Judged_example :
    Judged worker_memory failover pool workers judged
      (health_turn worker_memory failover pool workers).1
    × ((ws : List Worker) × ListedIn "t4" workers ws × Measures pool ws judged)
health_turn-Judged_example =
    health_turn-Judged worker_memory failover pool workers judged judged_answer

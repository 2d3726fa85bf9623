-- ===== src/Scheduler/Sizing.antt =====
-- `freePoolCapacity` of pkg/scheduler/pool.go, and `shouldAddWorker` and `addWorkerIfNeeded` of
-- pkg/scheduler/pool_sizing.go: when a pool gets one more worker.
pub mod Totals
use beta.Base.{
  ℕ, ◌+◌, String, Bool, true, false, ◌&&◌, ◌||◌, Option, none, some, List, [], ◌∷◌, Result, ok, err,
  ltb, non_empty, if◌then◌else◌,
}
use beta.Base.Int.{ℤ, pos, ltb_ℤ, ◌+ℤ◌}
use beta.Base.Machine.{i64, u64}
use beta.Types.{Worker, WorkerStatus, available, pending, disabled, other_status}

pub record WorkerPoolCapacity : Type 0 where
  pub free_cpu : ℤ  -- int64
  pub free_memory : ℤ  -- int64
  pub free_gpu : ℕ  -- uint
  pub pending_cpu : ℤ  -- int64
  pub pending_memory : ℤ  -- int64
  pub pending_gpu : ℕ  -- uint

pub record WorkerPoolSizingConfig : Type 0 where
  pub min_free_cpu : ℤ  -- int64
  pub min_free_memory : ℤ  -- int64
  pub min_free_gpu : ℕ  -- uint
  pub default_worker_cpu : ℤ  -- int64
  pub default_worker_memory : ℤ  -- int64
  pub default_worker_gpu_type : String
  pub default_worker_gpu_count : ℕ  -- uint32

-- Whether the GPUs of a worker are counted.
abbrev pub has_usable_gpu : Worker → Bool
has_usable_gpu w = non_empty w.gpu && ltb_ℤ (pos 0) w.free_cpu && ltb_ℤ (pos 0) w.free_memory

abbrev pub count_pending : Worker → WorkerPoolCapacity → WorkerPoolCapacity
count_pending w c = record c {
  pending_cpu = i64 (c.pending_cpu +ℤ w.free_cpu);
  pending_memory = i64 (c.pending_memory +ℤ w.free_memory);
  pending_gpu = if has_usable_gpu w then u64 (c.pending_gpu + w.total_gpu_count) else c.pending_gpu;
}

abbrev pub count_free : Worker → WorkerPoolCapacity → WorkerPoolCapacity
count_free w c = record c {
  free_cpu = i64 (c.free_cpu +ℤ w.free_cpu);
  free_memory = i64 (c.free_memory +ℤ w.free_memory);
  free_gpu = if has_usable_gpu w then u64 (c.free_gpu + w.free_gpu_count) else c.free_gpu;
}

-- The `switch` on the status.
abbrev pub count_worker : WorkerStatus → Worker → WorkerPoolCapacity → WorkerPoolCapacity
count_worker disabled w c = c
count_worker pending w c = count_pending w c
count_worker available w c = count_free w c
count_worker (other_status s) w c = count_free w c

unfoldable pub count_workers : List Worker → WorkerPoolCapacity → WorkerPoolCapacity
count_workers [] c = c
count_workers (w ∷ ws) c = count_workers ws (count_worker w.status w c)

abbrev pub no_capacity : WorkerPoolCapacity
no_capacity = record {
  free_cpu = pos 0;
  free_memory = pos 0;
  free_gpu = 0;
  pending_cpu = pos 0;
  pending_memory = pos 0;
  pending_gpu = 0;
}

-- `workers` is what `GetAllWorkersInPool` answered.
unfoldable pub free_pool_capacity :
    Result (Unit {0}) (List Worker) → Result (Unit {0}) WorkerPoolCapacity
unfolding count_workers
free_pool_capacity (err e) = err e
free_pool_capacity (ok workers) = ok (count_workers workers no_capacity)

unfoldable pub should_add_worker : WorkerPoolCapacity → WorkerPoolSizingConfig → Bool
should_add_worker c config =
    ltb_ℤ (i64 (c.free_cpu +ℤ c.pending_cpu)) config.min_free_cpu
    || ltb_ℤ (i64 (c.free_memory +ℤ c.pending_memory)) config.min_free_memory
    || ltb 0 config.min_free_gpu && ltb (u64 (c.free_gpu + c.pending_gpu)) config.min_free_gpu

-- The arguments with which `AddWorker` is called, if it is.
unfoldable pub add_worker_if_needed :
    WorkerPoolCapacity → WorkerPoolSizingConfig → Option (ℤ × ℤ × ℕ)
unfolding should_add_worker
add_worker_if_needed c config =
    if should_add_worker c config
    then some
        (config.default_worker_cpu, config.default_worker_memory, config.default_worker_gpu_count)
    else none

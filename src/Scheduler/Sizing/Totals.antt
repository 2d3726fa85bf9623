-- ===== src/Scheduler/Sizing/Totals.antt =====
-- A pool gets a worker exactly if its enabled workers have too little.
use beta.Base.{ℕ, ◌+◌, ◌<◌, ◌≡◌, refl, ◌⊎◌, ◌↔◌, true, List, [], ◌∷◌, All, ok, arith}
use beta.Base.Int.{ℤ, pos, pos_part, neg_part, ◌+ℤ◌, ◌<ℤ◌}
use beta.Base.Machine.{i64, i64_id, half64}
use beta.Types.{Worker, WorkerStatus, available, pending, disabled, other_status}
use beta.Scheduler.Sizing.{
  WorkerPoolCapacity, WorkerPoolSizingConfig, count_free, count_worker, count_workers, no_capacity,
  free_pool_capacity, should_add_worker,
}

abbrev pub enabled : WorkerStatus → ℕ → ℕ
enabled disabled n = 0
enabled pending n = n
enabled available n = n
enabled (other_status s) n = n

-- The CPU and the memory of the workers that are not cordoned.
abbrev pub enabled_cpu : List Worker → ℕ
enabled_cpu [] = 0
enabled_cpu (w ∷ ws) = enabled w.status (pos_part w.free_cpu) + enabled_cpu ws

abbrev pub enabled_memory : List Worker → ℕ
enabled_memory [] = 0
enabled_memory (w ∷ ws) = enabled w.status (pos_part w.free_memory) + enabled_memory ws

abbrev pub HasFree : Worker → Type 0
HasFree w = (neg_part w.free_cpu ≡ 0) × (neg_part w.free_memory ≡ 0)

i64-add :
    (a b : ℤ)
    → neg_part a ≡ 0
    → neg_part b ≡ 0
    → pos_part a + pos_part b < half64
    → i64 (a +ℤ b) ≡ pos (pos_part a + pos_part b)
unfolding ◌+ℤ◌
i64-add a b h k small =
    let same : a +ℤ b ≡ pos (pos_part a + pos_part b) = ground arith in
    rw same (i64_id (pos (pos_part a + pos_part b)) (ground arith))

-- The counted CPU and memory, pending ones included, are `cpu` and `memory`.
record Counts (cpu memory : ℕ) (c : WorkerPoolCapacity) : Type 0 where
  cpu_signs : (neg_part c.free_cpu ≡ 0) × (neg_part c.pending_cpu ≡ 0)
  memory_signs : (neg_part c.free_memory ≡ 0) × (neg_part c.pending_memory ≡ 0)
  cpu_sum : pos_part c.free_cpu + pos_part c.pending_cpu ≡ cpu
  memory_sum : pos_part c.free_memory + pos_part c.pending_memory ≡ memory

count_free-Counts :
    (w : Worker) (cpu memory : ℕ) (c : WorkerPoolCapacity)
    → HasFree w
    → cpu + pos_part w.free_cpu < half64
    → memory + pos_part w.free_memory < half64
    → Counts cpu memory c
    → Counts (cpu + pos_part w.free_cpu) (memory + pos_part w.free_memory) (count_free w c)
count_free-Counts w cpu memory c f p q h =
    let new_cpu = i64-add c.free_cpu w.free_cpu h.cpu_signs.0 f.0 (omega (arith, h.cpu_sum)) in
    let new_memory =
      i64-add c.free_memory w.free_memory h.memory_signs.0 f.1 (omega (arith, h.memory_sum)) in
    record {
      cpu_signs = (rw new_cpu refl, h.cpu_signs.1);
      memory_signs = (rw new_memory refl, h.memory_signs.1);
      cpu_sum = rw new_cpu (omega (arith, h.cpu_sum));
      memory_sum = rw new_memory (omega (arith, h.memory_sum));
    }

count_worker-Counts :
    (s : WorkerStatus) (w : Worker) (cpu memory : ℕ) (c : WorkerPoolCapacity)
    → HasFree w
    → cpu + enabled s (pos_part w.free_cpu) < half64
    → memory + enabled s (pos_part w.free_memory) < half64
    → Counts cpu memory c
    → Counts
        (cpu + enabled s (pos_part w.free_cpu))
        (memory + enabled s (pos_part w.free_memory))
        (count_worker s w c)
count_worker-Counts disabled w cpu memory c f p q h = record {
  cpu_signs = h.cpu_signs;
  memory_signs = h.memory_signs;
  cpu_sum = omega (arith, h.cpu_sum);
  memory_sum = omega (arith, h.memory_sum);
}
count_worker-Counts pending w cpu memory c f p q h =
    let new_cpu = i64-add c.pending_cpu w.free_cpu h.cpu_signs.1 f.0 (omega (arith, h.cpu_sum)) in
    let new_memory =
      i64-add c.pending_memory w.free_memory h.memory_signs.1 f.1 (omega (arith, h.memory_sum)) in
    record {
      cpu_signs = (h.cpu_signs.0, rw new_cpu refl);
      memory_signs = (h.memory_signs.0, rw new_memory refl);
      cpu_sum = rw new_cpu (omega (arith, h.cpu_sum));
      memory_sum = rw new_memory (omega (arith, h.memory_sum));
    }
count_worker-Counts available w cpu memory c f p q h = count_free-Counts w cpu memory c f p q h
count_worker-Counts (other_status s) w cpu memory c f p q h =
    count_free-Counts w cpu memory c f p q h

count_workers-Counts :
    (ws : List Worker) (cpu memory : ℕ) (c : WorkerPoolCapacity)
    → All HasFree ws
    → cpu + enabled_cpu ws < half64
    → memory + enabled_memory ws < half64
    → Counts cpu memory c
    → Counts (cpu + enabled_cpu ws) (memory + enabled_memory ws) (count_workers ws c)
unfolding count_workers
count_workers-Counts [] cpu memory c f p q h = record {
  cpu_signs = h.cpu_signs;
  memory_signs = h.memory_signs;
  cpu_sum = omega (arith, h.cpu_sum);
  memory_sum = omega (arith, h.memory_sum);
}
count_workers-Counts (w ∷ ws) cpu memory c f p q h =
    let next = count_worker-Counts w.status w cpu memory c f.0 (omega arith) (omega arith) h in
    let later = count_workers-Counts ws _ _ _ f.1 (omega arith) (omega arith) next in
    record {
      cpu_signs = later.cpu_signs;
      memory_signs = later.memory_signs;
      cpu_sum = omega (arith, later.cpu_sum);
      memory_sum = omega (arith, later.memory_sum);
    }

-- If no free CPU or memory is negative and the sums fit an int64: the capacity that
-- `freePoolCapacity` answers makes `shouldAddWorker` ask for a worker, where the pool wants no free
-- GPUs, exactly if the free CPU or the free memory of the workers that are not cordoned, pending
-- ones included, is below the wanted one.
pub should_add_worker-total :
    (ws : List Worker) (config : WorkerPoolSizingConfig)
    → All HasFree ws
    → enabled_cpu ws < half64
    → enabled_memory ws < half64
    → config.min_free_gpu ≡ 0
    → (c : WorkerPoolCapacity) × (free_pool_capacity (ok ws) ≡ ok c)
      × ((should_add_worker c config ≡ true) ↔ (
          (pos (enabled_cpu ws) <ℤ config.min_free_cpu)
          ⊎ (pos (enabled_memory ws) <ℤ config.min_free_memory)))
unfolding free_pool_capacity should_add_worker
should_add_worker-total ws config f p q no_gpus =
    let c = count_workers ws no_capacity in
    let h = count_workers-Counts ws 0 0 no_capacity f (omega arith) (omega arith) (record {
      cpu_signs = (refl, refl);
      memory_signs = (refl, refl);
      cpu_sum = omega arith;
      memory_sum = omega arith;
    }) in
    let cpu =
      i64-add c.free_cpu c.pending_cpu h.cpu_signs.0 h.cpu_signs.1 (omega (arith, h.cpu_sum)) in
    let memory =
      i64-add c.free_memory c.pending_memory h.memory_signs.0 h.memory_signs.1
        (omega (arith, h.memory_sum)) in
    (c, refl, rw cpu (rw memory (ground (arith, h.cpu_sum, h.memory_sum, no_gpus))))

-- ===== src/Repository/Worker/Index.antt =====
-- The methods of pkg/repository/worker_redis.go over all indexed workers.
use beta.Base.{
  ℕ, ◌+◌, String, Bool, true, false, Option, none, some, List, [], ◌∷◌, ◌++◌, ltb, str_eq,
  non_empty, if◌then◌else◌, keep_if, lookup, put,
}
use beta.Base.Io.{Io, ◌>>=◌, ◌>>◌, pure, finally, attempt}
use beta.Types.{Worker, WorkerStatus, pending, disabled, gpu_any, all_gpu_types}
use beta.Repository.Worker.Redis.{WorkerRedis, RepoError}
use beta.Repository.Worker.{get_worker_from_key, update_worker_status}

abbrev pub append_some : Option Worker → List Worker → List Worker
append_some none ws = ws
append_some (some w) ws = w ∷ ws

-- A Go map from GPU types to numbers.
abbrev pub GpuCounts : Type 0
GpuCounts = List (String × ℕ)

abbrev pub or_zero : Option ℕ → ℕ
or_zero none = 0
or_zero (some n) = n

abbrev pub no_counts : List String → GpuCounts
no_counts [] = []
no_counts (g ∷ gs) = (g, 0) ∷ no_counts gs

-- The loop `gpuCounts[w.Gpu] += …` over the workers; the sums are far below an int's bound.
unfoldable pub add_counts : (Worker → ℕ) → List Worker → GpuCounts → GpuCounts
add_counts count [] m = m
add_counts count (w ∷ ws) m =
    add_counts count ws
      (if non_empty w.gpu then put w.gpu (or_zero (lookup w.gpu m) + count w) m else m)

abbrev pub is_pending : WorkerStatus → Bool
is_pending pending = true
is_pending _ = false

-- `gpuAvailability` before and after the counts, and with the preemptible types.
abbrev pub no_availability : List String → List (String × Bool)
no_availability [] = []
no_availability (g ∷ gs) =
    let rest = no_availability gs in if str_eq g gpu_any then rest else (g, false) ∷ rest

unfoldable pub counted_availability : GpuCounts → List (String × Bool) → List (String × Bool)
counted_availability [] m = m
counted_availability ((g, n) ∷ counts) m =
    counted_availability counts (if str_eq g gpu_any then m else put g (ltb 0 n) m)

unfoldable pub mark_available : List String → List (String × Bool) → List (String × Bool)
mark_available [] m = m
mark_available (g ∷ gs) m = mark_available gs (put g true m)

-- The GPU type of a pool of the configuration, with the values of its node selector.
pub record PoolConfig : Type 0 where
  pub gpu_type : String
  pub node_selector : List String

-- Once for each value that names spot nodes; `contains_spot` is `strings.Contains(v, "spot")`.
unfoldable pub spot_types : (String → Bool) → String → List String → List String
spot_types contains_spot gpu [] = []
spot_types contains_spot gpu (v ∷ vs) =
    let rest = spot_types contains_spot gpu vs in if contains_spot v then gpu ∷ rest else rest

unfoldable pub get_preemptible_gpus : (String → Bool) → List PoolConfig → List String
unfolding spot_types
get_preemptible_gpus contains_spot [] = []
get_preemptible_gpus contains_spot (p ∷ ps) =
    let rest = get_preemptible_gpus contains_spot ps in
    if non_empty p.gpu_type
    then spot_types contains_spot p.gpu_type p.node_selector ++ rest
    else rest

-- `GetGpuAvailability` from the counts on.
unfoldable pub gpu_availability : List String → GpuCounts → List (String × Bool)
unfolding counted_availability mark_available
gpu_availability preemptible counts =
    mark_available preemptible (counted_availability counts (no_availability all_gpu_types))

module _ (R : WorkerRedis) where
  open R use {Db, acquire, release, srem, smembers, hgetall_each}

  -- A key without a state is taken out of the index; a failure to do so is passed over.
  unfoldable pub collect_found : List String → List (Option Worker) → Io Db RepoError (List Worker)
  collect_found (k ∷ ks) (none ∷ found) = attempt (srem k) >>= λ _. collect_found ks found
  collect_found (k ∷ ks) (some w ∷ found) = collect_found ks found >>= λ ws. pure (w ∷ ws)
  collect_found _ _ = pure []

  unfoldable pub get_workers_from_keys : List String → Io Db RepoError (List Worker)
  unfolding collect_found
  get_workers_from_keys ks = hgetall_each ks >>= collect_found ks

  -- One worker under its lock; `none` is `continue`.
  abbrev pub read_locked : String → Option (Unit {0}) → Io Db RepoError (Option Worker)
  read_locked k none = pure none
  read_locked k (some u) = attempt (finally (get_worker_from_key R k) (release k))

  unfoldable pub get_workers_locked : List String → Io Db RepoError (List Worker)
  get_workers_locked [] = pure []
  get_workers_locked (k ∷ ks) = attempt (acquire k) >>= read_locked k >>= λ found.
      get_workers_locked ks >>= λ ws. pure (append_some found ws)

  unfoldable pub get_workers : Bool → Io Db RepoError (List Worker)
  unfolding get_workers_from_keys get_workers_locked
  get_workers use_lock =
      smembers >>= λ ks. if use_lock then get_workers_locked ks else get_workers_from_keys ks

  unfoldable pub get_all_workers : Io Db RepoError (List Worker)
  unfolding get_workers
  get_all_workers = get_workers true

  unfoldable pub get_all_workers_in_pool : String → Io Db RepoError (List Worker)
  unfolding get_workers
  get_all_workers_in_pool pool =
      get_workers false >>= λ ws. pure (keep_if (λ w. str_eq w.pool_name pool) ws)

  unfoldable pub get_all_workers_on_machine : String → Io Db RepoError (List Worker)
  unfolding get_workers
  get_all_workers_on_machine machine =
      get_workers false >>= λ ws. pure (keep_if (λ w. str_eq w.machine_id machine) ws)

  -- The loop of `CordonAllPendingWorkersInPool`; the first failure ends it.
  unfoldable pub cordon_pending : List Worker → Io Db RepoError (Unit {0})
  cordon_pending [] = pure tt
  cordon_pending (w ∷ ws) =
      let rest = cordon_pending ws in
      if is_pending w.status then update_worker_status R w.id disabled >> rest else rest

  unfoldable pub cordon_all_pending_workers_in_pool : String → Io Db RepoError (Unit {0})
  unfolding cordon_pending get_all_workers_in_pool
  cordon_all_pending_workers_in_pool pool = get_all_workers_in_pool pool >>= cordon_pending

  unfoldable pub get_gpu_counts : Io Db RepoError GpuCounts
  unfolding get_workers add_counts
  get_gpu_counts = get_workers false >>= λ ws.
      pure (add_counts (λ w. w.total_gpu_count) ws (no_counts all_gpu_types))

  unfoldable pub get_free_gpu_counts : Io Db RepoError GpuCounts
  unfolding get_workers add_counts
  get_free_gpu_counts = get_workers false >>= λ ws.
      pure (add_counts (λ w. w.free_gpu_count) ws (no_counts all_gpu_types))

  unfoldable pub get_gpu_availability : List String → Io Db RepoError (List (String × Bool))
  unfolding get_gpu_counts gpu_availability
  get_gpu_availability preemptible =
      get_gpu_counts >>= λ counts. pure (gpu_availability preemptible counts)

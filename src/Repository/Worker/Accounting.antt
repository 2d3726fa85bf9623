-- ===== src/Repository/Worker/Accounting.antt =====
-- What taking a request off a worker does to its free resources, and when it is refused.
use beta.Base.{
  str_eq, ◌∙◌, ◌%◌, ◌⊎◌, inl, inr, refl, Bool-cases, ◌+◌, ◌-◌, ◌<◌, ◌≡◌, ap, subst, ◌≢◌, String,
  true, false, some, [], ◌∷◌, ◌++◌, ok, err, arith, str_eq_iff,
}
use beta.Base.Int.{ℤ, pos, pos_part, neg_part, ltb_ℤ, ◌+ℤ◌, ◌-ℤ◌, ◌≤ℤ◌}
use beta.Base.Machine.{i64, i64_id, half64, InU32}
use beta.Types.{Worker, ContainerRequest, CapacityUpdateType, remove_capacity}
use beta.Repository.Worker.Redis.{WorkerRedis, WorkerStore, invalid_resource_version, update}
use beta.Repository.Worker.{
  same_version, bump_version, subtract_request, change_capacity, updated_capacity, stored_or_zero,
  update_worker_capacity, schedule_container_request,
}
use beta.Repository.Worker.Capacity.{
  stored_worker, update_worker_capacity-Ensures, schedule_container_request-Ensures,
}

-- A value that is not negative and fits an int64.
abbrev pub IsAmount : ℤ → Type 0
IsAmount z = (neg_part z ≡ 0) × (pos_part z < half64)

pub record HasAmounts (w : Worker) (r : ContainerRequest) : Type 0 where
  pub free_cpu : IsAmount w.free_cpu
  pub free_memory : IsAmount w.free_memory
  pub free_gpus : InU32 w.free_gpu_count
  pub cpu : IsAmount r.cpu
  pub memory : IsAmount r.memory
  pub gpus : InU32 r.gpu_count

i64-sub : (a b : ℤ) → IsAmount a → IsAmount b → i64 (a -ℤ b) ≡ a -ℤ b
unfolding ◌-ℤ◌
i64-sub a b h k = i64_id _ (ground arith)

sub-nonneg : (a b : ℤ) → ltb_ℤ (a -ℤ b) (pos 0) ≡ false → b ≤ℤ a
unfolding ◌-ℤ◌
sub-nonneg a b h = ground arith

same_version-eq : (a b : ℤ) → same_version a b ≡ true → a ≡ b
same_version-eq a b h = ground arith

same_version_refl : (a : ℤ) → same_version a a ≡ true
same_version_refl a = ground arith

sub_enough : (a b : ℤ) → IsAmount a → IsAmount b → b ≤ℤ a → ltb_ℤ (i64 (a -ℤ b)) (pos 0) ≡ false
sub_enough a b h k le = rw (i64-sub a b h k) (unfold ◌-ℤ◌ in ground arith)

i64_suc-ne : (a : ℤ) → same_version (i64 (a +ℤ pos 1)) a ≡ false
unfolding i64 ◌+ℤ◌
i64_suc-ne a = ground arith

-- A successful removal of capacity: the version was current, the CPU and the memory were free, and
-- exactly the request has been taken off. The free GPUs are a uint32, and are not tested.
pub record Removed (snapshot : Worker) (r : ContainerRequest) (w w' : Worker) : Type 0 where
  pub current : w.resource_version ≡ snapshot.resource_version
  pub cpu_free : r.cpu ≤ℤ w.free_cpu
  pub memory_free : r.memory ≤ℤ w.free_memory
  pub gpus :
      ((r.gpu ≡ "") × (w'.free_gpu_count ≡ w.free_gpu_count))
      ⊎ ((r.gpu ≢ "")
          × (w'.free_gpu_count ≡ (w.free_gpu_count + 4294967296 - r.gpu_count) % 4294967296))
  -- everything but the free GPUs, which are above
  pub rest : w' ≡ record w {
    free_cpu = w.free_cpu -ℤ r.cpu;
    free_memory = w.free_memory -ℤ r.memory;
    free_gpu_count = w'.free_gpu_count;
    resource_version = i64 (w.resource_version +ℤ pos 1);
  }

taken_off :
    (snapshot : Worker) (r : ContainerRequest) (w : Worker) {w' : Worker}
    → updated_capacity snapshot r remove_capacity w ≡ ok w'
    → w' ≡ bump_version (subtract_request r w)
unfolding updated_capacity change_capacity
taken_off snapshot r w e = ground arith

fewer_gpus :
    (r : ContainerRequest) (w : Worker)
    → InU32 r.gpu_count
    → ((r.gpu ≡ "") × ((subtract_request r w).free_gpu_count ≡ w.free_gpu_count))
      ⊎ ((r.gpu ≢ "")
          × ((subtract_request r w).free_gpu_count
              ≡ (w.free_gpu_count + 4294967296 - r.gpu_count) % 4294967296))
unfolding subtract_request
fewer_gpus r w h = elim (Bool-cases (str_eq r.gpu "")) [
  | inl none_asked ↦ inl ((str_eq_iff r.gpu "").0 none_asked, rw none_asked refl)
  | inr some_asked ↦
      inr (λ e. cc (some_asked, (str_eq_iff r.gpu "").1 e), rw some_asked (ground arith))
]

pub updated_capacity-Removed :
    (snapshot : Worker) (r : ContainerRequest) (w : Worker) {w' : Worker}
    → HasAmounts w r
    → updated_capacity snapshot r remove_capacity w ≡ ok w'
    → Removed snapshot r w w'
unfolding updated_capacity change_capacity
updated_capacity-Removed snapshot r w h e =
    let shape = taken_off snapshot r w e in
    let cpu : r.cpu ≤ℤ w.free_cpu =
      ground (arith, i64-sub w.free_cpu r.cpu, sub-nonneg w.free_cpu r.cpu) in
    let memory : r.memory ≤ℤ w.free_memory =
      ground (arith, i64-sub w.free_memory r.memory, sub-nonneg w.free_memory r.memory) in
    record {
      current = ground (arith, same_version-eq w.resource_version snapshot.resource_version);
      cpu_free = cpu;
      memory_free = memory;
      gpus = rw shape (fewer_gpus r w h.gpus);
      rest = rw shape (
          rw
            (
              i64-sub w.free_cpu r.cpu h.free_cpu h.cpu,
              i64-sub w.free_memory r.memory h.free_memory h.memory,
            )
            refl);
    }

update_self : {A : Type 0} (f : String → A) (k : String) (v : A) → update f k v k ≡ v
update_self f k v = ground (arith, str_eq_iff k k)

update_ne :
    {A : Type 0} (f : String → A) (k : String) (v : A) (j : String) → j ≢ k → update f k v j ≡ f j
update_ne f k v j ne = ground (arith, str_eq_iff k j)

stale-refused :
    (snapshot : Worker) (r r' : ContainerRequest) (t : CapacityUpdateType) (w w' : Worker)
    → updated_capacity snapshot r remove_capacity w ≡ ok w'
    → updated_capacity snapshot r' t w' ≡ err invalid_resource_version
unfolding updated_capacity change_capacity
stale-refused snapshot r r' t w w' e = ground (
  arith,
  same_version-eq w.resource_version snapshot.resource_version,
  i64_suc-ne w.resource_version,
)

-- The stored values after a scheduled request.
pub record Scheduled (worker : Worker) (r : ContainerRequest) (w : Worker)
    (before after : WorkerStore) : Type 0 where
  pub written : Worker
  pub is_written : after.workers worker.id ≡ some written
  pub removed : Removed worker r w written
  pub queued : after.requests worker.id ≡ before.requests worker.id ++ r ∷ []
  pub other_workers : (j : String) → j ≢ worker.id → after.workers j ≡ before.workers j
  pub other_requests : (j : String) → j ≢ worker.id → after.requests j ≡ before.requests j
  pub same_index : after.index ≡ before.index

module _ (R : WorkerRedis) where
  open R use {Db, view}

  -- If `ScheduleContainerRequest` succeeds on a stored worker whose numbers are not negative, the
  -- caller's copy had the stored version, the request's CPU and memory were free, exactly they are
  -- taken off the stored worker, and its GPUs if it asks for any, modulo 2^32 since they are not
  -- tested; its version is the next one, its other fields are as before, the request is the last of
  -- the worker's queue, and no other worker, queue or index entry has changed.
  pub schedule_container_request-Scheduled :
      (worker : Worker) (r : ContainerRequest) (w : Worker) (d : Db)
      → (view d).workers worker.id ≡ some w
      → HasAmounts w r
      → (schedule_container_request R worker r d).0 ≡ ok tt
      → Scheduled worker r w (view d) (view (schedule_container_request R worker r d).1)
  schedule_container_request-Scheduled worker r w d found amounts success =
      let (w', changed, stored) =
        (schedule_container_request-Ensures R worker r d).holds tt success in
      record {
        written = w';
        is_written = rw stored (update_self (view d).workers worker.id (some w'));
        removed = updated_capacity-Removed worker r w amounts (
            subst
              (λ o. updated_capacity worker r remove_capacity (stored_or_zero worker.id o) ≡ ok w')
              found changed);
        queued = rw stored (update_self (view d).requests worker.id _);
        other_workers = λ j ne. rw stored (update_ne (view d).workers worker.id (some w') j ne);
        other_requests = λ j ne. rw stored (update_ne (view d).requests worker.id _ j ne);
        same_index = ap (λ v. v.index) stored;
      }

  -- Once a request has been scheduled with a copy of a worker, a change of capacity with the same
  -- copy does not succeed in any later state, as long as the stored worker is still the one that was
  -- written then: of two schedulers that read the same worker only one commits.
  pub schedule_container_request-once :
      (worker : Worker) (r r' : ContainerRequest) (t : CapacityUpdateType) (d later : Db)
      → (schedule_container_request R worker r d).0 ≡ ok tt
      → (view later).workers worker.id
        ≡ (view (schedule_container_request R worker r d).1).workers worker.id
      → (update_worker_capacity R worker r' t later).0 ≢ ok tt
  schedule_container_request-once worker r r' t d later first same second =
      let (w', changed, stored) =
        (schedule_container_request-Ensures R worker r d).holds tt first in
      let (w'', again, _) = (update_worker_capacity-Ensures R worker r' t later).holds tt second in
      let p : (view later).workers worker.id ≡ some w' =
        same ∙ rw stored (update_self (view d).workers worker.id (some w')) in
      cc (stale-refused worker r r' t (stored_worker R d worker.id) w' changed, p, again)

-- The test `updatedWorker.FreeGpuCount < 0` is on a uint32: where the CPU and the memory suffice and
-- the version is current, a request for more GPUs than are free is not refused, and the free count
-- wraps round to a number above the old one.
pub updated_capacity-gpu_wraps :
    (snapshot : Worker) (r : ContainerRequest) (w : Worker)
    → HasAmounts w r
    → w.resource_version ≡ snapshot.resource_version
    → r.cpu ≤ℤ w.free_cpu
    → r.memory ≤ℤ w.free_memory
    → r.gpu ≢ ""
    → w.free_gpu_count < r.gpu_count
    → (w' : Worker) × (updated_capacity snapshot r remove_capacity w ≡ ok w')
      × (w'.free_gpu_count ≡ w.free_gpu_count + 4294967296 - r.gpu_count)
unfolding updated_capacity change_capacity subtract_request
updated_capacity-gpu_wraps snapshot r w h v c m g lack = (
  bump_version (subtract_request r w),
  ground (
    arith,
    str_eq_iff r.gpu "",
    same_version_refl w.resource_version,
    sub_enough w.free_cpu r.cpu,
    sub_enough w.free_memory r.memory,
    ap (same_version w.resource_version) v,
  ),
  ground (arith, str_eq_iff r.gpu ""),
)

-- ===== src/WorkerNode/Lifecycle/Blocked.antt =====
-- A worker whose container lock is kept.
use beta.Base.{
  ◌++◌, [], ◌∷◌, ap, String, ℕ, List, Result, ok, err, none, lookup-put_ne, ◌≢◌, ◌≡◌, refl, sym,
  ◌∙◌, subst, ◌⊎◌, inl, inr, true, false, ◌&&◌, some, some-injective, Bool-cases, lookup,
}
use beta.Base.Int.{ℤ}
use beta.Types.{ContainerRequest}
use beta.Wire.Parts.{storage_available}
use beta.WorkerNode.Gpu.{
  AllocationMap, ContainerNvidiaManager, GpuError, choose_devices, save, assign_gpu_devices,
}
use beta.WorkerNode.Requests.{Setup, RunAnswers}
use beta.WorkerNode.Lifecycle.{
  WorkerProcess, kept_lock, is_known, is_refused, handle_container_request, end_spawn,
}
use beta.WorkerNode.Lifecycle.Steps.{
  Node, taking, next, Step, handled, ran, assigned, cleared, deleted, stopped, received, added,
  not_added, worker_not_found, Reach, here, later,
}

-- Every container keeps the devices that it has.
abbrev Retains : ContainerNvidiaManager → ContainerNvidiaManager → Type 0
Retains c c' =
    (id : String) (ds : List ℕ)
    → lookup id c.gpu_allocation_map ≡ some ds
    → lookup id c'.gpu_allocation_map ≡ some ds

other_key :
    (m : AllocationMap) (id j : String) (ds : List ℕ)
    → lookup id m ≡ none
    → lookup j m ≡ some ds
    → j ≢ id
other_key m id j ds new held same = cc

save-Retains :
    (id : String) (x : Result GpuError (List ℕ)) (c : ContainerNvidiaManager)
    → lookup id c.gpu_allocation_map ≡ none
    → Retains c (save id x c).1
save-Retains id (err e) c new j ds held = held
save-Retains id (ok devices) c new j ds held =
    lookup-put_ne id j devices c.gpu_allocation_map
      (other_key c.gpu_allocation_map id j ds new held)
    ∙ held

assign_gpu_devices-Retains :
    (available : Result (Unit {0}) (List ℕ)) (id : String) (requested : ℕ)
    (c : ContainerNvidiaManager)
    → lookup id c.gpu_allocation_map ≡ none
    → Retains c (assign_gpu_devices available id requested c).1
unfolding assign_gpu_devices
assign_gpu_devices-Retains available id requested c new =
    save-Retains id (choose_devices c.gpu_allocation_map available requested) c new

-- The lock is kept; no request was taken, no container was cleared, and no device released.
pub record IsBlocked (n m : Node) : Type 0 where
  pub lock : m.worker.container_lock ≡ true
  pub taken : m.taken ≡ n.taken
  pub devices : Retains n.worker.devices m.worker.devices
  pub ended : List (ContainerRequest × ℤ)
  pub clearing : m.worker.clearing ≡ ended ++ n.worker.clearing

locked : (n : Node) → n.worker.container_lock ≡ true → n.worker.container_lock ≡ false → ⊥
locked n h k = cc

append_assoc : {A : Type 0} (xs ys zs : List A) → (xs ++ ys) ++ zs ≡ xs ++ (ys ++ zs)
append_assoc [] ys zs = refl
append_assoc (x ∷ xs) ys zs = ap (λ l. x ∷ l) (append_assoc xs ys zs)

same-IsBlocked :
    (n m l : Node)
    → IsBlocked n m
    → l.worker.container_lock ≡ m.worker.container_lock
    → l.taken ≡ m.taken
    → Retains m.worker.devices l.worker.devices
    → (more : List (ContainerRequest × ℤ)) → l.worker.clearing ≡ more ++ m.worker.clearing
    → IsBlocked n l
same-IsBlocked n m l b lock taken devices more clearing = record {
  lock = lock ∙ b.lock;
  taken = taken ∙ b.taken;
  devices = λ id ds held. devices id ds (b.devices id ds held);
  ended = more ++ b.ended;
  clearing =
      clearing ∙ ap (λ x. more ++ x) b.clearing ∙ sym (append_assoc more b.ended n.worker.clearing);
}

step-IsBlocked : (cfg : Setup) (n m l : Node) → IsBlocked n m → Step cfg m l → IsBlocked n l
unfolding end_spawn
step-IsBlocked cfg n m l b (handled a r _ free e) = absurd (locked m b.lock free)
step-IsBlocked cfg n m _ b (ran e r before after split) =
    same-IsBlocked n m _ b refl refl (λ id ds held. held) (_ ∷ []) refl
step-IsBlocked cfg n m _ b (assigned available r runs wants new) =
    same-IsBlocked n m _ b refl refl
      (assign_gpu_devices-Retains available r.container_id r.gpu_count m.worker.devices new) [] refl
step-IsBlocked cfg n m _ b (cleared r code before after free room split) =
    absurd (locked m b.lock free)
step-IsBlocked cfg n m _ b (deleted id) =
    same-IsBlocked n m _ b refl refl (λ id ds held. held) [] refl
step-IsBlocked cfg n m _ b (stopped id reason free) = absurd (locked m b.lock free)
step-IsBlocked cfg n m _ b (received r rest idle e) =
    same-IsBlocked n m _ b refl refl (λ id ds held. held) [] refl
step-IsBlocked cfg n m _ b (added r holds) =
    same-IsBlocked n m _ b refl refl (λ id ds held. held) [] refl
step-IsBlocked cfg n m _ b (not_added r holds room) =
    same-IsBlocked n m _ b refl refl (λ id ds held. held) [] refl
step-IsBlocked cfg n m _ b (worker_not_found r holds) =
    same-IsBlocked n m _ b refl refl (λ id ds held. held) [] refl

Reach-IsBlocked : (cfg : Setup) (n m : Node) → IsBlocked n n → Reach cfg n m → IsBlocked n m
Reach-IsBlocked cfg n _ b here = b
Reach-IsBlocked cfg n _ b (later {m = u} {l = m} run s) =
    step-IsBlocked cfg n u m (Reach-IsBlocked cfg n u b run) s

-- The two ways out of `handleContainerRequest` that do not unlock.
abbrev KeepsLock : RunAnswers → ContainerRequest → WorkerProcess → Type 0
KeepsLock a r w =
    (is_known (lookup r.container_id w.instances) ≡ true)
    ⊎ (storage_available r.workspace && is_refused a.mount ≡ true)

handle_container_request-kept_lock :
    (cfg : Setup) (a : RunAnswers) (r : ContainerRequest) (w : WorkerProcess)
    → KeepsLock a r w
    → handle_container_request cfg a r w ≡ kept_lock (record w { container_lock = true })
unfolding handle_container_request
handle_container_request-kept_lock cfg a r w (inl again) = rw again refl
handle_container_request-kept_lock cfg a r w (inr unmounted) =
    elim (Bool-cases (is_known (lookup r.container_id w.instances))) [
      | inl again ↦ rw again refl
      | inr new ↦ rw (new, unmounted) refl
    ]

-- What a kept lock leaves: no other request is taken, the containers that had ended are all still to
-- be cleared, behind those that have ended since, and every container keeps its devices.
pub record Blocked (r : ContainerRequest) (n m : Node) : Type 0 where
  pub lock : m.worker.container_lock ≡ true
  pub taken : m.taken ≡ r ∷ n.taken
  pub ended : List (ContainerRequest × ℤ)
  pub clearing : m.worker.clearing ≡ ended ++ n.worker.clearing
  pub devices : Retains n.worker.devices m.worker.devices

-- A worker that is sent a request for a container that it has, or whose storage cannot be mounted,
-- takes no request and clears no container again: whatever happens after it, its lock is kept, no
-- other request is taken, every container that had ended is still to be cleared, and a container
-- that has GPU devices keeps them.
pub handle_container_request-blocks :
    (cfg : Setup) (a : RunAnswers) (r : ContainerRequest) (n u m : Node)
    → (is_known (lookup r.container_id n.worker.instances) ≡ true)
      ⊎ (storage_available r.workspace && is_refused a.mount ≡ true)
    → next r n (handle_container_request cfg a r n.worker) ≡ some u
    → Reach cfg u m
    → Blocked r n m
handle_container_request-blocks cfg a r n u m out e run =
    let f = rw (handle_container_request-kept_lock cfg a r n.worker out) at e in
    let v = record (taking r n (record n.worker { container_lock = true })) {
      left_with_lock = r ∷ n.left_with_lock;
    } in
    let start : IsBlocked v v = record {
      lock = refl;
      taken = refl;
      devices = λ id ds held. held;
      ended = [];
      clearing = refl;
    } in
    let b =
      Reach-IsBlocked cfg v m start (subst (λ x. Reach cfg x m) (sym (some-injective f)) run) in
    record {
      lock = b.lock;
      taken = b.taken;
      ended = b.ended;
      clearing = b.clearing;
      devices = b.devices;
    }

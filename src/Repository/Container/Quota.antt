-- ===== src/Repository/Container/Quota.antt =====
-- Admission under a concurrency limit: what a successful
-- `SetContainerStateWithConcurrencyLimit` has checked and stored.
use beta.Base.{
  ℕ, [], ◌∷◌, ◌+◌, ◌≤◌, ◌≡◌, ◌≢◌, refl, ◌∙◌, ap, subst, String, Option, some, List, ok, arith,
  Bool-cases, inl, inr, str_eq_iff, ltb,
}
use beta.Base.Int.{ℤ, pos, ltb_ℤ, ◌+ℤ◌, ◌≤ℤ◌}
use beta.Base.Machine.{i64}
use beta.Base.Io.{
  ◌>>◌, Ensures, >>=-Ensures, >>-Ensures, finally-Ensures, pure-Ensures, fail-Ensures, call-Ensures,
  Ensures-map, >>-keeps,
}
use beta.Types.Related.{ConcurrencyLimit}
use beta.Types.{ContainerState, ContainerStatus, ContainerRequest, pending, stopping}
use beta.Repository.Container.Redis.{
  ContainerRedis, ContainerStore, Index, by_workspace, by_stub, by_worker, add_member,
  started_at_of, update, merge_state,
}
use beta.Repository.Container.{
  ttl_while_pending, pending_state, total_gpu_count, total_cpu, check_quota, check_limit,
  set_container_state, set_container_state_with_concurrency_limit,
}
use beta.Repository.Container.Listing.{ReadsAnswer, actives, Same, active-Ensures}

module _ (R : ContainerRedis) (reads : ReadsAnswer R) where
  open R use {Db, view}

  -- The request is within the limit on top of the active containers of its workspace.
  abbrev pub Within : ConcurrencyLimit → ContainerRequest → ContainerStore → Type 0
  Within q r s =
      let cs = actives s.states (s.workspace_index r.workspace_id) in
      (total_gpu_count 0 cs + r.gpu_count ≤ q.gpu_limit)
      × (i64 (total_cpu (pos 0) cs +ℤ r.cpu) ≤ℤ pos q.cpu_millicore_limit)

  check_quota-Ensures :
      (q : ConcurrencyLimit) (r : ContainerRequest) (cs : List ContainerState) (d : Db)
      → Ensures (check_quota R q r cs) d λ _ d'.
        ((total_gpu_count 0 cs + r.gpu_count ≤ q.gpu_limit)
          × (i64 (total_cpu (pos 0) cs +ℤ r.cpu) ≤ℤ pos q.cpu_millicore_limit))
        × (d' ≡ d)
  unfolding check_quota
  check_quota-Ensures q r cs d =
      elim (Bool-cases (ltb q.gpu_limit (total_gpu_count 0 cs + r.gpu_count))) [
        | inl over ↦ rw over (fail-Ensures _)
        | inr gpus ↦
            rw gpus
              (elim (Bool-cases
                (ltb_ℤ (pos q.cpu_millicore_limit) (i64 (total_cpu (pos 0) cs +ℤ r.cpu)))) [
                  | inl over ↦ rw over (fail-Ensures _)
                  | inr cpus ↦ rw cpus (pure-Ensures _ ((ground arith, ground arith), refl))
                ])
      ]

  check_limit-Ensures :
      (q : ConcurrencyLimit) (r : ContainerRequest) (d : Db)
      → Ensures (check_limit R (some q) r) d (λ _ d'. Within q r (view d) × Same R d d')
  check_limit-Ensures q r d = >>=-Ensures _ _ λ cs e.
      let (found, same) = (active-Ensures R reads (by_workspace r.workspace_id) d).holds cs e in
      Ensures-map (check_quota-Ensures q r cs _)
        λ _ d' h. (rw (← found) h.0, ap (λ x. (view x).states) h.1 ∙ same)

-- `SetContainerState` that succeeds has written the state, with the start time of an older one.
module _ (R : ContainerRedis) (k : String) (c : ContainerState) where
  open R use {Db, view, hset_new, expire, sadd}

  abbrev Stored : (String → Option ContainerState) → Db → Type 0
  Stored states d' = (view d').states ≡ states

  merged : ContainerStore → String → Option ContainerState
  merged s = (merge_state k c s).states

  sadd-Stored :
      (states : String → Option ContainerState) (i : Index) (d' : Db) (u : Unit {0})
      → (sadd i k d').0 ≡ ok u
      → Stored states d'
      → Stored states (sadd i k d').1
  sadd-Stored states i d' u e h =
      ap (λ s. s.states) ((R.sadd-Writes i k d').0 u e) ∙ add_states i ∙ h
    where
      add_states : (j : Index) → (add_member j k (view d')).states ≡ (view d').states
      add_states (by_stub s) = refl
      add_states (by_workspace s) = refl
      add_states (by_worker s) = refl

  writes-Stored :
      (d : Db)
      → Ensures
          (hset_new k c
            >> expire k ttl_while_pending
            >> sadd (by_stub c.stub_id) k
            >> sadd (by_workspace c.workspace_id) k)
          d
          (λ _ d'. Stored (merged (view d)) d')
  unfolding merged
  writes-Stored d =
      let P = Stored (merged (view d)) in
      >>-keeps P _ _ d
        (>>-keeps P _ _ d
          (>>-keeps P _ _ d
            (call-Ensures λ u e. ap (λ s. s.states) ((R.hset_new-Writes k c d).0 u e))
            (λ d' u e h. ap (λ s. s.states) (R.expire-Reads k ttl_while_pending d').0 ∙ h))
          (sadd-Stored (merged (view d)) (by_stub c.stub_id)))
        (sadd-Stored (merged (view d)) (by_workspace c.workspace_id))

  pub set_container_state-Ensures :
      (d : Db)
      → Ensures
          (set_container_state R k c)
          d
          λ _ d'. (view d').states ≡ (merge_state k c (view d)).states
  unfolding set_container_state merged
  set_container_state-Ensures d = >>-Ensures _ _ λ _. finally-Ensures _ _ (
      Ensures-map (writes-Stored _) λ _ d' h.
        ap (λ s. s.states) (R.release-view k d')
        ∙ h
        ∙ ap (λ s. (merge_state k c s).states) (R.acquire-Reads k d).0)

update_self : {A : Type 0} (f : String → A) (k : String) (v : A) → update f k v k ≡ v
update_self f k v = ground (arith, str_eq_iff k k)

update_ne :
    {A : Type 0} (f : String → A) (k : String) (v : A) (j : String) → j ≢ k → update f k v j ≡ f j
update_ne f k v j ne = ground (arith, str_eq_iff k j)

-- `merge_state` on the states alone.
merged_states :
    String → ContainerState → (String → Option ContainerState) → String → Option ContainerState
merged_states k c states =
    update states k (some (record c { container_id = k; started_at = started_at_of (states k) }))

admitted-Ensures :
    (R : ContainerRedis) (reads : ReadsAnswer R) (now : ℤ) (q : ConcurrencyLimit)
    (r : ContainerRequest) (d : R.Db)
    → Ensures (set_container_state_with_concurrency_limit R now (some q) r) d λ _ d'.
      Within R reads q r (R.view d)
      × ((R.view d').states ≡ (merge_state r.container_id (pending_state now r) (R.view d)).states)
unfolding set_container_state_with_concurrency_limit merged_states
admitted-Ensures R reads now q r d = >>=-Ensures _ _ λ obtained o. finally-Ensures _ _ (
    >>-Ensures _ _ λ checked.
      let locked = R.obtain_limit-view r.workspace_id d in
      let (within, same) = (check_limit-Ensures R reads q r _).holds tt checked in
      Ensures-map (set_container_state-Ensures R r.container_id (pending_state now r) _) λ _ d' h. (
        subst (Within R reads q r) locked within,
        ap (λ s. s.states) (R.release_limit-view r.workspace_id d')
            ∙ h
            ∙ ap (merged_states r.container_id (pending_state now r))
                (same ∙ ap (λ s. s.states) locked),
      ))

-- The containers that are not being stopped.
abbrev pub unstopped : List ContainerState → List ContainerState
unstopped [] = []
unstopped (c ∷ cs) = stay c.status (unstopped cs)
  where
    stay : ContainerStatus → List ContainerState → List ContainerState
    stay stopping rest = rest
    stay _ rest = c ∷ rest

abbrev pub sum_gpus : List ContainerState → ℕ
sum_gpus [] = 0
sum_gpus (c ∷ cs) = c.gpu_count + sum_gpus cs

-- A sum of int64 values, from the first on.
abbrev pub sum_cpu : ℤ → List ContainerState → ℤ
sum_cpu n [] = n
sum_cpu n (c ∷ cs) = sum_cpu (i64 (n +ℤ c.cpu)) cs

total_gpu_count-unstopped :
    (n : ℕ) (cs : List ContainerState) → total_gpu_count n cs ≡ n + sum_gpus (unstopped cs)
unfolding total_gpu_count
total_gpu_count-unstopped n [] = omega arith
total_gpu_count-unstopped n (c ∷ cs) =
    ground (arith, total_gpu_count-unstopped n cs, total_gpu_count-unstopped (n + c.gpu_count) cs)

total_cpu-unstopped : (n : ℤ) (cs : List ContainerState) → total_cpu n cs ≡ sum_cpu n (unstopped cs)
unfolding total_cpu
total_cpu-unstopped n [] = refl
total_cpu-unstopped n (c ∷ cs) =
    ground (arith, total_cpu-unstopped n cs, total_cpu-unstopped (i64 (n +ℤ c.cpu)) cs)

-- The containers of the request's workspace that count, and what is stored for an admitted request:
-- its values, as pending, with the start time of an older state of its id.
abbrev pub counted : ContainerRequest → ContainerStore → List ContainerState
counted r s = unstopped (actives s.states (s.workspace_index r.workspace_id))

abbrev pub admitted_state : ℤ → ContainerRequest → Option ContainerState → ContainerState
admitted_state now r old = record {
  container_id = r.container_id;
  stub_id = r.stub_id;
  status = pending;
  scheduled_at = now;
  workspace_id = r.workspace_id;
  gpu = r.gpu;
  gpu_count = r.gpu_count;
  cpu = r.cpu;
  memory = r.memory;
  started_at = started_at_of old;
}

-- An admitted request: its workspace was within the limit with it, and its pending state is stored.
pub record Admitted (now : ℤ) (q : ConcurrencyLimit) (r : ContainerRequest)
    (before after : ContainerStore) : Type 0 where
  pub gpus_within : sum_gpus (counted r before) + r.gpu_count ≤ q.gpu_limit
  pub cpu_within : i64 (sum_cpu (pos 0) (counted r before) +ℤ r.cpu) ≤ℤ pos q.cpu_millicore_limit
  pub stored :
      after.states r.container_id ≡ some (admitted_state now r (before.states r.container_id))
  pub others : (j : String) → j ≢ r.container_id → after.states j ≡ before.states j

-- If the reads of the listing answer and `SetContainerStateWithConcurrencyLimit` succeeds under a
-- limit, the GPUs and the CPU of the workspace's active containers that are not stopping, with the
-- request's, were within the limit when it was checked; the request's container is stored as
-- pending, with the request's values, keeping only the start time of an older state of its id; no
-- other state has changed.
pub set_container_state_with_concurrency_limit-Admitted :
    (R : ContainerRedis) (reads : ReadsAnswer R) (now : ℤ) (q : ConcurrencyLimit)
    (r : ContainerRequest) (d : R.Db)
    → (set_container_state_with_concurrency_limit R now (some q) r d).0 ≡ ok tt
    → Admitted now q r
        (R.view d)
        (R.view (set_container_state_with_concurrency_limit R now (some q) r d).1)
set_container_state_with_concurrency_limit-Admitted R reads now q r d e =
    let (within, states) = (admitted-Ensures R reads now q r d).holds tt e in
    let cs = actives (R.view d).states ((R.view d).workspace_index r.workspace_id) in
    record {
      gpus_within = let h = total_gpu_count-unstopped 0 cs in omega (arith, within.0, h);
      cpu_within =
          subst (λ n. i64 (n +ℤ r.cpu) ≤ℤ pos q.cpu_millicore_limit)
            (total_cpu-unstopped (pos 0) cs) within.1;
      stored =
          rw states (
            update_self (R.view d).states r.container_id _
            ∙ ap some (unfold pending_state in refl));
      others = λ j ne. rw states (update_ne (R.view d).states r.container_id _ j ne);
    }

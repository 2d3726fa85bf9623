-- ===== src/Scheduler/Run/Admission.antt =====
-- What a successful `Run` has checked, stored and pushed.
use beta.Base.{
  true, none, err, ◌⊎◌, ◌<◌, ◌&&◌, ◌==◌, if◌then◌else◌, ℕ, ◌≡◌, refl, sym, ap, subst, ◌∙◌, inl, inr,
  false, Option, some, Result, ok, err, arith, Bool-cases,
}
use beta.Base.Int.{ℤ, pos}
use beta.Base.Io.{
  lift, attempt, relabel, Ensures, >>=-Ensures, >>-Ensures, lift-Ensures, fail-Ensures, Ensures-map,
  ok-injective, map_error-ok, map_error, or_none,
}
use beta.Types.Related.{Checkpoint, ConcurrencyLimit}
use beta.Types.{ContainerRequest, ContainerState, requires_gpu}
use beta.Repository.Container.Redis.{ContainerRedis, ContainerError}
use beta.Repository.Container.{get_container_state, set_container_state_with_concurrency_limit}
use beta.Repository.Container.Reading.{get_container_state-same}
use beta.Repository.Container.Listing.{ReadsAnswer}
use beta.Repository.Container.Quota.{Admitted, set_container_state_with_concurrency_limit-Admitted}
use beta.Scheduler.Backlog.{
  BacklogAction, push_after, with_gpu_count, retried, add_request_to_backlog,
}
use beta.Scheduler.Backlog.Retries.{with_gpu_count-retry_count}
use beta.Scheduler.Run.{
  keep_checkpoint, has_checkpoint, Answers, RunError, repository_error, get_concurrency_limit,
  prepared, pushed, limit_of, is_active, admit_and_push, run,
}

-- The request as it is pushed.
abbrev pub as_pushed : ContainerRequest → ContainerRequest
as_pushed r = retried (with_gpu_count r)

-- Checkpoint and timestamp aside, the prepared request is the one that came.
prepared-same :
    (a : Answers) (now : ℕ) (r : ContainerRequest)
    → ((prepared a now r).container_id ≡ r.container_id)
      × ((prepared a now r).retry_count ≡ r.retry_count)
unfolding prepared
prepared-same a now r = ground arith

pushed_same :
    (a : Answers) (n : ℕ) (delay : ℤ) (r : ContainerRequest) {action : BacklogAction}
    → pushed a n (push_after delay r) ≡ ok action
    → action ≡ push_after delay r
pushed_same a n delay r e = ground arith

first_addition :
    (beyond : ℤ) (elapsed : ℕ) (r : ContainerRequest)
    → r.retry_count ≡ 0
    → add_request_to_backlog beyond elapsed r ≡ push_after (pos 0) (as_pushed r)
unfolding add_request_to_backlog
first_addition beyond elapsed r new = ground (arith, with_gpu_count-retry_count r)

pushed_first :
    (a : Answers) (beyond : ℤ) (elapsed : ℕ) (r : ContainerRequest) (action : BacklogAction)
    → r.retry_count ≡ 0
    → pushed a r.retry_count (add_request_to_backlog beyond elapsed r) ≡ ok action
    → action ≡ push_after (pos 0) (as_pushed r)
pushed_first a beyond elapsed r action new e =
    pushed_same a r.retry_count (pos 0) (as_pushed r)
      (subst (λ x. pushed a r.retry_count x ≡ ok action) (first_addition beyond elapsed r new) e)

admit_and_push-Ensures :
    (R : ContainerRedis) (reads : ReadsAnswer R) (a : Answers) (beyond : ℤ) (elapsed : ℕ)
    (now_s : ℤ) (q : ConcurrencyLimit) (r : ContainerRequest) (d : R.Db)
    → get_concurrency_limit a ≡ ok (some q)
    → r.retry_count ≡ 0
    → Ensures (admit_and_push R a beyond elapsed now_s r) d λ action d'.
      Admitted now_s q r (R.view d) (R.view d') × (action ≡ push_after (pos 0) (as_pushed r))
unfolding lift relabel
admit_and_push-Ensures R reads a beyond elapsed now_s q r d limited new = >>=-Ensures _ _ λ quota e.
    let limit : quota ≡ some q = sym (ok-injective (ap limit_of (sym limited) ∙ e)) in
    rw limit (
      >>-Ensures _ _ λ stored.
        let success =
          map_error-ok repository_error
            (set_container_state_with_concurrency_limit R now_s (some q) r d).0 tt stored in
        lift-Ensures _ λ action f. (
          set_container_state_with_concurrency_limit-Admitted R reads now_s q r d success,
          pushed_first a beyond elapsed r action new f,
        ))

-- What `Run` has done when it succeeds under a limit.
pub record RanPrepared (R : ContainerRedis) (a : Answers) (now : ℕ) (now_s : ℤ)
    (q : ConcurrencyLimit) (r : ContainerRequest) (before after : R.Db) (action : BacklogAction)
    : Type 0 where
  -- the state that was read, if it could be, was not pending or running
  pub was_idle : is_active (or_none (get_container_state R r.container_id before).0) ≡ false
  pub admitted : Admitted now_s q (prepared a now r) (R.view before) (R.view after)
  pub first_push : action ≡ push_after (pos 0) (as_pushed (prepared a now r))

idle_read :
    (x : Result ContainerError ContainerState) (found : Option ContainerState)
    → ◌≡◌ {A = Result RunError (Option ContainerState)}
        (ok (or_none (map_error repository_error x)))
        (ok found)
    → is_active found ≡ false
    → is_active (or_none x) ≡ false
idle_read (ok c) found e h = subst (λ o. is_active o ≡ false) (sym (ok-injective e)) h
idle_read (err x) found e h = refl

run-Ensures :
    (R : ContainerRedis) (reads : ReadsAnswer R) (a : Answers) (beyond : ℤ) (elapsed now : ℕ)
    (now_s : ℤ) (q : ConcurrencyLimit) (r : ContainerRequest) (d : R.Db)
    → get_concurrency_limit a ≡ ok (some q)
    → r.retry_count ≡ 0
    → Ensures
        (run R a beyond elapsed now now_s r)
        d
        λ action d'. RanPrepared R a now now_s q r d d' action
unfolding run attempt relabel
run-Ensures R reads a beyond elapsed now now_s q r d limited new = >>=-Ensures _ _ λ found e.
    elim (Bool-cases (is_active found)) [
      | inl active ↦ rw active (fail-Ensures _)
      | inr idle ↦ rw idle (
          Ensures-map
            (admit_and_push-Ensures R reads a beyond elapsed now_s q (prepared a now r) _ limited
              ((prepared-same a now r).1 ∙ new))
            λ action d' h. record {
              was_idle = idle_read _ found e idle;
              admitted =
                  subst (λ v. Admitted now_s q (prepared a now r) v (R.view d'))
                    (get_container_state-same R r.container_id d) h.0;
              first_push = h.1;
            })
    ]

-- The number of GPUs that is pushed: one for a GPU request that names none.
abbrev pub PushedGpus : ContainerRequest → ℕ → Type 0
PushedGpus r n =
    ((requires_gpu r ≡ true) × (r.gpu_count ≡ 0) × (n ≡ 1))
    ⊎ (((requires_gpu r ≡ false) ⊎ (0 < r.gpu_count)) × (n ≡ r.gpu_count))

-- What `Run` has done when it succeeds under a limit, on the fields of the request.
pub record Ran (R : ContainerRedis) (now : ℕ) (now_s : ℤ) (q : ConcurrencyLimit)
    (r : ContainerRequest) (before after : R.Db) (action : BacklogAction) : Type 0 where
  -- the state that was read, if it could be, was not pending or running
  pub was_idle : is_active (or_none (get_container_state R r.container_id before).0) ≡ false
  pub admitted : Admitted now_s q r (R.view before) (R.view after)
  pub pushed_request : ContainerRequest
  pub first_push : action ≡ push_after (pos 0) pushed_request
  pub first_try : pushed_request ≡ record r {
    timestamp = now;
    retry_count = 1;
    gpu_count = pushed_request.gpu_count;
    checkpoint = pushed_request.checkpoint;
  }
  pub gpus : PushedGpus r pushed_request.gpu_count

prepared-shape :
    (a : Answers) (now : ℕ) (r : ContainerRequest)
    → (c : Option Checkpoint) × (prepared a now r ≡ record r { timestamp = now; checkpoint = c })
unfolding prepared
prepared-shape a now r =
    elim (Bool-cases
      (r.checkpoint_enabled && (if has_checkpoint r.checkpoint then false else true))) [
        | inl wanted ↦ rw wanted (kept (a.latest_checkpoint r.stub_id))
        | inr unwanted ↦ rw unwanted (r.checkpoint, refl)
      ]
  where
    kept :
        (x : Result (Unit {0}) (Option Checkpoint))
        → (c : Option Checkpoint) × (keep_checkpoint x (record r { timestamp = now })
            ≡ record r { timestamp = now; checkpoint = c })
    kept (ok (some c)) = (some c, refl)
    kept (ok none) = (r.checkpoint, refl)
    kept (err e) = (r.checkpoint, refl)

as_pushed-gpus : (r : ContainerRequest) → PushedGpus r (as_pushed r).gpu_count
as_pushed-gpus r = elim (Bool-cases (requires_gpu r)) [
  | inl gpu ↦ elim (Bool-cases (r.gpu_count == 0)) [
    | inl unnamed ↦ inl (gpu, ground arith, rw (gpu, unnamed) refl)
    | inr named ↦ inr (inr (ground arith), rw (gpu, named) refl)
  ]
  | inr cpu ↦ inr (inl cpu, rw cpu refl)
]

as_pushed-shape :
    (r : ContainerRequest)
    → r.retry_count ≡ 0
    → as_pushed r ≡ record r {
      retry_count = 1;
      gpu_count = (as_pushed r).gpu_count;
      checkpoint = (as_pushed r).checkpoint;
    }
as_pushed-shape r new = elim (Bool-cases (requires_gpu r && r.gpu_count == 0)) [
  | inl unnamed ↦ rw (unnamed, new) refl
  | inr named ↦ rw (named, new) refl
]

Ran-of :
    (R : ContainerRedis) (a : Answers) (now : ℕ) (now_s : ℤ) (q : ConcurrencyLimit)
    (r : ContainerRequest) (before after : R.Db) (action : BacklogAction) (p : ContainerRequest)
    (c : Option Checkpoint)
    → r.retry_count ≡ 0
    → p ≡ record r { timestamp = now; checkpoint = c }
    → is_active (or_none (get_container_state R r.container_id before).0) ≡ false
    → Admitted now_s q p (R.view before) (R.view after)
    → action ≡ push_after (pos 0) (as_pushed p)
    → Ran R now now_s q r before after action
unfolding requires_gpu
Ran-of R a now now_s q r before after action p c new shape idle admitted first =
    let p' = record r { timestamp = now; checkpoint = c } in
    let h = subst (λ x. Admitted now_s q x (R.view before) (R.view after)) shape admitted in
    record {
      was_idle = idle;
      admitted = record {
        gpus_within = h.gpus_within;
        cpu_within = h.cpu_within;
        stored = h.stored;
        others = h.others;
      };
      pushed_request = as_pushed p';
      first_push = first ∙ ap (λ x. push_after (pos 0) (as_pushed x)) shape;
      first_try = as_pushed-shape p' new;
      gpus = as_pushed-gpus p';
    }

-- If `Run` succeeds for a new request whose workspace has a limit, and the reads of the listing
-- answer: the state that was read for the container was not pending or running, the request was
-- admitted under the limit with its pending state stored, and it was pushed without delay, counted
-- as the first try, with the time of the call and otherwise as it came but for its checkpoint. A GPU request that names no number of GPUs is pushed with one, after it was
-- admitted and stored with none.
pub run-Ran :
    (R : ContainerRedis) (reads : ReadsAnswer R) (a : Answers) (beyond : ℤ) (elapsed now : ℕ)
    (now_s : ℤ) (q : ConcurrencyLimit) (r : ContainerRequest) (d : R.Db) (action : BacklogAction)
    → get_concurrency_limit a ≡ ok (some q)
    → r.retry_count ≡ 0
    → (run R a beyond elapsed now now_s r d).0 ≡ ok action
    → Ran R now now_s q r d (run R a beyond elapsed now now_s r d).1 action
run-Ran R reads a beyond elapsed now now_s q r d action limited new e =
    let h = (run-Ensures R reads a beyond elapsed now now_s q r d limited new).holds action e in
    let (c, shape) = prepared-shape a now r in
    Ran-of R a now now_s q r d _ action (prepared a now r) c new shape h.was_idle h.admitted
      h.first_push

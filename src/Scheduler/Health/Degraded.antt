-- ===== src/Scheduler/Health/Degraded.antt =====
-- When a pool is degraded, and what that does to its workers.
use beta.Base.{
  ◌≡◌, ◌∙◌, refl, ap, subst, ◌⊎◌, inl, inr, Bool, true, false, Bool-cases, not, ◌&&◌, List, ok,
  arith,
}
use beta.Base.Int.{pos, ltb_ℤ, ◌≤ℤ◌, ◌<ℤ◌}
use beta.Base.Io.{
  lift, relabel, Ensures, >>=-Ensures, >>-Ensures, pure-Ensures, relabel-Ensures, call-Ensures,
  Ensures-map, map_error-ok,
}
use beta.Types.{Worker}
use beta.Repository.Worker.Redis.{WorkerRedis}
use beta.Repository.Worker.Index.{get_all_workers_in_pool, cordon_all_pending_workers_in_pool}
use beta.Repository.Worker.Cordon.{
  Cordoned, workers_in, get_all_workers_in_pool-Keeps, cordon_all_pending_workers_in_pool-Ensures,
}
use beta.Repository.Worker.Listing.{ListedIn, get_all_workers_in_pool-ListedIn}
use beta.Scheduler.Health.Measures.{Measures, measured-Measures}
use beta.Scheduler.Pools.{WorkerPoolStatus, healthy, degraded, is_degraded}
use beta.Scheduler.Health.{
  FailoverConfig, WorkerPoolState, PoolView, workers_failed, cordon_failed, machines_of, free_of,
  status_before, measured, next_status, cordon_if, get_pool_state, update_pool_status, health_turn,
}

-- Too many pending workers, too long a wait, or too few machines of an external pool.
abbrev pub IsUnfit : FailoverConfig → Bool → WorkerPoolState → Type 0
IsUnfit f is_external s =
    (f.max_pending_workers ≤ℤ pos s.pending_workers)
    ⊎ (f.max_scheduling_latency_ms <ℤ s.scheduling_latency)
    ⊎ ((pos s.ready_machines <ℤ f.min_machines_available) × (is_external ≡ true))

next_status-IsUnfit :
    (f : FailoverConfig) (is_external : Bool) (s : WorkerPoolState)
    → ((next_status f is_external s ≡ degraded) × IsUnfit f is_external s)
      ⊎ ((next_status f is_external s ≡ healthy) × ¬ (IsUnfit f is_external s))
unfolding next_status
next_status-IsUnfit f is_external s =
    elim (Bool-cases (not (ltb_ℤ (pos s.pending_workers) f.max_pending_workers))) [
      | inl many ↦ inl (rw many refl, inl (ground arith))
      | inr few ↦ elim (Bool-cases (ltb_ℤ f.max_scheduling_latency_ms s.scheduling_latency)) [
        | inl slow ↦ inl (rw few (rw slow refl), inr (inl (ground arith)))
        | inr fast ↦
            elim (Bool-cases
              (ltb_ℤ (pos s.ready_machines) f.min_machines_available && is_external)) [
                | inl lacking ↦ inl (rw few (rw fast (rw lacking refl)), inr (inr (ground arith)))
                | inr enough ↦ inr (
                  rw few (rw fast (rw enough refl)),
                  λ u. elim u [
                    | inl many ↦ ground arith
                    | inr v ↦ elim v [
                      | inl slow ↦ ground arith
                      | inr (lacking, external) ↦ ground arith
                    ]
                  ],
                )
              ]
      ]
    ]

module _ (R : WorkerRedis) (f : FailoverConfig) (p : PoolView) where
  open R use {Db}

  -- The pool was not degraded before, and failover is on.
  abbrev pub may_cordon : WorkerPoolStatus → Bool
  may_cordon before = f.enabled && not (is_degraded before)

  -- The pending workers of a listing of the pool, made before any worker has changed, are disabled.
  pub record SwitchedOff (d d' : Db) : Type 0 where
    pub listed : List Worker
    pub listed_in : Db
    pub not_yet : workers_in R listed_in ≡ workers_in R d
    pub listing : ListedIn p.pool_name (R.view listed_in) listed
    pub cordoned : Cordoned listed (workers_in R d) (workers_in R d')

  -- `s` is the state that is stored.
  pub record Judged (d : Db) (s : WorkerPoolState) (d' : Db) : Type 0 where
    pub before : WorkerPoolStatus
    pub read : status_before p ≡ ok before
    pub status :
        ((s.status ≡ degraded) × IsUnfit f p.is_external s)
        ⊎ ((s.status ≡ healthy) × ¬ (IsUnfit f p.is_external s))
    pub cordoned : s.status ≡ degraded → may_cordon before ≡ true → SwitchedOff d d'
    pub left_alone :
        (s.status ≡ healthy) ⊎ (may_cordon before ≡ false) → workers_in R d' ≡ workers_in R d

  abbrev Turned : Bool → Db → Db → Type 0
  Turned b d d' = (b ≡ true → SwitchedOff d d') × (b ≡ false → workers_in R d' ≡ workers_in R d)

  cordon_if-Ensures :
      (b : Bool) (d : Db) → Ensures (cordon_if R b p.pool_name) d (λ _ d'. Turned b d d')
  cordon_if-Ensures true d =
      relabel-Ensures cordon_failed (cordon_all_pending_workers_in_pool R p.pool_name) (
        Ensures-map (cordon_all_pending_workers_in_pool-Ensures R p.pool_name d)
          λ a d' (listed, listing, cordoned). (
            λ e. record {
              listed = listed;
              listed_in = d;
              not_yet = refl;
              listing = listing;
              cordoned = cordoned;
            },
            λ e. cc e,
          ))
  cordon_if-Ensures false d = pure-Ensures tt (λ e. cc e, λ e. refl)

  acts :
      (before s : WorkerPoolStatus)
      → s ≡ degraded
      → may_cordon before ≡ true
      → (may_cordon before && is_degraded s) ≡ true
  acts before s e m = rw m (ap is_degraded e)

  rests :
      (before s : WorkerPoolStatus)
      → (s ≡ healthy) ⊎ (may_cordon before ≡ false)
      → (may_cordon before && is_degraded s) ≡ false
  rests before s (inl e) = rw e (and_false (may_cordon before))
    where
      and_false : (b : Bool) → (b && false) ≡ false
      and_false true = refl
      and_false false = refl
  rests before s (inr m) = rw m refl

  update_pool_status-Judged :
      (next : WorkerPoolState) (d : Db)
      → Ensures
          (update_pool_status R f p next)
          d
          λ s d'. Judged d s d' × ((ws : List Worker) → Measures p ws next → Measures p ws s)
  unfolding update_pool_status lift
  update_pool_status-Judged next d = >>=-Ensures (lift (status_before p)) _ λ before e.
      let s = next_status f p.is_external next in
      let b = may_cordon before && is_degraded s in
      >>-Ensures (cordon_if R b p.pool_name) _ λ g.
        let (off, alone) = (cordon_if-Ensures b d).holds tt g in
        pure-Ensures (record next { status = s })
          (
            record {
              before = before;
              read = e;
              status = next_status-IsUnfit f p.is_external next;
              cordoned = λ bad may. off (acts before s bad may);
              left_alone = λ why. alone (rests before s why);
            },
            λ ws m. record {
              containers = m.containers;
              gathered = m.gathered;
              machines = m.machines;
              machines_external = m.machines_external;
              machines_local = m.machines_local;
              waiting = m.waiting;
              ready = m.ready;
              latency = m.latency;
            },
          )

  get_pool_state-Ensures :
      (d : Db)
      → Ensures (get_pool_state R p) d λ s d'.
        (ws : List Worker) × ListedIn p.pool_name (R.view d) ws
        × Measures p ws s
        × (workers_in R d' ≡ workers_in R d)
  unfolding get_pool_state lift relabel
  get_pool_state-Ensures d =
      >>=-Ensures (relabel workers_failed (get_all_workers_in_pool R p.pool_name)) _ λ ws e.
        >>=-Ensures (lift (machines_of p)) _ λ ms g. >>=-Ensures (lift (free_of p)) _ λ free h.
          pure-Ensures (measured p.now ws ms p.active_containers free) (
            ws,
            (get_all_workers_in_pool-ListedIn R p.pool_name d).holds ws
                (map_error-ok workers_failed _ ws e),
            measured-Measures p ws ms free g,
            get_all_workers_in_pool-Keeps R p.pool_name d,
          )

  rebased :
      {d d1 d' : Db} {s : WorkerPoolState}
      → workers_in R d1 ≡ workers_in R d
      → Judged d1 s d'
      → Judged d s d'
  rebased {d} {d1} {d'} same h = record {
    before = h.before;
    read = h.read;
    status = h.status;
    cordoned = λ bad may.
        let off = h.cordoned bad may in
        record {
          listed = off.listed;
          listed_in = off.listed_in;
          not_yet = off.not_yet ∙ same;
          listing = off.listing;
          cordoned = subst (λ v. Cordoned off.listed v (workers_in R d')) same off.cordoned;
        };
    left_alone = λ why. h.left_alone why ∙ same;
  }

  -- A turn of the health monitor that succeeds stores a state whose measures are those of the
  -- indexed workers of the pool: how many are pending, the mean of the times that the containers of
  -- the workers have waited, where these could be read, and how many machines of an external pool are
  -- ready. The state is degraded exactly if the pending workers are too many, the mean is too long,
  -- or an external pool has too few ready machines. Where failover is on and the pool becomes
  -- degraded, its workers that are pending are disabled and no others change; else no worker changes.
  pub health_turn-Judged :
      (d : Db) (s : WorkerPoolState)
      → (health_turn R f p d).0 ≡ ok s
      → Judged d s (health_turn R f p d).1
        × ((ws : List Worker) × ListedIn p.pool_name (R.view d) ws × Measures p ws s)
  unfolding health_turn
  health_turn-Judged d s e = turn.holds s e
    where
      turn : Ensures (health_turn R f p) d λ s d'.
          Judged d s d'
          × ((ws : List Worker) × ListedIn p.pool_name (R.view d) ws × Measures p ws s)
      turn = >>=-Ensures (get_pool_state R p) (update_pool_status R f p) λ next g.
          let (ws, listing, measures, same) = (get_pool_state-Ensures d).holds next g in
          call-Ensures λ s h.
            let (judged, kept) = (update_pool_status-Judged next _).holds s h in
            (rebased same judged, (ws, listing, kept ws measures))

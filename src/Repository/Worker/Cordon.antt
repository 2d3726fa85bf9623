-- ===== src/Repository/Worker/Cordon.antt =====
-- `CordonAllPendingWorkersInPool`: which workers it changes.
use beta.Base.{
  ◌≡◌, ◌≢◌, ◌∙◌, refl, sym, ap, subst, ◌⊎◌, inl, inr, String, Bool, true, false, Bool-cases, Option,
  none, some, List, [], ◌∷◌, Memᴰ, str_eq, str_eq_iff,
}
use beta.Base.Io.{
  ◌>>=◌, attempt, Ensures, >>=-Ensures, >>-Ensures, finally-Ensures, pure-Ensures, call-Ensures,
}
use beta.Base.Keeps.{Keeps, >>=-Keeps, pure-Keeps, attempt-Keeps}
use beta.Base.Int.{ℤ, pos, ◌+ℤ◌}
use beta.Base.Machine.{i64}
use beta.Types.{Worker, WorkerStatus, disabled}
use beta.Repository.Worker.Listing.{ListedIn, get_all_workers_in_pool-ListedIn}
use beta.Repository.Worker.Redis.{WorkerRedis, WorkerStore, set_worker, update}
use beta.Repository.Worker.{
  stored_or_zero, bump_version, worker_state_ttl_s, get_worker_from_key, update_worker_status,
}
use beta.Repository.Worker.Capacity.{get_worker_from_key-Ensures}
use beta.Repository.Worker.Index.{
  is_pending, get_workers, get_workers_from_keys, collect_found, get_all_workers_in_pool,
  cordon_pending, cordon_all_pending_workers_in_pool,
}

abbrev pub Workers : Type 0
Workers = String → Option Worker

-- Under the key, the worker is disabled with another version, and else as it was (the zero worker
-- where none was stored).
abbrev pub IsOff : String → Workers → Workers → Type 0
IsOff k before after =
    (version : ℤ) × (after k
      ≡ some
          (record (stored_or_zero k (before k)) { status = disabled; resource_version = version }))

-- Every worker of the list that was pending is disabled, and no other worker has changed.
pub record Cordoned (listed : List Worker) (before after : Workers) : Type 0 where
  pub off : (w : Worker) → Memᴰ w listed → is_pending w.status ≡ true → IsOff w.id before after
  pub others :
      (k : String)
      → ((w : Worker) → Memᴰ w listed → is_pending w.status ≡ true → w.id ≢ k)
      → after k ≡ before k
  pub each : (k : String) → (after k ≡ before k) ⊎ IsOff k before after

module _ (R : WorkerRedis) where
  open R use {Db, view}

  abbrev pub workers_in : Db → Workers
  workers_in d = (view d).workers

  abbrev with_status : String → WorkerStatus → Db → ℤ → Worker
  with_status id status d v = record (stored_or_zero id (workers_in d id)) {
    status = status;
    resource_version = v;
  }

  written-Ensures :
      (id : String) (status : WorkerStatus) (d : Db)
      → Ensures
          (get_worker_from_key R id >>= λ w.
            R.hset id (bump_version (record w { status = status })))
          d
          λ _ d'.
            (v : ℤ) × (workers_in d' ≡ update (workers_in d) id (some (with_status id status d v)))
  written-Ensures id status d = >>=-Ensures (get_worker_from_key R id) _ λ w e. call-Ensures λ a f.
      let new = bump_version (record w { status = status }) in
      let (read, same) = (get_worker_from_key-Ensures R id d).holds w e in
      (
        i64 (w.resource_version +ℤ pos 1),
        ap (λ (v : WorkerStore). v.workers)
              ((R.hset-Writes id new _).0 a f ∙ ap (set_worker id (some new)) same)
            ∙ ap
                (λ (x : Worker). update (workers_in d) id (
                  some (record x {
                    status = status;
                    resource_version = i64 (w.resource_version +ℤ pos 1);
                  })))
                read,
      )

  update_worker_status-Ensures :
      (id : String) (status : WorkerStatus) (d : Db)
      → Ensures (update_worker_status R id status) d λ _ d'.
        (v : ℤ) × (workers_in d' ≡ update (workers_in d) id (some (with_status id status d v)))
  unfolding update_worker_status
  update_worker_status-Ensures id status d = >>-Ensures (R.acquire id) _ λ e.
      finally-Ensures _ (R.release id) (
        >>-Ensures
          (get_worker_from_key R id >>= λ w.
            R.hset id (bump_version (record w { status = status })))
          (R.expire id worker_state_ttl_s)
          λ f. call-Ensures λ a g.
            let (v, stored) = (written-Ensures id status _).holds tt f in
            let locked = (R.acquire-Reads id d).0 in
            (
              v,
              ap (λ (v : WorkerStore). v.workers)
                    (R.release-view id _ ∙ (R.expire-Reads id worker_state_ttl_s _).0)
                  ∙ stored
                  ∙ ap
                      (λ (s : WorkerStore). update s.workers id (
                        some (record (stored_or_zero id (s.workers id)) {
                          status = status;
                          resource_version = v;
                        })))
                      locked,
            ))

  -- One worker more in front of the list.
  kept-Cordoned :
      (w : Worker) (ws : List Worker) (before after : Workers)
      → is_pending w.status ≡ false
      → Cordoned ws before after
      → Cordoned (w ∷ ws) before after
  kept-Cordoned w ws before after active h = record {
    off = λ x m p. elim m [ Memᴰ.head e ↦ cc (active, p, e) | Memᴰ.tail below ↦ h.off x below p ];
    others = λ k ne. h.others k λ x m p. ne x (Memᴰ.tail m) p;
    each = h.each;
  }

  apart :
      (id : String) (x : Option Worker) (before : Workers) (k : String)
      → str_eq id k ≡ false
      → update before id x k ≡ before k
  apart id x before k e = rw e refl

  -- What was switched off twice is switched off.
  IsOff-again :
      (id k : String) (v : ℤ) (before after : Workers)
      → IsOff k
          (update before id (
            some
              (record (stored_or_zero id (before id)) { status = disabled; resource_version = v })))
          after
      → IsOff k before after
  IsOff-again id k v before after (u, off) = elim (Bool-cases (str_eq id k)) [
    | inl own ↦ (
      u,
      off
          ∙ ap (λ x. some (record (stored_or_zero k x) { status = disabled; resource_version = u }))
              (within own)
          ∙ ap
              (λ j.
                some (record (stored_or_zero j (before j)) {
                  status = disabled;
                  resource_version = u;
                }))
              ((str_eq_iff id k).0 own),
    )
    | inr other ↦ (
      u,
      off
          ∙ ap (λ x. some (record (stored_or_zero k x) { status = disabled; resource_version = u }))
              (apart id _ before k other),
    )
  ]
    where
      within :
          str_eq id k ≡ true
          → update before id
              (some (record (stored_or_zero id (before id)) {
                status = disabled;
                resource_version = v;
              }))
              k
            ≡ some
                (record (stored_or_zero id (before id)) { status = disabled; resource_version = v })
      within own = rw own refl

  Bool-false : (b : Bool) → (b ≡ true → ⊥) → b ≡ false
  Bool-false true h = absurd (h refl)
  Bool-false false h = refl

  changed-Cordoned :
      (w : Worker) (v : ℤ) (ws : List Worker) (before after : Workers)
      → is_pending w.status ≡ true
      → Cordoned ws
          (update before w.id (
            some (record (stored_or_zero w.id (before w.id)) {
              status = disabled;
              resource_version = v;
            })))
          after
      → Cordoned (w ∷ ws) before after
  changed-Cordoned w v ws before after pending h = record {
    off = λ x m p. elim m [
      | Memᴰ.head e ↦ subst (λ (y : Worker). IsOff y.id before after) (sym e) own_off
      | Memᴰ.tail below ↦ IsOff-again w.id x.id v before after (h.off x below p)
    ];
    others = λ k ne.
        h.others k (λ x m p. ne x (Memᴰ.tail m) p)
        ∙ apart w.id _ before k (
            Bool-false (str_eq w.id k)
              λ e. ne w (Memᴰ.head refl) pending ((str_eq_iff w.id k).0 e));
    each = λ k. elim (h.each k) [
      | inl same ↦ elim (Bool-cases (str_eq w.id k)) [
        | inl own ↦ inr (subst (λ j. IsOff j before after) ((str_eq_iff w.id k).0 own) own_off)
        | inr other ↦ inl (same ∙ apart w.id _ before k other)
      ]
      | inr is_off ↦ inr (IsOff-again w.id k v before after is_off)
    ];
  }
    where
      own_off : IsOff w.id before after
      own_off = elim (h.each w.id) [
        | inl same ↦ (v, same ∙ rw ((str_eq_iff w.id w.id).1 refl) refl)
        | inr is_off ↦ IsOff-again w.id w.id v before after is_off
      ]

  -- A cordon of the listed workers that succeeds.
  cordon_pending-Ensures :
      (ws : List Worker) (d : Db)
      → Ensures (cordon_pending R ws) d (λ _ d'. Cordoned ws (workers_in d) (workers_in d'))
  unfolding cordon_pending
  cordon_pending-Ensures [] d =
      pure-Ensures tt
        (record { off = λ w m p. elim m [ ]; others = λ k ne. refl; each = λ k. inl refl })
  cordon_pending-Ensures (w ∷ ws) d = elim (Bool-cases (is_pending w.status)) [
    | inl pending ↦ rw pending (
        >>-Ensures (update_worker_status R w.id disabled) (cordon_pending R ws) λ e.
          call-Ensures λ a f.
            let (v, stored) = (update_worker_status-Ensures w.id disabled d).holds tt e in
            changed-Cordoned w v ws (workers_in d) _ pending (
              subst
                (λ v.
                  Cordoned ws v
                    (workers_in (cordon_pending R ws (update_worker_status R w.id disabled d).1).1))
                stored ((cordon_pending-Ensures ws _).holds a f)))
    | inr active ↦ rw active (
        call-Ensures λ a f.
          kept-Cordoned w ws (workers_in d) _ active ((cordon_pending-Ensures ws d).holds a f))
  ]

  collect_found-Keeps :
      (ks : List String) (found : List (Option Worker))
      → Keeps workers_in (collect_found R ks found)
  unfolding collect_found
  collect_found-Keeps [] found = pure-Keeps workers_in _ _
  collect_found-Keeps (k ∷ ks) [] = pure-Keeps workers_in _ _
  collect_found-Keeps (k ∷ ks) (none ∷ found) =
      >>=-Keeps workers_in (attempt (R.srem k)) _
        (attempt-Keeps workers_in (R.srem k) (srem-Keeps k)) λ _. collect_found-Keeps ks found
    where
      srem-Keeps : (k : String) → Keeps workers_in (R.srem k)
      srem-Keeps k d = elim (R.srem-Writes k d).1 [
        | inl same ↦ ap (λ (v : WorkerStore). v.workers) same
        | inr changed ↦ ap (λ (v : WorkerStore). v.workers) changed
      ]
  collect_found-Keeps (k ∷ ks) (some w ∷ found) =
      >>=-Keeps workers_in (collect_found R ks found) _ (collect_found-Keeps ks found)
        λ ws. pure-Keeps workers_in _ _

  pub get_all_workers_in_pool-Keeps :
      (pool : String) → Keeps workers_in (get_all_workers_in_pool R pool)
  unfolding get_all_workers_in_pool get_workers get_workers_from_keys
  get_all_workers_in_pool-Keeps pool =
      >>=-Keeps workers_in (get_workers R false) _
        (>>=-Keeps workers_in R.smembers _
          (λ d. ap (λ (v : WorkerStore). v.workers) (R.smembers-Reads d).0)
          λ ks.
            >>=-Keeps workers_in (R.hgetall_each ks) (collect_found R ks)
              (λ d. ap (λ (v : WorkerStore). v.workers) (R.hgetall_each-Reads ks d).0)
              (collect_found-Keeps ks))
        λ ws. pure-Keeps workers_in _ _

  pub cordon_all_pending_workers_in_pool-Ensures :
      (pool : String) (d : Db)
      → Ensures (cordon_all_pending_workers_in_pool R pool) d λ _ d'.
        (ws : List Worker) × ListedIn pool (view d) ws × Cordoned ws (workers_in d) (workers_in d')
  unfolding cordon_all_pending_workers_in_pool
  cordon_all_pending_workers_in_pool-Ensures pool d =
      >>=-Ensures (get_all_workers_in_pool R pool) (cordon_pending R) λ ws e. call-Ensures λ a f. (
        ws,
        (get_all_workers_in_pool-ListedIn R pool d).holds ws e,
        subst
            (λ v.
              Cordoned ws v
                (workers_in (cordon_pending R ws (get_all_workers_in_pool R pool d).1).1))
            (get_all_workers_in_pool-Keeps pool d) ((cordon_pending-Ensures ws _).holds a f),
      )

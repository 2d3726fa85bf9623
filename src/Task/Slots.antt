-- ===== src/Task/Slots.antt =====
-- What the operations of the task store keep of one task's keys, on every way out.
use beta.Base.{
  ◌≡◌, sym, subst, String, inl, inr, true, false, Bool-cases, Option, none, some, List, [], ◌∷◌,
  Result, ok, err, str_eq_iff, arith,
}
use beta.Base.Io.{Io, Writes}
use beta.Base.Keeps.{Keeps}
use beta.Base.Safe.{
  Preserves, >>=-Preserves, >>-Preserves, pure-Preserves, fail-Preserves, attempt-Preserves,
}
use beta.Task.Redis.{TaskRedis, TaskKey, TaskMessage, TaskError, Slot, Removed, change_slot, key_eq}
use beta.Task.Store.{
  claim_task, remove_task_claim, is_claimed, delete_task_state, set_task_state, get_task_state,
  get_tasks_in_flight, in_flight_among, drop_dangling, found, or_clean_up,
}

pub key_eq-≡ : (j k : TaskKey) → key_eq j k ≡ true → j ≡ k
key_eq-≡ j k h =
    let w : j.workspace_name ≡ k.workspace_name =
      ground (arith, str_eq_iff j.workspace_name k.workspace_name) in
    let s : j.stub_id ≡ k.stub_id = ground (arith, str_eq_iff j.stub_id k.stub_id) in
    let t : j.task_id ≡ k.task_id = ground (arith, str_eq_iff j.task_id k.task_id) in
    λ i. record { workspace_name = w i; stub_id = s i; task_id = t i }

pub key_eq_refl : (k : TaskKey) → key_eq k k ≡ true
key_eq_refl k = ground (
  arith,
  str_eq_iff k.workspace_name k.workspace_name,
  str_eq_iff k.stub_id k.stub_id,
  str_eq_iff k.task_id k.task_id,
)

module _ (R : TaskRedis) (P : Slot → Type 0) (j : TaskKey) where
  open R use {view, Db}

  abbrev pub Holds : Db → Type 0
  Holds d = P (view d j)

  -- What a change of the slot `k` must keep.
  abbrev pub Allowed : TaskKey → (Slot → Slot) → Type 0
  Allowed k f = k ≡ j → (s : Slot) → P s → P (f s)

  pub same-Preserves : {E A : Type 0} (m : Io Db E A) → Keeps view m → Preserves Holds m
  same-Preserves m h d q = subst (λ v. P (v j)) (sym (h d)) q

  change_slot-holds :
      (k : TaskKey) (f : Slot → Slot) (v v' : TaskKey → Slot)
      → v' ≡ change_slot k f v
      → (k ≡ j → P (v j) → P (f (v j)))
      → P (v j)
      → P (v' j)
  change_slot-holds k f v v' e h q =
      subst (λ w. P (w j)) (sym e)
        (elim (Bool-cases (key_eq k j)) [
          | inl same ↦ rw same (h (key_eq-≡ k j same) q)
          | inr other ↦ rw other q
        ])

  change-Preserves :
      {A : Type 0} (m : Io Db TaskError A) (k : TaskKey) (f : Slot → Slot)
      → Writes view m (change_slot k f)
      → Allowed k f
      → Preserves Holds m
  change-Preserves m k f w h d q = elim (w d).1 [
    | inl same ↦ subst (λ v. P (v j)) (sym same) q
    | inr changed ↦ change_slot-holds k f (view d) _ changed (λ e. h e (view d j)) q
  ]

  -- The operations of the store, by the changes that they make.
  pub delete_task_state-Preserves :
      (k : TaskKey)
      → (k ≡ j → (s s' : Slot) → Removed s s' → P s → P s')
      → Preserves Holds (delete_task_state R k)
  unfolding delete_task_state
  delete_task_state-Preserves k h d q =
      let (s, changed, removed) = R.delete_all-Removed k d in
      change_slot-holds k (λ _. s) (view d) _ changed
        (λ e. h e (view d j) s (subst (λ x. Removed (view d x) s) e removed)) q

  pub claim_task-Preserves :
      (k : TaskKey) (container_id : String)
      → Allowed k (λ s. record s { claim = some container_id })
      → Allowed k (λ s. record s { claim_indexed = true })
      → Preserves Holds (claim_task R k container_id)
  unfolding claim_task
  claim_task-Preserves k c h g =
      >>-Preserves Holds _ _ (change-Preserves _ k _ (R.set_claim-Writes k c) h)
        (change-Preserves _ k _ (R.sadd_claim-Writes k) g)

  pub remove_task_claim-Preserves :
      (k : TaskKey)
      → Allowed k (λ s. record s { claim = none })
      → Allowed k (λ s. record s { claim_indexed = false })
      → Preserves Holds (remove_task_claim R k)
  unfolding remove_task_claim
  remove_task_claim-Preserves k h g =
      >>-Preserves Holds _ _ (change-Preserves _ k _ (R.del_claim-Writes k) h)
        (change-Preserves _ k _ (R.srem_claim-Writes k) g)

  or_clean_up-Holds :
      (cleanup : Io Db TaskError (Unit {0})) (x : Result TaskError (Unit {0}) × Db)
      → Preserves Holds cleanup
      → Holds x.1
      → Holds (or_clean_up R cleanup x).1
  or_clean_up-Holds cleanup (ok u, d) h q = q
  or_clean_up-Holds cleanup (err e, d) h q = h d q

  pub set_task_state-Preserves :
      (k : TaskKey) (msg : TaskMessage)
      → Allowed k (λ s. record s { indexed = true })
      → Allowed k (λ s. record s { entry = some msg })
      → Allowed k (λ s. record s { stub_indexed = true })
      → (k ≡ j → (s s' : Slot) → Removed s s' → P s → P s')
      → Preserves Holds (set_task_state R k msg)
  unfolding set_task_state
  set_task_state-Preserves k msg index entry stub removed =
      >>-Preserves Holds _ _ (change-Preserves _ k _ (R.sadd_index-Writes k) index) (
        >>-Preserves Holds _ _
          (λ d q.
            or_clean_up-Holds (delete_task_state R k) _ (delete_task_state-Preserves k removed)
              (change-Preserves _ k _ (R.set_entry-Writes k msg) entry d q))
          (change-Preserves _ k _ (R.sadd_stub-Writes k) stub))

  pub is_claimed-Preserves : (k : TaskKey) → Preserves Holds (is_claimed R k)
  unfolding is_claimed
  is_claimed-Preserves k = same-Preserves (R.exists_claim k) λ d. (R.exists_claim-Reads k d).0

  found-Preserves : (o : Option TaskMessage) → Preserves Holds (found R o)
  found-Preserves none = fail-Preserves Holds _ _
  found-Preserves (some msg) = pure-Preserves Holds _ _

  pub get_task_state-Preserves : (k : TaskKey) → Preserves Holds (get_task_state R k)
  unfolding get_task_state
  get_task_state-Preserves k =
      >>=-Preserves Holds _ _ (same-Preserves (R.get_entry k) λ d. (R.get_entry-Reads k d).0)
        found-Preserves

  -- A listing deletes keys; each has an index entry and no entry when it is read.
  module _ (removed : (k : TaskKey) → k ≡ j → (s s' : Slot) → Removed s s' → P s → P s') where
    pub drop_dangling-Preserves :
        (k : TaskKey) (o : Option (Option TaskMessage)) → Preserves Holds (drop_dangling R k o)
    drop_dangling-Preserves k none = pure-Preserves Holds _ _
    drop_dangling-Preserves k (some none) =
        >>=-Preserves Holds _ _
          (attempt-Preserves Holds _ (delete_task_state-Preserves k (removed k)))
          λ _. pure-Preserves Holds _ _
    drop_dangling-Preserves k (some (some msg)) = pure-Preserves Holds _ _

    in_flight_among-Preserves : (ks : List TaskKey) → Preserves Holds (in_flight_among R ks)
    unfolding in_flight_among
    in_flight_among-Preserves [] = pure-Preserves Holds _ _
    in_flight_among-Preserves (k ∷ ks) =
        >>=-Preserves Holds _ _
          (attempt-Preserves Holds _
            (same-Preserves (R.get_entry k) λ d. (R.get_entry-Reads k d).0))
          λ read. >>-Preserves Holds _ _ (drop_dangling-Preserves k read) (
            >>=-Preserves Holds _ _ (in_flight_among-Preserves ks) λ rest. pure-Preserves Holds _ _)

    pub get_tasks_in_flight-Preserves : Preserves Holds (get_tasks_in_flight R)
    unfolding get_tasks_in_flight
    get_tasks_in_flight-Preserves =
        >>=-Preserves Holds _ _ (same-Preserves R.smembers_index R.smembers_index-Keeps)
          in_flight_among-Preserves

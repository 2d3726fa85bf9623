-- ===== src/Repository/Container/Listing.antt =====
-- Listing the active containers of an index: what `listContainerStateByIndex` answers.
use beta.Base.{
  ◌≡◌, refl, ◌∙◌, sym, ap, subst, String, Bool, true, false, Option, none, some, List, [], ◌∷◌, ok,
  arith, inl, inr, non_empty, if◌then◌else◌,
}
use beta.Base.Io.{
  attempt, Ensures, >>=-Ensures, pure-Ensures, attempt-Ensures, attempt_read-Ensures, Ensures-map,
}
use beta.Types.{ContainerState}
use beta.Repository.Container.Redis.{
  ContainerRedis, Index, by_workspace, by_stub, by_worker, remove_member, members, is_present,
}
use beta.Repository.Container.{
  list_one, list_container_state_by_index, read_listed, drop_unless_exited, get_active_containers,
  append_some, with_id,
}

-- The reads of the listing answer; a failed one would leave its container out of the sums.
pub record ReadsAnswer (R : ContainerRedis) : Type 0 where
  pub exists_answers : (k : String) (d : R.Db) → (b : Bool) × ((R.exists k d).0 ≡ ok b)
  pub hgetall_answers :
      (k : String) (d : R.Db) → (c : Option ContainerState) × ((R.hgetall k d).0 ≡ ok c)

-- The containers of the listed keys that have a state with an id.
abbrev pub listed : Option ContainerState → Option ContainerState
listed none = none
listed (some c) = if non_empty c.container_id then some c else none

abbrev pub actives : (String → Option ContainerState) → List String → List ContainerState
actives states [] = []
actives states (k ∷ ks) = append_some (listed (states k)) (actives states ks)

module _ (R : ContainerRedis) where
  open R use {Db, view, exists, hgetall, srem}

  abbrev pub Same : Db → Db → Type 0
  Same d d' = (view d').states ≡ (view d).states

  srem-Same : (i : Index) (k : String) (d : Db) → Same d (srem i k d).1
  srem-Same i k d = elim (R.srem-Writes i k d).1 [
    | inl kept ↦ ap (λ s. s.states) kept
    | inr removed ↦ ap (λ s. s.states) removed ∙ remove_states i
  ]
    where
      remove_states : (j : Index) → (remove_member j k (view d)).states ≡ (view d).states
      remove_states (by_stub s) = refl
      remove_states (by_workspace s) = refl
      remove_states (by_worker s) = refl

  drop-Ensures :
      (i : Index) (k : String) (o : Option Bool) (d : Db)
      → Ensures (drop_unless_exited R i k o) d λ c d'. (c ≡ none) × Same d d'
  drop-Ensures i k none d = pure-Ensures _ (refl, refl)
  drop-Ensures i k (some true) d = pure-Ensures _ (refl, refl)
  drop-Ensures i k (some false) d = >>=-Ensures _ _ λ o e. pure-Ensures _ (refl, (gone d).holds o e)
    where
      gone : (e : Db) → Ensures (attempt (srem i k)) e (λ _ d'. Same e d')
      gone e = attempt-Ensures (srem i k) (srem-Same i k e)

module _ (R : ContainerRedis) (reads : ReadsAnswer R) where
  open R use {Db, view, exists, hgetall, exit_code_exists}

  present_listed :
      (k : String) (d : Db)
      → is_present ((view d).states k) ≡ false
      → listed ((view d).states k) ≡ none
  present_listed k d e = ground arith

  with_id-listed : (o : Option ContainerState) → with_id (some o) ≡ listed o
  with_id-listed none = refl
  with_id-listed (some c) = refl

  read_listed-Ensures :
      (i : Index) (k : String) (d : Db) (present : Bool)
      → present ≡ is_present ((view d).states k)
      → Ensures
          (read_listed R i k (some present))
          d
          λ c d'. (c ≡ listed ((view d).states k)) × Same R d d'
  read_listed-Ensures i k d true e = >>=-Ensures _ _ λ o got.
      let (answer, same) =
        (attempt_read-Ensures view (hgetall k) (λ s. s.states k) d (R.hgetall-Reads k)
            (reads.hgetall_answers k d)).holds
          o got in
      pure-Ensures _
        (ap with_id answer ∙ with_id-listed ((view d).states k), ap (λ s. s.states) same)
  read_listed-Ensures i k d false e = >>=-Ensures _ _ λ o got.
      let untouched = (probe d).holds o got in
      Ensures-map (drop-Ensures R i k o _)
        λ c d' h. (h.0 ∙ sym (present_listed k d (sym e)), h.1 ∙ ap (λ s. s.states) untouched)
    where
      probe : (e : Db) → Ensures (attempt (exit_code_exists k)) e (λ _ d'. view d' ≡ view e)
      probe e = attempt-Ensures (exit_code_exists k) (R.exit_code_exists-Reads k e).0

  list_one-Ensures :
      (i : Index) (k : String) (d : Db)
      → Ensures (list_one R i k) d λ c d'. (c ≡ listed ((view d).states k)) × Same R d d'
  unfolding list_one
  list_one-Ensures i k d = >>=-Ensures _ _ λ o got.
      let (answer, same) =
        (attempt_read-Ensures view (exists k) (λ s. is_present (s.states k)) d (R.exists-Reads k)
            (reads.exists_answers k d)).holds
          o got in
      let p = ap (λ s. s.states) same in
      subst
        (λ x.
          Ensures (read_listed R i k x) (attempt (exists k) d).1
            (λ c d'. (c ≡ listed ((view d).states k)) × Same R d d'))
        (sym answer)
        (Ensures-map
          (read_listed-Ensures i k _ (is_present ((view d).states k))
            (ap (λ f. is_present (f k)) (sym p)))
          λ c d' h. (h.0 ∙ ap (λ f. listed (f k)) p, h.1 ∙ p))

  list-Ensures :
      (i : Index) (ks : List String) (d : Db)
      → Ensures
          (list_container_state_by_index R i ks)
          d
          λ cs d'. (cs ≡ actives (view d).states ks) × Same R d d'
  unfolding list_container_state_by_index
  list-Ensures i [] d = pure-Ensures _ (refl, refl)
  list-Ensures i (k ∷ ks) d = >>=-Ensures _ _ λ c e.
      let (first, same) = (list_one-Ensures i k d).holds c e in
      >>=-Ensures _ _ λ cs f.
        let (others, still) = (list-Ensures i ks _).holds cs f in
        pure-Ensures _ (cc (first, others, ap (λ f. actives f ks) same), still ∙ same)

  pub active-Ensures :
      (i : Index) (d : Db)
      → Ensures
          (get_active_containers R i)
          d
          λ cs d'. (cs ≡ actives (view d).states (members i (view d))) × Same R d d'
  unfolding get_active_containers
  active-Ensures i d = >>=-Ensures _ _ λ ks e.
      let (same, answer) = R.smembers-Reads i d in
      Ensures-map (list-Ensures i ks _) λ cs d' h.
        (h.0 ∙ cc (answer ks e, ap (λ s. actives s.states ks) same), h.1 ∙ ap (λ s. s.states) same)

-- ===== src/Repository/Worker/Removed.antt =====
-- Removing a worker leaves the others alone, and reading one finds it if it is stored.
use beta.Base.{
  ◌≡◌, ◌≢◌, ◌∙◌, refl, sym, ap, subst, inl, inr, String, Bool, true, false, Option, none, some,
  List, [], Result, ok, err, str_eq_iff, arith,
}
use beta.Base.Io.{Io, ◌>>=◌, ◌>>◌, continue, finally, Writes, pure}
use beta.Base.Keeps.{Keeps, >>=-Keeps, >>-Keeps, pure-Keeps, fail-Keeps, finally-Keeps}
use beta.Types.{Worker, ContainerRequest}
use beta.Repository.Worker.Redis.{
  WorkerRedis, WorkerStore, RepoError, worker_not_found, set_worker, set_requests, index_remove,
  is_present,
}
use beta.Repository.Worker.{
  remove_worker, delete_worker, get_worker_by_id, read_if, get_worker_from_key,
}

-- What is stored of one worker.
abbrev pub Entry : Type 0
Entry = Option Worker × List ContainerRequest

abbrev pub entry : String → WorkerStore → Entry
entry w s = (s.workers w, s.requests w)

abbrev pub is_not_found : RepoError → Bool
is_not_found (worker_not_found id) = true
is_not_found _ = false

-- A worker that is not stored is reported by the repository alone, not by Redis or the lock.
pub record PlainErrors (R : WorkerRedis) : Type 0 where
  pub acquire :
      (k : String) (d : R.Db) (e : RepoError) → (R.acquire k d).0 ≡ err e → is_not_found e ≡ false
  pub exists :
      (k : String) (d : R.Db) (e : RepoError) → (R.exists k d).0 ≡ err e → is_not_found e ≡ false
  pub hgetall :
      (k : String) (d : R.Db) (e : RepoError) → (R.hgetall k d).0 ≡ err e → is_not_found e ≡ false

module _ (R : WorkerRedis) where
  open R use {Db, view}

  abbrev entry_in : String → Db → Entry
  entry_in w d = entry w (view d)

  write-Keeps :
      {A : Type 0} (w : String) (m : Io Db RepoError A) (f : WorkerStore → WorkerStore)
      → Writes view m f
      → ((s : WorkerStore) → entry w (f s) ≡ entry w s)
      → Keeps (entry_in w) m
  write-Keeps w m f writes same d = elim (writes d).1 [
    | inl e ↦ ap (entry w) e
    | inr e ↦ ap (entry w) e ∙ same (view d)
  ]

  read-Keeps :
      {A : Type 0} (w : String) (m : Io Db RepoError A) → Keeps view m → Keeps (entry_in w) m
  read-Keeps w m h d = ap (entry w) (h d)

  delete_worker-Keeps :
      (w id : String) (b : Bool) → id ≢ w → Keeps (entry_in w) (delete_worker R id b)
  delete_worker-Keeps w id true ne =
      >>-Keeps (entry_in w) _ _
        (>>-Keeps (entry_in w) _ _
          (write-Keeps w (R.srem id) (index_remove id) (R.srem-Writes id) λ s. refl)
          (write-Keeps w (R.del_state id) (set_worker id none) (R.del_state-Writes id)
            λ s. ground (arith, str_eq_iff id w)))
        (write-Keeps w (R.del_requests id) (set_requests id []) (R.del_requests-Writes id)
          λ s. ground (arith, str_eq_iff id w))
  delete_worker-Keeps w id false ne = fail-Keeps (entry_in w) _ _

  -- Whatever becomes of it, the removal of a worker leaves another one and its requests alone.
  pub remove_worker-Keeps : (w id : String) → id ≢ w → Keeps (entry_in w) (remove_worker R id)
  unfolding remove_worker
  remove_worker-Keeps w id ne =
      >>-Keeps (entry_in w) _ _ (read-Keeps w (R.acquire id) λ d. (R.acquire-Reads id d).0) (
        finally-Keeps (entry_in w) _ (R.release id)
          (>>=-Keeps (entry_in w) (R.exists id) _
            (read-Keeps w (R.exists id) λ d. (R.exists-Reads id d).0)
            λ b. delete_worker-Keeps w id b ne)
          λ d. ap (entry w) (R.release-view id d))

  read_if-Keeps : (id : String) (b : Bool) → Keeps view (read_if R id b)
  unfolding get_worker_from_key
  read_if-Keeps id true =
      >>=-Keeps view _ _ (λ d. (R.hgetall-Reads id d).0) λ found. pure-Keeps view _ _
  read_if-Keeps id false = fail-Keeps view _ _

  pub get_worker_by_id-Keeps : (id : String) → Keeps view (get_worker_by_id R id)
  unfolding get_worker_by_id
  get_worker_by_id-Keeps id =
      >>-Keeps view _ _ (λ d. (R.acquire-Reads id d).0)
        (finally-Keeps view _ (R.release id)
          (>>=-Keeps view (R.exists id) _ (λ d. (R.exists-Reads id d).0) (read_if-Keeps id))
          (R.release-view id))

-- The call does not fail with "not found".
abbrev Plain : {Db A : Type 0} → Io Db RepoError A → Db → Type 0
Plain m d = (e : RepoError) → (m d).0 ≡ err e → is_not_found e ≡ false

continue-Plain :
    {Db A B : Type 0} (f : A → Io Db RepoError B) (x : Result RepoError A × Db)
    → ((e : RepoError) → x.0 ≡ err e → is_not_found e ≡ false)
    → ((a : A) → x.0 ≡ ok a → Plain (f a) x.1)
    → (e : RepoError) → (continue f x).0 ≡ err e
    → is_not_found e ≡ false
continue-Plain f (ok a, d) h k e g = k a refl e g
continue-Plain f (err x, d) h k e g = cc (h x refl)

>>=-Plain :
    {Db A B : Type 0} (m : Io Db RepoError A) (f : A → Io Db RepoError B) (d : Db)
    → Plain m d
    → ((a : A) → (m d).0 ≡ ok a → Plain (f a) (m d).1)
    → Plain (m >>= f) d
unfolding ◌>>=◌
>>=-Plain m f d h k = continue-Plain f (m d) h k

pure-Plain : {Db A : Type 0} (a : A) (d : Db) → Plain (pure a) d
unfolding pure
pure-Plain a d e h = cc

-- A stored worker is found, unless Redis or the lock service fails.
pub get_worker_by_id-found :
    (R : WorkerRedis)
    → PlainErrors R
    → (id : String) (w : Worker) (d : R.Db) (e : RepoError) → (R.view d).workers id ≡ some w
    → (get_worker_by_id R id d).0 ≡ err e
    → is_not_found e ≡ false
unfolding get_worker_by_id get_worker_from_key ◌>>◌ finally
get_worker_by_id-found R plain id w d e stored failed =
    >>=-Plain (R.acquire id) _ d (plain.acquire id d)
      (λ u f e g.
        >>=-Plain (R.exists id) (read_if R id) (R.acquire id d).1
          (plain.exists id (R.acquire id d).1)
          (λ b h.
            let known : b ≡ true =
              (R.exists-Reads id (R.acquire id d).1).1 b h
              ∙ ap (λ (s : WorkerStore). is_present (s.workers id)) (R.acquire-Reads id d).0
              ∙ ap is_present stored in
            subst (λ b. Plain (read_if R id b) (R.exists id (R.acquire id d).1).1) (sym known)
              (>>=-Plain (R.hgetall id) _ _ (plain.hgetall id _) λ found i. pure-Plain _ _))
          e g)
      e failed

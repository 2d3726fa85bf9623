-- ===== src/Scheduler/Cleaner/Spares.antt =====
-- What the clean-up leaves alone.
use beta.Base.{
  ℕ, ◌≡◌, ◌≢◌, ◌∙◌, refl, sym, ap, subst, inl, inr, String, Bool, true, false, Option, none, some,
  List, [], ◌∷◌, Result, ok, err, All, Bool-cases, if◌then◌else◌,
}
use beta.Repository.Worker.Redis.{WorkerRedis, RepoError}
use beta.Types.{Worker}
use beta.Repository.Worker.{get_worker_by_id}
use beta.Repository.Worker.Removed.{
  Entry, entry, PlainErrors, remove_worker-Keeps, get_worker_by_id-Keeps, get_worker_by_id-found,
}
use beta.Scheduler.Cleaner.{
  Pod, KubeClient, World, is_done, is_overdue, has_no_state, delete_worker_resources,
  delete_if_stateless, stale_labelled, delete_stale_job, pending_labelled, delete_pending_job,
  clean_pods, with_pods, clean_job, clean_jobs, with_jobs, clean,
}

-- A worker and its requests are stored as they were, and a job is there.
pub record Spared (R : WorkerRedis) (K : KubeClient) (w : String) (e : Entry) (j : String)
    (d : R.Db) (k : K.Cluster) : Type 0 where
  pub stored : entry w (R.view d) ≡ e
  pub job : K.has_job k j ≡ true

module _ (R : WorkerRedis) (K : KubeClient) (limit now : ℕ) (plain : PlainErrors R) (w j : String)
    (x : Worker) (e : Entry) (listed : e.0 ≡ some x) where
  abbrev Good : World R K limit now → Type 0
  Good (d, k) = Spared R K w e j d k

  -- A pod of the worker is not overdue, and a pod of the job is the worker's.
  abbrev IsFine : String → Pod → Type 0
  IsFine job pod =
      (pod.worker_id ≡ some w → is_overdue R K limit now pod ≡ false)
      × ((id : String) → pod.worker_id ≡ some id → job ≡ j → id ≡ w)

  delete-Good :
      (id job : String) (s : World R K limit now)
      → id ≢ w
      → job ≢ j
      → Good s
      → Good (delete_worker_resources R K limit now id job s)
  unfolding delete_worker_resources
  delete-Good id job (d, k) other apart h = record {
    stored = remove_worker-Keeps R w id other d ∙ h.stored;
    job = K.delete_job-keeps job k j apart ∙ h.job;
  }

  answered-Good :
      {A : Type 0} (id job : String) (answer : Result RepoError A) (d : R.Db) (k : K.Cluster)
      → (id ≡ w → has_no_state answer ≡ false)
      → (job ≡ j → id ≡ w)
      → Good (d, k)
      → Good (
          if has_no_state answer
          then delete_worker_resources R K limit now id job (d, k)
          else (d, k))
  answered-Good id job answer d k found owned h = elim (Bool-cases (has_no_state answer)) [
    | inl gone ↦
        let other : id ≢ w = λ same. cc (found same) in
        rw gone (delete-Good id job (d, k) other (λ same. other (owned same)) h)
    | inr there ↦ rw there h
  ]

  not_stateless :
      (id : String) (d : R.Db) (k : K.Cluster)
      → Good (d, k)
      → (answer : Result RepoError Worker) → (get_worker_by_id R id d).0 ≡ answer
      → id ≡ w
      → has_no_state answer ≡ false
  not_stateless id d k h (ok a) f same = refl
  not_stateless id d k h (err y) f same =
      get_worker_by_id-found R plain id x d y
        (subst (λ i. (R.view d).workers i ≡ some x) (sym same)
          (ap (λ (p : Entry). p.0) h.stored ∙ listed))
        f

  stateless-Good :
      (id job : String) (s : World R K limit now)
      → (job ≡ j → id ≡ w)
      → Good s
      → Good (delete_if_stateless R K limit now id job s)
  stateless-Good id job (d, k) owned h =
      let d' : R.Db = (get_worker_by_id R id d).1 in
      let kept : Good (d', k) = record {
        stored = ap (entry w) (get_worker_by_id-Keeps R id d) ∙ h.stored;
        job = h.job;
      } in
      answered-Good id job (get_worker_by_id R id d).0 d' k (not_stateless id d k h _ refl) owned
        kept

  stale-Good :
      (pod : Pod) (job : String) (s : World R K limit now)
      → (label : Option String) → ((id : String) → label ≡ some id → job ≡ j → id ≡ w)
      → Good s
      → Good (stale_labelled R K limit now label pod.phase job s)
  stale-Good pod job s none owned h = h
  stale-Good pod job s (some id) owned h = elim (Bool-cases (is_done pod.phase)) [
    | inl done ↦ rw done h
    | inr alive ↦ rw alive (stateless-Good id job s (owned id refl) h)
  ]

  pending-Good :
      (job : String) (s : World R K limit now) (label : Option String) (overdue : Bool)
      → (label ≡ some w → overdue ≡ false)
      → ((id : String) → label ≡ some id → job ≡ j → id ≡ w)
      → Good s
      → Good (pending_labelled R K limit now label overdue job s)
  pending-Good job s none overdue young owned h = h
  pending-Good job s (some id) false young owned h = h
  pending-Good job s (some id) true young owned h =
      let other : id ≢ w = λ same. cc (young (ap some same)) in
      delete-Good id job s other (λ same. other (owned id refl same)) h

  clean_pods-Good :
      (job : String) (pods : List Pod) (s : World R K limit now)
      → All (IsFine job) pods
      → Good s
      → Good (clean_pods R K limit now job pods s)
  unfolding clean_pods delete_stale_job delete_pending_job
  clean_pods-Good job [] s fine h = h
  clean_pods-Good job (pod ∷ pods) s ((young, owned), fine) h = clean_pods-Good job pods _ fine (
      pending-Good job _ pod.worker_id (is_overdue R K limit now pod) young owned
        (stale-Good pod job s pod.worker_id owned h))

  with_pods-Good :
      (job : String) (pods : Result (Unit {0}) (List Pod)) (s : World R K limit now)
      → ((l : List Pod) → pods ≡ ok l → All (IsFine job) l)
      → Good s
      → Good (with_pods R K limit now job pods s)
  with_pods-Good job (err u) s fine h = h
  with_pods-Good job (ok pods) s fine h = clean_pods-Good job pods s (fine pods refl) h

  -- The pods that the pass lists for the job are fine, if they could be listed.
  abbrev FineJob : String → World R K limit now → Type 0
  FineJob job (d, k) = (pods : List Pod) → (K.list_pods job k).0 ≡ ok pods → All (IsFine job) pods

  abbrev FineJobs : List String → World R K limit now → Type 0
  FineJobs [] s = Unit {0}
  FineJobs (job ∷ jobs) s = FineJob job s × FineJobs jobs (clean_job R K limit now job s)

  clean_job-Good :
      (job : String) (s : World R K limit now)
      → FineJob job s
      → Good s
      → Good (clean_job R K limit now job s)
  unfolding clean_job
  clean_job-Good job (d, k) fine h =
      with_pods-Good job (K.list_pods job k).0 (d, (K.list_pods job k).1) fine
        (record { stored = h.stored; job = K.list_pods-keeps job k j ∙ h.job })

  clean_jobs-Good :
      (jobs : List String) (s : World R K limit now)
      → FineJobs jobs s
      → Good s
      → Good (clean_jobs R K limit now jobs s)
  unfolding clean_jobs
  clean_jobs-Good [] s fine h = h
  clean_jobs-Good (job ∷ jobs) s (fine, later) h =
      clean_jobs-Good jobs (clean_job R K limit now job s) later (clean_job-Good job s fine h)

  with_jobs-Good :
      (jobs : Result (Unit {0}) (List String)) (s : World R K limit now)
      → ((l : List String) → jobs ≡ ok l → FineJobs l s)
      → Good s
      → Good (with_jobs R K limit now jobs s)
  with_jobs-Good (err u) s fine h = h
  with_jobs-Good (ok jobs) s fine h = clean_jobs-Good jobs s (fine jobs refl) h

  clean-Good :
      (d : R.Db) (k : K.Cluster)
      → ((l : List String) → (K.list_jobs k).0 ≡ ok l → FineJobs l (d, (K.list_jobs k).1))
      → Good (d, k)
      → Good (clean R K limit now (d, k))
  unfolding clean
  clean-Good d k fine h =
      with_jobs-Good (K.list_jobs k).0 (d, (K.list_jobs k).1) fine
        (record { stored = h.stored; job = K.list_jobs-keeps k j ∙ h.job })

-- The pods that one pass lists, each job in the state in which the pass reaches it: a pod of the
-- worker `w` has not been pending for the age limit, and a labelled pod of the job `j` is `w`'s.
abbrev pub ListsFine :
    (R : WorkerRedis) (K : KubeClient) (limit now : ℕ)
    → String
    → String
    → List String
    → World R K limit now
    → Type 0
ListsFine R K limit now w j [] s = Unit {0}
ListsFine R K limit now w j (job ∷ jobs) s =
    ((pods : List Pod)
      → (K.list_pods job s.1).0 ≡ ok pods
      → All
          (λ pod.
            (pod.worker_id ≡ some w → is_overdue R K limit now pod ≡ false)
            × ((id : String) → pod.worker_id ≡ some id → job ≡ j → id ≡ w))
          pods)
    × ListsFine R K limit now w j jobs (clean_job R K limit now job s)

-- Whatever Kubernetes lists and whichever calls fail: a clean-up keeps a stored worker with its
-- requests as it is, and a job of that worker, if no pod of the worker that the pass lists has been
-- pending for the age limit, and each labelled pod that it lists for the job is the worker's. Redis
-- and the lock do not report a missing worker.
pub clean-Spared :
    (R : WorkerRedis) (K : KubeClient) (limit now : ℕ) (w j : String) (x : Worker) (d : R.Db)
    (k : K.Cluster)
    → PlainErrors R
    → (R.view d).workers w ≡ some x
    → K.has_job k j ≡ true
    → ((jobs : List String)
        → (K.list_jobs k).0 ≡ ok jobs
        → ListsFine R K limit now w j jobs (d, (K.list_jobs k).1))
    → Spared R K w
        (entry w (R.view d))
        j
        (clean R K limit now (d, k)).0
        (clean R K limit now (d, k)).1
clean-Spared R K limit now w j x d k plain stored there fine =
    clean-Good R K limit now plain w j x (entry w (R.view d)) stored d k
      (λ l e. listed_fine l (d, (K.list_jobs k).1) (fine l e))
      (record { stored = refl; job = there })
  where
    listed_fine :
        (jobs : List String) (s : World R K limit now)
        → ListsFine R K limit now w j jobs s
        → FineJobs R K limit now plain w j x (entry w (R.view d)) stored jobs s
    listed_fine [] s h = tt
    listed_fine (job ∷ jobs) (d', k') (h, hs) = (h, listed_fine jobs _ hs)

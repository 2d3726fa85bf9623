-- ===== src/Examples/Cleaning.antt =====
-- A clean-up of two jobs: the worker of one is stored, that of the other is not.
use beta.Base.{
  Result, ◌≡◌, ◌≢◌, refl, sym, subst, inl, inr, String, Bool, true, false, some, List, [], ◌∷◌, ok,
  All, str_eq, str_eq_iff, str_eq-≢, some-injective, Bool-cases, arith, if◌then◌else◌,
}
use beta.Base.Io.{ok-injective, ◌>>=◌, ◌>>◌, fail, finally, pure}
use beta.Repository.Worker.{remove_worker, get_worker_by_id, get_worker_from_key}
use beta.Repository.Worker.Removed.{PlainErrors, entry}
use beta.Scheduler.Cleaner.{
  Pod, World, pod_running, KubeClient, is_overdue, clean, clean_jobs, clean_job, clean_pods,
  delete_stale_job, delete_pending_job, delete_worker_resources,
}
use beta.Scheduler.Cleaner.Spares.{ListsFine, Spared, clean-Spared}
use beta.Examples.Stores.{worker_memory, answer_with, change_by}
use beta.Examples.Data.{cpu_worker, workers}

abbrev pod_of : String → Pod
pod_of id = record { worker_id = some id; phase = pod_running; created = 0 }

abbrev pods_of : String → List Pod
pods_of job = if str_eq job "job1" then pod_of "w1" ∷ [] else pod_of "w9" ∷ []

delete_keeps :
    (job : String) (k : String → Bool) (j : String)
    → job ≢ j
    → (if str_eq job j then false else k j) ≡ k j
delete_keeps job k j ne = ground (arith, str_eq_iff job j)

abbrev kube : KubeClient
kube = record {
  Cluster = String → Bool;
  has_job = λ k j. k j;
  list_jobs = λ k. (ok ("job1" ∷ "job9" ∷ []), k);
  list_pods = λ job k. (ok (if k job then pods_of job else []), k);
  delete_job = λ job k. (ok tt, λ j. if str_eq job j then false else k j);
  list_jobs-keeps = λ k j. refl;
  list_pods-keeps = λ job k j. refl;
  delete_job-keeps = delete_keeps;
}

worker_memory-PlainErrors : PlainErrors worker_memory
unfolding answer_with
worker_memory-PlainErrors = record {
  acquire = λ k d e h. cc;
  exists = λ k d e h. cc;
  hgetall = λ k d e h. cc;
}

abbrev IsFineHere : String → List Pod → Type 0
IsFineHere job = All λ (pod : Pod).
    (pod.worker_id ≡ some "w1" → is_overdue worker_memory kube 100 500 pod ≡ false)
    × ((id : String) → pod.worker_id ≡ some id → job ≡ "job1" → id ≡ "w1")

abbrev unknown_id : String
unknown_id = "w9"

other_worker : unknown_id ≢ "w1"
other_worker = str_eq-≢ _ _ refl

pods_of-fine : (job : String) → IsFineHere job (pods_of job)
pods_of-fine job = elim (Bool-cases (str_eq job "job1")) [
  | inl same ↦ rw same (((λ e. refl), λ id e f. sym (some-injective e)), tt)
  | inr other ↦ rw other (
    ((λ e. absurd (other_worker (some-injective e))), λ id e f. absurd (str_eq-≢ _ _ other f)),
    tt,
  )
]

listed-fine :
    (job : String) (here : Bool) (pods : List Pod)
    → ◌≡◌ {A = Result (Unit {0}) (List Pod)} (ok (if here then pods_of job else [])) (ok pods)
    → IsFineHere job pods
listed-fine job true pods e = subst (IsFineHere job) (ok-injective e) (pods_of-fine job)
listed-fine job false pods e = subst (IsFineHere job) (ok-injective e) tt

lists-fine :
    (jobs : List String) (s : World worker_memory kube 100 500)
    → ListsFine worker_memory kube 100 500 "w1" "job1" jobs s
lists-fine [] s = tt
lists-fine (job ∷ jobs) (d, k) = (λ pods e. listed-fine job (k job) pods e, lists-fine jobs _)

clean-Spared_example :
    Spared worker_memory kube "w1"
      (entry "w1" workers)
      "job1"
      (clean worker_memory kube 100 500 (workers, λ j. true)).0
      (clean worker_memory kube 100 500 (workers, λ j. true)).1
clean-Spared_example =
    clean-Spared worker_memory kube 100 500 "w1" "job1" cpu_worker workers (λ j. true)
      worker_memory-PlainErrors refl refl λ jobs e. lists-fine jobs _

-- The job of the worker that is not stored is deleted.
job9_deleted : (clean worker_memory kube 100 500 (workers, λ j. true)).1 "job9" ≡ false
unfolding clean clean_jobs clean_job clean_pods delete_stale_job delete_pending_job
    delete_worker_resources get_worker_by_id get_worker_from_key remove_worker answer_with change_by
    ◌>>=◌ ◌>>◌ fail finally pure
job9_deleted = refl

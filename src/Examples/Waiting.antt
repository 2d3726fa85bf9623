-- ===== src/Examples/Waiting.antt =====
-- A backlog in memory, and a turn of the processing loop on it.
use beta.Base.{
  ◌≡◌, refl, sym, ℕ, ◌≤◌, List, [], ◌∷◌, Permᴰ, All, arith, inl, inr, if◌then◌else◌, Bool-cases,
  leb, true, false, Option, none, some, Result, ok, length,
}
use beta.Base.Int.{pos}
use beta.Base.Io.{Io, ok-injective}
use beta.Types.{Worker, ContainerRequest}
use beta.Repository.Worker.Redis.{WorkerStore, set_worker}
use beta.Scheduler.Dispatch.{Ascending, BacklogRedis, Credentials, Services, State}
use beta.Scheduler.Turn.{Settings, Outcome, try_controllers}
use beta.Scheduler.Pools.{WorkerPoolController}
use beta.Scheduler.Turn.Controllers.{Placed, try_controllers-Placed}
use beta.Examples.Stores.{worker_memory, container_memory}
use beta.Examples.Sorting.{sorting, sorting_pools}
use beta.Examples.Requests.{t4_controller}
use beta.Examples.Data.{cpu_worker, cpu_request, gpu_request, workers, containers}

abbrev key : ContainerRequest → ℕ
key r = r.timestamp

insert : ContainerRequest → List ContainerRequest → List ContainerRequest
insert r [] = r ∷ []
insert r (q ∷ l) = if leb (key r) (key q) then r ∷ q ∷ l else q ∷ insert r l

perm_refl : (l : List ContainerRequest) → Permᴰ l l
perm_refl [] = Permᴰ.nil
perm_refl (r ∷ l) = Permᴰ.cons refl (perm_refl l)

insert-perm : (r : ContainerRequest) (l : List ContainerRequest) → Permᴰ (insert r l) (r ∷ l)
unfolding insert
insert-perm r [] = perm_refl (r ∷ [])
insert-perm r (q ∷ l) = elim (Bool-cases (leb (key r) (key q))) [
  | inl first ↦ rw first (perm_refl (r ∷ q ∷ l))
  | inr later ↦ rw later (Permᴰ.trans (Permᴰ.cons refl (insert-perm r l)) (Permᴰ.swap refl refl))
]

insert-All :
    (b r : ContainerRequest) (l : List ContainerRequest)
    → key b ≤ key r
    → All (λ q. key b ≤ key q) l
    → All (λ q. key b ≤ key q) (insert r l)
unfolding insert
insert-All b r [] h a = (h, tt)
insert-All b r (q ∷ l) h a = elim (Bool-cases (leb (key r) (key q))) [
  | inl first ↦ rw first (h, a)
  | inr later ↦ rw later (a.0, insert-All b r l h a.1)
]

All-le :
    (low high : ContainerRequest) (l : List ContainerRequest)
    → key low ≤ key high
    → All (λ q. key high ≤ key q) l
    → All (λ q. key low ≤ key q) l
All-le low high [] h a = tt
All-le low high (q ∷ l) h a = (omega arith, All-le low high l h a.1)

insert-Ascending :
    (r : ContainerRequest) (l : List ContainerRequest)
    → Ascending key l
    → Ascending key (insert r l)
unfolding insert
insert-Ascending r [] a = (tt, tt)
insert-Ascending r (q ∷ l) a = elim (Bool-cases (leb (key r) (key q))) [
  | inl first ↦
      let below : key r ≤ key q = ground arith in rw first ((below, All-le r q l below a.0), a)
  | inr later ↦ rw later (insert-All q r l (ground arith) a.0, insert-Ascending r l a.1)
]

abbrev SortedList : Type 0
SortedList = (l : List ContainerRequest) × Ascending key l

take_first : SortedList → Result (Unit {0}) (Option ContainerRequest) × SortedList
take_first ([], a) = (ok none, ([], a))
take_first (r ∷ l, a) = (ok (some r), (l, a.1))

take_first-first :
    (r : ContainerRequest) (d : SortedList)
    → (take_first d).0 ≡ ok (some r)
    → d.0 ≡ r ∷ (take_first d).1.0
unfolding take_first
take_first-first r ([], a) e = cc
take_first-first r (q ∷ l, a) e = cc

take_first-none :
    (d : SortedList) → (take_first d).0 ≡ ok none → (d.0 ≡ []) × ((take_first d).1.0 ≡ d.0)
unfolding take_first
take_first-none ([], a) e = (refl, refl)
take_first-none (q ∷ l, a) e = cc

abbrev backlog_memory : BacklogRedis
backlog_memory = record {
  Db = SortedList;
  view = λ d. d.0;
  zadd = λ r d. (ok tt, (insert r d.0, insert-Ascending r d.0 d.1));
  zpopmin = take_first;
  zcard = λ d. (ok (length d.0), d);
  float64 = λ n. n;
  float64-≤ = λ m n h. h;
  view-Ascending = λ d. d.1;
  zadd-adds = λ r d e. inr (insert-perm r d.0);
  zpopmin-first = take_first-first;
  zpopmin-none = take_first-none;
  zcard-Reads = λ d. (refl, λ n e. sym (ok-injective e));
}

abbrev credentials : Credentials
credentials = record {
  has_build_prefix = λ id. false;
  image_secret_name = λ id. ok "registry";
  secret_value = λ name. ok "token";
  build_registry = "localhost";
  has_local_prefix = false;
  registry_configured = true;
  registry_token = ok "";
}

abbrev services : Services
services = record {
  containers = container_memory;
  workers = worker_memory;
  backlog = backlog_memory;
  credentials = credentials;
}

abbrev waiting : State services
waiting = record {
  container_db = containers;
  worker_db = workers;
  backlog_db =
      (cpu_request ∷ record gpu_request { timestamp = 9 } ∷ [], ((omega arith, tt), (tt, tt)));
}

abbrev settings : Settings
settings = record {
  sort_workers = sorting;
  sort_pools = sorting_pools;
  manager = record { pool_map = []; failover_enabled = true };
  beyond = pos 0;
}

-- A controller whose worker is there at once.
abbrev add_worker : WorkerPoolController → ContainerRequest → Io WorkerStore (Unit {0}) Worker
add_worker c r s = (ok cpu_worker, set_worker "w1" (some cpu_worker) s)

abbrev after_controllers : Outcome × State services
after_controllers =
    try_controllers services settings 20 add_worker (t4_controller ∷ []) cpu_request waiting

try_controllers-Placed_example :
    Placed services settings 20 add_worker cpu_request waiting.container_db
      (t4_controller ∷ [])
      after_controllers.0
      after_controllers.1
try_controllers-Placed_example =
    try_controllers-Placed services settings 20 add_worker cpu_request (t4_controller ∷ []) waiting

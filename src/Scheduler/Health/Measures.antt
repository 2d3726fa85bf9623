-- ===== src/Scheduler/Health/Measures.antt =====
-- What the state of a pool measures, from what the repositories answer.
use beta.Base.{
  ℕ, zero, suc, ◌≡◌, ◌≢◌, refl, ap, ◌&&◌, inl, inr, String, Bool, true, false, Bool-cases, List, [],
  ◌∷◌, ◌++◌, Result, ok, err, length,
}
use beta.Base.Int.{ℤ, pos, negsuc, ◌+ℤ◌, ◌-ℤ◌}
use beta.Base.Machine.{i64}
use beta.Types.{
  Worker, WorkerStatus, available, pending, disabled, other_status, other_container_status,
  stopping, ContainerState, ContainerStatus, running,
}
use beta.Repository.Worker.Index.{is_pending}
use beta.Scheduler.Sizing.{WorkerPoolCapacity}
use beta.Scheduler.Health.{
  MachineStatus, machine_pending, machine_registered, machine_ready, other_machine_status, quotient,
  saturate, unix, is_running, is_waiting, is_zero, latency_of, latencies, total_of, average_latency,
  count_if, containers_of, is_ready, WorkerPoolState, PoolView, measured, machines_of,
}

-- `n` elements of the list have the property.
pub data Counts {A : Type 0} (P : A → Type 0) : List A → ℕ → Type 0 where
  none_left : Counts P [] zero
  counted : {a : A} {l : List A} {n : ℕ} → P a → Counts P l n → Counts P (a ∷ l) (suc n)
  passed : {a : A} {l : List A} {n : ℕ} → ¬ (P a) → Counts P l n → Counts P (a ∷ l) n

-- The containers of the workers, without those of a worker whose containers could not be read.
pub data Gathered (active : String → Result (Unit {0}) (List ContainerState))
    : List Worker → List ContainerState → Type 0 where
  no_worker : Gathered active [] []
  readable :
      {w : Worker} {ws : List Worker} {xs cs : List ContainerState}
      → active w.id ≡ ok xs
      → Gathered active ws cs
      → Gathered active (w ∷ ws) (xs ++ cs)
  unreadable :
      {w : Worker} {ws : List Worker} {cs : List ContainerState}
      → active w.id ≡ err tt
      → Gathered active ws cs
      → Gathered active (w ∷ ws) cs

-- How long each container has waited: a pending one until now, another one until it was started; one
-- that runs and has no time of its start is left out.
pub data Waited (now : ℤ) : List ContainerState → List ℤ → Type 0 where
  no_container : Waited now [] []
  unknown :
      {c : ContainerState} {cs : List ContainerState} {ls : List ℤ}
      → c.started_at ≡ pos 0
      → c.status ≡ running
      → Waited now cs ls
      → Waited now (c ∷ cs) ls
  waiting :
      {c : ContainerState} {cs : List ContainerState} {ls : List ℤ}
      → c.status ≡ pending
      → Waited now cs ls
      → Waited now (c ∷ cs) (saturate (now -ℤ unix c.scheduled_at) ∷ ls)
  started :
      {c : ContainerState} {cs : List ContainerState} {ls : List ℤ}
      → c.status ≢ pending
      → (c.status ≡ running → c.started_at ≢ pos 0)
      → Waited now cs ls
      → Waited now (c ∷ cs) (saturate (unix c.started_at -ℤ unix c.scheduled_at) ∷ ls)

-- The sum of int64 numbers, which wraps round.
pub data Sums : ℤ → List ℤ → ℤ → Type 0 where
  summed : {t : ℤ} → Sums t [] t
  adding : {t l r : ℤ} {ls : List ℤ} → Sums (i64 (t +ℤ l)) ls r → Sums t (l ∷ ls) r

count_if-Counts :
    {A : Type 0} (p : A → Bool) (P : A → Type 0)
    → ((a : A) → p a ≡ true → P a)
    → ((a : A) → p a ≡ false → ¬ (P a))
    → (l : List A) → Counts P l (count_if p l)
count_if-Counts p P is_p not_p [] = none_left
count_if-Counts p P is_p not_p (a ∷ l) = elim (Bool-cases (p a)) [
  | inl holds ↦ rw holds (counted (is_p a holds) (count_if-Counts p P is_p not_p l))
  | inr fails ↦ rw fails (passed (not_p a fails) (count_if-Counts p P is_p not_p l))
]

containers_of-Gathered :
    (active : String → Result (Unit {0}) (List ContainerState)) (ws : List Worker)
    → Gathered active ws (containers_of active ws)
containers_of-Gathered active [] = no_worker
containers_of-Gathered active (w ∷ ws) = one (active w.id) refl (containers_of-Gathered active ws)
  where
    one :
        (x : Result (Unit {0}) (List ContainerState))
        → active w.id ≡ x
        → Gathered active ws (containers_of active ws)
        → Gathered active (w ∷ ws) (containers_of active (w ∷ ws))
    one (ok xs) e rest = rw e (readable e rest)
    one (err u) e rest = rw e (unreadable e rest)

is_zero-pos : (z : ℤ) → is_zero z ≡ true → z ≡ pos 0
is_zero-pos (pos zero) h = refl
is_zero-pos (pos (suc n)) h = cc h
is_zero-pos (negsuc n) h = cc h

is_waiting-pending : (s : ContainerStatus) → is_waiting s ≡ true → s ≡ pending
is_waiting-pending pending h = refl
is_waiting-pending running h = cc h
is_waiting-pending stopping h = cc h
is_waiting-pending (other_container_status t) h = cc h

is_running-running : (s : ContainerStatus) → is_running s ≡ true → s ≡ running
is_running-running running h = refl
is_running-running pending h = cc h
is_running-running stopping h = cc h
is_running-running (other_container_status t) h = cc h

latencies-Waited : (now : ℤ) (cs : List ContainerState) → Waited now cs (latencies now cs)
unfolding latency_of
latencies-Waited now [] = no_container
latencies-Waited now (c ∷ cs) =
    let rest = latencies-Waited now cs in
    elim (Bool-cases (is_zero c.started_at && is_running c.status)) [
      | inl unstarted ↦ rw unstarted (
          unknown (is_zero-pos c.started_at (both _ _ unstarted).0)
            (is_running-running c.status (both _ _ unstarted).1) rest)
      | inr other ↦ elim (Bool-cases (is_waiting c.status)) [
        | inl waits ↦ rw other (rw waits (waiting (is_waiting-pending c.status waits) rest))
        | inr no_wait ↦ rw other (
            rw no_wait (
              started (λ e. cc (ap is_waiting e, no_wait))
                (λ e f. clash _ _ (ap is_running e) (ap is_zero f) other) rest))
      ]
    ]
  where
    both : (a b : Bool) → (a && b) ≡ true → (a ≡ true) × (b ≡ true)
    both true true h = (refl, refl)
    both true false h = absurd (cc h)
    both false b h = absurd (cc h)

    clash : (a b : Bool) → b ≡ true → a ≡ true → (a && b) ≡ false → ⊥
    clash true true h k e = cc e
    clash true false h k e = cc h
    clash false b h k e = cc k

total_of-Sums : (t : ℤ) (ls : List ℤ) → Sums t ls (total_of t ls)
total_of-Sums t [] = summed
total_of-Sums t (l ∷ ls) = adding (total_of-Sums (i64 (t +ℤ l)) ls)

-- The mean of the waiting times in milliseconds; 0 if there is none.
pub record Latency (now : ℤ) (cs : List ContainerState) (latency : ℤ) : Type 0 where
  pub waits : List ℤ
  pub waited : Waited now cs waits
  pub unknown_yet : waits ≡ [] → latency ≡ pos 0
  pub mean :
      waits ≢ []
      → (total : ℤ) × Sums (pos 0) waits total
        × (latency ≡ quotient (quotient total (length waits)) 1000000)

-- The measures by which a pool is judged.
pub record Measures (p : PoolView) (ws : List Worker) (s : WorkerPoolState) : Type 0 where
  pub containers : List ContainerState
  pub gathered : Gathered p.active_containers ws containers
  pub machines : List MachineStatus
  pub machines_external : p.is_external ≡ true → p.machines ≡ ok machines
  pub machines_local : p.is_external ≡ false → machines ≡ []
  pub waiting : Counts (λ (w : Worker). w.status ≡ pending) ws s.pending_workers
  pub ready : Counts (λ (m : MachineStatus). m ≡ machine_ready) machines s.ready_machines
  pub latency : Latency p.now containers s.scheduling_latency

is_pending-pending : (w : Worker) → is_pending w.status ≡ true → w.status ≡ pending
is_pending-pending w h = go w.status h
  where
    go : (s : WorkerStatus) → is_pending s ≡ true → s ≡ pending
    go pending h = refl
    go available h = cc h
    go disabled h = cc h
    go (other_status t) h = cc h

is_ready-ready : (m : MachineStatus) → is_ready m ≡ true → m ≡ machine_ready
is_ready-ready machine_ready h = refl
is_ready-ready machine_pending h = cc h
is_ready-ready machine_registered h = cc h
is_ready-ready other_machine_status h = cc h

average-Latency :
    (now : ℤ) (cs : List ContainerState) (ls : List ℤ)
    → Waited now cs ls
    → Latency now cs (quotient (average_latency ls) 1000000)
unfolding average_latency
average-Latency now cs [] h = record {
  waits = [];
  waited = h;
  unknown_yet = λ e. refl;
  mean = λ ne. absurd (ne refl);
}
average-Latency now cs (l ∷ ls) h = record {
  waits = l ∷ ls;
  waited = h;
  unknown_yet = λ e. cc e;
  mean = λ ne. (_, total_of-Sums (pos 0) (l ∷ ls), refl);
}

machines_of-listed :
    (p : PoolView) (ms : List MachineStatus)
    → machines_of p ≡ ok ms
    → (p.is_external ≡ true → p.machines ≡ ok ms) × (p.is_external ≡ false → ms ≡ [])
machines_of-listed p ms e = go p.is_external p.machines e
  where
    go :
        (b : Bool) (x : Result (Unit {0}) (List MachineStatus))
        → machines_of (record p { is_external = b; machines = x }) ≡ ok ms
        → (b ≡ true → x ≡ ok ms) × (b ≡ false → ms ≡ [])
    go true (ok l) h = (λ b. cc h, λ b. cc b)
    go true (err u) h = (λ b. cc h, λ b. cc b)
    go false x h = (λ b. cc b, λ b. cc h)

pub measured-Measures :
    (p : PoolView) (ws : List Worker) (ms : List MachineStatus) (free : WorkerPoolCapacity)
    → machines_of p ≡ ok ms
    → Measures p ws (measured p.now ws ms p.active_containers free)
unfolding measured
measured-Measures p ws ms free e =
    let (external, local) = machines_of-listed p ms e in
    record {
      containers = containers_of p.active_containers ws;
      gathered = containers_of-Gathered p.active_containers ws;
      machines = ms;
      machines_external = external;
      machines_local = local;
      waiting = count_if-Counts _ _ is_pending-pending (λ w f e. cc (ap is_pending e, f)) ws;
      ready = count_if-Counts _ _ is_ready-ready (λ m f e. cc (ap is_ready e, f)) ms;
      latency = average-Latency p.now _ _ (latencies-Waited p.now _);
    }

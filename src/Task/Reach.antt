-- ===== src/Task/Reach.antt =====
-- The retries of the stored tasks, in every state that is reached.
use beta.Base.{◌≡◌, sym, ap, subst, ℕ, ◌≤◌, String, some, List, [], ◌∷◌, ◌++◌, Memᴰ, All, ok}
use beta.Base.Safe.{>>=-Safe, Preserves-Safe}
use beta.Task.Redis.{TaskRedis, TaskKey, TaskPolicy, TaskMessage, no_slot}
use beta.Task.Store.{get_tasks_in_flight, in_flight_among, claim_task}
use beta.Task.Dispatcher.{Executors, AreTasks, Encoding, send, claim, complete, monitor_task}
use beta.Task.Slots.{claim_task-Preserves}
use beta.Task.Steps.{complete-Preserves}
use beta.Task.Monitor.{monitor_task-Preserves}
use beta.Task.Bounded.{
  IsBounded, StoresBounded, AllBounded, each, removed-bounded, send-bounded, MayMonitor-bounded,
  in_flight_among-Safe,
}

module _ (R : TaskRedis) (executors : Executors R) (encode : Encoding) where
  -- The states that the dispatchers of several gateways reach, with the messages that they have read
  -- so far: a message may be stale when it is acted on. The steps are whole operations, also where a
  -- command of theirs fails.
  pub data Reach : R.Db → List TaskMessage → Type 0 where
    start : (d : R.Db) → ((k : TaskKey) → R.view d k ≡ no_slot) → Reach d []
    sent :
        (executor : String) (k : TaskKey) (policy : TaskPolicy) (now : ℕ) {d : R.Db}
        {known : List TaskMessage}
        → Reach d known
        → Reach (send R executors executor k policy now encode d).1 known
    claimed :
        (k : TaskKey) (container_id : String) {d : R.Db} {known : List TaskMessage}
        → Reach d known
        → Reach (claim R k container_id d).1 known
    completed :
        (k : TaskKey) {d : R.Db} {known : List TaskMessage}
        → Reach d known
        → Reach (complete R k d).1 known
    listed :
        {d : R.Db} {known msgs : List TaskMessage}
        → Reach d known
        → (get_tasks_in_flight R d).0 ≡ ok msgs
        → Reach (get_tasks_in_flight R d).1 (msgs ++ known)
    monitored :
        (clock now : ℕ) (msg : TaskMessage) {d : R.Db} {known : List TaskMessage}
        → Memᴰ msg known
        → Reach d known
        → Reach (monitor_task R executors clock now encode msg d).1 known

  record Kept (d : R.Db) (known : List TaskMessage) : Type 0 where
    stored : AllBounded R executors encode d
    read : All IsBounded known

  All-append :
      (xs ys : List TaskMessage) → All IsBounded xs → All IsBounded ys → All IsBounded (xs ++ ys)
  All-append [] ys a b = b
  All-append (x ∷ xs) ys (h, a) b = (h, All-append xs ys a b)

  All-member :
      (msg : TaskMessage) (xs : List TaskMessage) → All IsBounded xs → Memᴰ msg xs → IsBounded msg
  All-member msg [] a m = elim m [ ]
  All-member msg (x ∷ xs) a (Memᴰ.head e) = subst IsBounded (sym e) a.0
  All-member msg (x ∷ xs) a (Memᴰ.tail m) = All-member msg xs a.1 m

  module _ (tasks : AreTasks R executors) where
    Reach-Kept : {d : R.Db} {known : List TaskMessage} → Reach d known → Kept d known
    unfolding claim get_tasks_in_flight
    Reach-Kept (start d empty) = record {
      stored = λ k msg e. cc (ap (λ s. s.entry) (empty k), e);
      read = tt;
    }
    Reach-Kept (sent executor k policy now {d} r) = record {
      stored = send-bounded R executors encode executor k policy now d (Reach-Kept r).stored;
      read = (Reach-Kept r).read;
    }
    Reach-Kept (claimed k c {d} r) = record {
      stored =
          each R executors encode (claim_task R k c)
            (λ j.
              claim_task-Preserves R (StoresBounded R executors encode) j k c (λ e s p. p)
                (λ e s p. p))
            d (Reach-Kept r).stored;
      read = (Reach-Kept r).read;
    }
    Reach-Kept (completed k {d} r) = record {
      stored =
          each R executors encode (complete R k)
            (λ j.
              complete-Preserves R (StoresBounded R executors encode) j k
                (λ e. removed-bounded R executors encode))
            d (Reach-Kept r).stored;
      read = (Reach-Kept r).read;
    }
    Reach-Kept (listed {d} {known} {msgs} r e) =
        let listing =
          >>=-Safe (AllBounded R executors encode) R.smembers_index (in_flight_among R)
            (Preserves-Safe (AllBounded R executors encode) R.smembers_index (λ d q.
              subst (λ v. (k : TaskKey) → StoresBounded R executors encode (v k))
                (sym (R.smembers_index-Keeps d)) q))
            (λ ks _. in_flight_among-Safe R executors encode ks) d (Reach-Kept r).stored in
        record {
          stored = listing.0;
          read = All-append msgs known (listing.1 msgs e) (Reach-Kept r).read;
        }
    Reach-Kept (monitored clock now msg {d} {known} m r) =
        let bounded = All-member msg known (Reach-Kept r).read m in
        record {
          stored =
              each R executors encode (monitor_task R executors clock now encode msg)
                (λ j.
                  monitor_task-Preserves R (StoresBounded R executors encode) j executors clock now
                    encode msg tasks
                    λ e. MayMonitor-bounded R executors encode j clock now msg bounded)
                d (Reach-Kept r).stored;
          read = (Reach-Kept r).read;
        }

    -- In every state that the dispatchers reach from an empty store, by whole operations in any
    -- order, on messages that may be stale, with commands failing at any point, the counter of
    -- retries that is stored for a task is at most what its policy allows. A stale message may have
    -- set it back.
    pub Reach-bounded :
        {d : R.Db} {known : List TaskMessage} (k : TaskKey) (msg : TaskMessage)
        → Reach d known
        → (R.view d k).entry ≡ some msg
        → msg.retries ≤ msg.policy.max_retries
    Reach-bounded k msg r e = (Reach-Kept r).stored k msg e

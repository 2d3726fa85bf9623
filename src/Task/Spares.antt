-- ===== src/Task/Spares.antt =====
-- The tasks that the monitor leaves alone.
use beta.Base.{◌≡◌, ◌≢◌, refl, ◌≤◌, ◌+◌, ℕ, List, [], ◌∷◌, All, arith, true, false, none, ok}
use beta.Base.Safe.{>>-Preserves, pure-Preserves}
use beta.Task.Redis.{TaskRedis, TaskKey, TaskMessage, Slot, is_present}
use beta.Task.Dispatcher.{Task, Executors, AreTasks, Encoding, monitor_tasks}
use beta.Task.Slots.{Holds}
use beta.Task.Steps.{Keep}
use beta.Task.Monitor.{MadeFor, MayMonitor, monitor_task-Preserves}

module _ (R : TaskRedis) (executors : Executors R) (clock : ℕ → ℕ × ℕ) where
  -- Its executor is registered; it is claimed and the task that the executor makes of the message
  -- does not miss a heart beat, or it is unclaimed and has not expired at any reading of the clock.
  pub record Healthy (j : TaskKey) (s : Slot) (msg : TaskMessage) : Type 0 where
    pub registered : executors msg.executor ≢ none
    pub timely : is_present s.claim ≡ false → (n : ℕ) → (clock n).0 ≤ msg.policy.expires
    pub heard :
        is_present s.claim ≡ true
        → (t : Task R) → MadeFor R executors msg t
        → (d : R.Db) → R.view d j ≡ s
        → (t.heart_beat d).0 ≢ ok false

  Healthy-MayMonitor :
      (j : TaskKey) (s : Slot) (msg : TaskMessage) (n : ℕ)
      → Healthy j s msg
      → MayMonitor R (λ x. x ≡ s) j executors (clock n).0 (clock n).1 msg
  Healthy-MayMonitor j s msg n h = record {
    unknown = λ e. absurd (h.registered e);
    expired = λ s' same unclaimed late.
        absurd (let early = h.timely (rw (← same) unclaimed) n in ground arith);
    missed = λ t made lawful s' same claimed d q silent.
        absurd (h.heard (rw (← same) claimed) t made d q silent);
  }

  -- Whatever happens to the other tasks and whichever commands fail: a sweep of the monitor over any
  -- messages, repeated ones included, leaves the keys of a task as they are, if the executor of each
  -- message of that task among them is registered and: the task is claimed, and what the executor
  -- makes of the message does not miss a heart beat while the keys are so; or it is unclaimed, and
  -- the message has not expired at any reading of the clock.
  pub monitor_tasks-spares :
      (encode : Encoding) (j : TaskKey) (d : R.Db) (msgs : List TaskMessage) (n : ℕ)
      → AreTasks R executors
      → All (λ msg. msg.key ≡ j → Healthy j (R.view d j) msg) msgs
      → R.view (monitor_tasks R executors clock encode n msgs d).1 j ≡ R.view d j
  unfolding monitor_tasks
  monitor_tasks-spares encode j d msgs n tasks healthy = go msgs n healthy d refl
    where
      go :
          (msgs : List TaskMessage) (n : ℕ)
          → All (λ msg. msg.key ≡ j → Healthy j (R.view d j) msg) msgs
          → Keep R (λ x. x ≡ R.view d j) j (monitor_tasks R executors clock encode n msgs)
      go [] n h = pure-Preserves (Holds R (λ x. x ≡ R.view d j) j) _ _
      go (msg ∷ msgs) n (h, hs) =
          >>-Preserves (Holds R (λ x. x ≡ R.view d j) j) _ _
            (monitor_task-Preserves R (λ x. x ≡ R.view d j) j executors (clock n).0 (clock n).1
              encode msg tasks λ e. Healthy-MayMonitor j (R.view d j) msg n (h e))
            (go msgs (n + 1) hs)

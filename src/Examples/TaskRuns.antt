-- ===== src/Examples/TaskRuns.antt =====
-- Tasks that are sent, claimed, retried and given up.
use beta.Base.{
  ◌≡◌, ◌≢◌, refl, ap, ◌∙◌, subst, true, false, none, some, some-injective, Bool-cases, [], ◌∷◌,
  Memᴰ, keep_if, ok, arith, inl, inr, ◌⊎◌, str_eq, if◌then◌else◌,
}
use beta.Base.Int.{pos}
use beta.Base.Io.{◌>>=◌, ◌>>◌, pure, lift, attempt, finally, Ensures, ok-injective}
use beta.Task.Redis.{TaskKey, TaskPolicy, TaskMessage, Slot, no_slot, Removed}
use beta.Task.Store.{
  is_claimed, remove_task_claim, set_task_state, get_tasks_in_flight, in_flight_among, claim_task,
}
use beta.Task.Dispatcher.{
  Task, IsTask, Executors, AreTasks, Encoding, new_message, send, claim, retry_task, with_retry,
  monitor_task, monitor_tasks,
}
use beta.Task.Outcome.{waiting, GivenUp, TriedAgain, retry_task-Ensures}
use beta.Task.Monitor.{MadeFor}
use beta.Task.Spares.{monitor_tasks-spares}
use beta.Task.Reach.{Reach, start, sent, claimed, listed, monitored}
use beta.Task.Answers.{IsUp}
use beta.Task.Rounds.{rounds, IsSilent, rounds-given_up}
use beta.Examples.Tasks.{Log, slot_of, task_memory, answer}

abbrev task_key : TaskKey
task_key = record { workspace_name = "ws"; stub_id = "s1"; task_id = "t1" }

abbrev other_key : TaskKey
other_key = record { workspace_name = "ws"; stub_id = "s1"; task_id = "t2" }

abbrev policy : TaskPolicy
policy = record { max_retries = 2; timeout = pos 3600; expires = 1000; ttl = 0 }

-- A task whose containers are silent, as far as the store in memory knows.
abbrev silent_task : TaskMessage → Task task_memory
silent_task msg = record {
  message = msg;
  cancel = λ reason. answer (λ l. tt);
  retry = answer (λ l. tt);
  heart_beat = answer (λ l. false);
}

abbrev executors : Executors task_memory
executors name = if str_eq name "taskqueue" then some (λ msg. ok (silent_task msg)) else none

abbrev encode : Encoding
encode msg = ok tt

unchanged : (s : Slot) → Removed s s
unchanged s = record {
  entry = inl refl;
  claim = inl refl;
  indexed = inl refl;
  stub_indexed = inl refl;
  claim_indexed = inl refl;
}

silent_task-IsTask : (msg : TaskMessage) → IsTask msg (silent_task msg)
silent_task-IsTask msg = record {
  same_message = refl;
  cancel-Keeps = λ reason k ne d. refl;
  cancel-Removed = λ reason d. unchanged (slot_of d msg.key);
  retry-Keeps = λ d. refl;
  heart_beat-Keeps = λ d. refl;
}

executors-AreTasks : AreTasks task_memory executors
executors-AreTasks name factory msg t registered made =
    elim (Bool-cases (str_eq name "taskqueue")) [
      | inl known ↦
          let same : (λ (m : TaskMessage). ok (silent_task m)) ≡ factory = some-injective (
            subst (λ b. (if b then some (λ m. ok (silent_task m)) else none) ≡ some factory) known
              registered) in
          subst (IsTask msg) (ok-injective (ap (λ f. f msg) same ∙ made)) (silent_task-IsTask msg)
      | inr unknown ↦ cc (
          subst (λ b. (if b then some (λ m. ok (silent_task m)) else none) ≡ some factory) unknown
            registered)
    ]

abbrev message : TaskMessage
message = record {
  key = task_key;
  executor = "taskqueue";
  policy = policy;
  retries = 0;
  timestamp = 7;
}

abbrev stored : Log
stored = (task_key, waiting message) ∷ []

retry_task-Ensures_example :
    Ensures (retry_task task_memory (silent_task message) 9 encode) stored (λ _ d'.
      GivenUp task_memory (silent_task message) (silent_task-IsTask message) 9 encode stored d'
      ⊎ TriedAgain task_memory (silent_task message) (silent_task-IsTask message) 9 encode d')
    × ((j : TaskKey)
        → j ≢ task_key
        → slot_of (retry_task task_memory (silent_task message) 9 encode stored).1 j
          ≡ slot_of stored j)
retry_task-Ensures_example =
    retry_task-Ensures task_memory (silent_task message) (silent_task-IsTask message) 9 encode
      stored

-- The containers of the task "t1" are alive, all others are silent.
abbrev task_of : TaskMessage → Task task_memory
task_of msg = record (silent_task msg) { heart_beat = answer (λ l. str_eq msg.key.task_id "t1") }

abbrev mixed_executors : Executors task_memory
mixed_executors name = if str_eq name "taskqueue" then some (λ msg. ok (task_of msg)) else none

task_of-IsTask : (msg : TaskMessage) → IsTask msg (task_of msg)
task_of-IsTask msg = record {
  same_message = refl;
  cancel-Keeps = λ reason k ne d. refl;
  cancel-Removed = λ reason d. unchanged (slot_of d msg.key);
  retry-Keeps = λ d. refl;
  heart_beat-Keeps = λ d. refl;
}

mixed_executors-AreTasks : AreTasks task_memory mixed_executors
mixed_executors-AreTasks name factory msg t registered made =
    elim (Bool-cases (str_eq name "taskqueue")) [
      | inl known ↦
          let same : (λ (m : TaskMessage). ok (task_of m)) ≡ factory = some-injective (
            subst (λ b. (if b then some (λ m. ok (task_of m)) else none) ≡ some factory) known
              registered) in
          subst (IsTask msg) (ok-injective (ap (λ f. f msg) same ∙ made)) (task_of-IsTask msg)
      | inr unknown ↦ cc (
          subst (λ b. (if b then some (λ m. ok (task_of m)) else none) ≡ some factory) unknown
            registered)
    ]

abbrev other_message : TaskMessage
other_message = record message { key = other_key }

-- Both tasks are claimed.
abbrev both_claimed : Log
both_claimed =
    (task_key, record (waiting message) { claim = some "c1" })
    ∷ (other_key, record (waiting other_message) { claim = some "c2" })
    ∷ []

heard_message :
    (t : Task task_memory)
    → MadeFor task_memory mixed_executors message t
    → (d : Log) → (t.heart_beat d).0 ≢ ok false
heard_message t (factory, registered, made) d silent =
    let same : (λ (m : TaskMessage). ok (task_of m)) ≡ factory = some-injective registered in
    let t_eq : task_of message ≡ t = ok-injective (ap (λ f. f message) same ∙ made) in
    let heard : ok true ≡ (t.heart_beat d).0 =
      ap (λ (u : Task task_memory). (u.heart_beat d).0) t_eq in
    cc (heard, silent)

t1_apart : other_key.task_id ≢ "t1"
t1_apart e = cc (ap (λ k. str_eq k "t1") e)

monitor_tasks-spares_example :
    slot_of
      (monitor_tasks task_memory mixed_executors
        (λ n. (50, 9))
        encode
        0
        (message ∷ other_message ∷ [])
        both_claimed).1
      task_key
    ≡ slot_of both_claimed task_key
monitor_tasks-spares_example =
    monitor_tasks-spares task_memory mixed_executors (λ n. (50, 9)) encode task_key both_claimed
      (message ∷ other_message ∷ []) 0 mixed_executors-AreTasks
      (
        λ own. record {
          registered = λ e. cc e;
          timely = λ unclaimed n. omega arith;
          heard = λ claimed t made d same. heard_message t made d;
        },
        (λ own. absurd (t1_apart (ap (λ (k : TaskKey). k.task_id) own)), tt),
      )

task_memory-IsUp : IsUp task_memory
task_memory-IsUp = record {
  set_claim-answers = λ k c d. (tt, refl);
  del_claim-answers = λ k d. (tt, refl);
  sadd_claim-answers = λ k d. (tt, refl);
  srem_claim-answers = λ k d. (tt, refl);
  sadd_index-answers = λ k d. (tt, refl);
  sadd_stub-answers = λ k d. (tt, refl);
  set_entry-answers = λ k m d. (tt, refl);
  get_entry-answers = λ k d. ((slot_of d k).entry, refl);
  delete_all-answers = λ k d. (tt, refl);
  acquire-answers = λ k d. (tt, refl);
  exists_claim-answers = λ k d. (_, refl);
}

executors-IsSilent : IsSilent task_memory executors 50 9 encode "taskqueue"
executors-IsSilent = record {
  factory = λ msg. ok (silent_task msg);
  registered = refl;
  make = silent_task;
  makes = λ msg. refl;
  lawful = silent_task-IsTask;
  encodes = λ msg. refl;
  silent = λ msg d. refl;
  cancels = λ msg d. (tt, refl);
  retries = λ msg d. (tt, refl);
}

rounds-given_up_example :
    ((rounds task_memory executors 50 9 encode 3 task_key "c1" stored).0 ≡ ok tt)
    × (slot_of (rounds task_memory executors 50 9 encode 3 task_key "c1" stored).1 task_key
        ≡ no_slot)
rounds-given_up_example =
    rounds-given_up task_memory executors 50 9 encode task_memory-IsUp "taskqueue"
      executors-IsSilent task_key "c1" message stored refl refl (omega arith) (omega arith) refl

abbrev sent_state : Log
sent_state = (send task_memory executors "taskqueue" task_key policy 7 encode []).1

abbrev claimed_state : Log
claimed_state = (claim task_memory task_key "c1" sent_state).1

abbrev listed_state : Log
listed_state = (get_tasks_in_flight task_memory claimed_state).1

abbrev retried_state : Log
retried_state = (monitor_task task_memory executors 50 9 encode message listed_state).1

retried_state-Reach : Reach task_memory executors encode retried_state (message ∷ [])
unfolding send new_message set_task_state claim claim_task get_tasks_in_flight in_flight_among ◌>>=◌
    ◌>>◌ pure lift attempt keep_if
retried_state-Reach = monitored 50 9 message (Memᴰ.head refl) (
    listed {msgs = message ∷ []}
      (claimed task_key "c1" (sent "taskqueue" task_key policy 7 (start [] λ k. refl))) refl)

retried_state-entry : (slot_of retried_state task_key).entry ≡ some (with_retry message 9)
unfolding send new_message set_task_state claim claim_task get_tasks_in_flight in_flight_among ◌>>=◌
    ◌>>◌ pure lift attempt finally monitor_task retry_task with_retry is_claimed remove_task_claim
    keep_if
retried_state-entry = refl

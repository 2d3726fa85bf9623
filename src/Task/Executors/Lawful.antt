-- ===== src/Task/Executors/Lawful.antt =====
-- The tasks of endpoints and task queues end in the table when they are cancelled.
use beta.Base.{
  ◌≡◌, ◌≢◌, ◌∙◌, refl, sym, ap, subst, inl, inr, String, true, false, some, Result, ok, str_eq,
  str_eq_iff, some-injective, Bool-cases, arith,
}
use beta.Base.Io.{Ensures, >>=-Ensures, finally-Ensures, call-Ensures, pure-Ensures, ok-injective}
use beta.Task.Redis.{TaskRedis, TaskKey, TaskMessage}
use beta.Task.Store.{delete_task_state}
use beta.Task.Dispatcher.{Task, TaskCancellationReason, IsTask, complete as complete_task}
use beta.Task.Executors.{
  TaskStatus, is_completed, TaskRow, Table, set_row, Backend, endpoint_status, task_queue_status,
  end_with, complete_deferred, endpoint_cancel, task_queue_cancel, endpoint_task, task_queue_task,
  executors,
}
use beta.Task.Executors.Kept.{endpoint_task-IsTask, task_queue_task-IsTask}

-- A cancellation that succeeds leaves the task ended; one that has ended before keeps its status.
pub record Ended (id : String) (before after : Table) : Type 0 where
  pub row : TaskRow
  pub stored : after id ≡ some row
  pub ended : is_completed row.status ≡ true
  pub kept : (old : TaskRow) → before id ≡ some old → is_completed old.status ≡ true → row ≡ old
  pub others : (j : String) → id ≢ j → after j ≡ before j

module _ (R : TaskRedis) (B : Backend R) where
  open R use {Db}
  open B use {tasks, get_task}

  set_row-Ended :
      (id : String) (status : TaskStatus) (row : TaskRow) (before after : Table)
      → is_completed status ≡ true
      → is_completed row.status ≡ false
      → before id ≡ some row
      → after ≡ set_row id (record row { status = status }) before
      → Ended id before after
  set_row-Ended id status row before after ends alive stored e = record {
    row = record row { status = status };
    stored = ap (λ t. t id) e ∙ ground (arith, str_eq_iff id id);
    ended = ends;
    kept = λ old f done. cc (some-injective (sym stored ∙ f));
    others = λ j ne. ap (λ t. t j) e ∙ ground (arith, str_eq_iff id j);
  }

  end_with-Ended :
      (id : String) (status : TaskStatus) (row : TaskRow) (d : Db) (before : Table)
      → is_completed status ≡ true
      → before id ≡ some row
      → tasks d ≡ before
      → Ensures (end_with R B id status row) d (λ _ d'. Ended id before (tasks d'))
  end_with-Ended id status row d before ends stored e =
      elim (Bool-cases (is_completed row.status)) [
        | inl done ↦ rw done (
            pure-Ensures tt (record {
              row = row;
              stored = ap (λ t. t id) e ∙ stored;
              ended = done;
              kept = λ old f g. some-injective (sym stored ∙ f);
              others = λ j ne. ap (λ t. t j) e;
            }))
        | inr alive ↦ rw alive (
            call-Ensures λ a f. set_row-Ended id status row before _ ends alive stored (
              (B.update_task-Writes id (record row { status = status }) d).0 a f
              ∙ ap (set_row id (record row { status = status })) e))
      ]

  endpoint_status-ends :
      (reason : TaskCancellationReason) → is_completed (endpoint_status reason) ≡ true
  endpoint_status-ends TaskCancellationReason.expired = refl
  endpoint_status-ends TaskCancellationReason.exceeded_retry_limit = refl
  endpoint_status-ends TaskCancellationReason.request_cancelled = refl
  endpoint_status-ends TaskCancellationReason.invalid_request_payload = refl

  task_queue_status-ends :
      (reason : TaskCancellationReason) → is_completed (task_queue_status reason) ≡ true
  task_queue_status-ends TaskCancellationReason.expired = refl
  task_queue_status-ends TaskCancellationReason.exceeded_retry_limit = refl
  task_queue_status-ends TaskCancellationReason.request_cancelled = refl
  task_queue_status-ends TaskCancellationReason.invalid_request_payload = refl

  complete-table : (k : TaskKey) (d : Db) → tasks (complete_deferred R B k d) ≡ tasks d
  unfolding complete_task delete_task_state
  complete-table k d = B.delete_all-table k d

  endpoint_cancel-Ended :
      (k : TaskKey) (reason : TaskCancellationReason) (d : Db)
      → Ensures (endpoint_cancel R B k reason) d (λ _ d'. Ended k.task_id (tasks d) (tasks d'))
  unfolding endpoint_cancel
  endpoint_cancel-Ended k reason d = >>=-Ensures (get_task k.task_id) _ λ row e.
      finally-Ensures (end_with R B k.task_id (endpoint_status reason) row)
        (complete_deferred R B k)
        (call-Ensures λ a f. subst (Ended k.task_id (tasks d)) (sym (complete-table k _)) (
          (end_with-Ended k.task_id (endpoint_status reason) row _ (tasks d)
              (endpoint_status-ends reason) (B.get_task-answer k.task_id d row e)
              (B.get_task-table k.task_id d)).holds
            a f))

  task_queue_cancel-Ended :
      (k : TaskKey) (reason : TaskCancellationReason) (d : Db)
      → Ensures (task_queue_cancel R B k reason) d (λ _ d'. Ended k.task_id (tasks d) (tasks d'))
  unfolding task_queue_cancel
  task_queue_cancel-Ended k reason d = >>=-Ensures (get_task k.task_id) _ λ row e.
      end_with-Ended k.task_id (task_queue_status reason) row _ (tasks d)
        (task_queue_status-ends reason) (B.get_task-answer k.task_id d row e)
        (B.get_task-table k.task_id d)

  abbrev IsLawful : TaskMessage → Task R → Type 0
  IsLawful msg t =
      IsTask msg t
      × ((reason : TaskCancellationReason) (d : Db)
          → (t.cancel reason d).0 ≡ ok tt
          → Ended msg.key.task_id (tasks d) (tasks (t.cancel reason d).1))

  made_by :
      (make : TaskMessage → Task R) (factory : TaskMessage → Result (Unit {0}) (Task R))
      (msg : TaskMessage) (t : Task R)
      → ((m : TaskMessage) → IsLawful m (make m))
      → some (λ m. ok (make m)) ≡ some factory
      → factory msg ≡ ok t
      → IsLawful msg t
  made_by make factory msg t h e f =
      subst (IsLawful msg) (ok-injective (ap (λ g. g msg) (some-injective e) ∙ f)) (h msg)

  endpoint_task-IsLawful : (msg : TaskMessage) → IsLawful msg (endpoint_task R B msg)
  endpoint_task-IsLawful msg = (
    endpoint_task-IsTask R B msg,
    λ reason d e. (endpoint_cancel-Ended msg.key reason d).holds tt e,
  )

  task_queue_task-IsLawful : (msg : TaskMessage) → IsLawful msg (task_queue_task R B msg)
  task_queue_task-IsLawful msg = (
    task_queue_task-IsTask R B msg,
    λ reason d e. (task_queue_cancel-Ended msg.key reason d).holds tt e,
  )

  -- The tasks that the factories of endpoints and task queues make keep to what the dispatcher
  -- assumes: they keep their message, `Retry` and `HeartBeat` change no task's keys, and `Cancel`
  -- none of another task and its own only by deleting them. A `Cancel` that succeeds leaves the task
  -- in the table with a completed status, the old row if it was completed before, and changes no
  -- other row.
  pub executors-lawful :
      (name : String) (factory : TaskMessage → Result (Unit {0}) (Task R)) (msg : TaskMessage)
      (t : Task R)
      → executors R B name ≡ some factory
      → factory msg ≡ ok t
      → IsTask msg t
        × ((reason : TaskCancellationReason) (d : Db)
            → (t.cancel reason d).0 ≡ ok tt
            → Ended msg.key.task_id (tasks d) (tasks (t.cancel reason d).1))
  unfolding executors
  executors-lawful name factory msg t e f = elim (Bool-cases (str_eq name "endpoint")) [
    | inl yes_endpoint ↦
        made_by (endpoint_task R B) factory msg t endpoint_task-IsLawful (rw yes_endpoint at e) f
    | inr other ↦ elim (Bool-cases (str_eq name "taskqueue")) [
      | inl yes_queue ↦
          made_by (task_queue_task R B) factory msg t task_queue_task-IsLawful
            (rw (other, yes_queue) at e) f
      | inr unknown ↦ cc
    ]
  ]

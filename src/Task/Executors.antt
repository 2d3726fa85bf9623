-- ===== src/Task/Executors.antt =====
-- The tasks of endpoints and task queues: pkg/abstractions/endpoint/task.go and
-- pkg/abstractions/taskqueue/task.go, without `Execute`. The table of tasks is in the database, and
-- heart beats and queues under keys of their own.
pub mod Kept
pub mod Lawful
use beta.Base.{
  ℕ, ◌≡◌, String, Bool, true, false, Option, none, some, Result, ok, err, str_eq, if◌then◌else◌,
}
use beta.Base.Io.{Io, ◌>>=◌, ◌>>◌, pure, finally, Writes}
use beta.Base.Keeps.{Keeps}
use beta.Task.Redis.{TaskRedis, TaskKey, TaskMessage, TaskError}
use beta.Task.Dispatcher.{Task, TaskCancellationReason, Executors, complete as complete_task}

pub data TaskStatus : Type 0 where
  pending running complete error cancelled expired timeout retry : TaskStatus
  other_task_status : String → TaskStatus

abbrev pub is_completed : TaskStatus → Bool
is_completed TaskStatus.complete = true
is_completed TaskStatus.cancelled = true
is_completed TaskStatus.error = true
is_completed TaskStatus.timeout = true
is_completed TaskStatus.expired = true
is_completed _ = false

-- The columns of a task that are read or changed here.
pub record TaskRow : Type 0 where
  pub status : TaskStatus
  pub container_id : String

abbrev pub Table : Type 0
Table = String → Option TaskRow

abbrev pub set_row : String → TaskRow → Table → Table
set_row id row t j = if str_eq id j then some row else t j

-- The database's table of tasks, and the other Redis keys of the two abstractions.
pub record Backend (R : TaskRedis) : Type 1 where
  pub tasks : R.Db → Table
  pub get_task : String → Io R.Db TaskError TaskRow
  pub update_task : String → TaskRow → Io R.Db TaskError (Unit {0})
  pub exists_endpoint_heartbeat : TaskKey → String → Io R.Db TaskError Bool
  pub exists_queue_heartbeat : TaskKey → Io R.Db TaskError Bool
  -- RPUSH of the encoded message, as it is when it is called.
  pub push : TaskKey → Io R.Db TaskError (Unit {0})
  pub get_or_create_queue_instance : String → Io R.Db TaskError (Unit {0})
  pub get_task-Keeps : (id : String) → Keeps R.view (get_task id)
  pub get_task-table : (id : String) → Keeps tasks (get_task id)
  pub get_task-answer :
      (id : String) (d : R.Db) (row : TaskRow) → (get_task id d).0 ≡ ok row → tasks d id ≡ some row
  pub update_task-Keeps : (id : String) (row : TaskRow) → Keeps R.view (update_task id row)
  pub update_task-Writes :
      (id : String) (row : TaskRow) → Writes tasks (update_task id row) (set_row id row)
  pub exists_endpoint_heartbeat-Keeps :
      (k : TaskKey) (container_id : String)
      → Keeps R.view (exists_endpoint_heartbeat k container_id)
  pub exists_queue_heartbeat-Keeps : (k : TaskKey) → Keeps R.view (exists_queue_heartbeat k)
  pub push-Keeps : (k : TaskKey) → Keeps R.view (push k)
  pub get_or_create_queue_instance-Keeps :
      (stub_id : String) → Keeps R.view (get_or_create_queue_instance stub_id)
  pub delete_all-table : (k : TaskKey) → Keeps tasks (R.delete_all k)

-- The status that a cancelled task gets.
abbrev pub endpoint_status : TaskCancellationReason → TaskStatus
endpoint_status TaskCancellationReason.expired = TaskStatus.timeout
endpoint_status TaskCancellationReason.exceeded_retry_limit = TaskStatus.error
endpoint_status TaskCancellationReason.request_cancelled = TaskStatus.cancelled
endpoint_status TaskCancellationReason.invalid_request_payload = TaskStatus.error

abbrev pub task_queue_status : TaskCancellationReason → TaskStatus
task_queue_status TaskCancellationReason.expired = TaskStatus.expired
task_queue_status _ = TaskStatus.error

module _ (R : TaskRedis) (B : Backend R) where
  open R use {Db}
  open B use {
    get_task, update_task, exists_endpoint_heartbeat, exists_queue_heartbeat, push,
    get_or_create_queue_instance,
  }

  abbrev pub set_status : String → TaskStatus → TaskRow → Io Db TaskError (Unit {0})
  set_status id status row = update_task id (record row { status = status })

  -- A task that has ended keeps its status.
  abbrev pub end_with : String → TaskStatus → TaskRow → Io Db TaskError (Unit {0})
  end_with id status row = if is_completed row.status then pure tt else set_status id status row

  abbrev pub complete_deferred : TaskKey → Db → Db
  complete_deferred k d = (complete_task R k d).1

  unfoldable pub endpoint_cancel : TaskKey → TaskCancellationReason → Io Db TaskError (Unit {0})
  endpoint_cancel k reason = get_task k.task_id >>= λ row.
      finally (end_with k.task_id (endpoint_status reason) row) (complete_deferred k)

  unfoldable pub endpoint_retry : TaskKey → Io Db TaskError (Unit {0})
  endpoint_retry k = get_task k.task_id >>= set_status k.task_id TaskStatus.error

  unfoldable pub endpoint_heart_beat : TaskKey → Io Db TaskError Bool
  endpoint_heart_beat k = get_task k.task_id >>= λ row. exists_endpoint_heartbeat k row.container_id

  unfoldable pub task_queue_cancel : TaskKey → TaskCancellationReason → Io Db TaskError (Unit {0})
  task_queue_cancel k reason = get_task k.task_id >>= end_with k.task_id (task_queue_status reason)

  unfoldable pub task_queue_retry : TaskKey → Io Db TaskError (Unit {0})
  task_queue_retry k =
      get_or_create_queue_instance k.stub_id
      >> ((get_task k.task_id >>= set_status k.task_id TaskStatus.retry) >> push k)

  unfoldable pub task_queue_heart_beat : TaskKey → Io Db TaskError Bool
  task_queue_heart_beat k = exists_queue_heartbeat k

  abbrev pub endpoint_task : TaskMessage → Task R
  endpoint_task msg = record {
    message = msg;
    cancel = endpoint_cancel msg.key;
    retry = endpoint_retry msg.key;
    heart_beat = endpoint_heart_beat msg.key;
  }

  abbrev pub task_queue_task : TaskMessage → Task R
  task_queue_task msg = record {
    message = msg;
    cancel = task_queue_cancel msg.key;
    retry = task_queue_retry msg.key;
    heart_beat = task_queue_heart_beat msg.key;
  }

  -- The two factories, registered under the names of their executors; they never fail.
  unfoldable pub executors : Executors R
  executors name =
      if str_eq name "endpoint"
      then some (λ msg. ok (endpoint_task msg))
      else if str_eq name "taskqueue"
      then some (λ msg. ok (task_queue_task msg))
      else none

-- ===== src/Examples/Executors.antt =====
-- The task store in memory with a table of tasks beside it.
use beta.Base.{◌≡◌, refl, Option, none, some, String, false, Result, ok, err, inr}
use beta.Base.Io.{Io, ok-injective}
use beta.Base.Int.{pos}
use beta.Task.Redis.{TaskRedis, TaskMessage, TaskError}
use beta.Task.Dispatcher.{Task, TaskCancellationReason, IsTask}
use beta.Task.Executors.{TaskRow, Table, set_row, Backend, executors, endpoint_task}
use beta.Task.Executors.Lawful.{Ended, executors-lawful}
use beta.Examples.Tasks.{Log, task_memory}

-- A command on the store leaves the table as it is.
abbrev beside : {D A : Type 0} → Io D TaskError A → Io (D × Table) TaskError A
beside m (d, t) = let (a, d') = m d in (a, (d', t))

abbrev tabled : TaskRedis → TaskRedis
tabled R = record {
  Db = R.Db × Table;
  view = λ d. R.view d.0;
  set_claim = λ k c. beside (R.set_claim k c);
  del_claim = λ k. beside (R.del_claim k);
  exists_claim = λ k. beside (R.exists_claim k);
  sadd_claim = λ k. beside (R.sadd_claim k);
  srem_claim = λ k. beside (R.srem_claim k);
  smembers_claims = λ ws stub. beside (R.smembers_claims ws stub);
  sadd_index = λ k. beside (R.sadd_index k);
  smembers_index = beside R.smembers_index;
  sadd_stub = λ k. beside (R.sadd_stub k);
  smembers_stub = λ ws stub. beside (R.smembers_stub ws stub);
  set_entry = λ k m. beside (R.set_entry k m);
  get_entry = λ k. beside (R.get_entry k);
  delete_all = λ k. beside (R.delete_all k);
  acquire = λ k. beside (R.acquire k);
  release = λ k (d, t). (R.release k d, t);
  set_claim-Writes = λ k c d. R.set_claim-Writes k c d.0;
  del_claim-Writes = λ k d. R.del_claim-Writes k d.0;
  exists_claim-Reads = λ k d. R.exists_claim-Reads k d.0;
  sadd_claim-Writes = λ k d. R.sadd_claim-Writes k d.0;
  srem_claim-Writes = λ k d. R.srem_claim-Writes k d.0;
  smembers_claims-Keeps = λ ws stub d. R.smembers_claims-Keeps ws stub d.0;
  sadd_index-Writes = λ k d. R.sadd_index-Writes k d.0;
  smembers_index-Keeps = λ d. R.smembers_index-Keeps d.0;
  smembers_index-members = λ d. R.smembers_index-members d.0;
  sadd_stub-Writes = λ k d. R.sadd_stub-Writes k d.0;
  smembers_stub-Keeps = λ ws stub d. R.smembers_stub-Keeps ws stub d.0;
  set_entry-Writes = λ k m d. R.set_entry-Writes k m d.0;
  get_entry-Reads = λ k d. R.get_entry-Reads k d.0;
  delete_all-Writes = λ k d. R.delete_all-Writes k d.0;
  delete_all-Removed = λ k d. R.delete_all-Removed k d.0;
  acquire-Reads = λ k d. R.acquire-Reads k d.0;
  release-view = λ k d. R.release-view k d.0;
}

abbrev memory : TaskRedis
memory = tabled task_memory

abbrev find_task : Option TaskRow → Result TaskError TaskRow
find_task none = err TaskError.not_found
find_task (some row) = ok row

find_task-≡ : (x : Option TaskRow) (row : TaskRow) → find_task x ≡ ok row → x ≡ some row
find_task-≡ none row h = cc h
find_task-≡ (some r) row h = cc (ok-injective h)

abbrev table : Log × Table → Table
table d = d.1

abbrev stays : {A : Type 0} → A → Io (Log × Table) TaskError A
stays a d = (ok a, d)

abbrev tables : Backend memory
tables = record {
  tasks = table;
  get_task = λ id d. (find_task (d.1 id), d);
  update_task = λ id row (l, t). (ok tt, (l, set_row id row t));
  exists_endpoint_heartbeat = λ k c. stays false;
  exists_queue_heartbeat = λ k. stays false;
  push = λ k. stays tt;
  get_or_create_queue_instance = λ s. stays tt;
  get_task-Keeps = λ id d. refl;
  get_task-table = λ id d. refl;
  get_task-answer = λ id d row e. find_task-≡ (d.1 id) row e;
  update_task-Keeps = λ id row d. refl;
  update_task-Writes = λ id row d. (λ a e. refl, inr refl);
  exists_endpoint_heartbeat-Keeps = λ k c d. refl;
  exists_queue_heartbeat-Keeps = λ k d. refl;
  push-Keeps = λ k d. refl;
  get_or_create_queue_instance-Keeps = λ s d. refl;
  delete_all-table = λ k d. refl;
}

abbrev message : TaskMessage
message = record {
  key = record { workspace_name = "ws"; stub_id = "s1"; task_id = "t1" };
  executor = "endpoint";
  policy = record { max_retries = 0; timeout = pos 180; expires = 1000; ttl = 0 };
  retries = 0;
  timestamp = 5;
}

abbrev endpoint_factory : TaskMessage → Result (Unit {0}) (Task memory)
endpoint_factory msg = ok (endpoint_task memory tables msg)

abbrev endpoint_name : String
endpoint_name = "endpoint"

executors-endpoint : executors memory tables endpoint_name ≡ some endpoint_factory
unfolding executors
executors-endpoint = refl

executors-lawful_example :
    IsTask message (endpoint_task memory tables message)
    × ((reason : TaskCancellationReason) (d : Log × Table)
        → ((endpoint_task memory tables message).cancel reason d).0 ≡ ok tt
        → Ended "t1" (table d) (table ((endpoint_task memory tables message).cancel reason d).1))
executors-lawful_example =
    executors-lawful memory tables endpoint_name endpoint_factory message
      (endpoint_task memory tables message) executors-endpoint refl

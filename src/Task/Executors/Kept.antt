-- ===== src/Task/Executors/Kept.antt =====
-- The tasks of endpoints and task queues keep to what the dispatcher assumes of a task.
use beta.Base.{◌≡◌, ◌≢◌, ◌∙◌, refl, sym, ap, subst, inl, inr, String, Result, ok, err, Bool-cases}
use beta.Base.Io.{Io, ◌>>=◌, continue, finally}
use beta.Base.Keeps.{Keeps, >>=-Keeps, >>-Keeps, pure-Keeps, finally-Keeps}
use beta.Task.Redis.{
  TaskRedis, TaskKey, TaskMessage, TaskError, TaskStore, Slot, change_slot, Removed, key_eq,
}
use beta.Task.Store.{delete_task_state}
use beta.Task.Dispatcher.{TaskCancellationReason, IsTask, complete as complete_task}
use beta.Task.Slots.{key_eq-≡, key_eq_refl}
use beta.Task.Executors.{
  TaskStatus, is_completed, TaskRow, Backend, endpoint_status, task_queue_status, set_status,
  end_with, complete_deferred, endpoint_cancel, endpoint_retry, endpoint_heart_beat,
  task_queue_cancel, task_queue_retry, task_queue_heart_beat, endpoint_task, task_queue_task,
}

same-Removed : (s s' : Slot) → s' ≡ s → Removed s s'
same-Removed s s' e = record {
  entry = inl (ap (λ (x : Slot). x.entry) e);
  claim = inl (ap (λ (x : Slot). x.claim) e);
  indexed = inl (ap (λ (x : Slot). x.indexed) e);
  stub_indexed = inl (ap (λ (x : Slot). x.stub_indexed) e);
  claim_indexed = inl (ap (λ (x : Slot). x.claim_indexed) e);
}

change_slot-other :
    (k j : TaskKey) (f : Slot → Slot) (v : TaskStore) → j ≢ k → change_slot k f v j ≡ v j
change_slot-other k j f v ne = elim (Bool-cases (key_eq k j)) [
  | inl same ↦ absurd (ne (sym (key_eq-≡ k j same)))
  | inr other ↦ rw other refl
]

change_slot_self : (k : TaskKey) (s : Slot) (v : TaskStore) → change_slot k (λ _. s) v k ≡ s
change_slot_self k s v = rw (key_eq_refl k) refl

module _ (R : TaskRedis) (B : Backend R) where
  open R use {Db, view}
  open B use {tasks, get_task, update_task}

  set_status-Keeps :
      (id : String) (status : TaskStatus) (row : TaskRow)
      → Keeps view (set_status R B id status row)
  set_status-Keeps id status row = B.update_task-Keeps id (record row { status = status })

  end_with-Keeps :
      (id : String) (status : TaskStatus) (row : TaskRow) → Keeps view (end_with R B id status row)
  end_with-Keeps id status row = elim (Bool-cases (is_completed row.status)) [
    | inl done ↦ rw done (pure-Keeps view _ _)
    | inr open_still ↦ rw open_still (set_status-Keeps id status row)
  ]

  -- Deleting the keys of one task leaves those of the others.
  complete-Keeps :
      (k j : TaskKey) → j ≢ k → (d : Db) → view (complete_deferred R B k d) j ≡ view d j
  unfolding complete_task delete_task_state
  complete-Keeps k j ne d =
      let (s, e, r) = R.delete_all-Removed k d in
      ap (λ v. v j) e ∙ change_slot-other k j (λ _. s) (view d) ne

  complete-Removed :
      (k : TaskKey) (d : Db) → Removed (view d k) (view (complete_deferred R B k d) k)
  unfolding complete_task delete_task_state
  complete-Removed k d =
      let (s, e, r) = R.delete_all-Removed k d in
      subst (Removed (view d k)) (sym (ap (λ v. v k) e ∙ change_slot_self k s (view d))) r

  endpoint_cancel-Keeps :
      (k : TaskKey) (reason : TaskCancellationReason) (j : TaskKey)
      → j ≢ k
      → Keeps (λ d. view d j) (endpoint_cancel R B k reason)
  unfolding endpoint_cancel
  endpoint_cancel-Keeps k reason j ne =
      >>=-Keeps (λ d. view d j) (get_task k.task_id) _
        (λ d. ap (λ v. v j) (B.get_task-Keeps k.task_id d))
        λ row.
          finally-Keeps (λ d. view d j) (end_with R B k.task_id (endpoint_status reason) row)
            (complete_deferred R B k)
            (λ d. ap (λ v. v j) (end_with-Keeps k.task_id (endpoint_status reason) row d))
            (complete-Keeps k j ne)

  continue-Removed :
      (k : TaskKey) (f : TaskRow → Io Db TaskError (Unit {0})) (x : Result TaskError TaskRow × Db)
      → ((row : TaskRow) (d : Db) → Removed (view d k) (view (f row d).1 k))
      → Removed (view x.1 k) (view (continue f x).1 k)
  continue-Removed k f (ok row, d) h = h row d
  continue-Removed k f (err e, d) h = same-Removed (view d k) (view d k) refl

  endpoint_cancel-Removed :
      (k : TaskKey) (reason : TaskCancellationReason) (d : Db)
      → Removed (view d k) (view (endpoint_cancel R B k reason d).1 k)
  unfolding endpoint_cancel ◌>>=◌ finally
  endpoint_cancel-Removed k reason d =
      subst (λ v. Removed (v k) (view (endpoint_cancel R B k reason d).1 k))
        (B.get_task-Keeps k.task_id d)
        (continue-Removed k _ (get_task k.task_id d) λ row d'.
          subst
            (λ v. Removed (v k) (
              view
                (complete_deferred R B k (end_with R B k.task_id (endpoint_status reason) row d').1)
                k))
            (end_with-Keeps k.task_id (endpoint_status reason) row d')
            (complete-Removed k (end_with R B k.task_id (endpoint_status reason) row d').1))

  task_queue_cancel-Keeps :
      (k : TaskKey) (reason : TaskCancellationReason) → Keeps view (task_queue_cancel R B k reason)
  unfolding task_queue_cancel
  task_queue_cancel-Keeps k reason =
      >>=-Keeps view (get_task k.task_id) _ (B.get_task-Keeps k.task_id)
        (end_with-Keeps k.task_id (task_queue_status reason))

  pub endpoint_task-IsTask : (msg : TaskMessage) → IsTask msg (endpoint_task R B msg)
  unfolding endpoint_retry endpoint_heart_beat
  endpoint_task-IsTask msg = record {
    same_message = refl;
    cancel-Keeps = λ reason j ne. endpoint_cancel-Keeps msg.key reason j ne;
    cancel-Removed = λ reason d. endpoint_cancel-Removed msg.key reason d;
    retry-Keeps =
        >>=-Keeps view (get_task msg.key.task_id) _ (B.get_task-Keeps msg.key.task_id)
          (set_status-Keeps msg.key.task_id TaskStatus.error);
    heart_beat-Keeps =
        >>=-Keeps view (get_task msg.key.task_id) _ (B.get_task-Keeps msg.key.task_id)
          λ row. B.exists_endpoint_heartbeat-Keeps msg.key row.container_id;
  }

  pub task_queue_task-IsTask : (msg : TaskMessage) → IsTask msg (task_queue_task R B msg)
  unfolding task_queue_retry task_queue_heart_beat
  task_queue_task-IsTask msg = record {
    same_message = refl;
    cancel-Keeps = λ reason j ne d. ap (λ v. v j) (task_queue_cancel-Keeps msg.key reason d);
    cancel-Removed = λ reason d.
        same-Removed (view d msg.key) _
          (ap (λ v. v msg.key) (task_queue_cancel-Keeps msg.key reason d));
    retry-Keeps = >>-Keeps view _ _ (B.get_or_create_queue_instance-Keeps msg.key.stub_id) (
        >>-Keeps view _ _
          (>>=-Keeps view (get_task msg.key.task_id) _ (B.get_task-Keeps msg.key.task_id)
            (set_status-Keeps msg.key.task_id TaskStatus.retry))
          (B.push-Keeps msg.key));
    heart_beat-Keeps = B.exists_queue_heartbeat-Keeps msg.key;
  }

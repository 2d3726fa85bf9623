-- ===== src/Examples/Running.antt =====
-- A request that enters the scheduler.
use beta.Base.{◌≡◌, refl, ok, some, none}
use beta.Base.Int.{pos, ◌+ℤ◌}
use beta.Base.Machine.{i64}
use beta.Base.Io.{◌>>=◌, ◌>>◌, pure, fail, lift, finally, attempt, relabel}
use beta.Repository.Container.{
  set_container_state, set_container_state_with_concurrency_limit, check_quota, pending_state,
  get_active_containers, list_container_state_by_index, list_one, total_gpu_count, total_cpu,
  get_container_state,
}
use beta.Scheduler.Backlog.{push_after, add_request_to_backlog}
use beta.Scheduler.Run.{Answers, get_concurrency_limit, prepared, run}
use beta.Scheduler.Run.Admission.{as_pushed, Ran, run-Ran}
use beta.Types.{requires_gpu}
use beta.Examples.Stores.{container_memory, answer_with, change_by}
use beta.Examples.Data.{cpu_request, containers, limit}
use beta.Examples.Containers.{reads_answer}

abbrev answers : Answers
answers = record {
  cached_limit = ok (some limit);
  backend_limit = ok limit;
  limit_cached = ok tt;
  latest_checkpoint = λ stub. ok none;
  push = λ r. ok tt;
}

run_succeeds :
    (run container_memory answers (pos 0) 1 90 (pos 20) cpu_request containers).0
    ≡ ok (push_after (pos 0) (as_pushed (prepared answers 90 cpu_request)))
unfolding answer_with change_by run get_concurrency_limit prepared add_request_to_backlog
    requires_gpu get_container_state set_container_state_with_concurrency_limit set_container_state
    check_quota get_active_containers list_container_state_by_index list_one total_gpu_count
    total_cpu pending_state i64 ◌+ℤ◌ ◌>>=◌ ◌>>◌ pure fail lift finally attempt relabel
run_succeeds = refl

run-Ran_example :
    Ran container_memory 90
      (pos 20)
      limit
      cpu_request
      containers
      (run container_memory answers (pos 0) 1 90 (pos 20) cpu_request containers).1
      (push_after (pos 0) (as_pushed (prepared answers 90 cpu_request)))
unfolding get_concurrency_limit
run-Ran_example =
    run-Ran container_memory reads_answer answers (pos 0) 1 90 (pos 20) limit cpu_request containers
      (push_after (pos 0) (as_pushed (prepared answers 90 cpu_request))) refl refl run_succeeds

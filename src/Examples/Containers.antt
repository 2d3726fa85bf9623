-- ===== src/Examples/Containers.antt =====
-- Admitting a container under a limit.
use beta.Base.{◌≡◌, refl, ok, some}
use beta.Base.Int.{pos, ◌+ℤ◌}
use beta.Base.Machine.{i64}
use beta.Base.Io.{◌>>=◌, ◌>>◌, pure, lift, finally, attempt}
use beta.Repository.Container.{
  set_container_state, set_container_state_with_concurrency_limit, check_quota, pending_state,
  get_active_containers, list_container_state_by_index, list_one, total_gpu_count, total_cpu,
}
use beta.Repository.Container.Listing.{ReadsAnswer}
use beta.Repository.Container.Quota.{Admitted, set_container_state_with_concurrency_limit-Admitted}
use beta.Examples.Stores.{container_memory, answer_with, change_by}
use beta.Examples.Data.{cpu_request, containers, limit}

pub reads_answer : ReadsAnswer container_memory
unfolding answer_with
reads_answer = record { exists_answers = λ k d. (_, refl); hgetall_answers = λ k d. (_, refl) }

admission_succeeds :
    (set_container_state_with_concurrency_limit container_memory
      (pos 20)
      (some limit)
      cpu_request
      containers).0
    ≡ ok tt
unfolding answer_with change_by set_container_state_with_concurrency_limit set_container_state
    check_quota get_active_containers list_container_state_by_index list_one total_gpu_count
    total_cpu pending_state i64 ◌+ℤ◌ ◌>>=◌ ◌>>◌ pure lift finally attempt
admission_succeeds = refl

set_container_state_with_concurrency_limit-Admitted_example :
    Admitted
      (pos 20)
      limit
      cpu_request
      containers
      (set_container_state_with_concurrency_limit container_memory
        (pos 20)
        (some limit)
        cpu_request
        containers).1
set_container_state_with_concurrency_limit-Admitted_example =
    set_container_state_with_concurrency_limit-Admitted container_memory reads_answer (pos 20) limit
      cpu_request containers admission_succeeds

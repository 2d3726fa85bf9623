-- ===== src/Examples/Lifecycle.antt =====
-- A worker that runs a container, and one whose lock is kept.
use beta.Base.{ℕ, ◌+◌, ◌≡◌, ◌↔◌, refl, inl, false, true, ok, some, [], ◌∷◌, lookup}
use beta.Base.Int.{ℤ, pos, negsuc}
use beta.Base.Machine.{i32}
use beta.Types.{ContainerRequest}
use beta.WorkerNode.Requests.{Setup, RunAnswers}
use beta.WorkerNode.Lifecycle.{
  exited, add_instance, handle_container_request, end_spawn, clear_container, stop_reason_of,
}
use beta.WorkerNode.Lifecycle.Steps.{
  Node, new_node, taking, next, ran, Reach, here, later, with_worker,
}
use beta.WorkerNode.Lifecycle.Blocked.{Blocked, handle_container_request-blocks}
use beta.WorkerNode.Lifecycle.Codes.{Succeeds, end_spawn-exit_code}
use beta.Examples.Data.{cpu_request}
use beta.Examples.Devices.{two_assigned}

abbrev setup : Setup
setup = record {
  capabilities = record { checkpoint_restore = true; gpu = true };
  is_clip_v2 = false;
  kind = λ s. s;
}

abbrev answers : RunAnswers
answers = record {
  mount = ok tt;
  set_worker_address = ok tt;
  pull_lazy = ok tt;
  cancelled_at_build = false;
  build_or_pull_base_image = λ r. ok tt;
  pull_again = ok tt;
  get_random_free_port = λ n. ok (n + 30000);
  spec_from_request = λ r ports. ok tt;
  set_container_address = λ p. ok tt;
  set_container_address_map = λ m. ok tt;
  cancelled_at_start = false;
}

abbrev request : ContainerRequest
request = record cpu_request { image_id = "i1" }

abbrev exposed : ContainerRequest
exposed = record request { ports = 8001 ∷ 2222 ∷ [] }

abbrev idle : Node
idle = new_node 3

abbrev busy : Node
busy =
    taking request idle
      (let w = add_instance exposed idle.worker in record w { running = exposed ∷ [] })

abbrev done : Node
done =
    with_worker busy
      (end_spawn (exited (pos 143) false) exposed (record busy.worker { running = [] }))

abbrev returning : Node
returning =
    with_worker done (clear_container exposed (pos 0) (record done.worker { clearing = [] }))

-- The weight is the memory.
abbrev memory_of : ContainerRequest → ℕ
memory_of r = magnitude r.memory
  where
    magnitude : ℤ → ℕ
    magnitude (pos n) = n
    magnitude (negsuc n) = 0

-- A container that holds a device.
abbrev serving : Node
serving = with_worker busy (record busy.worker { devices = two_assigned })

-- The request again, while its container runs.
abbrev blocked : Node
blocked = record (taking request serving (record serving.worker { container_lock = true })) {
  left_with_lock = request ∷ [];
}

blocked-next :
    next request serving (handle_container_request setup answers request serving.worker)
    ≡ some blocked
unfolding handle_container_request
blocked-next = refl

abbrev ended_unseen : Node
ended_unseen =
    with_worker blocked
      (end_spawn (exited (pos 143) false) exposed (record blocked.worker { running = [] }))

ended_unseen-Reach : Reach setup blocked ended_unseen
unfolding end_spawn
ended_unseen-Reach = later here (ran (exited (pos 143) false) exposed [] [] refl)

handle_container_request-blocks_example : Blocked request serving ended_unseen
handle_container_request-blocks_example =
    handle_container_request-blocks setup answers request serving blocked ended_unseen (inl refl)
      blocked-next ended_unseen-Reach

end_spawn-exit_code_example :
    (code : ℤ) × ((end_spawn (exited (pos 143) false) exposed busy.worker).exit_codes
      ≡ ("c1", i32 code) ∷ [])
    × ((end_spawn (exited (pos 143) false) exposed busy.worker).clearing ≡ (exposed, code) ∷ [])
    × ((code ≡ pos 0)
        ↔ Succeeds
            (exited (pos 143) false)
            (stop_reason_of (lookup exposed.container_id busy.worker.instances)))
end_spawn-exit_code_example = end_spawn-exit_code (exited (pos 143) false) exposed busy.worker

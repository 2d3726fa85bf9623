-- ===== src/WorkerNode/Lifecycle/Steps.antt =====
-- The steps that the goroutines of a worker take, each between two uses of the container lock or of
-- the channel of completed requests, which holds 1000 of them.
use beta.Base.{
  true, Result, Memᴰ, ◌&&◌, lookup, ℕ, ◌≡◌, ◌<◌, String, false, Option, none, some, List, [], ◌∷◌,
  ◌++◌, length,
}
use beta.Base.Int.{ℤ}
use beta.Types.{ContainerRequest, requires_gpu}
use beta.WorkerNode.Gpu.{assign_gpu_devices}
use beta.WorkerNode.Requests.{Setup, RunAnswers}
use beta.WorkerNode.Lifecycle.{
  StopReason, waiting, holding, ended, WorkerProcess, new_worker, AfterRequest, kept_lock,
  cleared_later, left, started, crashed, SpawnEnd, handle_container_request, end_spawn,
  clear_container, delete_container, stop_event,
}

abbrev pub channel_size : ℕ
channel_size = 1000

-- A worker, the requests that it has taken, and which of them were left with the container lock,
-- were builds that it gave up, and had their capacity returned to the repository.
pub record Node : Type 0 where
  pub worker : WorkerProcess
  pub taken : List ContainerRequest
  pub left_with_lock : List ContainerRequest
  pub given_up : List ContainerRequest
  pub returned : List ContainerRequest

abbrev pub new_node : ℕ → Node
new_node gpu_count = record {
  worker = new_worker gpu_count;
  taken = [];
  left_with_lock = [];
  given_up = [];
  returned = [];
}

abbrev pub with_worker : Node → WorkerProcess → Node
with_worker n w = record n { worker = w }

abbrev pub taking : ContainerRequest → Node → WorkerProcess → Node
taking r n w = record n { worker = w; taken = r ∷ n.taken }

-- A panic ends the worker.
abbrev pub next : ContainerRequest → Node → AfterRequest → Option Node
next r n (kept_lock w) = some (record (taking r n w) { left_with_lock = r ∷ n.left_with_lock })
next r n (cleared_later w) = some (taking r n w)
next r n (left w) = some (record (taking r n w) { given_up = r ∷ n.given_up })
next r n (started w) = some (taking r n w)
next r n crashed = none

pub data Step (cfg : Setup) (n : Node) : Node → Type 0 where
  handled :
      (a : RunAnswers) (r : ContainerRequest) (m : Node)
      → n.worker.container_lock ≡ false
      → next r n (handle_container_request cfg a r n.worker) ≡ some m
      → Step cfg n m
  ran :
      (e : SpawnEnd) (r : ContainerRequest) (before after : List ContainerRequest)
      → n.worker.running ≡ before ++ r ∷ after
      → Step cfg n (with_worker n (end_spawn e r (record n.worker { running = before ++ after })))
  -- `spawn` assigns devices once, so its container has none yet.
  assigned :
      (available : Result (Unit {0}) (List ℕ)) (r : ContainerRequest)
      → Memᴰ r n.worker.running
      → requires_gpu r && cfg.capabilities.gpu ≡ true
      → lookup r.container_id n.worker.devices.gpu_allocation_map ≡ none
      → Step cfg n (
          with_worker n (record n.worker {
            devices = (assign_gpu_devices available r.container_id r.gpu_count n.worker.devices).1;
          }))
  cleared :
      (r : ContainerRequest) (code : ℤ) (before after : List (ContainerRequest × ℤ))
      → n.worker.container_lock ≡ false
      → length n.worker.completed_requests < channel_size
      → n.worker.clearing ≡ before ++ (r, code) ∷ after
      → Step cfg n
          (with_worker n (clear_container r code (record n.worker { clearing = before ++ after })))
  deleted : (id : String) → Step cfg n (with_worker n (delete_container id n.worker))
  stopped :
      (id : String) (reason : StopReason)
      → n.worker.container_lock ≡ false
      → Step cfg n (with_worker n (stop_event id reason n.worker))
  received :
      (r : ContainerRequest) (rest : List ContainerRequest)
      → n.worker.capacity_loop ≡ waiting
      → n.worker.completed_requests ≡ r ∷ rest
      → Step cfg n
          (with_worker n (record n.worker { capacity_loop = holding r; completed_requests = rest }))
  added :
      (r : ContainerRequest)
      → n.worker.capacity_loop ≡ holding r
      → Step cfg n (record n {
        worker = record n.worker { capacity_loop = waiting };
        returned = r ∷ n.returned;
      })
  not_added :
      (r : ContainerRequest)
      → n.worker.capacity_loop ≡ holding r
      → length n.worker.completed_requests < channel_size
      → Step cfg n (
          with_worker n (record n.worker {
            capacity_loop = waiting;
            completed_requests = n.worker.completed_requests ++ r ∷ [];
          }))
  worker_not_found :
      (r : ContainerRequest)
      → n.worker.capacity_loop ≡ holding r
      → Step cfg n (with_worker n (record n.worker { capacity_loop = ended r }))

pub data Reach (cfg : Setup) (n : Node) : Node → Type 0 where
  here : Reach cfg n n
  later : {m l : Node} → Reach cfg n m → Step cfg m l → Reach cfg n l

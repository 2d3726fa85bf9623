-- ===== src/WorkerNode/Lifecycle/Balance.antt =====
-- Where the requests are that a worker has taken.
use beta.Base.{ℕ, ◌+◌, ◌≡◌, Bool, true, false, List, [], ◌∷◌, length}
use beta.Base.Int.{ℤ}
use beta.Types.{ContainerRequest}
use beta.WorkerNode.Lifecycle.{
  CapacityLoop, waiting, holding, ended, WorkerProcess, AfterRequest, kept_lock, cleared_later,
  left, started, crashed,
}
use beta.WorkerNode.Lifecycle.Kept.{as_taken}
use beta.WorkerNode.Lifecycle.Steps.{Node}

abbrev pub kept : Bool → ℕ
kept false = 0
kept true = 1

module _ (weight : ContainerRequest → ℕ) where
  -- The total of the weights of the requests, without the ports and the checkpoint.
  abbrev pub weighed : List ContainerRequest → ℕ
  weighed [] = 0
  weighed (r ∷ l) = weight (as_taken r) + weighed l

  abbrev pub weighed_clearing : List (ContainerRequest × ℤ) → ℕ
  weighed_clearing [] = 0
  weighed_clearing ((r, code) ∷ l) = weight (as_taken r) + weighed_clearing l

  abbrev pub held : CapacityLoop → ℕ
  held waiting = 0
  held (holding r) = weight (as_taken r)
  held (ended r) = weight (as_taken r)

  -- The requests that a worker has: containers that run or are being cleared, and requests whose
  -- capacity is to be returned.
  abbrev pub in_worker : WorkerProcess → ℕ
  in_worker w =
      weighed w.running
      + weighed_clearing w.clearing
      + weighed w.completed_requests
      + held w.capacity_loop

  -- A request that was handled is in the worker, is a build that was given up, or keeps the lock.
  abbrev Handles : ContainerRequest → WorkerProcess → AfterRequest → Type 0
  Handles r w (kept_lock w') = (in_worker w' ≡ in_worker w) × (w'.container_lock ≡ true)
  Handles r w (cleared_later w') =
      (in_worker w' ≡ weight (as_taken r) + in_worker w) × (w'.container_lock ≡ w.container_lock)
  Handles r w (left w') = (in_worker w' ≡ in_worker w) × (w'.container_lock ≡ w.container_lock)
  Handles r w (started w') =
      (in_worker w' ≡ weight (as_taken r) + in_worker w) × (w'.container_lock ≡ w.container_lock)
  Handles r w crashed = Unit {0}

  pub record IsBalanced (n : Node) : Type 0 where
    pub balance :
        weighed n.taken
        ≡ in_worker n.worker + weighed n.left_with_lock + weighed n.given_up + weighed n.returned
    pub lock : length n.left_with_lock ≡ kept n.worker.container_lock

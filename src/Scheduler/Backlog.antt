-- ===== src/Scheduler/Backlog.antt =====
-- `addRequestToBacklog` and `calculateBackoffDelay` of pkg/scheduler/scheduler.go: the retries of a
-- request. Durations are in nanoseconds.
pub mod Retries
pub mod Readded
use beta.Base.{
  ℕ, ◌+◌, ◌*◌, ◌^◌, Bool, ◌&&◌, Option, none, some, List, [], ◌∷◌, ltb, ◌==◌, if◌then◌else◌,
}
use beta.Base.Int.{ℤ, pos, ltb_ℤ, ◌*ℤ◌}
use beta.Base.Machine.{i64}
use beta.Types.{ContainerRequest, requires_gpu}

abbrev pub max_schedule_retry_count : ℕ
max_schedule_retry_count = 3

abbrev pub second : ℕ
second = 1000000000

abbrev pub max_schedule_retry_duration : ℕ
max_schedule_retry_duration = 600 * second

abbrev pub max_delay : ℤ
max_delay = pos (30 * second)

-- `time.Duration(math.Pow(2, n))`: Go leaves open what a float64 beyond int64 is converted to.
abbrev pub pow2_duration : ℤ → ℕ → ℤ
pow2_duration beyond n = if ltb n 63 then pos (2 ^ n) else beyond

unfoldable pub calculate_backoff_delay : ℤ → ℕ → ℤ
calculate_backoff_delay beyond retry_count =
    if retry_count == 0
    then pos 0
    else (let delay = i64 (pow2_duration beyond retry_count *ℤ pos second) in
        if ltb_ℤ max_delay delay then max_delay else delay)

-- What becomes of the request: it is pushed, after a delay, or given up, which deletes its
-- container's state and marks the request as failed.
pub data BacklogAction : Type 0 where
  push_after : ℤ → ContainerRequest → BacklogAction
  give_up : ContainerRequest → BacklogAction

abbrev pub with_gpu_count : ContainerRequest → ContainerRequest
with_gpu_count r = if requires_gpu r && r.gpu_count == 0 then record r { gpu_count = 1 } else r

abbrev pub retried : ContainerRequest → ContainerRequest
retried r = record r { retry_count = r.retry_count + 1 }

-- `elapsed` is `time.Since(request.Timestamp)`.
unfoldable pub add_request_to_backlog : ℤ → ℕ → ContainerRequest → BacklogAction
unfolding calculate_backoff_delay
add_request_to_backlog beyond elapsed request =
    let r = with_gpu_count request in
    if r.retry_count == 0
    then push_after (pos 0) (retried r)
    else if ltb r.retry_count max_schedule_retry_count && ltb elapsed max_schedule_retry_duration
    then push_after (calculate_backoff_delay beyond r.retry_count) (retried r)
    else give_up r

-- A request that is added again and again: `elapsed` at each addition. The delays of the pushes, and
-- the request then; `none` once it is given up.
abbrev pub after_delay : ℤ → Option (List ℤ × ContainerRequest) → Option (List ℤ × ContainerRequest)
after_delay delay none = none
after_delay delay (some (delays, r)) = some (delay ∷ delays, r)

abbrev pub continue_with :
    (ContainerRequest → Option (List ℤ × ContainerRequest))
    → BacklogAction
    → Option (List ℤ × ContainerRequest)
continue_with f (push_after delay r) = after_delay delay (f r)
continue_with f (give_up r) = none

unfoldable pub added_again : ℤ → List ℕ → ContainerRequest → Option (List ℤ × ContainerRequest)
added_again beyond [] r = some ([], r)
added_again beyond (t ∷ ts) r =
    continue_with (added_again beyond ts) (add_request_to_backlog beyond t r)

-- ===== src/Scheduler/Run.antt =====
-- `Run` and `getConcurrencyLimit` of pkg/scheduler/scheduler.go: how a request enters the scheduler.
-- The database, the workspace cache and the backlog are given by what they answer.
pub mod Admission
use beta.Base.{
  ℕ, String, Bool, true, false, ◌&&◌, Option, none, some, Result, ok, err, ◌==◌, if◌then◌else◌,
}
use beta.Base.Int.{ℤ}
use beta.Base.Io.{Io, ◌>>=◌, ◌>>◌, pure, fail, lift, attempt, relabel}
use beta.Types.Related.{Checkpoint, ConcurrencyLimit}
use beta.Types.{ContainerRequest, ContainerState}
use beta.Repository.Container.Redis.{ContainerRedis, ContainerError}
use beta.Repository.Container.{
  is_active_status, get_container_state, set_container_state_with_concurrency_limit,
}
use beta.Scheduler.Backlog.{BacklogAction, add_request_to_backlog}

pub data RunError : Type 0 where
  already_scheduled limit_unknown push_failed : RunError
  repository_error : ContainerError → RunError

pub data BackendError : Type 0 where
  no_rows other_backend_error : BackendError

-- What the services answer while a request is run.
pub record Answers : Type 0 where
  pub cached_limit : Result (Unit {0}) (Option ConcurrencyLimit)
  pub backend_limit : Result BackendError ConcurrencyLimit
  pub limit_cached : Result (Unit {0}) (Unit {0})
  pub latest_checkpoint : String → Result (Unit {0}) (Option Checkpoint)
  pub push : ContainerRequest → Result (Unit {0}) (Unit {0})

abbrev pub cache_limit :
    Result (Unit {0}) (Unit {0}) → ConcurrencyLimit → Result (Unit {0}) (Option ConcurrencyLimit)
cache_limit (err e) quota = err e
cache_limit (ok u) quota = ok (some quota)

abbrev pub from_backend :
    Answers → Result BackendError ConcurrencyLimit → Result (Unit {0}) (Option ConcurrencyLimit)
from_backend a (err no_rows) = ok none
from_backend a (err other_backend_error) = err tt
from_backend a (ok quota) = cache_limit a.limit_cached quota

abbrev pub from_cache :
    Answers
    → Result (Unit {0}) (Option ConcurrencyLimit)
    → Result (Unit {0}) (Option ConcurrencyLimit)
from_cache a (err e) = err e
from_cache a (ok none) = from_backend a a.backend_limit
from_cache a (ok (some quota)) = ok (some quota)

unfoldable pub get_concurrency_limit : Answers → Result (Unit {0}) (Option ConcurrencyLimit)
get_concurrency_limit a = from_cache a a.cached_limit

abbrev pub keep_checkpoint :
    Result (Unit {0}) (Option Checkpoint) → ContainerRequest → ContainerRequest
keep_checkpoint (ok (some c)) r = record r { checkpoint = some c }
keep_checkpoint (ok none) r = r
keep_checkpoint (err e) r = r

abbrev pub has_checkpoint : Option Checkpoint → Bool
has_checkpoint none = false
has_checkpoint (some c) = true

abbrev pub with_checkpoint : Answers → ContainerRequest → ContainerRequest
with_checkpoint a r =
    if r.checkpoint_enabled && (if has_checkpoint r.checkpoint then false else true)
    then keep_checkpoint (a.latest_checkpoint r.stub_id) r
    else r

-- The request with its timestamp and checkpoint.
unfoldable pub prepared : Answers → ℕ → ContainerRequest → ContainerRequest
prepared a now r = with_checkpoint a (record r { timestamp = now })

-- The first push is awaited and its error returned; a later one runs in the background.
abbrev pub pushed : Answers → ℕ → BacklogAction → Result RunError BacklogAction
pushed a retry_count (BacklogAction.push_after delay r) =
    if retry_count == 0
    then (elim (a.push r) [
      | ok u ↦ ok (BacklogAction.push_after delay r)
      | err e ↦ err push_failed
    ])
    else ok (BacklogAction.push_after delay r)
pushed a retry_count (BacklogAction.give_up r) = ok (BacklogAction.give_up r)

abbrev pub limit_of :
    Result (Unit {0}) (Option ConcurrencyLimit) → Result RunError (Option ConcurrencyLimit)
limit_of (err e) = err limit_unknown
limit_of (ok quota) = ok quota

abbrev pub is_active : Option ContainerState → Bool
is_active none = false
is_active (some c) = is_active_status c.status

module _ (R : ContainerRedis) (a : Answers) where
  open R use {Db}

  abbrev admit_and_push : ℤ → ℕ → ℤ → ContainerRequest → Io Db RunError BacklogAction
  admit_and_push beyond elapsed now_s r = lift (limit_of (get_concurrency_limit a)) >>= λ quota.
      relabel repository_error (set_container_state_with_concurrency_limit R now_s quota r)
      >> lift (pushed a r.retry_count (add_request_to_backlog beyond elapsed r))

  -- `now` is the time in nanoseconds, `now_s` in seconds when the state is written, and `elapsed` the
  -- time that has passed when the request is added to the backlog.
  unfoldable pub run : ℤ → ℕ → ℕ → ℤ → ContainerRequest → Io Db RunError BacklogAction
  unfolding get_concurrency_limit prepared
  run beyond elapsed now now_s r =
      attempt (relabel repository_error (get_container_state R r.container_id)) >>= λ found.
      if is_active found
      then fail already_scheduled
      else admit_and_push beyond elapsed now_s (prepared a now r)

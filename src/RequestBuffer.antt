-- ===== src/RequestBuffer.antt =====
-- pkg/abstractions/endpoint/buffer.go: the tokens that bound the requests which a container of an
-- endpoint serves at a time, and the hand-over of a request to a container. The workspace and the
-- stub of the buffer, which every key names, are fixed.
pub mod Buckets
pub mod Tokens
pub mod InFlight
pub mod Stuck
use beta.Base.{
  ℕ, ◌+◌, ◌≡◌, String, Bool, true, false, Option, none, some, List, [], ◌∷◌, ltb, if◌then◌else◌,
  ◌&&◌, str_eq, ok,
}
use beta.Base.Int.{ℤ, pos, negsuc, ltb_ℤ, ◌+ℤ◌}
use beta.Base.Io.{Io, Updates, ◌>>=◌, ◌>>◌, pure, fail, attempt}
use beta.Base.Keeps.{Keeps}

-- The token counter of a container; the second field tells whether the key has a time to live.
pub record Bucket : Type 0 where
  pub tokens : ℤ
  pub expires : Bool

abbrev pub TokenStore : Type 0
TokenStore = String → Option Bucket

abbrev pub change_bucket : String → (Option Bucket → Option Bucket) → TokenStore → TokenStore
change_bucket c f s k = if str_eq c k then f (s k) else s k

abbrev pub count_of : Option Bucket → Option ℤ
count_of none = none
count_of (some b) = some b.tokens

-- INCR and DECR create the key, with no time to live, and keep the one that it has.
abbrev pub added : ℤ → Option Bucket → Option Bucket
added x none = some (record { tokens = x; expires = false })
added x (some b) = some (record b { tokens = b.tokens +ℤ x })

abbrev pub count_or_zero : Option Bucket → ℤ
count_or_zero none = pos 0
count_or_zero (some b) = b.tokens

abbrev pub is_absent : Option Bucket → Bool
is_absent none = true
is_absent (some b) = false

abbrev pub created : ℤ → Option Bucket → Option Bucket
created x none = some (record { tokens = x; expires = false })
created x (some b) = some b

-- EXPIRE of an absent key does nothing; one with no time left deletes the key.
abbrev pub expiring : ℤ → Option Bucket → Option Bucket
expiring seconds none = none
expiring seconds (some b) =
    if ltb_ℤ (pos 0) seconds then some (record b { expires = true }) else none

pub data TokenError : Type 0 where
  redis_failed no_tokens too_many_in_flight : TokenError

pub record TokenRedis : Type 1 where
  pub Db : Type 0
  pub view : Db → TokenStore
  pub get : String → Io Db TokenError (Option ℤ)
  pub set_nx : String → ℤ → Io Db TokenError Bool
  pub decr : String → Io Db TokenError ℤ
  pub incr : String → Io Db TokenError (Unit {0})
  pub expire : String → ℤ → Io Db TokenError (Unit {0})
  pub del_heartbeat : String → String → Io Db TokenError (Unit {0})
  pub set_keep_warm : String → ℕ → Io Db TokenError (Unit {0})
  pub get-Updates : (c : String) → Updates view (get c) (λ s. s) (λ s. count_of (s c))
  pub set_nx-Updates :
      (c : String) (x : ℤ)
      → Updates view (set_nx c x) (change_bucket c (created x)) (λ s. is_absent (s c))
  pub decr-Updates :
      (c : String)
      → Updates view
          (decr c)
          (change_bucket c (added (negsuc 0)))
          (λ s. count_or_zero (s c) +ℤ negsuc 0)
  pub incr-Updates :
      (c : String) → Updates view (incr c) (change_bucket c (added (pos 1))) (λ s. tt)
  pub expire-Updates :
      (c : String) (seconds : ℤ)
      → Updates view (expire c seconds) (change_bucket c (expiring seconds)) (λ s. tt)
  pub del_heartbeat-Keeps : (task_id c : String) → Keeps view (del_heartbeat task_id c)
  pub set_keep_warm-Keeps : (c : String) (seconds : ℕ) → Keeps view (set_keep_warm c seconds)

-- What the buffer reads of its stub's configuration.
pub record StubConfig : Type 0 where
  pub workers : ℕ  -- uint
  pub concurrent_requests : ℕ  -- uint
  pub is_asgi : Bool
  pub timeout : ℤ  -- the task policy's, in seconds
  pub keep_warm_seconds : ℕ  -- uint

-- The floor of an ASGI endpoint is its number of workers.
unfoldable pub max_tokens : StubConfig → ℕ
max_tokens config =
    if ltb 1 config.concurrent_requests && config.is_asgi
    then (if ltb config.workers config.concurrent_requests
        then config.concurrent_requests
        else config.workers)
    else config.workers

module _ (R : TokenRedis) (config : StubConfig) where
  open R use {Db, get, set_nx, decr, incr, expire, del_heartbeat, set_keep_warm}

  abbrev pub counted : Option ℤ → Io Db TokenError ℤ
  counted none = fail no_tokens
  counted (some tokens) = pure tokens

  abbrev pub after_set_nx : String → Bool → Io Db TokenError ℤ
  after_set_nx c true = pure (pos (max_tokens config))
  after_set_nx c false = get c >>= counted

  abbrev pub or_set : String → Option ℤ → Io Db TokenError ℤ
  or_set c none = set_nx c (pos (max_tokens config)) >>= after_set_nx c
  or_set c (some val) = pure val

  unfoldable pub request_tokens : String → Io Db TokenError ℤ
  request_tokens c = get c >>= or_set c

  -- What follows the DECR: a count below zero is taken back.
  unfoldable pub settle : String → ℤ → Io Db TokenError (Unit {0})
  settle c token_count =
      if ltb_ℤ token_count (pos 0)
      then (attempt (incr c) >>= λ _. fail too_many_in_flight)
      else expire c config.timeout

  unfoldable pub acquire_request_token : String → Io Db TokenError (Unit {0})
  acquire_request_token c = decr c >>= settle c

  -- What follows the INCR of a release.
  unfoldable pub after_incr : String → String → Io Db TokenError (Unit {0})
  after_incr c task_id = expire c config.timeout >> del_heartbeat task_id c

  unfoldable pub release_request_token : String → String → Io Db TokenError (Unit {0})
  release_request_token c task_id = incr c >> after_incr c task_id

  abbrev pub keep_warm : String → Io Db TokenError (Unit {0})
  keep_warm c =
      if ltb 0 config.keep_warm_seconds
      then (attempt (set_keep_warm c config.keep_warm_seconds) >>= λ _. pure tt)
      else pure tt

  -- The release is deferred: it comes after the keep-warm lock, and its error is dropped.
  unfoldable pub after_request : String → String → Io Db TokenError (Unit {0})
  after_request c task_id =
      keep_warm c >> (attempt (release_request_token c task_id) >>= λ _. pure tt)

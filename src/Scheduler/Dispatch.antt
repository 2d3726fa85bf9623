-- ===== src/Scheduler/Dispatch.antt =====
-- `scheduleRequest`, `attachImageCredentials` and `attachBuildRegistryCredentials` of
-- pkg/scheduler/scheduler.go, `Stop`, and pkg/scheduler/backlog.go. The keys of the two repositories
-- and of the backlog in Redis are disjoint, so each part has a state of its own here.
use beta.Base.{
  ℕ, ◌≤◌, String, Bool, true, false, ◌||◌, ◌≡◌, ◌⊎◌, Option, none, some, List, [], ◌∷◌, Result, ok,
  err, All, Memᴰ, Permᴰ, str_eq, non_empty, if◌then◌else◌, length,
}
use beta.Base.Int.{ℤ}
use beta.Base.Io.{Io, Reads, ◌>>◌, lift, relabel}
use beta.Types.{Worker, ContainerRequest, stopping}
use beta.Repository.Worker.Redis.{WorkerRedis, RepoError}
use beta.Repository.Worker.{schedule_container_request}
use beta.Repository.Container.Redis.{ContainerRedis, ContainerError}
use beta.Repository.Container.{
  update_assigned_container_gpu, update_container_status, ttl_while_pending,
}

-- The lowest score first.
abbrev pub Ascending : (ContainerRequest → ℕ) → List ContainerRequest → Type 0
Ascending score [] = Unit {0}
Ascending score (r ∷ l) = All (λ (q : ContainerRequest). score r ≤ score q) l × Ascending score l

-- The sorted set of the backlog; the encoding of a request is part of the commands. The score is
-- the timestamp as a float64, which keeps the order but may make two timestamps equal; `float64`
-- gives the place of the converted number among all. ZADD of a member that is there keeps one copy;
-- ZPOPMIN takes the first.
pub record BacklogRedis : Type 1 where
  pub Db : Type 0
  pub view : Db → List ContainerRequest
  pub zadd : ContainerRequest → Io Db (Unit {0}) (Unit {0})
  pub zpopmin : Io Db (Unit {0}) (Option ContainerRequest)
  pub zcard : Io Db (Unit {0}) ℕ
  pub float64 : ℕ → ℕ
  pub float64-≤ : (m n : ℕ) → m ≤ n → float64 m ≤ float64 n
  pub view-Ascending : (d : Db) → Ascending (λ r. float64 r.timestamp) (view d)
  pub zadd-adds :
      (r : ContainerRequest) (d : Db)
      → (zadd r d).0 ≡ ok tt
      → Memᴰ r (view d) × (view (zadd r d).1 ≡ view d) ⊎ Permᴰ (view (zadd r d).1) (r ∷ view d)
  pub zpopmin-first :
      (r : ContainerRequest) (d : Db)
      → (zpopmin d).0 ≡ ok (some r)
      → view d ≡ r ∷ view (zpopmin d).1
  pub zpopmin-none :
      (d : Db) → (zpopmin d).0 ≡ ok none → (view d ≡ []) × (view (zpopmin d).1 ≡ view d)
  pub zcard-Reads : Reads view zcard length

-- What the database, the configuration and the registry answer about credentials;
-- `has_build_prefix` and `has_local_prefix` are the two uses of `strings.HasPrefix`.
pub record Credentials : Type 0 where
  pub has_build_prefix : String → Bool
  pub image_secret_name : String → Result (Unit {0}) String
  pub secret_value : String → Result (Unit {0}) String
  pub build_registry : String
  pub has_local_prefix : Bool
  pub registry_configured : Bool
  pub registry_token : Result (Unit {0}) String

abbrev pub keep_secret :
    Result (Unit {0}) String → ContainerRequest → Result (Unit {0}) (Unit {0}) × ContainerRequest
keep_secret (err e) r = (err e, r)
keep_secret (ok value) r = (ok tt, record r { image_credentials = value })

abbrev pub find_secret :
    Credentials
    → Result (Unit {0}) String
    → ContainerRequest
    → Result (Unit {0}) (Unit {0}) × ContainerRequest
find_secret c (err e) r = (err e, r)
find_secret c (ok name) r =
    if non_empty name then keep_secret (c.secret_value name) r else (ok tt, r)

unfoldable pub attach_image_credentials :
    Credentials → ContainerRequest → Result (Unit {0}) (Unit {0}) × ContainerRequest
attach_image_credentials c r =
    if non_empty r.image_id
    then (if c.has_build_prefix r.container_id
        then (ok tt, r)
        else find_secret c (c.image_secret_name r.image_id) r)
    else (ok tt, r)

abbrev pub keep_token : Result (Unit {0}) String → ContainerRequest → ContainerRequest
keep_token (err e) r = r
keep_token (ok token) r =
    if non_empty token then record r { build_registry_credentials = token } else r

unfoldable pub attach_build_registry_credentials : Credentials → ContainerRequest → ContainerRequest
attach_build_registry_credentials c r =
    if str_eq c.build_registry "" || str_eq c.build_registry "localhost" || c.has_local_prefix
    then r
    else if c.registry_configured
    then keep_token c.registry_token r
    else r

-- The request as it is handed to the worker.
unfoldable pub prepared_for : Credentials → Worker → ContainerRequest → ContainerRequest
unfolding attach_image_credentials attach_build_registry_credentials
prepared_for c w r =
    attach_build_registry_credentials c (attach_image_credentials c (record r { gpu = w.gpu })).1

pub record Services : Type 1 where
  pub containers : ContainerRedis
  pub workers : WorkerRedis
  pub backlog : BacklogRedis
  pub credentials : Credentials

pub record State (S : Services) : Type 0 where
  pub container_db : S.containers.Db
  pub worker_db : S.workers.Db
  pub backlog_db : S.backlog.Db

abbrev pub succeeded : Result RepoError (Unit {0}) → Bool
succeeded (ok u) = true
succeeded (err e) = false

module _ (S : Services) where
  -- The request is changed in place, also where the worker repository refuses it.
  abbrev pub hand_over :
      Worker
      → ContainerRequest
      → State S
      → Result ContainerError (Unit {0})
      → Bool × ContainerRequest × State S
  hand_over w r st (err e) = (false, r, st)
  hand_over w r st (ok u) =
      let r' = prepared_for S.credentials w r in
      let (answer, db) = schedule_container_request S.workers w r' st.worker_db in
      (succeeded answer, r', record st { worker_db = db })

  -- Whether it succeeded, the request as it is then, and the new state.
  unfoldable pub schedule_request :
      Worker → ContainerRequest → State S → Bool × ContainerRequest × State S
  unfolding prepared_for
  schedule_request w r st =
      let (answer, db) =
        update_assigned_container_gpu S.containers r.container_id w.gpu st.container_db in
      hand_over w r (record st { container_db = db }) answer

pub data StopError : Type 0 where
  not_updated : ContainerError → StopError
  bad_arguments not_sent : StopError

abbrev pub send_stop :
    Result (Unit {0}) (Unit {0}) → Result (Unit {0}) (Unit {0}) → Result StopError (Unit {0})
send_stop (err e) sent = err bad_arguments
send_stop (ok u) (err e) = err not_sent
send_stop (ok u) (ok v) = ok tt

-- `arguments` is what `ToMap` answered, and `sent` what the event bus did.
unfoldable pub stop :
    (R : ContainerRedis)
    → ℤ
    → String
    → Result (Unit {0}) (Unit {0})
    → Result (Unit {0}) (Unit {0})
    → Io R.Db StopError (Unit {0})
stop R now id arguments sent =
    relabel not_updated (update_container_status R now id stopping ttl_while_pending)
    >> lift (send_stop arguments sent)

-- ===== src/WorkerNode/Requests.antt =====
-- What a worker does with the requests that it takes: pkg/worker/worker.go and
-- pkg/worker/lifecycle.go. The runtime, the images, the storage and the answers of the repositories
-- are parameters.
use beta.Base.{
  ℕ, suc, String, Bool, false, not, ◌&&◌, Option, none, some, List, [], ◌∷◌, ◌++◌, Result, ok, err,
  ◌>>=◌, str_eq, if◌then◌else◌,
}
use beta.Base.Int.{ℤ}
use beta.Types.{ContainerRequest, requires_gpu}
use beta.Types.Related.{Checkpoint}
use beta.Wire.{is_build_request}

-- An `ExitCodeError`, or any other error.
pub data ContainerError : Type 0 where
  exit_code_error : ℤ → ContainerError
  run_failed : ContainerError

pub record Capabilities : Type 0 where
  pub checkpoint_restore : Bool
  pub gpu : Bool

-- The runtime and the settings of a worker. `kind` is the text before the first '/'.
pub record Setup : Type 0 where
  pub capabilities : Capabilities
  pub is_clip_v2 : Bool
  pub kind : String → String

-- What is answered while one request is handled; the ports are those of the calls in their order.
pub record RunAnswers : Type 0 where
  pub mount : Result ContainerError (Unit {0})
  pub set_worker_address : Result ContainerError (Unit {0})
  pub pull_lazy : Result ContainerError (Unit {0})
  pub cancelled_at_build : Bool
  pub build_or_pull_base_image : ContainerRequest → Result ContainerError (Unit {0})
  pub pull_again : Result ContainerError (Unit {0})
  pub get_random_free_port : ℕ → Result ContainerError ℕ
  pub spec_from_request : ContainerRequest → List ℕ → Result ContainerError (Unit {0})
  pub set_container_address : ℕ → Result ContainerError (Unit {0})
  pub set_container_address_map : List (ℕ × ℕ) → Result ContainerError (Unit {0})
  pub cancelled_at_start : Bool

-- How `RunContainer` ends: before or after it has stored the instance, and with the request as it
-- has changed it. `abandoned` is a build whose context is cancelled.
pub data RunOutcome : Type 0 where
  refused failed : ContainerError → ContainerRequest → RunOutcome
  abandoned built spawned : ContainerRequest → RunOutcome
  panicked : RunOutcome

abbrev pub or_failed :
    {A : Type 0} → ContainerRequest → Result ContainerError A → (A → RunOutcome) → RunOutcome
or_failed r (ok a) f = f a
or_failed r (err e) f = failed e r

abbrev pub inner_port : ℕ
inner_port = 8001

abbrev pub shell_port : ℕ
shell_port = 2222

abbrev pub process_manager_port : ℕ
process_manager_port = 7111

abbrev pub requested_ports : List ℕ → List ℕ
requested_ports [] = inner_port ∷ []
requested_ports (p ∷ ps) = p ∷ ps

abbrev pub checkpoint_ports : Option Checkpoint → List ℕ → List ℕ
checkpoint_ports none ports = ports
checkpoint_ports (some c) ports = c.exposed_ports

abbrev pub is_sandbox : Setup → ContainerRequest → Bool
is_sandbox cfg r = str_eq (cfg.kind r.stub.stub.type) "sandbox"

-- The ports that a request exposes.
abbrev pub with_ports : Setup → ContainerRequest → ContainerRequest
with_ports cfg r = record r {
  ports = checkpoint_ports r.checkpoint (
      requested_ports r.ports
      ++ shell_port ∷ (if is_sandbox cfg r then process_manager_port ∷ [] else []));
}

-- A port for each port that is exposed; `n` is the number of calls before.
abbrev pub acquire_ports :
    (ℕ → Result ContainerError ℕ) → List ℕ → ℕ → Result ContainerError (List ℕ)
acquire_ports free [] n = ok []
acquire_ports free (p ∷ ps) n =
    free n >>= λ bind_port. acquire_ports free ps (suc n) >>= λ rest. ok (bind_port ∷ rest)

-- The pairs of exposed and bound ports; indexing past the bound ports panics.
abbrev pub address_map : List ℕ → List ℕ → Option (List (ℕ × ℕ))
address_map [] bind_ports = some []
address_map (p ∷ ps) [] = none
address_map (p ∷ ps) (b ∷ bs) = elim (address_map ps bs) [
  | none ↦ none
  | some rest ↦ some ((p, b) ∷ rest)
]

abbrev pub set_addresses : RunAnswers → ContainerRequest → Option (List (ℕ × ℕ)) → RunOutcome
set_addresses a r none = panicked
set_addresses a r (some addresses) =
    or_failed r (a.set_container_address_map addresses)
      λ _. if a.cancelled_at_start then failed run_failed r else spawned r

-- `bindPorts[0]` of an empty slice panics.
abbrev pub start : RunAnswers → ContainerRequest → List ℕ → RunOutcome
start a r [] = panicked
start a r (b ∷ bs) = or_failed r (a.spec_from_request r (b ∷ bs)) λ _.
    or_failed r (a.set_container_address b) λ _. set_addresses a r (address_map r.ports (b ∷ bs))

abbrev pub expose : RunAnswers → ContainerRequest → RunOutcome
expose a r =
    or_failed r (acquire_ports a.get_random_free_port r.ports 0)
      λ bind_ports. if str_eq r.image_id "" then failed run_failed r else start a r bind_ports

abbrev pub with_image : Setup → RunAnswers → ContainerRequest → RunOutcome
with_image cfg a r =
    if is_build_request r && cfg.is_clip_v2 then built r else expose a (with_ports cfg r)

abbrev pub build_image : Setup → RunAnswers → ContainerRequest → ContainerError → RunOutcome
build_image cfg a r e =
    if not (is_build_request r)
    then failed e r
    else if a.cancelled_at_build
    then abandoned r
    else or_failed r (a.build_or_pull_base_image r)
        λ _. or_failed r a.pull_again λ _. with_image cfg a r

abbrev pub load_image :
    Setup → RunAnswers → ContainerRequest → Result ContainerError (Unit {0}) → RunOutcome
load_image cfg a r (ok _) = with_image cfg a r
load_image cfg a r (err e) = build_image cfg a r e

abbrev pub gated : Setup → ContainerRequest → ContainerRequest
gated cfg r =
    if r.checkpoint_enabled && not cfg.capabilities.checkpoint_restore
    then record r { checkpoint_enabled = false; checkpoint = none }
    else r

unfoldable pub run_container : Setup → RunAnswers → ContainerRequest → RunOutcome
run_container cfg a request =
    let r = gated cfg request in
    if requires_gpu r && not cfg.capabilities.gpu
    then refused run_failed r
    else or_failed r a.set_worker_address λ _. load_image cfg a r a.pull_lazy

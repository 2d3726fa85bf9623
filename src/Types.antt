-- ===== src/Types.antt =====
-- The data of pkg/types/scheduler.go and pkg/types/gpu.go that the scheduler reads and writes.
-- A string type with named constants is a data type with one more constructor for any other text.
pub mod Related
use beta.Base.{
  ℕ, ◌+◌, String, Bool, true, false, ◌||◌, Option, none, some, List, [], ◌∷◌, non_empty, str_eq,
  if◌then◌else◌,
}
use beta.Base.Int.{ℤ}
use beta.Types.Related.{Workspace, StubWithRelated, Mount, BuildOptions, Checkpoint}

-- `other_status ""` is the zero value that a missing key is read as.
pub data WorkerStatus : Type 0 where
  available pending disabled : WorkerStatus
  other_status : String → WorkerStatus

pub data CapacityUpdateType : Type 0 where
  add_capacity remove_capacity : CapacityUpdateType
  other_capacity_update : ℕ → CapacityUpdateType

pub data ContainerStatus : Type 0 where
  pending running stopping : ContainerStatus
  other_container_status : String → ContainerStatus

-- `ActiveContainers` is only filled for the API and is left out.
pub record Worker : Type 0 where
  pub id : String
  pub status : WorkerStatus
  pub total_cpu : ℤ  -- int64
  pub total_memory : ℤ  -- int64
  pub total_gpu_count : ℕ  -- uint32
  pub free_cpu : ℤ  -- int64
  pub free_memory : ℤ  -- int64
  pub free_gpu_count : ℕ  -- uint32
  pub gpu : String
  pub pool_name : String
  pub machine_id : String
  pub resource_version : ℤ  -- int64
  pub requires_pool_selector : Bool
  pub priority : ℤ  -- int32
  pub preemptable : Bool
  pub build_version : String
  pub runtime : String

-- A container's state as Redis keeps it.
pub record ContainerState : Type 0 where
  pub container_id : String
  pub stub_id : String
  pub status : ContainerStatus
  pub scheduled_at : ℤ  -- int64, seconds
  pub workspace_id : String
  pub gpu : String
  pub gpu_count : ℕ  -- uint32
  pub cpu : ℤ  -- int64
  pub memory : ℤ  -- int64
  pub started_at : ℤ  -- int64, seconds

-- `timestamp` is in nanoseconds.
pub record ContainerRequest : Type 0 where
  pub container_id : String
  pub entry_point : List String
  pub env : List String
  pub cpu : ℤ  -- int64
  pub memory : ℤ  -- int64
  pub gpu : String
  pub gpu_request : List String
  pub gpu_count : ℕ  -- uint32
  pub image_id : String
  pub stub_id : String
  pub workspace_id : String
  pub workspace : Workspace
  pub stub : StubWithRelated
  pub timestamp : ℕ
  pub mounts : List Mount
  pub retry_count : ℕ
  pub pool_selector : String
  pub preemptable : Bool
  pub checkpoint_enabled : Bool
  pub build_options : BuildOptions
  pub ports : List ℕ  -- uint32
  pub cost_per_ms : ℕ  -- the bits of a float64
  pub app_id : String
  pub checkpoint : Option Checkpoint
  pub config_path : String
  pub image_credentials : String
  pub build_registry_credentials : String
  pub block_network : Bool
  pub allow_list : List String
  pub docker_enabled : Bool

abbrev pub is_empty : List String → Bool
is_empty [] = true
is_empty (g ∷ gs) = false

unfoldable pub requires_gpu : ContainerRequest → Bool
requires_gpu c = (if is_empty c.gpu_request then false else true) || non_empty c.gpu

abbrev pub gpu_any : String
gpu_any = "any"

abbrev pub all_gpu_types : List String
all_gpu_types =
    "A10G" ∷ "A100-40" ∷ "A100-80" ∷ "L4" ∷ "T4" ∷ "H100" ∷ "A6000" ∷ "RTX4090" ∷ "L40S" ∷ "MPS"
    ∷ gpu_any ∷ []

-- A Go map as an association list; the newest entry of a key stands first.
unfoldable pub map_get : String → List (String × ℕ) → Option ℕ
map_get k [] = none
map_get k ((j, v) ∷ m) = if str_eq j k then some v else map_get k m

-- The loop `for i, g := range gpus { m[g] = i }`, from index `i` on.
unfoldable pub index_gpus : ℕ → List String → List (String × ℕ) → List (String × ℕ)
index_gpus i [] m = m
index_gpus i (g ∷ gs) m = index_gpus (i + 1) gs ((g, i) ∷ m)

unfoldable pub gpu_types_to_map : List String → List (String × ℕ)
unfolding index_gpus
gpu_types_to_map gs = index_gpus 0 gs []

-- `slices.Contains`
unfoldable pub contains : List String → String → Bool
contains [] g = false
contains (x ∷ xs) g = str_eq x g || contains xs g

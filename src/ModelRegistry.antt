-- ===== src/ModelRegistry.antt =====
-- pkg/gateway/model_registry.go, with the types of pkg/types/inference.go: which node serves which
-- model. The mutex makes each method one step. A time is a number of nanoseconds since Go's zero
-- time, and `now` what `time.Now()` answers; `time.Since` is compared with durations of minutes
-- only, so its saturation does not show. The maps `Models` are not nil.
pub mod Route
pub mod Report
pub mod Find
pub mod Cleanup
pub mod Capacity
use beta.Base.{
  ℕ, ◌+◌, ◌*◌, ◌/◌, String, Bool, true, false, not, ◌&&◌, Option, none, some, List, [], ◌∷◌, ◌++◌,
  ltb, ◌==◌, str_eq, non_empty, if◌then◌else◌, lookup, put, erase, modify, map, length,
}
use beta.Base.Int.{ℤ, pos, negsuc, ltb_ℤ, ◌+ℤ◌}
use beta.Base.Machine.{i64}

pub data LoadState : Type 0 where
  idle loading ready error : LoadState
  other_load_state : String → LoadState

-- `SizeGB` is a float64 that no code here reads, and is left out.
pub record ModelInfo : Type 0 where
  pub name : String
  pub load_state : LoadState
  pub last_used : ℕ
  pub loaded_at : ℕ
  pub request_count : ℤ  -- int64
  pub error : String

pub record NodeInferenceInfo : Type 0 where
  pub node_id : String
  pub tailscale_ip : String
  pub port : ℤ
  pub gpu_type : String
  pub total_vram : ℤ  -- int64, MB
  pub available_vram : ℤ  -- int64, MB
  pub models : List (String × ModelInfo)
  pub last_heartbeat : ℕ
  pub healthy : Bool

pub record ModelRegistry : Type 0 where
  pub nodes : List (String × NodeInferenceInfo)
  pub heartbeat_timeout : ℕ

abbrev pub seconds : ℕ → ℕ
seconds n = n * 1000000000

unfoldable pub new_model_registry : ModelRegistry
new_model_registry = record { nodes = []; heartbeat_timeout = seconds 30 }

-- `time.Since(t) < d` and `time.Since(t) > d`
abbrev pub since_lt : ℕ → ℕ → ℕ → Bool
since_lt now t d = ltb now (t + d)

abbrev pub since_gt : ℕ → ℕ → ℕ → Bool
since_gt now t d = ltb (t + d) now

abbrev pub is_ready : LoadState → Bool
is_ready ready = true
is_ready _ = false

-- What a registration keeps of an older entry of the same model.
unfoldable pub keep_stats : ModelInfo → ModelInfo → ModelInfo
keep_stats existing new =
    let loaded =
      if new.loaded_at == 0 && is_ready existing.load_state
      then existing.loaded_at
      else new.loaded_at in
    record new { request_count = existing.request_count; loaded_at = loaded }

unfoldable pub keep_all_stats :
    List (String × ModelInfo) → List (String × ModelInfo) → List (String × ModelInfo)
keep_all_stats [] models = models
keep_all_stats ((name, existing) ∷ l) models =
    keep_all_stats l (modify name (keep_stats existing) models)

abbrev pub models_of : Option NodeInferenceInfo → List (String × ModelInfo)
models_of none = []
models_of (some node) = node.models

abbrev pub seen : ℕ → NodeInferenceInfo → NodeInferenceInfo
seen now node = record node { last_heartbeat = now; healthy = true }

unfoldable pub register_node : ℕ → NodeInferenceInfo → ModelRegistry → ModelRegistry
unfolding keep_all_stats
register_node now info r =
    let kept = keep_all_stats (models_of (lookup info.node_id r.nodes)) info.models in
    record r { nodes = put info.node_id (seen now (record info { models = kept })) r.nodes }

abbrev pub count_of : Option ModelInfo → ModelInfo → ModelInfo
count_of none model = model
count_of (some existing) model = record model { request_count = existing.request_count }

unfoldable pub put_models :
    List (String × ModelInfo) → List (String × ModelInfo) → List (String × ModelInfo)
put_models [] models = models
put_models ((name, model) ∷ l) models =
    put_models l (put name (count_of (lookup name models) model) models)

unfoldable pub update_node_models :
    ℕ → String → List (String × ModelInfo) → ModelRegistry → ModelRegistry
unfolding put_models
update_node_models now id models r = record r {
  nodes = modify id (λ n. seen now (record n { models = put_models models n.models })) r.nodes;
}

unfoldable pub update_heartbeat : ℕ → String → ModelRegistry → ModelRegistry
update_heartbeat now id r = record r { nodes = modify id (seen now) r.nodes }

unfoldable pub remove_node : String → ModelRegistry → ModelRegistry
remove_node id r = record r { nodes = erase id r.nodes }

unfoldable pub is_node_healthy : ℕ → ModelRegistry → NodeInferenceInfo → Bool
is_node_healthy now r node =
    if not node.healthy then false else since_lt now node.last_heartbeat r.heartbeat_timeout

unfoldable pub get_node : String → ModelRegistry → Option NodeInferenceInfo
get_node id r = lookup id r.nodes

-- The three methods that change one model of one node.
unfoldable pub modify_model :
    String → String → (ModelInfo → ModelInfo) → ModelRegistry → ModelRegistry
modify_model id model f r = record r {
  nodes = modify id (λ n. record n { models = modify model f n.models }) r.nodes;
}

unfoldable pub increment_request_count : ℕ → String → String → ModelRegistry → ModelRegistry
unfolding modify_model
increment_request_count now id model =
    modify_model id model
      λ m. record m { request_count = i64 (m.request_count +ℤ pos 1); last_used = now }

unfoldable pub mark_model_loaded : ℕ → String → String → ModelRegistry → ModelRegistry
unfolding modify_model
mark_model_loaded now id model =
    modify_model id model λ m. record m { load_state = ready; loaded_at = now; error = "" }

unfoldable pub mark_model_error : String → String → String → ModelRegistry → ModelRegistry
unfolding modify_model
mark_model_error id model message =
    modify_model id model λ m. record m { load_state = LoadState.error; error = message }

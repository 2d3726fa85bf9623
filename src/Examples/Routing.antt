-- ===== src/Examples/Routing.antt =====
-- Routing to inference nodes.
use beta.Base.{◌≡◌, true, [], ◌∷◌, arith}
use beta.Base.Int.{pos}
use beta.ModelRegistry.{ModelInfo, NodeInferenceInfo, ModelRegistry, ready}
use beta.ModelRegistry.Route.{find_node_for_model, find_any_node_with_capacity}
use beta.ModelRegistry.Report.{cleanup_stale_nodes}
use beta.ModelRegistry.Find.{Routed, find_node_for_model-Routed}
use beta.ModelRegistry.Capacity.{Roomy, find_any_node_with_capacity-Roomy}
use beta.ModelRegistry.Cleanup.{Sweeps, swept, cleanup_stale_nodes-unseen}

abbrev llama : ModelInfo
llama = record {
  name = "llama";
  load_state = ready;
  last_used = 90;
  loaded_at = 10;
  request_count = pos 4;
  error = "";
}

abbrev mac : NodeInferenceInfo
mac = record {
  node_id = "mac";
  tailscale_ip = "";
  port = pos 11434;
  gpu_type = "MPS";
  total_vram = pos 65536;
  available_vram = pos 32768;
  models = ("llama", llama) ∷ [];
  last_heartbeat = 95;
  healthy = true;
}

abbrev silent : NodeInferenceInfo
silent = record mac { node_id = "silent"; gpu_type = "CUDA"; last_heartbeat = 20 }

abbrev registry : ModelRegistry
registry = record { nodes = ("silent", silent) ∷ ("mac", mac) ∷ []; heartbeat_timeout = 20 }

find_node_for_model-Routed_example :
    Routed 100 registry "llama" "MPS" (find_node_for_model 100 "llama" "MPS" registry)
find_node_for_model-Routed_example = find_node_for_model-Routed 100 registry "llama" "MPS"

find_any_node_with_capacity-Roomy_example :
    Roomy 100 registry (pos 1024) (find_any_node_with_capacity 100 (pos 1024) "CUDA" registry)
find_any_node_with_capacity-Roomy_example =
    find_any_node_with_capacity-Roomy 100 registry (pos 1024) "CUDA" (omega arith)

cleanup_stale_nodes-unseen_example :
    (find_node_for_model 101 "llama" "MPS" (swept 100 registry)
      ≡ find_node_for_model 101 "llama" "MPS" registry)
    × (find_any_node_with_capacity 101 (pos 1) "MPS" (swept 100 registry)
        ≡ find_any_node_with_capacity 101 (pos 1) "MPS" registry)
    × (swept 100 registry ≡ record registry { nodes = (swept 100 registry).nodes })
    × Sweeps 100 20 registry.nodes (swept 100 registry).nodes (cleanup_stale_nodes 100 registry).1
cleanup_stale_nodes-unseen_example =
    cleanup_stale_nodes-unseen 100 101 registry "llama" "MPS" (pos 1) (omega arith)

-- ===== src/ModelRegistry/Report.antt =====
-- The listings, the clean-up of stale nodes and the statistics of the registry.
use beta.Base.{
  ℕ, ◌+◌, ◌*◌, String, Bool, true, false, Option, none, some, List, [], ◌∷◌, ◌++◌, if◌then◌else◌,
  lookup, put, map, length,
}
use beta.ModelRegistry.{
  ModelInfo, NodeInferenceInfo, ModelRegistry, since_gt, is_ready, is_node_healthy,
}

abbrev pub nodes_at : Option (List NodeInferenceInfo) → List NodeInferenceInfo
nodes_at none = []
nodes_at (some l) = l

unfoldable pub add_to_models :
    NodeInferenceInfo
    → List (String × ModelInfo)
    → List (String × List NodeInferenceInfo)
    → List (String × List NodeInferenceInfo)
add_to_models node [] result = result
add_to_models node ((name, model) ∷ l) result =
    add_to_models node l (put name (nodes_at (lookup name result) ++ node ∷ []) result)

unfoldable pub list_models_from :
    (NodeInferenceInfo → Bool)
    → List (String × NodeInferenceInfo)
    → List (String × List NodeInferenceInfo)
    → List (String × List NodeInferenceInfo)
unfolding add_to_models
list_models_from healthy [] result = result
list_models_from healthy ((id, node) ∷ l) result =
    list_models_from healthy l
      (if healthy node then add_to_models node node.models result else result)

unfoldable pub list_models : ℕ → ModelRegistry → List (String × List NodeInferenceInfo)
unfolding list_models_from is_node_healthy
list_models now r = list_models_from (is_node_healthy now r) r.nodes []

unfoldable pub list_nodes : ModelRegistry → List NodeInferenceInfo
list_nodes r = map (λ (e : String × NodeInferenceInfo). e.1) r.nodes

-- The loop of `CleanupStaleNodes`: the nodes left and the number removed.
unfoldable pub sweep :
    ℕ → ℕ → List (String × NodeInferenceInfo) → List (String × NodeInferenceInfo) × ℕ
sweep now timeout [] = ([], 0)
sweep now timeout ((id, node) ∷ l) =
    let (left, removed) = sweep now timeout l in
    if since_gt now node.last_heartbeat (timeout * 3)
    then (left, removed + 1)
    else if since_gt now node.last_heartbeat timeout
    then ((id, record node { healthy = false }) ∷ left, removed)
    else ((id, node) ∷ left, removed)

unfoldable pub cleanup_stale_nodes : ℕ → ModelRegistry → ModelRegistry × ℕ
unfolding sweep
cleanup_stale_nodes now r =
    let (left, removed) = sweep now r.heartbeat_timeout r.nodes in
    (record r { nodes = left }, removed)

pub record Stats : Type 0 where
  pub total_nodes : ℕ
  pub healthy_nodes : ℕ
  pub unhealthy_nodes : ℕ
  pub total_models : ℕ
  pub ready_models : ℕ

abbrev pub count_models : List (String × ModelInfo) → Stats → Stats
count_models [] s = s
count_models ((name, model) ∷ l) s = count_models l (record s {
  total_models = s.total_models + 1;
  ready_models = if is_ready model.load_state then s.ready_models + 1 else s.ready_models;
})

abbrev pub count_health : Bool → Stats → Stats
count_health true s = record s { healthy_nodes = s.healthy_nodes + 1 }
count_health false s = record s { unhealthy_nodes = s.unhealthy_nodes + 1 }

unfoldable pub count_nodes :
    (NodeInferenceInfo → Bool) → List (String × NodeInferenceInfo) → Stats → Stats
count_nodes healthy [] s = s
count_nodes healthy ((id, node) ∷ l) s =
    count_nodes healthy l (count_models node.models (count_health (healthy node) s))

unfoldable pub stats : ℕ → ModelRegistry → Stats
unfolding count_nodes is_node_healthy
stats now r = count_nodes (is_node_healthy now r) r.nodes (record {
  total_nodes = length r.nodes;
  healthy_nodes = 0;
  unhealthy_nodes = 0;
  total_models = 0;
  ready_models = 0;
})

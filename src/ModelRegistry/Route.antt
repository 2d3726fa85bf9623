-- ===== src/ModelRegistry/Route.antt =====
-- Which node serves a model: `FindNodeForModel` and `FindAnyNodeWithCapacity`.
use beta.Base.{
  ℕ, ◌+◌, ◌/◌, String, Bool, true, false, not, ◌&&◌, Option, none, some, List, [], ◌∷◌, ltb, str_eq,
  non_empty, if◌then◌else◌, lookup,
}
use beta.Base.Int.{ℤ, pos, negsuc, ltb_ℤ}
use beta.ModelRegistry.{
  LoadState, idle, loading, ready, error, other_load_state, ModelInfo, NodeInferenceInfo,
  ModelRegistry, seconds, since_lt, is_node_healthy,
}

-- The score by the load state; `none` is `continue`.
abbrev pub load_score : LoadState → Option ℕ
load_score ready = some 100
load_score loading = some 10
load_score idle = some 1
load_score error = none
load_score (other_load_state s) = some 0

abbrev pub vram_score : ℤ → ℕ
vram_score (pos n) = n / 1024
vram_score (negsuc n) = 0

-- The score of a node that has the model. The sum of an int64 over 1024 and 170 does not overflow.
unfoldable pub model_score : ℕ → String → NodeInferenceInfo → Option ModelInfo → Option ℕ
model_score now prefer node none = none
model_score now prefer node (some model) = elim (load_score model.load_state) [
  | none ↦ none
  | some base ↦ some (
      base
      + (if non_empty prefer && str_eq node.gpu_type prefer then 50 else 0)
      + (if since_lt now model.last_used (seconds 300) then 20 else 0)
      + vram_score node.available_vram)
]

-- The body of the loop of `FindNodeForModel`, as far as the score.
unfoldable pub node_score : ℕ → ModelRegistry → String → String → NodeInferenceInfo → Option ℕ
unfolding is_node_healthy model_score
node_score now r model prefer node =
    if is_node_healthy now r node
    then model_score now prefer node (lookup model node.models)
    else none

abbrev pub keep_better :
    Option ℕ → NodeInferenceInfo → Option NodeInferenceInfo × ℕ → Option NodeInferenceInfo × ℕ
keep_better none node best = best
keep_better (some score) node best = if ltb best.1 score then (some node, score) else best

unfoldable pub best_node :
    (NodeInferenceInfo → Option ℕ)
    → List (String × NodeInferenceInfo)
    → Option NodeInferenceInfo × ℕ
    → Option NodeInferenceInfo × ℕ
best_node score [] best = best
best_node score ((id, node) ∷ l) best = best_node score l (keep_better (score node) node best)

unfoldable pub find_node_for_model : ℕ → String → String → ModelRegistry → Option NodeInferenceInfo
unfolding best_node node_score
find_node_for_model now model prefer r =
    (best_node (node_score now r model prefer) r.nodes (none, 0)).0

-- A node that `FindAnyNodeWithCapacity` does not skip.
unfoldable pub has_capacity : ℕ → ModelRegistry → ℤ → NodeInferenceInfo → Bool
unfolding is_node_healthy
has_capacity now r min_vram node =
    if not (is_node_healthy now r node)
    then false
    else if ltb_ℤ (pos 0) min_vram && ltb_ℤ node.available_vram min_vram
    then false
    else true

abbrev pub is_none : Option NodeInferenceInfo → Bool
is_none none = true
is_none (some n) = false

-- Whether a node that is not skipped takes the place of the best one so far.
abbrev pub takes_over : String → NodeInferenceInfo → Option NodeInferenceInfo × ℤ → Bool
takes_over prefer node best =
    if non_empty prefer && str_eq node.gpu_type prefer
    then ltb_ℤ best.1 node.available_vram
    else (if is_none best.0 then true else ltb_ℤ best.1 node.available_vram)

unfoldable pub most_vram :
    (NodeInferenceInfo → Bool)
    → String
    → List (String × NodeInferenceInfo)
    → Option NodeInferenceInfo × ℤ
    → Option NodeInferenceInfo × ℤ
most_vram able prefer [] best = best
most_vram able prefer ((id, node) ∷ l) best =
    most_vram able prefer l
      (if able node && takes_over prefer node best then (some node, node.available_vram) else best)

unfoldable pub find_any_node_with_capacity :
    ℕ → ℤ → String → ModelRegistry → Option NodeInferenceInfo
unfolding most_vram has_capacity
find_any_node_with_capacity now min_vram prefer r =
    (most_vram (has_capacity now r min_vram) prefer r.nodes (none, pos 0)).0

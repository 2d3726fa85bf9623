-- ===== src/ModelRegistry/Cleanup.antt =====
-- The clean-up takes away only nodes that no lookup would return.
use beta.Base.{
  Bool-cases, inl, inr, ℕ, ◌+◌, ◌*◌, ◌<◌, ◌≤◌, ◌≡◌, refl, ap, String, Bool, false, Option, none,
  some, List, [], ◌∷◌, arith,
}
use beta.Base.Int.{ℤ, pos}
use beta.ModelRegistry.{ModelRegistry, NodeInferenceInfo, is_node_healthy, since_gt}
use beta.ModelRegistry.Route.{
  node_score, keep_better, best_node, find_node_for_model, has_capacity, most_vram,
  find_any_node_with_capacity,
}
use beta.ModelRegistry.Report.{sweep, cleanup_stale_nodes}

abbrev pub swept : ℕ → ModelRegistry → ModelRegistry
swept now r = (cleanup_stale_nodes now r).0

best_node-sweep :
    (score : NodeInferenceInfo → Option ℕ) (now timeout : ℕ) (l : List (String × NodeInferenceInfo))
    (best : Option NodeInferenceInfo × ℕ)
    → ((n : NodeInferenceInfo)
        → n.last_heartbeat + timeout < now
        → (score n ≡ none) × (score (record n { healthy = false }) ≡ none))
    → best_node score (sweep now timeout l).0 best ≡ best_node score l best
unfolding best_node sweep
best_node-sweep score now timeout [] best h = refl
best_node-sweep score now timeout ((id, node) ∷ l) best h = ground (
  arith,
  best_node-sweep score now timeout l best h,
  h node,
  best_node-sweep score now timeout l (keep_better (score node) node best) h,
)

most_vram-sweep :
    (able : NodeInferenceInfo → Bool) (prefer : String) (now timeout : ℕ)
    (l : List (String × NodeInferenceInfo)) (best : Option NodeInferenceInfo × ℤ)
    → ((n : NodeInferenceInfo)
        → n.last_heartbeat + timeout < now
        → (able n ≡ false) × (able (record n { healthy = false }) ≡ false))
    → most_vram able prefer (sweep now timeout l).0 best ≡ most_vram able prefer l best
unfolding most_vram sweep
most_vram-sweep able prefer now timeout [] best h = refl
most_vram-sweep able prefer now timeout ((id, node) ∷ l) best h = ground (
  arith,
  most_vram-sweep able prefer now timeout l best h,
  h node,
  most_vram-sweep able prefer now timeout l (some node, node.available_vram) h,
)

-- A node that the clean-up changes is healthy neither before nor after.
stale-unhealthy :
    (now later : ℕ) (r : ModelRegistry) (n : NodeInferenceInfo)
    → now ≤ later
    → n.last_heartbeat + r.heartbeat_timeout < now
    → (is_node_healthy later r n ≡ false)
      × (is_node_healthy later r (record n { healthy = false }) ≡ false)
unfolding is_node_healthy
stale-unhealthy now later r n le stale = (ground arith, refl)

-- The nodes before and after: one that is silent for more than three timeouts is gone, one for more
-- than a timeout is marked as unhealthy, and any other is as it was; `n` nodes are gone.
pub data Sweeps (now timeout : ℕ)
    : List (String × NodeInferenceInfo) → List (String × NodeInferenceInfo) → ℕ → Type 0 where
  none_left : Sweeps now timeout [] [] 0
  removed :
      {id : String} {node : NodeInferenceInfo} {l l' : List (String × NodeInferenceInfo)} {n : ℕ}
      → node.last_heartbeat + timeout * 3 < now
      → Sweeps now timeout l l' n
      → Sweeps now timeout ((id, node) ∷ l) l' (n + 1)
  marked :
      {id : String} {node : NodeInferenceInfo} {l l' : List (String × NodeInferenceInfo)} {n : ℕ}
      → node.last_heartbeat + timeout < now
      → now ≤ node.last_heartbeat + timeout * 3
      → Sweeps now timeout l l' n
      → Sweeps now timeout ((id, node) ∷ l) ((id, record node { healthy = false }) ∷ l') n
  left_alone :
      {id : String} {node : NodeInferenceInfo} {l l' : List (String × NodeInferenceInfo)} {n : ℕ}
      → now ≤ node.last_heartbeat + timeout
      → Sweeps now timeout l l' n
      → Sweeps now timeout ((id, node) ∷ l) ((id, node) ∷ l') n

sweep-Sweeps :
    (now timeout : ℕ) (l : List (String × NodeInferenceInfo))
    → Sweeps now timeout l (sweep now timeout l).0 (sweep now timeout l).1
unfolding sweep
sweep-Sweeps now timeout [] = none_left
sweep-Sweeps now timeout ((id, node) ∷ l) =
    let rest = sweep-Sweeps now timeout l in
    elim (Bool-cases (since_gt now node.last_heartbeat (timeout * 3))) [
      | inl dead ↦ rw dead (removed (ground arith) rest)
      | inr living ↦ elim (Bool-cases (since_gt now node.last_heartbeat timeout)) [
        | inl stale ↦ rw (living, stale) (marked (ground arith) (ground arith) rest)
        | inr fresh ↦ rw (living, fresh) (left_alone (ground arith) rest)
      ]
    ]

-- The clean-up of stale nodes removes exactly the nodes that are silent for more than three timeouts
-- and counts them, marks exactly those that are silent for more than one as unhealthy, and leaves the
-- others as they were. On the registry that it leaves, with no report in between, the two searches
-- answer at any later time as they would have without it.
pub cleanup_stale_nodes-unseen :
    (now later : ℕ) (r : ModelRegistry) (model prefer : String) (min_vram : ℤ)
    → now ≤ later
    → (find_node_for_model later model prefer (swept now r)
        ≡ find_node_for_model later model prefer r)
      × (find_any_node_with_capacity later min_vram prefer (swept now r)
          ≡ find_any_node_with_capacity later min_vram prefer r)
      × (swept now r ≡ record r { nodes = (swept now r).nodes })
      × Sweeps now r.heartbeat_timeout r.nodes (swept now r).nodes (cleanup_stale_nodes now r).1
unfolding find_node_for_model find_any_node_with_capacity node_score has_capacity
    cleanup_stale_nodes
cleanup_stale_nodes-unseen now later r model prefer min_vram le = (
  ap (λ b. b.0)
      (best_node-sweep (node_score later r model prefer) now r.heartbeat_timeout r.nodes (none, 0)
        λ n stale. ground (arith, stale-unhealthy now later r n le stale)),
  ap (λ b. b.0)
      (most_vram-sweep (has_capacity later r min_vram) prefer now r.heartbeat_timeout r.nodes
        (none, pos 0) λ n stale. ground (arith, stale-unhealthy now later r n le stale)),
  refl,
  sweep-Sweeps now r.heartbeat_timeout r.nodes,
)

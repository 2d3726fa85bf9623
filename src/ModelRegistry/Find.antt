-- ===== src/ModelRegistry/Find.antt =====
-- The two searches return a best node, or none where no node qualifies.
use beta.Base.{
  ℕ, ◌+◌, ◌<◌, ◌≤◌, ◌≡◌, ◌≢◌, refl, ap, sym, ◌∙◌, ◌⊎◌, inl, inr, subst, String, Bool, true, false,
  Option, none, some, List, [], ◌∷◌, Memᴰ, All, arith, lookup, ltb, Bool-cases, Option-cases,
}
use beta.ModelRegistry.{
  ModelRegistry, NodeInferenceInfo, ModelInfo, LoadState, idle, loading, ready, error,
  is_node_healthy,
}
use beta.ModelRegistry.Route.{node_score, model_score, keep_better, best_node, find_node_for_model}

abbrev pub score_or_zero : Option ℕ → ℕ
score_or_zero none = 0
score_or_zero (some n) = n

-- From `best` on over the list.
record Improved (score : NodeInferenceInfo → Option ℕ) (l : List (String × NodeInferenceInfo))
    (best out : Option NodeInferenceInfo × ℕ) : Type 0 where
  no_lower : best.1 ≤ out.1
  highest : All (λ (e : String × NodeInferenceInfo). score_or_zero (score e.1) ≤ out.1) l
  chosen :
      (out ≡ best)
      ⊎ ((e : String × NodeInferenceInfo) × Memᴰ e l
          × (out ≡ (some e.1, score_or_zero (score e.1)))
          × (0 < out.1))

best_node-Improved :
    (score : NodeInferenceInfo → Option ℕ) (l : List (String × NodeInferenceInfo))
    (best : Option NodeInferenceInfo × ℕ)
    → Improved score l best (best_node score l best)
unfolding best_node
best_node-Improved score [] best = record {
  no_lower = omega arith;
  highest = tt;
  chosen = inl refl;
}
best_node-Improved score ((id, node) ∷ l) best =
    let next = keep_better (score node) node best in
    let later = best_node-Improved score l next in
    let (up, covered, from) = step (score node) refl in
    record {
      no_lower = omega (arith, later.no_lower);
      highest = (omega (arith, later.no_lower), later.highest);
      chosen = elim later.chosen [
        | inl same ↦ elim from [
          | inl kept ↦ inl (same ∙ kept)
          | inr (e, positive) ↦
              inr ((id, node), Memᴰ.head refl, same ∙ e, omega (arith, later.no_lower))
        ]
        | inr (e, m, eq, positive) ↦ inr (e, Memᴰ.tail m, eq, positive)
      ];
    }
  where
    step :
        (o : Option ℕ)
        → o ≡ score node
        → (best.1 ≤ (keep_better o node best).1)
          × (score_or_zero o ≤ (keep_better o node best).1)
          × ((keep_better o node best ≡ best)
              ⊎ ((keep_better o node best ≡ (some node, score_or_zero o))
                  × (0 < (keep_better o node best).1)))
    step none e = (omega arith, omega arith, inl refl)
    step (some n) e = elim (Bool-cases (ltb best.1 n)) [
      | inl more ↦ ground arith
      | inr less ↦ ground arith
    ]

pub All-mem {ℓ κ} : {A : Type ℓ} (P : A → Type κ) (l : List A) → All P l → (a : A) → Memᴰ a l → P a
All-mem P [] h a m = elim m [ ]
All-mem P (x ∷ l) h a (Memᴰ.head e) = subst P (sym e) h.0
All-mem P (x ∷ l) h a (Memᴰ.tail m) = All-mem P l h.1 a m

-- A node that has sent a heartbeat within the timeout.
pub record IsAlive (now : ℕ) (r : ModelRegistry) (n : NodeInferenceInfo) : Type 0 where
  pub marked : n.healthy ≡ true
  pub fresh : now < n.last_heartbeat + r.heartbeat_timeout

abbrev pub is_servable : LoadState → Bool
is_servable idle = true
is_servable loading = true
is_servable ready = true
is_servable _ = false

-- It has the model, loaded, loading or idle.
pub record Offers (now : ℕ) (r : ModelRegistry) (model : String) (n : NodeInferenceInfo)
    : Type 0 where
  pub alive : IsAlive now r n
  pub info : ModelInfo
  pub has_model : lookup model n.models ≡ some info
  pub servable : is_servable info.load_state ≡ true

pub record Serves (now : ℕ) (r : ModelRegistry) (model : String) (n : NodeInferenceInfo)
    : Type 0 where
  pub alive : IsAlive now r n
  pub info : ModelInfo
  pub has_model : lookup model n.models ≡ some info
  pub no_error : info.load_state ≢ error

node_score-Serves :
    (now : ℕ) (r : ModelRegistry) (model prefer : String) (n : NodeInferenceInfo)
    → 0 < score_or_zero (node_score now r model prefer n)
    → Serves now r model n
unfolding node_score is_node_healthy model_score
node_score-Serves now r model prefer n h = elim (Bool-cases (is_node_healthy now r n)) [
  | inl healthy ↦ elim (Option-cases (lookup model n.models)) [
    | inl missing ↦ absurd (ground arith)
    | inr (m, found) ↦ record {
      alive = record { marked = ground arith; fresh = ground arith };
      info = m;
      has_model = found;
      no_error = λ e. ground arith;
    }
  ]
  | inr ill ↦ absurd (ground arith)
]

Offers-node_score :
    (now : ℕ) (r : ModelRegistry) (model prefer : String) (n : NodeInferenceInfo)
    → Offers now r model n
    → 0 < score_or_zero (node_score now r model prefer n)
unfolding node_score is_node_healthy model_score
Offers-node_score now r model prefer n h =
    ground (arith, h.alive.marked, h.alive.fresh, h.has_model, h.servable)

-- What `FindNodeForModel` answers.
abbrev pub Routed : ℕ → ModelRegistry → String → String → Option NodeInferenceInfo → Type 0
Routed now r model prefer answer =
    ((answer ≡ none)
      × ((e : String × NodeInferenceInfo) → Memᴰ e r.nodes → ¬ Offers now r model e.1))
    ⊎ ((best : String × NodeInferenceInfo) × Memᴰ best r.nodes
        × (answer ≡ some best.1)
        × Serves now r model best.1
        × ((e : String × NodeInferenceInfo)
            → Memᴰ e r.nodes
            → score_or_zero (node_score now r model prefer e.1)
              ≤ score_or_zero (node_score now r model prefer best.1)))

-- In whatever order the nodes are visited, `FindNodeForModel` answers nil only if no registered node
-- that is alive has the model idle, loading or ready; else it answers a registered node that is
-- alive and has the model without an error, and no registered node has a higher score.
pub find_node_for_model-Routed :
    (now : ℕ) (r : ModelRegistry) (model prefer : String)
    → Routed now r model prefer (find_node_for_model now model prefer r)
unfolding find_node_for_model
find_node_for_model-Routed now r model prefer =
    let score = node_score now r model prefer in
    let found = best_node-Improved score r.nodes (none, 0) in
    elim found.chosen [
      | inl start ↦ inl (
        ap (λ b. b.0) start,
        λ e m offers.
            let low = All-mem _ r.nodes found.highest e m in
            let start_score = ap (λ b. b.1) start in
            absurd
              (omega (arith, low, start_score, Offers-node_score now r model prefer e.1 offers)),
      )
      | inr (e, m, eq, positive) ↦
          let same = ap (λ b. b.1) eq in
          inr (
            e,
            m,
            ap (λ b. b.0) eq,
            node_score-Serves now r model prefer e.1 (omega (arith, positive, same)),
            λ f k. omega (arith, same, All-mem _ r.nodes found.highest f k),
          )
    ]

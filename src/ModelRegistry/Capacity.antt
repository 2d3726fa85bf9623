-- ===== src/ModelRegistry/Capacity.antt =====
-- The search for a node with free memory, whatever GPU type is preferred.
use beta.Base.{
  ℕ, ◌≡◌, refl, ap, ◌∙◌, ◌⊎◌, inl, inr, String, Bool, true, ◌&&◌, Option, none, some, List, [], ◌∷◌,
  Memᴰ, All, arith, if◌then◌else◌,
}
use beta.Base.Int.{ℤ, pos, ◌≤ℤ◌, ◌<ℤ◌}
use beta.ModelRegistry.{ModelRegistry, NodeInferenceInfo, is_node_healthy}
use beta.ModelRegistry.Route.{has_capacity, most_vram, takes_over, find_any_node_with_capacity}
use beta.ModelRegistry.Find.{IsAlive, All-mem}

abbrev Best : Type 0
Best = Option NodeInferenceInfo × ℤ

abbrev Entry : Type 0
Entry = String × NodeInferenceInfo

-- From `best` on over the list.
record Filled (able : NodeInferenceInfo → Bool) (l : List Entry) (best out : Best) : Type 0 where
  no_lower : best.1 ≤ℤ out.1
  highest : All (λ (e : Entry). able e.1 ≡ true → e.1.available_vram ≤ℤ out.1) l
  chosen :
      (out ≡ best)
      ⊎ ((e : Entry) × Memᴰ e l × (able e.1 ≡ true) × (out ≡ (some e.1, e.1.available_vram)))

take : (NodeInferenceInfo → Bool) → String → NodeInferenceInfo → Best → Best
take able prefer node best =
    if able node && takes_over prefer node best then (some node, node.available_vram) else best

-- Every able node has some memory; then one with more than the best takes its place.
take-better :
    (able : NodeInferenceInfo → Bool) (prefer : String) (node : NodeInferenceInfo) (best : Best)
    → ((n : NodeInferenceInfo) → able n ≡ true → pos 0 <ℤ n.available_vram)
    → (best.0 ≡ none → best.1 ≡ pos 0)
    → (best.1 ≤ℤ (take able prefer node best).1)
      × (able node ≡ true → node.available_vram ≤ℤ (take able prefer node best).1)
      × ((take able prefer node best ≡ best)
          ⊎ ((able node ≡ true) × (take able prefer node best ≡ (some node, node.available_vram))))
      × ((take able prefer node best).0 ≡ none → (take able prefer node best).1 ≡ pos 0)
unfolding take
take-better able prefer node (none, v) some_room empty = ground (arith, some_room node, empty refl)
take-better able prefer node (some b, v) some_room empty = ground arith

most_vram-Filled :
    (able : NodeInferenceInfo → Bool) (prefer : String) (l : List Entry) (best : Best)
    → ((n : NodeInferenceInfo) → able n ≡ true → pos 0 <ℤ n.available_vram)
    → (best.0 ≡ none → best.1 ≡ pos 0)
    → Filled able l best (most_vram able prefer l best)
unfolding most_vram take
most_vram-Filled able prefer [] best some_room empty = record {
  no_lower = omega arith;
  highest = tt;
  chosen = inl refl;
}
most_vram-Filled able prefer ((id, node) ∷ l) best some_room empty =
    let (up, covered, from, still) = take-better able prefer node best some_room empty in
    let later = most_vram-Filled able prefer l (take able prefer node best) some_room still in
    record {
      no_lower = omega (arith, up, later.no_lower);
      highest = (λ e. omega (arith, covered e, later.no_lower), later.highest);
      chosen = elim later.chosen [
        | inl same ↦ elim from [
          | inl kept ↦ inl (same ∙ kept)
          | inr (fits, e) ↦ inr ((id, node), Memᴰ.head refl, fits, same ∙ e)
        ]
        | inr (e, m, fits, eq) ↦ inr (e, Memᴰ.tail m, fits, eq)
      ];
    }

-- A node that is alive and has the memory.
pub record HasRoom (now : ℕ) (r : ModelRegistry) (min_vram : ℤ) (n : NodeInferenceInfo)
    : Type 0 where
  pub alive : IsAlive now r n
  pub room : min_vram ≤ℤ n.available_vram

has_capacity-HasRoom :
    (now : ℕ) (r : ModelRegistry) (min_vram : ℤ) (n : NodeInferenceInfo)
    → pos 0 <ℤ min_vram
    → has_capacity now r min_vram n ≡ true
    → HasRoom now r min_vram n
unfolding has_capacity is_node_healthy
has_capacity-HasRoom now r min_vram n positive h = record {
  alive = record { marked = ground arith; fresh = ground arith };
  room = ground arith;
}

HasRoom-has_capacity :
    (now : ℕ) (r : ModelRegistry) (min_vram : ℤ) (n : NodeInferenceInfo)
    → HasRoom now r min_vram n
    → has_capacity now r min_vram n ≡ true
unfolding has_capacity is_node_healthy
HasRoom-has_capacity now r min_vram n h = ground (arith, h.alive.marked, h.alive.fresh, h.room)

-- What `FindAnyNodeWithCapacity` answers.
abbrev pub Roomy : ℕ → ModelRegistry → ℤ → Option NodeInferenceInfo → Type 0
Roomy now r min_vram answer =
    ((answer ≡ none)
      × ((e : String × NodeInferenceInfo) → Memᴰ e r.nodes → ¬ HasRoom now r min_vram e.1))
    ⊎ ((best : String × NodeInferenceInfo) × Memᴰ best r.nodes
        × (answer ≡ some best.1)
        × HasRoom now r min_vram best.1
        × ((e : String × NodeInferenceInfo)
            → Memᴰ e r.nodes
            → HasRoom now r min_vram e.1
            → e.1.available_vram ≤ℤ best.1.available_vram))

-- For a positive demand, whatever GPU type is preferred: `FindAnyNodeWithCapacity` answers nil
-- exactly if no registered node is alive with that much free memory; else it answers one of those
-- nodes with the most free memory, so a preferred GPU type only decides between equals.
pub find_any_node_with_capacity-Roomy :
    (now : ℕ) (r : ModelRegistry) (min_vram : ℤ) (prefer : String)
    → pos 0 <ℤ min_vram
    → Roomy now r min_vram (find_any_node_with_capacity now min_vram prefer r)
unfolding find_any_node_with_capacity
find_any_node_with_capacity-Roomy now r min_vram prefer positive =
    let able = has_capacity now r min_vram in
    let some_room : (n : NodeInferenceInfo) → able n ≡ true → pos 0 <ℤ n.available_vram =
      λ n h. omega (arith, positive, (has_capacity-HasRoom now r min_vram n positive h).room) in
    let found = most_vram-Filled able prefer r.nodes (none, pos 0) some_room (λ e. refl) in
    elim found.chosen [
      | inl start ↦ inl (
        ap (λ b. b.0) start,
        λ e m room.
            let fits = HasRoom-has_capacity now r min_vram e.1 room in
            let least = some_room e.1 fits in
            let zero_best = ap (λ b. b.1) start in
            absurd (ground (arith, least, zero_best, All-mem _ r.nodes found.highest e m fits)),
      )
      | inr (e, m, fits, eq) ↦
          let same = ap (λ b. b.1) eq in
          inr (
            e,
            m,
            ap (λ b. b.0) eq,
            has_capacity-HasRoom now r min_vram e.1 positive fits,
            λ f k room. rw (← same) (
                All-mem _ r.nodes found.highest f k (HasRoom-has_capacity now r min_vram f.1 room)),
          )
    ]

-- ===== src/Rules/Layers/Ranks.antt =====
-- The loop of `topologicalLayers` of packages/rules/src/dependency-graph.ts from its start to its end.
use unifold.Prelude.{
  ℕ, zero, suc, ◌+◌, ◌≤◌, ◌<◌, ◌≡◌, refl, sym, ap, ◌∙◌, subst, ◌⊎◌, inl, inr, some, List, [], ◌∷◌,
  ◌++◌, append-nil, arith, Bool-cases, nat_eq, length, length-append, List-cases, Text, text_eq,
  sort_texts, Map, get, put, delete, Member,
}
use unifold.Rules.Layers.{
  ℤ, pred, is_zero, Progress, count_of, release_edge, release_edges, consumers_of, release_rule,
  release_rules, layer_rounds, total,
}
use unifold.Rules.Layers.Rounds.{Distinct, IsLayered, IsEdge, Inv, start_rule}
use unifold.Rules.Layers.Edges.{edge_done}
use unifold.Rules.Layers.Order.{Member-sort_texts, Distinct-sort_texts, total-delete, total-put}

-- The counts above 0 and the rules that are pending, together.
abbrev load : Progress → ℕ
load p = total p.remaining + length p.pending

load-release_edge : (c : Text) (p : Progress) → load (release_edge c p) ≤ load p
unfolding release_edge
load-release_edge c p =
    let z = pred (count_of c p.remaining) in
    elim (Bool-cases (is_zero z)) [
      | inl t ↦
          let less = rw t at (total-put c p.remaining) in
          rw (t, release_edge) (omega (arith, less, length-append p.pending (c ∷ [])))
      | inr f ↦
          let less = rw f at (total-put c p.remaining) in rw (f, release_edge) (omega (arith, less))
    ]

load-release_edges : (cs : List Text) (p : Progress) → load (release_edges cs p) ≤ load p
unfolding release_edges
load-release_edges [] p = omega arith
load-release_edges (c ∷ cs) p =
    omega (arith, load-release_edge c p, load-release_edges cs (release_edge c p))

module _ (downstream : Map Text (List Text)) where
  load-release_rules :
      (ids : List Text) (layer : ℕ) (p : Progress)
      → load (release_rules ids layer downstream p) ≤ load p
  unfolding release_rules release_rule
  load-release_rules [] layer p = omega arith
  load-release_rules (id ∷ ids) layer p =
      let q : Progress = record p {
        layers = put id layer p.layers;
        remaining = delete id p.remaining;
      } in
      omega (
        arith,
        total-delete id p.remaining,
        load-release_edges (consumers_of id downstream) q,
        load-release_rules ids layer (release_edges (consumers_of id downstream) q),
      )

  module _ (sets : (id : Text) → Distinct (consumers_of id downstream)) where
    edges_done :
        (layer : ℕ) (cs rest : List Text) (p : Progress)
        → Distinct cs
        → Inv downstream layer cs rest p
        → Inv downstream layer [] rest (release_edges cs p)
    unfolding release_edges
    edges_done layer [] rest p d v = v
    edges_done layer (c ∷ cs) rest p d v =
        edges_done layer cs rest (release_edge c p) d.1
          (edge_done downstream layer c cs rest p v d.0)

    rules_done :
        (layer : ℕ) (ids : List Text) (p : Progress)
        → Inv downstream layer [] ids p
        → Inv downstream layer [] [] (release_rules ids layer downstream p)
    unfolding release_rules release_rule
    rules_done layer [] p v = v
    rules_done layer (id ∷ ids) p v = rules_done layer ids (release_rule id layer downstream p) (
        edges_done layer (consumers_of id downstream) ids _ (sets id)
          (start_rule downstream layer id ids p v))

    next_round :
        (layer : ℕ) (p : Progress)
        → Inv downstream layer [] [] p
        → Inv downstream (suc layer) [] (sort_texts p.pending) (record p { pending = [] })
    next_round layer p v =
        let back : (x : Text) → Member x (sort_texts p.pending ++ []) → Member x p.pending = λ x m.
          Member-sort_texts x p.pending
            (subst (λ l. Member x l) (append-nil (sort_texts p.pending)) m) in
        record {
          spent = λ x h n e. v.spent x (elim h [ inl m ↦ inl (back x m) | inr k ↦ inr k ]) n e;
          waits = v.waits;
          distinct =
              subst (λ l. Distinct l) (sym (append-nil (sort_texts p.pending)))
                (Distinct-sort_texts p.pending v.distinct);
          fresh = λ x m. v.fresh x (back x m);
          ready = λ x m q edge. v.next x (Member-sort_texts x p.pending m) q edge;
          next = λ x m q edge. absurd m;
          below = λ x l e. omega (arith, v.below x l e);
          ranked = v.ranked;
        }

    -- Every rule with a layer has producers with lower layers only.
    abbrev pub IsRanked : Map Text ℕ → Type 0
    IsRanked layers =
        (x : Text) (l : ℕ)
        → get x layers ≡ some l
        → (q : Text) → IsEdge downstream q x
        → IsLayered q l layers

    sort-length_nil : (xs : List Text) → length xs ≡ 0 → sort_texts xs ≡ []
    unfolding sort_texts
    sort-length_nil [] h = refl
    sort-length_nil (x ∷ xs) h = absurd (omega arith)

    pub layer_rounds-IsRanked :
        (fuel : ℕ) (current : List Text) (layer : ℕ) (remaining : Map Text ℤ) (layers : Map Text ℕ)
        → (current ≡ []) ⊎ (total remaining < fuel)
        → Inv downstream layer [] current
            (record { layers = layers; pending = []; remaining = remaining })
        → (final : Map Text ℕ) × (layer_rounds fuel current layer downstream remaining layers
            ≡ some final)
          × IsRanked final
    unfolding layer_rounds
    layer_rounds-IsRanked fuel [] layer remaining layers h v = (layers, refl, v.ranked)
    layer_rounds-IsRanked zero (id ∷ current) layer remaining layers (inl e) v = cc
    layer_rounds-IsRanked zero (id ∷ current) layer remaining layers (inr less) v =
        absurd (omega arith)
    layer_rounds-IsRanked (suc fuel) (id ∷ current) layer remaining layers h v =
        let start : Progress = record { layers = layers; pending = []; remaining = remaining } in
        let p = release_rules (id ∷ current) layer downstream start in
        let lower = load-release_rules (id ∷ current) layer start in
        let less : total remaining < suc fuel = elim h [ inl e ↦ cc | inr k ↦ k ] in
        layer_rounds-IsRanked fuel (sort_texts p.pending) (suc layer) p.remaining p.layers
          (elim (List-cases p.pending) [
            | inl e ↦ inl (ap sort_texts e ∙ sort-length_nil [] refl)
            | inr (x, xs, e) ↦ inr (omega (arith, lower, less, ap (λ (l : List Text). length l) e))
          ])
          (next_round layer p (rules_done layer (id ∷ current) start v))

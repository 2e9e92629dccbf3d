-- ===== src/Rules/Layers/Acyclic.antt =====
-- The rules that `buildRuleDependencyGraph` of packages/rules/src/dependency-graph.ts gives a layer.
use unifold.Prelude.{
  ℕ, zero, suc, ◌≡◌, refl, sym, ap, ◌∙◌, subst, inl, inr, some, List, [], ◌∷◌, ◌++◌, map, arith,
  nat_same, if◌then◌else◌, nat_same_iff, Bool-cases, nat_eq, length, all, Text, text_eq, sort_texts,
  Map, get, Member, has_iff, has, Member-append,
}
use unifold.Rules.Types.{RuleDependency}
use unifold.Rules.Graph.{
  Seed, Graph, create_graph, connect_outputs, connect_producers, connect_graph, candidate_rule_ids,
  create_rule_input_index,
}
use unifold.Rules.Graph.Candidates.{candidate-Member}
use unifold.Rules.Layers.{
  ℤ, pred, is_zero, Progress, count_of, consumers_of, release_edge, release_edges, release_rule,
  release_rules, layer_rounds, counts, free_ids, zero_indegree_ids, topological_layers, total,
  RuleGraphResult, cycle_diagnostic, frozen_downstream, conflicting_writer_diagnostics,
  build_rule_dependency_graph,
}
use unifold.Rules.Layers.Rounds.{Distinct, IsLayered}
use unifold.Rules.Layers.Order.{Member-sort_texts}
use unifold.Rules.Layers.Counts.{keys, Distinct-put}
use unifold.Rules.Layers.Connected.{seed_map-empty, connect_graph-IsCounted}
use unifold.Rules.Layers.Names.{
  Distinct-length, key_of, put_key, IsKnown, add_edges-IsKnown, seed_map-known,
}
use unifold.Rules.Layers.Build.{free-key, frozen_edges, topological_layers-IsRanked}

abbrev pub seed_ids : List Seed → List Text
seed_ids seeds = map (λ (seed : Seed). seed.definition.id) seeds

connect_outputs-IsKnown :
    (all : List Seed) (p : Text) (outputs : List RuleDependency) (graph : Graph)
    → IsKnown (seed_ids all) graph
    → IsKnown (seed_ids all) (connect_outputs p outputs (create_rule_input_index all) graph)
unfolding connect_outputs
connect_outputs-IsKnown all p [] graph v = v
connect_outputs-IsKnown all p (o ∷ os) graph v = connect_outputs-IsKnown all p os _ (
    add_edges-IsKnown (seed_ids all) p (candidate_rule_ids o (create_rule_input_index all)) graph
      (λ c m. candidate-Member all o c m) v)

connect_producers-IsKnown :
    (all seeds : List Seed) (graph : Graph)
    → IsKnown (seed_ids all) graph
    → IsKnown (seed_ids all) (connect_producers seeds (create_rule_input_index all) graph)
unfolding connect_producers
connect_producers-IsKnown all [] graph v = v
connect_producers-IsKnown all (seed ∷ seeds) graph v =
    connect_producers-IsKnown all seeds _
      (connect_outputs-IsKnown all seed.definition.id seed.outputs graph v)

connect_graph-IsKnown :
    (seeds : List Seed) → IsKnown (seed_ids seeds) (connect_graph seeds (create_graph seeds))
unfolding connect_graph create_graph consumers_of get
connect_graph-IsKnown seeds = connect_producers-IsKnown seeds seeds (create_graph seeds) (record {
  consumers =
      λ p c edge. absurd (subst (λ l. Member c l) (seed_map-empty seeds [] (λ id. refl) p) edge);
  counted = λ x k. seed_map-known (seed_ids seeds) seeds [] (λ y bad. absurd bad) (λ y m. m) x k;
})

module _ (known : List Text) (graph : Graph) (v : IsKnown known graph) where
  -- What is pending or has a layer is known, and has one layer.
  record IsNamed (p : Progress) : Type 0 where
    waiting : (x : Text) → Member x p.pending → Member x known
    layered : (x : Text) → Member x (keys p.layers) → Member x known
    distinct : Distinct (keys p.layers)

  release_edge-IsNamed :
      (c : Text) (p : Progress) → Member c known → IsNamed p → IsNamed (release_edge c p)
  unfolding release_edge
  release_edge-IsNamed c p here n = record {
    waiting = λ x m. elim (Bool-cases (is_zero (pred (count_of c p.remaining)))) [
      | inl t ↦ elim ((Member-append x p.pending (c ∷ [])).0 (rw t at m)) [
        | inl k ↦ n.waiting x k
        | inr (inl e) ↦ subst (λ u. Member u known) e here
        | inr (inr bad) ↦ absurd bad
      ]
      | inr f ↦ n.waiting x (rw f at m)
    ];
    layered = n.layered;
    distinct = n.distinct;
  }

  release_edges-IsNamed :
      (cs : List Text) (p : Progress)
      → ((c : Text) → Member c cs → Member c known)
      → IsNamed p
      → IsNamed (release_edges cs p)
  unfolding release_edges
  release_edges-IsNamed [] p h n = n
  release_edges-IsNamed (c ∷ cs) p h n =
      release_edges-IsNamed cs (release_edge c p) (λ d m. h d (inr m))
        (release_edge-IsNamed c p (h c (inl refl)) n)

  release_rules-IsNamed :
      (ids : List Text) (layer : ℕ) (p : Progress)
      → ((x : Text) → Member x ids → Member x known)
      → IsNamed p
      → IsNamed (release_rules ids layer graph.downstream p)
  unfolding release_rules release_rule
  release_rules-IsNamed [] layer p h n = n
  release_rules-IsNamed (id ∷ ids) layer p h n =
      release_rules-IsNamed ids layer _ (λ x m. h x (inr m))
        (release_edges-IsNamed (consumers_of id graph.downstream) _ (λ c m. v.consumers id c m)
          (record {
            waiting = n.waiting;
            layered = λ x m. elim (put_key x id layer p.layers m) [
              | inl k ↦ n.layered x k
              | inr e ↦ subst (λ u. Member u known) e (h id (inl refl))
            ];
            distinct = Distinct-put id layer p.layers n.distinct;
          }))

  layer_rounds-IsNamed :
      (fuel : ℕ) (current : List Text) (layer : ℕ) (remaining : Map Text ℤ)
      (layers final : Map Text ℕ)
      → ((x : Text) → Member x current → Member x known)
      → IsNamed (record { layers = layers; pending = []; remaining = remaining })
      → layer_rounds fuel current layer graph.downstream remaining layers ≡ some final
      → Distinct (keys final) × ((x : Text) → Member x (keys final) → Member x known)
  unfolding layer_rounds
  layer_rounds-IsNamed fuel [] layer remaining layers final h n e =
      let same : layers ≡ final = some-injective e in
      (
        subst (λ m. Distinct (keys m)) same n.distinct,
        λ x k. n.layered x (subst (λ m. Member x (keys m)) (sym same) k),
      )
    where
      some-injective : some layers ≡ some final → layers ≡ final
      some-injective q = cc
  layer_rounds-IsNamed zero (id ∷ current) layer remaining layers final h n e = cc
  layer_rounds-IsNamed (suc fuel) (id ∷ current) layer remaining layers final h n e =
      let start : Progress = record { layers = layers; pending = []; remaining = remaining } in
      let p = release_rules (id ∷ current) layer graph.downstream start in
      let m = release_rules-IsNamed (id ∷ current) layer start h n in
      layer_rounds-IsNamed fuel (sort_texts p.pending) (suc layer) p.remaining p.layers final
        (λ x k. m.waiting x (Member-sort_texts x p.pending k))
        (record { waiting = λ x bad. absurd bad; layered = m.layered; distinct = m.distinct }) e

  topological_layers-IsNamed :
      (final : Map Text ℕ)
      → topological_layers graph ≡ some final
      → Distinct (keys final) × ((x : Text) → Member x (keys final) → Member x known)
  unfolding topological_layers zero_indegree_ids
  topological_layers-IsNamed final e =
      let remaining = counts graph.indegree in
      layer_rounds-IsNamed (suc (total remaining)) (zero_indegree_ids remaining) 0 remaining []
        final
        (λ x m.
          v.counted x (free-key x graph.indegree (Member-sort_texts x (free_ids remaining) m)))
        (record { waiting = λ x bad. absurd bad; layered = λ x bad. absurd bad; distinct = tt }) e

length-map : {A B : Type 0} (f : A → B) (xs : List A) → length (map f xs) ≡ length xs
length-map f [] = refl
length-map f (x ∷ xs) = ap suc (length-map f xs)

-- As many layers as rules: every rule has one.
all_layered :
    (seeds : List Seed) (final : Map Text ℕ)
    → topological_layers (connect_graph seeds (create_graph seeds)) ≡ some final
    → length final ≡ length seeds
    → (x : Text) → Member x (seed_ids seeds)
    → (l : ℕ) × (get x final ≡ some l)
all_layered seeds final e same x m =
    let graph = connect_graph seeds (create_graph seeds) in
    let (distinct, inside) =
      topological_layers-IsNamed (seed_ids seeds) graph (connect_graph-IsKnown seeds) final e in
    elim (Bool-cases (has x (keys final))) [
      | inl t ↦ key_of x final ((has_iff x (keys final)).0 t)
      | inr f ↦
          let more =
            Distinct-length (x ∷ keys final) (seed_ids seeds) (f, distinct)
              (λ y k. elim k [
                | inl h ↦ subst (λ u. Member u (seed_ids seeds)) h m
                | inr n ↦ inside y n
              ]) in
          absurd (
            omega (
              arith,
              more,
              same,
              length-map (λ (entry : Text × ℕ). entry.0) final,
              length-map (λ (seed : Seed). seed.definition.id) seeds,
            ))
    ]

-- Where no cycle is reported every rule has a layer, and whatever is downstream of a rule has a higher
-- layer than the rule: the dependencies of the rules have no cycle, and the layers order them.
pub build_rule_dependency_graph-IsLayered :
    (seeds : List Seed) (result : RuleGraphResult)
    → build_rule_dependency_graph seeds ≡ some result
    → (Member cycle_diagnostic result.diagnostics → ⊥)
    → ((id : Text)
        → Member id (seed_ids seeds)
        → (l : ℕ) × (get id result.layer_by_rule_id ≡ some l))
      × ((p c : Text)
          → Member c (consumers_of p result.downstream_by_rule_id)
          → (l : ℕ) × (get c result.layer_by_rule_id ≡ some l)
            × IsLayered p l result.layer_by_rule_id)
unfolding build_rule_dependency_graph
build_rule_dependency_graph-IsLayered seeds result built silent =
    let graph = connect_graph seeds (create_graph seeds) in
    let (layers, e, ranked) = topological_layers-IsRanked graph (connect_graph-IsCounted seeds) in
    let writers = conflicting_writer_diagnostics seeds in
    let made : RuleGraphResult = record {
      diagnostics =
          if nat_same (length layers) (length seeds)
          then writers
          else writers ++ cycle_diagnostic ∷ [];
      downstream_by_rule_id = frozen_downstream graph.downstream;
      layer_by_rule_id = layers;
    } in
    let answer : build_rule_dependency_graph seeds ≡ some made =
      rw (e, build_rule_dependency_graph) refl in
    let same : made ≡ result = some-injective (sym answer ∙ built) in
    let full : length layers ≡ length seeds =
      elim (Bool-cases (nat_same (length layers) (length seeds))) [
        | inl t ↦ (nat_same_iff (length layers) (length seeds)).0 t
        | inr f ↦
            let at : made.diagnostics ≡ writers ++ cycle_diagnostic ∷ [] = rw f refl in
            absurd (
              silent (
                subst (λ (r : RuleGraphResult). Member cycle_diagnostic r.diagnostics) same
                  (subst (λ l. Member cycle_diagnostic l) (sym at)
                    ((Member-append cycle_diagnostic writers (cycle_diagnostic ∷ [])).1
                      (inr (inl refl))))))
      ] in
    subst
      (λ (r : RuleGraphResult).
        ((id : Text) → Member id (seed_ids seeds) → (l : ℕ) × (get id r.layer_by_rule_id ≡ some l))
        × ((p c : Text)
            → Member c (consumers_of p r.downstream_by_rule_id)
            → (l : ℕ) × (get c r.layer_by_rule_id ≡ some l) × IsLayered p l r.layer_by_rule_id))
      same
      (
        λ id m. all_layered seeds layers e full id m,
        λ p c edge.
            let there = frozen_edges p c graph.downstream edge in
            let (l, at) =
              all_layered seeds layers e full c
                ((connect_graph-IsKnown seeds).consumers p c there) in
            (l, at, ranked c l at p there),
      )
  where
    some-injective : {r s : RuleGraphResult} → some r ≡ some s → r ≡ s
    some-injective q = cc

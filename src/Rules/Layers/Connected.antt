-- ===== src/Rules/Layers/Connected.antt =====
-- The edges that `connectGraph` of packages/rules/src/dependency-graph.ts makes.
use unifold.Prelude.{
  ℕ, suc, ◌≡◌, refl, sym, ◌∙◌, subst, inl, inr, false, some, List, [], ◌∷◌, ◌++◌, arith, Bool-cases,
  Option-cases, ◌==◌, nat_eq, ==_iff, all, Text, text_eq, Map, get, put, Member, has,
}
use unifold.Rules.Types.{RuleDependency}
use unifold.Rules.Graph.{
  Seed, Graph, InputIndex, seed_map, create_graph, increment_indegree, add_edge, add_edges,
  connect_outputs, connect_producers, connect_graph, candidate_rule_ids, create_rule_input_index,
}
use unifold.Rules.Layers.{consumers_of}
use unifold.Rules.Layers.Rounds.{Distinct, Distinct-last}
use unifold.Rules.Layers.Counts.{
  keys, IsCounted, Distinct-put, consumers_of-put, indegree_of-increment, if_true, if_false,
  consumers_lem, old-IsEdge,
}

-- The graph with one more edge.
new_edge :
    (p c : Text) (cs : List Text) (graph : Graph)
    → IsCounted graph
    → get p graph.downstream ≡ some cs
    → has c cs ≡ false
    → IsCounted (record {
      downstream = put p (cs ++ c ∷ []) graph.downstream;
      indegree = increment_indegree c graph.indegree;
    })
unfolding increment_indegree
new_edge p c cs graph v at new = record {
  sets = λ id. elim (Bool-cases (p == id)) [
    | inl t ↦
        subst (λ l. Distinct l)
          (sym (consumers_of-put p id (cs ++ c ∷ []) graph.downstream ∙ if_true _ _ _ t))
          (Distinct-last cs c
            (subst (λ l. Distinct l) (consumers_lem p cs graph.downstream at) (v.sets p)) new)
    | inr f ↦
        subst (λ l. Distinct l)
          (sym (consumers_of-put p id (cs ++ c ∷ []) graph.downstream ∙ if_false _ _ _ f))
          (v.sets id)
  ];
  counted = λ d.
      let (ws, short, all) = v.counted d in
      elim (Bool-cases (c == d)) [
        | inl t ↦
            let more = indegree_of-increment c d graph.indegree ∙ if_true _ _ _ t in
            (
              p ∷ ws,
              rw more (omega arith),
              λ q edge. elim (old-IsEdge p c cs graph at q d edge) [
                | inl k ↦ inr (all q k)
                | inr e ↦ inl e.0
              ],
            )
        | inr f ↦
            let same = indegree_of-increment c d graph.indegree ∙ if_false _ _ _ f in
            (
              ws,
              rw same short,
              λ q edge. elim (old-IsEdge p c cs graph at q d edge) [
                | inl k ↦ all q k
                | inr e ↦ absurd (ground (arith, ==_iff c d, e.1))
              ],
            )
      ];
  unique_keys = elim (Option-cases (get c graph.indegree)) [
    | inl e ↦ rw (e, increment_indegree) (Distinct-put c 1 graph.indegree v.unique_keys)
    | inr (n, e) ↦ rw (e, increment_indegree) (Distinct-put c (suc n) graph.indegree v.unique_keys)
  ];
}

add_edge-IsCounted : (p c : Text) (graph : Graph) → IsCounted graph → IsCounted (add_edge p c graph)
unfolding add_edge
add_edge-IsCounted p c graph v = elim (Option-cases (get p graph.downstream)) [
  | inl e ↦ rw (e, add_edge) v
  | inr (cs, e) ↦ elim (Bool-cases (has c cs)) [
    | inl t ↦ rw (e, add_edge, t) v
    | inr f ↦ rw (e, add_edge, f) (new_edge p c cs graph v e f)
  ]
]

add_edges-IsCounted :
    (p : Text) (ids : List Text) (graph : Graph)
    → IsCounted graph
    → IsCounted (add_edges p ids graph)
unfolding add_edges
add_edges-IsCounted p [] graph v = v
add_edges-IsCounted p (id ∷ ids) graph v =
    add_edges-IsCounted p ids (add_edge p id graph) (add_edge-IsCounted p id graph v)

connect_outputs-IsCounted :
    (p : Text) (outputs : List RuleDependency) (index : InputIndex) (graph : Graph)
    → IsCounted graph
    → IsCounted (connect_outputs p outputs index graph)
unfolding connect_outputs
connect_outputs-IsCounted p [] index graph v = v
connect_outputs-IsCounted p (o ∷ os) index graph v =
    connect_outputs-IsCounted p os index _
      (add_edges-IsCounted p (candidate_rule_ids o index) graph v)

connect_producers-IsCounted :
    (seeds : List Seed) (index : InputIndex) (graph : Graph)
    → IsCounted graph
    → IsCounted (connect_producers seeds index graph)
unfolding connect_producers
connect_producers-IsCounted [] index graph v = v
connect_producers-IsCounted (seed ∷ seeds) index graph v =
    connect_producers-IsCounted seeds index _
      (connect_outputs-IsCounted seed.definition.id seed.outputs index graph v)

pub seed_map-empty :
    (seeds : List Seed) (m : Map Text (List Text))
    → ((id : Text) → consumers_of id m ≡ [])
    → (id : Text) → consumers_of id (seed_map [] seeds m) ≡ []
unfolding seed_map
seed_map-empty [] m h id = h id
seed_map-empty (seed ∷ seeds) m h id =
    seed_map-empty seeds (put seed.definition.id [] m)
      (λ j.
        consumers_of-put seed.definition.id j [] m
        ∙ (elim (Bool-cases (seed.definition.id == j)) [ inl t ↦ rw t refl | inr f ↦ rw f (h j) ]))
      id

seed_map-Distinct :
    (seeds : List Seed) (m : Map Text ℕ) → Distinct (keys m) → Distinct (keys (seed_map 0 seeds m))
unfolding seed_map
seed_map-Distinct [] m d = d
seed_map-Distinct (seed ∷ seeds) m d =
    seed_map-Distinct seeds (put seed.definition.id 0 m) (Distinct-put seed.definition.id 0 m d)

pub connect_graph-IsCounted :
    (seeds : List Seed) → IsCounted (connect_graph seeds (create_graph seeds))
unfolding connect_graph create_graph consumers_of get
connect_graph-IsCounted seeds =
    let empty : (id : Text) → consumers_of id (seed_map [] seeds []) ≡ [] =
      seed_map-empty seeds [] (λ id. refl) in
    connect_producers-IsCounted seeds (create_rule_input_index seeds) (create_graph seeds) (record {
      sets = λ id. subst (λ l. Distinct l) (sym (empty id)) tt;
      counted = λ c. ([], omega arith, λ p edge. absurd (subst (λ l. Member c l) (empty p) edge));
      unique_keys = seed_map-Distinct seeds [] tt;
    })

-- ===== src/Rules/Layers/Recorded.antt =====
-- The edges that `connectGraph` of packages/rules/src/dependency-graph.ts records: none is lost.
use unifold.Prelude.{
  ◌≡◌, refl, sym, ap, ◌∙◌, subst, ◌⊎◌, inl, inr, none, some, List, [], ◌∷◌, ◌++◌, arith, Bool-cases,
  Option-cases, ◌==◌, nat_eq, ==_iff, ==_refl, Text, text_eq, sort_texts, Map, get, put, get-put,
  Member, has_iff, has, Member-append,
}
use unifold.Rules.Types.{RuleDependency}
use unifold.Rules.Graph.{
  Seed, Graph, InputIndex, seed_map, create_graph, add_edge, add_edges, connect_outputs,
  connect_producers, connect_graph, candidate_rule_ids, create_rule_input_index,
}
use unifold.Rules.Layers.{
  RuleGraphResult, consumers_of, frozen_downstream, topological_layers, build_rule_dependency_graph,
}
use unifold.Rules.Layers.Rounds.{IsEdge}
use unifold.Rules.Layers.Counts.{consumers_of-put, consumers_lem}
use unifold.Rules.Layers.Order.{has-sort_texts}

-- The rule has an entry.
abbrev IsKey : Text → Map Text (List Text) → Type 0
IsKey p m = (cs : List Text) × (get p m ≡ some cs)

-- The second graph has the entries and the edges of the first one.
record Grows (m n : Map Text (List Text)) : Type 0 where
  entries : (p : Text) → IsKey p m → IsKey p n
  edges : (p c : Text) → IsEdge m p c → IsEdge n p c

Grows-refl : (m : Map Text (List Text)) → Grows m m
Grows-refl m = record { entries = λ p k. k; edges = λ p c e. e }

Grows-trans : {l m n : Map Text (List Text)} → Grows l m → Grows m n → Grows l n
Grows-trans g h = record {
  entries = λ p k. h.entries p (g.entries p k);
  edges = λ p c e. h.edges p c (g.edges p c e);
}

Grows-put :
    (p c : Text) (cs : List Text) (m : Map Text (List Text))
    → get p m ≡ some cs
    → Grows m (put p (cs ++ c ∷ []) m)
Grows-put p c cs m at = record {
  entries = λ q (ds, e). elim (Bool-cases (p == q)) [
    | inl t ↦ (cs ++ c ∷ [], get-put p q (cs ++ c ∷ []) m ∙ rw t refl)
    | inr f ↦ (ds, get-put p q (cs ++ c ∷ []) m ∙ rw f e)
  ];
  edges = λ q d e. elim (Bool-cases (p == q)) [
    | inl t ↦
        let same = (==_iff p q).0 t in
        let old =
          subst (λ l. Member d l) (consumers_lem p cs m at)
            (subst (λ u. Member d (consumers_of u m)) (sym same) e) in
        subst (λ l. Member d l) (sym (consumers_of-put p q (cs ++ c ∷ []) m ∙ rw t refl))
          ((Member-append d cs (c ∷ [])).1 (inl old))
    | inr f ↦ subst (λ l. Member d l) (sym (consumers_of-put p q (cs ++ c ∷ []) m ∙ rw f refl)) e
  ];
}

-- One edge is recorded, if its producer has an entry.
add_edge_lem :
    (p c : Text) (graph : Graph)
    → Grows graph.downstream (add_edge p c graph).downstream
      × (IsKey p graph.downstream → IsEdge (add_edge p c graph).downstream p c)
unfolding add_edge
add_edge_lem p c graph = elim (Option-cases (get p graph.downstream)) [
  | inl e ↦ rw (e, add_edge) (Grows-refl graph.downstream, λ (cs, f). cc)
  | inr (cs, e) ↦ elim (Bool-cases (has c cs)) [
    | inl t ↦
        rw (e, add_edge, t)
          (
            Grows-refl graph.downstream,
            λ k.
                subst (λ l. Member c l) (sym (consumers_lem p cs graph.downstream e))
                  ((has_iff c cs).0 t),
          )
    | inr f ↦
        rw (e, add_edge, f)
          (
            Grows-put p c cs graph.downstream e,
            λ k.
                subst (λ l. Member c l)
                  (sym (consumers_of-put p p (cs ++ c ∷ []) graph.downstream ∙ rw (==_refl p) refl))
                  ((Member-append c cs (c ∷ [])).1 (inr (inl refl))),
          )
  ]
]

add_edges_lem :
    (p : Text) (ids : List Text) (graph : Graph)
    → Grows graph.downstream (add_edges p ids graph).downstream
      × ((c : Text)
          → Member c ids
          → IsKey p graph.downstream
          → IsEdge (add_edges p ids graph).downstream p c)
unfolding add_edges
add_edges_lem p [] graph = (Grows-refl graph.downstream, λ c bad k. absurd bad)
add_edges_lem p (id ∷ ids) graph =
    let (first, here) = add_edge_lem p id graph in
    let (more, there) = add_edges_lem p ids (add_edge p id graph) in
    (
      Grows-trans first more,
      λ c m k. elim m [
        | inl same ↦
            more.edges p c (subst (λ d. IsEdge (add_edge p id graph).downstream p d) same (here k))
        | inr n ↦ there c n (first.entries p k)
      ],
    )

connect_outputs_lem :
    (p : Text) (outputs : List RuleDependency) (index : InputIndex) (graph : Graph)
    → Grows graph.downstream (connect_outputs p outputs index graph).downstream
      × ((output : RuleDependency) (c : Text)
          → Member output outputs
          → Member c (candidate_rule_ids output index)
          → IsKey p graph.downstream
          → IsEdge (connect_outputs p outputs index graph).downstream p c)
unfolding connect_outputs
connect_outputs_lem p [] index graph = (Grows-refl graph.downstream, λ o c bad m k. absurd bad)
connect_outputs_lem p (o ∷ os) index graph =
    let (first, here) = add_edges_lem p (candidate_rule_ids o index) graph in
    let (more, there) =
      connect_outputs_lem p os index (add_edges p (candidate_rule_ids o index) graph) in
    (
      Grows-trans first more,
      λ output c at m k. elim at [
        | inl same ↦
            more.edges p c
              (here c (subst (λ x. Member c (candidate_rule_ids x index)) (sym same) m) k)
        | inr n ↦ there output c n m (first.entries p k)
      ],
    )

connect_producers_lem :
    (seeds : List Seed) (index : InputIndex) (graph : Graph)
    → Grows graph.downstream (connect_producers seeds index graph).downstream
      × ((seed : Seed) (output : RuleDependency) (c : Text)
          → Member seed seeds
          → Member output seed.outputs
          → Member c (candidate_rule_ids output index)
          → IsKey seed.definition.id graph.downstream
          → IsEdge (connect_producers seeds index graph).downstream seed.definition.id c)
unfolding connect_producers
connect_producers_lem [] index graph = (Grows-refl graph.downstream, λ s o c bad n m k. absurd bad)
connect_producers_lem (s ∷ ss) index graph =
    let (first, here) = connect_outputs_lem s.definition.id s.outputs index graph in
    let (more, there) =
      connect_producers_lem ss index (connect_outputs s.definition.id s.outputs index graph) in
    (
      Grows-trans first more,
      λ seed output c at n m k. elim at [
        | inl same ↦
            let id = ap (λ (x : Seed). x.definition.id) same in
            subst
              (λ p.
                IsEdge
                  (connect_producers ss index
                    (connect_outputs s.definition.id s.outputs index graph)).downstream
                  p c)
              id
              (more.edges s.definition.id c (
                here output c (subst (λ (x : Seed). Member output x.outputs) (sym same) n) m
                  (subst (λ p. IsKey p graph.downstream) (sym id) k)))
        | inr later ↦ there seed output c later n m (first.entries seed.definition.id k)
      ],
    )

seed_map-IsKey :
    (seeds : List Seed) (m : Map Text (List Text)) (p : Text)
    → IsKey p m ⊎ ((seed : Seed) × Member seed seeds × (seed.definition.id ≡ p))
    → IsKey p (seed_map [] seeds m)
unfolding seed_map
seed_map-IsKey [] m p (inl k) = k
seed_map-IsKey [] m p (inr (seed, bad, e)) = absurd bad
seed_map-IsKey (s ∷ ss) m p h = elim (Bool-cases (s.definition.id == p)) [
  | inl t ↦ seed_map-IsKey ss _ p (inl ([], get-put s.definition.id p [] m ∙ rw t refl))
  | inr f ↦ elim h [
    | inl (cs, e) ↦ seed_map-IsKey ss _ p (inl (cs, get-put s.definition.id p [] m ∙ rw f e))
    | inr (seed, inl same, e) ↦
        let bad : s.definition.id ≡ p = ap (λ (x : Seed). x.definition.id) same ∙ e in
        absurd (ground (arith, ==_iff s.definition.id p, bad))
    | inr (seed, inr at, e) ↦ seed_map-IsKey ss _ p (inr (seed, at, e))
  ]
]

frozen-IsEdge :
    (p c : Text) (m : Map Text (List Text)) → IsEdge m p c → IsEdge (frozen_downstream m) p c
unfolding consumers_of frozen_downstream get
frozen-IsEdge p c [] h = h
frozen-IsEdge p c ((j, cs) ∷ m) h = elim (Bool-cases (j == p)) [
  | inl t ↦
      let here : consumers_of p (frozen_downstream ((j, cs) ∷ m)) ≡ sort_texts cs =
        rw (t, consumers_of, frozen_downstream, get) refl in
      let there : consumers_of p ((j, cs) ∷ m) ≡ cs = rw (t, consumers_of, get) refl in
      subst (λ l. Member c l) (sym here)
        ((has_iff c (sort_texts cs)).0
          (has-sort_texts c cs ∙ (has_iff c cs).1 (subst (λ l. Member c l) there h)))
  | inr f ↦
      let here : consumers_of p (frozen_downstream ((j, cs) ∷ m))
          ≡ consumers_of p (frozen_downstream m) =
        rw (f, consumers_of, frozen_downstream, get) refl in
      let there : consumers_of p ((j, cs) ∷ m) ≡ consumers_of p m =
        rw (f, consumers_of, get) refl in
      subst (λ l. Member c l) (sym here) (frozen-IsEdge p c m (subst (λ l. Member c l) there h))
]

-- A rule that the index finds for an output of another one is downstream of that one in the graph.
pub build-IsEdge :
    (seeds : List Seed) (result : RuleGraphResult)
    → build_rule_dependency_graph seeds ≡ some result
    → (seed : Seed) (output : RuleDependency) (c : Text) → Member seed seeds
    → Member output seed.outputs
    → Member c (candidate_rule_ids output (create_rule_input_index seeds))
    → IsEdge result.downstream_by_rule_id seed.definition.id c
unfolding build_rule_dependency_graph connect_graph create_graph
build-IsEdge seeds result built seed output c at n m =
    let graph = connect_graph seeds (create_graph seeds) in
    let edge =
      (connect_producers_lem seeds (create_rule_input_index seeds) (create_graph seeds)).1 seed
        output c at n m (seed_map-IsKey seeds [] seed.definition.id (inr (seed, at, refl))) in
    let frozen = frozen-IsEdge seed.definition.id c graph.downstream edge in
    elim (Option-cases (topological_layers graph)) [
      | inl e ↦
          let bad : build_rule_dependency_graph seeds ≡ none =
            rw (e, build_rule_dependency_graph) refl in
          let worse = sym bad ∙ built in cc
      | inr (layers, e) ↦
          let answer = rw (e, build_rule_dependency_graph) at built in
          subst (λ d. IsEdge d seed.definition.id c) (downstream_lem answer) frozen
    ]
  where
    downstream_lem :
        {r s : RuleGraphResult}
        → some r ≡ some s
        → r.downstream_by_rule_id ≡ s.downstream_by_rule_id
    downstream_lem k = cc

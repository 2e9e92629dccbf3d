-- ===== src/Rules/Layers/Build.antt =====
-- The layers of the graph that `buildRuleDependencyGraph` of
-- packages/rules/src/dependency-graph.ts makes.
use unifold.Prelude.{
  ℕ, zero, suc, ◌≤◌, ◌≡◌, refl, sym, ap, ◌∙◌, subst, inl, inr, false, Option, none, some, List, [],
  ◌∷◌, ◌++◌, append-nil, arith, nat_same, if◌then◌else◌, Bool-cases, Option-cases, ◌==◌, nat_eq,
  ==_iff, length, all, Text, text_eq, sort_texts, Map, get, Member, has_iff, has,
}
use unifold.Rules.Graph.{Seed, Graph, create_graph, connect_graph}
use unifold.Rules.Layers.{
  ℤ, pos, is_zero, consumers_of, counts, free_ids, zero_indegree_ids, total, topological_layers,
  frozen_downstream, conflicting_writer_diagnostics, cycle_diagnostic, RuleGraphResult,
  build_rule_dependency_graph,
}
use unifold.Rules.Layers.Rounds.{Distinct, IsLayered, IsEdge, Inv}
use unifold.Rules.Layers.Order.{Member-sort_texts, Distinct-sort_texts}
use unifold.Rules.Layers.Ranks.{IsRanked, layer_rounds-IsRanked}
use unifold.Rules.Layers.Counts.{IsCounted, keys, indegree_of}
use unifold.Rules.Layers.Connected.{connect_graph-IsCounted}

abbrev pos_of : Option ℕ → Option ℤ
pos_of none = none
pos_of (some n) = some (pos n)

get-counts : (c : Text) (m : Map Text ℕ) → get c (counts m) ≡ pos_of (get c m)
unfolding get counts
get-counts c [] = refl
get-counts c ((j, n) ∷ m) = elim (Bool-cases (j == c)) [
  | inl t ↦ rw (t, get, counts) refl
  | inr f ↦ rw (f, get, counts) (get-counts c m)
]

indegree_lem :
    (c : Text) (n : ℕ) (m : Map Text ℕ) → get c (counts m) ≡ some (pos n) → indegree_of c m ≡ n
indegree_lem c n m e = elim (Option-cases (get c m)) [
  | inl h ↦ let bad = sym e ∙ get-counts c m ∙ ap pos_of h in cc
  | inr (k, h) ↦
      let same : some (pos n) ≡ some (pos k) = sym e ∙ get-counts c m ∙ ap pos_of h in
      rw (h, indegree_of) cc
]

pub free-key : (x : Text) (m : Map Text ℕ) → Member x (free_ids (counts m)) → Member x (keys m)
unfolding free_ids counts is_zero
free-key x [] k = absurd k
free-key x ((j, zero) ∷ m) (inl e) = inl e
free-key x ((j, zero) ∷ m) (inr k) = inr (free-key x m k)
free-key x ((j, suc n) ∷ m) k = inr (free-key x m k)

-- The id of a later entry is not the first one's.
later-count :
    (x j : Text) (n : ℕ) (m : Map Text ℕ)
    → has j (keys m) ≡ false
    → Member x (free_ids (counts m))
    → get x (counts m) ≡ some (pos 0)
    → get x (counts ((j, n) ∷ m)) ≡ some (pos 0)
unfolding get counts
later-count x j n m new k at = elim (Bool-cases (j == x)) [
  | inl t ↦
      let there =
        (has_iff j (keys m)).1
          (subst (λ u. Member u (keys m)) (sym ((==_iff j x).0 t)) (free-key x m k)) in
      cc
  | inr f ↦ rw (f, get, counts) at
]

free-count :
    (x : Text) (m : Map Text ℕ)
    → Distinct (keys m)
    → Member x (free_ids (counts m))
    → get x (counts m) ≡ some (pos 0)
unfolding free_ids counts is_zero get
free-count x [] d k = absurd k
free-count x ((j, zero) ∷ m) d (inl e) = ground (arith, ==_iff j x, e)
free-count x ((j, zero) ∷ m) d (inr k) = later-count x j 0 m d.0 k (free-count x m d.1 k)
free-count x ((j, suc n) ∷ m) d k = later-count x j (suc n) m d.0 k (free-count x m d.1 k)

free-Distinct : (m : Map Text ℕ) → Distinct (keys m) → Distinct (free_ids (counts m))
unfolding free_ids counts is_zero
free-Distinct [] d = tt
free-Distinct ((j, zero) ∷ m) d =
    let new : has j (free_ids (counts m)) ≡ false =
      elim (Bool-cases (has j (free_ids (counts m)))) [
        | inl t ↦
            let there =
              (has_iff j (keys m)).1 (free-key j m ((has_iff j (free_ids (counts m))).0 t)) in
            let new = d.0 in cc
        | inr f ↦ f
      ] in
    (new, free-Distinct m d.1)
free-Distinct ((j, suc n) ∷ m) d = free-Distinct m d.1

module _ (graph : Graph) (v : IsCounted graph) where
  abbrev first : List Text
  first = zero_indegree_ids (counts graph.indegree)

  first_free : (x : Text) → Member x first → get x (counts graph.indegree) ≡ some (pos 0)
  unfolding zero_indegree_ids
  first_free x m =
      free-count x graph.indegree v.unique_keys
        (Member-sort_texts x (free_ids (counts graph.indegree)) m)

  no_producers : (x : Text) → Member x first → (q : Text) → IsEdge graph.downstream q x → ⊥
  no_producers x m q edge =
      let (ws, short, all) = v.counted x in
      none_in ws (rw (indegree_lem x 0 graph.indegree (first_free x m)) at short) (all q edge)
    where
      none_in : (ws : List Text) → length ws ≤ 0 → Member q ws → ⊥
      none_in [] short k = k
      none_in (w ∷ ws) short k = absurd (omega arith)

  first-Inv :
      Inv graph.downstream 0 [] first
        (record { layers = []; pending = []; remaining = counts graph.indegree })
  unfolding get has zero_indegree_ids
  first-Inv =
      let back : (x : Text) → Member x (first ++ []) → Member x first =
        λ x m. subst (λ l. Member x l) (append-nil first) m in
      record {
        spent = λ x h n e. elim h [
          | inl m ↦ let zero_count = first_free x (back x m) in cc
          | inr (l, k) ↦ cc
        ];
        waits = λ c n e.
            let (ws, short, all) = v.counted c in
            (ws, rw (indegree_lem c (suc n) graph.indegree e) at short, λ q edge. inr (all q edge));
        distinct =
            subst (λ l. Distinct l) (sym (append-nil first))
              (Distinct-sort_texts (free_ids (counts graph.indegree))
                (free-Distinct graph.indegree v.unique_keys));
        fresh = λ x m. refl;
        ready = λ x m q edge. absurd (no_producers x m q edge);
        next = λ x m q edge. absurd m;
        below = λ x l e. cc;
        ranked = λ x l e q edge. cc;
      }

  pub topological_layers-IsRanked :
      (layers : Map Text ℕ) × (topological_layers graph ≡ some layers)
      × IsRanked graph.downstream v.sets layers
  unfolding topological_layers
  topological_layers-IsRanked =
      layer_rounds-IsRanked graph.downstream v.sets (suc (total (counts graph.indegree))) first 0
        (counts graph.indegree) [] (inr (omega arith)) first-Inv

pub frozen_edges :
    (p c : Text) (m : Map Text (List Text))
    → Member c (consumers_of p (frozen_downstream m))
    → Member c (consumers_of p m)
unfolding consumers_of frozen_downstream get
frozen_edges p c [] h = h
frozen_edges p c ((j, cs) ∷ m) h = elim (Bool-cases (j == p)) [
  | inl t ↦
      let here : consumers_of p (frozen_downstream ((j, cs) ∷ m)) ≡ sort_texts cs =
        rw (t, consumers_of, frozen_downstream, get) refl in
      let there : consumers_of p ((j, cs) ∷ m) ≡ cs = rw (t, consumers_of, get) refl in
      subst (λ l. Member c l) (sym there) (Member-sort_texts c cs (subst (λ l. Member c l) here h))
  | inr f ↦
      let here : consumers_of p (frozen_downstream ((j, cs) ∷ m))
          ≡ consumers_of p (frozen_downstream m) =
        rw (f, consumers_of, frozen_downstream, get) refl in
      let there : consumers_of p ((j, cs) ∷ m) ≡ consumers_of p m =
        rw (f, consumers_of, get) refl in
      subst (λ l. Member c l) (sym there) (frozen_edges p c m (subst (λ l. Member c l) here h))
]

-- The graph of any rules is built, and where a rule that has a layer is downstream of another one,
-- that one has a layer too, and a lower one. So the rules with layers have no cycle among them.
pub build_rule_dependency_graph-IsRanked :
    (seeds : List Seed)
    → (result : RuleGraphResult) × (build_rule_dependency_graph seeds ≡ some result)
      × ((p c : Text) (l : ℕ)
          → Member c (consumers_of p result.downstream_by_rule_id)
          → get c result.layer_by_rule_id ≡ some l
          → IsLayered p l result.layer_by_rule_id)
unfolding build_rule_dependency_graph
build_rule_dependency_graph-IsRanked seeds =
    let graph = connect_graph seeds (create_graph seeds) in
    let (layers, e, ranked) = topological_layers-IsRanked graph (connect_graph-IsCounted seeds) in
    (
      record {
        diagnostics =
            if nat_same (length layers) (length seeds)
            then conflicting_writer_diagnostics seeds
            else conflicting_writer_diagnostics seeds ++ cycle_diagnostic ∷ [];
        downstream_by_rule_id = frozen_downstream graph.downstream;
        layer_by_rule_id = layers;
      },
      rw (e, build_rule_dependency_graph) refl,
      λ p c l edge at. ranked c l at p (frozen_edges p c graph.downstream edge),
    )

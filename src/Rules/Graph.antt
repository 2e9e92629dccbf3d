-- ===== src/Rules/Graph.antt =====
-- packages/rules/src/dependency-graph.ts: the graph of the rules' dependencies.
pub mod Lineage
pub mod Index
pub mod Candidates
pub mod Overlaps
use unifold.Prelude.{
  ℕ, zero, suc, Option, none, some, List, [], ◌∷◌, ◌++◌, map, nat_same, if◌then◌else◌, nat_eq,
  length, Text, text_eq, Map, get, put, has, add_new,
}
use unifold.Rules.Types.{RuleDefinition, RuleDependency}
use unifold.Rules.Dependencies.{DependencyKey, dependency_key, key_eq}

pub record Seed : Type 0 where
  pub definition : RuleDefinition
  pub inputs : List RuleDependency
  pub outputs : List RuleDependency
  pub primary_output : RuleDependency
  pub referenced_inputs : List Text

pub record Graph : Type 0 where
  pub downstream : Map Text (List Text)
  pub indegree : Map Text ℕ

pub record InputIndex : Type 0 where
  pub descendants : Map DependencyKey (List Text)
  pub exact : Map DependencyKey (List Text)

-- The `Map` with an entry for each of the seeds.
unfoldable pub seed_map {ℓ} : {A : Type ℓ} → A → List Seed → Map Text A → Map Text A
seed_map value [] entries = entries
seed_map value (seed ∷ seeds) entries = seed_map value seeds (put seed.definition.id value entries)

unfoldable pub create_graph : List Seed → Graph
unfolding seed_map
create_graph seeds = record { downstream = seed_map [] seeds []; indegree = seed_map 0 seeds [] }

-- `current.slice(0, current.lastIndexOf("/"))`, where there is a slash.
unfoldable pub before_last_slash : Text → Option Text
before_last_slash [] = none
before_last_slash (c ∷ cs) = elim (before_last_slash cs) [
  | some head ↦ some (c ∷ head)
  | none ↦ if nat_same c 47 then some [] else none
]

-- The loop of `pointerLineage`, with fuel: the pointer gets shorter in each round.
unfoldable pub lineage_from : ℕ → Text → List Text
unfolding before_last_slash
lineage_from zero current = []
lineage_from (suc fuel) current = elim (before_last_slash current) [
  | none ↦ []
  | some [] ↦ []
  | some (c ∷ cs) ↦ (c ∷ cs) ∷ lineage_from fuel (c ∷ cs)
]

unfoldable pub pointer_lineage : Text → List Text
unfolding lineage_from
pointer_lineage pointer = pointer ∷ lineage_from (length pointer) pointer

unfoldable pub dependency_lineage : RuleDependency → List RuleDependency
unfolding pointer_lineage
dependency_lineage d =
    map (λ pointer. record { node_id = d.node_id; pointer = pointer }) (pointer_lineage d.pointer)

-- `map.get(key) ?? []`
unfoldable pub ids_of : DependencyKey → Map DependencyKey (List Text) → List Text
ids_of key index = elim (get key index) [ none ↦ [] | some ids ↦ ids ]

unfoldable pub add_indexed_id :
    DependencyKey → Text → Map DependencyKey (List Text) → Map DependencyKey (List Text)
unfolding ids_of
add_indexed_id key rule_id index = put key (add_new rule_id (ids_of key index)) index

unfoldable pub index_lineage :
    Text → List RuleDependency → Map DependencyKey (List Text) → Map DependencyKey (List Text)
unfolding add_indexed_id dependency_key
index_lineage rule_id [] index = index
index_lineage rule_id (d ∷ ds) index =
    index_lineage rule_id ds (add_indexed_id (dependency_key d) rule_id index)

unfoldable pub index_input : Text → RuleDependency → InputIndex → InputIndex
unfolding add_indexed_id index_lineage dependency_lineage dependency_key
index_input rule_id input index = record {
  descendants = index_lineage rule_id (dependency_lineage input) index.descendants;
  exact = add_indexed_id (dependency_key input) rule_id index.exact;
}

unfoldable pub index_inputs : Text → List RuleDependency → InputIndex → InputIndex
unfolding index_input
index_inputs rule_id [] index = index
index_inputs rule_id (input ∷ inputs) index =
    index_inputs rule_id inputs (index_input rule_id input index)

unfoldable pub index_seeds : List Seed → InputIndex → InputIndex
unfolding index_inputs
index_seeds [] index = index
index_seeds (seed ∷ seeds) index =
    index_seeds seeds (index_inputs seed.definition.id seed.inputs index)

unfoldable pub create_rule_input_index : List Seed → InputIndex
unfolding index_seeds
create_rule_input_index seeds = index_seeds seeds (record { descendants = []; exact = [] })

-- `addExistingIds`
unfoldable pub add_all : List Text → List Text → List Text
add_all [] target = target
add_all (id ∷ ids) target = add_all ids (add_new id target)

unfoldable pub add_exact :
    List RuleDependency → Map DependencyKey (List Text) → List Text → List Text
unfolding add_all ids_of dependency_key
add_exact [] exact candidates = candidates
add_exact (d ∷ ds) exact candidates =
    add_exact ds exact (add_all (ids_of (dependency_key d) exact) candidates)

unfoldable pub candidate_rule_ids : RuleDependency → InputIndex → List Text
unfolding add_exact dependency_lineage ids_of dependency_key
candidate_rule_ids output index =
    add_exact (dependency_lineage output) index.exact
      (ids_of (dependency_key output) index.descendants)

-- `incrementIndegree`
unfoldable pub increment_indegree : Text → Map Text ℕ → Map Text ℕ
increment_indegree rule_id indegree = elim (get rule_id indegree) [
  | none ↦ put rule_id 1 indegree
  | some n ↦ put rule_id (suc n) indegree
]

unfoldable pub add_edge : Text → Text → Graph → Graph
unfolding increment_indegree
add_edge producer_id consumer_id graph = elim (get producer_id graph.downstream) [
  | none ↦ graph
  | some consumers ↦ if has consumer_id consumers then graph else record {
    downstream = put producer_id (consumers ++ consumer_id ∷ []) graph.downstream;
    indegree = increment_indegree consumer_id graph.indegree;
  }
]

unfoldable pub add_edges : Text → List Text → Graph → Graph
unfolding add_edge
add_edges producer_id [] graph = graph
add_edges producer_id (id ∷ ids) graph = add_edges producer_id ids (add_edge producer_id id graph)

unfoldable pub connect_outputs : Text → List RuleDependency → InputIndex → Graph → Graph
unfolding add_edges candidate_rule_ids
connect_outputs producer_id [] index graph = graph
connect_outputs producer_id (output ∷ outputs) index graph =
    connect_outputs producer_id outputs index
      (add_edges producer_id (candidate_rule_ids output index) graph)

-- `connectProducer` for each of the seeds.
unfoldable pub connect_producers : List Seed → InputIndex → Graph → Graph
unfolding connect_outputs
connect_producers [] index graph = graph
connect_producers (producer ∷ producers) index graph =
    connect_producers producers index
      (connect_outputs producer.definition.id producer.outputs index graph)

unfoldable pub connect_graph : List Seed → Graph → Graph
unfolding connect_producers create_rule_input_index
connect_graph seeds graph = connect_producers seeds (create_rule_input_index seeds) graph

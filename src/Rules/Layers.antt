-- ===== src/Rules/Layers.antt =====
-- packages/rules/src/dependency-graph.ts: the layers of the rules, and the diagnostics of cycles and
-- of rules that write the same place.
pub mod Rounds
pub mod Edges
pub mod Order
pub mod Ranks
pub mod Counts
pub mod Connected
pub mod Recorded
pub mod Names
pub mod Build
pub mod Acyclic
use unifold.Prelude.{
  ℕ, zero, suc, ◌+◌, Bool, true, false, Option, none, some, List, [], ◌∷◌, ◌++◌, nat_same,
  if◌then◌else◌, nat_eq, length, Text, text, text_eq, sort_texts, Map, get, put, delete,
}
use unifold.Rules.Types.{RuleDefinition, RuleDependency}
use unifold.Rules.Dependencies.{DependencyKey, dependency_key, key_eq}
use unifold.Rules.Graph.{Seed, Graph, create_graph, connect_graph}

pub data RuleDiagnosticCode : Type 0 where
  budget_exceeded cycle duplicate_input_name duplicate_rule_id : RuleDiagnosticCode
  invalid_expression invalid_input invalid_output invalid_rule : RuleDiagnosticCode
  multiple_writers undeclared_input unknown_node unknown_operator : RuleDiagnosticCode
  unused_input : RuleDiagnosticCode

pub record RuleDiagnostic : Type 0 where
  pub code : RuleDiagnosticCode
  pub message : Text
  pub path : Text
  pub rule_id : Option Text

pub record RuleGraphResult : Type 0 where
  pub diagnostics : List RuleDiagnostic
  pub downstream_by_rule_id : Map Text (List Text)
  pub layer_by_rule_id : Map Text ℕ

-- A count that is decremented may fall below 0.
pub data ℤ : Type 0 where
  pos : ℕ → ℤ
  negsuc : ℕ → ℤ

unfoldable pub pred : ℤ → ℤ
pred (pos zero) = negsuc 0
pred (pos (suc n)) = pos n
pred (negsuc n) = negsuc (suc n)

unfoldable pub is_zero : ℤ → Bool
is_zero (pos zero) = true
is_zero (pos (suc n)) = false
is_zero (negsuc n) = false

-- What the loop of `topologicalLayers` changes.
pub record Progress : Type 0 where
  pub layers : Map Text ℕ
  pub pending : List Text
  pub remaining : Map Text ℤ

-- `remaining.get(consumer) ?? 0`
unfoldable pub count_of : Text → Map Text ℤ → ℤ
count_of id remaining = elim (get id remaining) [ none ↦ pos 0 | some count ↦ count ]

unfoldable pub release_edge : Text → Progress → Progress
unfolding count_of pred is_zero
release_edge consumer p =
    let next = pred (count_of consumer p.remaining) in
    record p {
      pending = if is_zero next then p.pending ++ consumer ∷ [] else p.pending;
      remaining = put consumer next p.remaining;
    }

unfoldable pub release_edges : List Text → Progress → Progress
unfolding release_edge
release_edges [] p = p
release_edges (consumer ∷ consumers) p = release_edges consumers (release_edge consumer p)

-- The consumers of a rule, none if it has no entry.
unfoldable pub consumers_of : Text → Map Text (List Text) → List Text
consumers_of id downstream = elim (get id downstream) [ none ↦ [] | some consumers ↦ consumers ]

unfoldable pub release_rule : Text → ℕ → Map Text (List Text) → Progress → Progress
unfolding release_edges consumers_of
release_rule id layer downstream p =
    release_edges (consumers_of id downstream)
      (record p { layers = put id layer p.layers; remaining = delete id p.remaining })

unfoldable pub release_rules : List Text → ℕ → Map Text (List Text) → Progress → Progress
unfolding release_rule
release_rules [] layer downstream p = p
release_rules (id ∷ ids) layer downstream p =
    release_rules ids layer downstream (release_rule id layer downstream p)

-- The loop, with fuel: each round releases what is pending.
unfoldable pub layer_rounds :
    ℕ → List Text → ℕ → Map Text (List Text) → Map Text ℤ → Map Text ℕ → Option (Map Text ℕ)
unfolding release_rules
layer_rounds fuel [] layer downstream remaining layers = some layers
layer_rounds zero (id ∷ current) layer downstream remaining layers = none
layer_rounds (suc fuel) (id ∷ current) layer downstream remaining layers =
    let p =
      release_rules (id ∷ current) layer downstream
        (record { layers = layers; pending = []; remaining = remaining }) in
    layer_rounds fuel (sort_texts p.pending) (suc layer) downstream p.remaining p.layers

-- `new Map(graph.indegree)`
unfoldable pub counts : Map Text ℕ → Map Text ℤ
counts [] = []
counts ((id, n) ∷ indegree) = (id, pos n) ∷ counts indegree

unfoldable pub free_ids : Map Text ℤ → List Text
unfolding is_zero
free_ids [] = []
free_ids ((id, count) ∷ remaining) =
    let rest = free_ids remaining in if is_zero count then id ∷ rest else rest

unfoldable pub zero_indegree_ids : Map Text ℤ → List Text
unfolding free_ids
zero_indegree_ids remaining = sort_texts (free_ids remaining)

-- The sum of the counts that are above 0.
unfoldable pub total : Map Text ℤ → ℕ
total [] = 0
total ((id, pos n) ∷ remaining) = n + total remaining
total ((id, negsuc n) ∷ remaining) = total remaining

unfoldable pub topological_layers : Graph → Option (Map Text ℕ)
unfolding counts zero_indegree_ids layer_rounds total
topological_layers graph =
    let remaining = counts graph.indegree in
    layer_rounds (suc (total remaining)) (zero_indegree_ids remaining) 0 graph.downstream remaining
      []

unfoldable pub writers_diagnostic : Seed → Seed → RuleDiagnostic
writers_diagnostic existing seed = record {
  code = multiple_writers;
  message =
      text "Rules "
      ++ existing.definition.id
      ++ text " and "
      ++ seed.definition.id
      ++ text " write the same state path.";
  path = text "/rules";
  rule_id = some seed.definition.id;
}

-- `indexWriter` for each of the seeds.
unfoldable pub index_writers : List Seed → Map DependencyKey Seed → List RuleDiagnostic
unfolding writers_diagnostic dependency_key
index_writers [] writers = []
index_writers (seed ∷ seeds) writers = elim (get (dependency_key seed.primary_output) writers) [
  | none ↦ index_writers seeds (put (dependency_key seed.primary_output) seed writers)
  | some existing ↦ writers_diagnostic existing seed ∷ index_writers seeds writers
]

unfoldable pub conflicting_writer_diagnostics : List Seed → List RuleDiagnostic
unfolding index_writers
conflicting_writer_diagnostics seeds = index_writers seeds []

unfoldable pub cycle_diagnostic : RuleDiagnostic
cycle_diagnostic = record {
  code = cycle;
  message = text "Derived rule dependencies contain a cycle.";
  path = text "/rules";
  rule_id = none;
}

unfoldable pub frozen_downstream : Map Text (List Text) → Map Text (List Text)
frozen_downstream [] = []
frozen_downstream ((id, values) ∷ downstream) =
    (id, sort_texts values) ∷ frozen_downstream downstream

unfoldable pub build_rule_dependency_graph : List Seed → Option RuleGraphResult
unfolding conflicting_writer_diagnostics create_graph connect_graph topological_layers
    cycle_diagnostic frozen_downstream
build_rule_dependency_graph seeds =
    let graph = connect_graph seeds (create_graph seeds) in
    let diagnostics = conflicting_writer_diagnostics seeds in
    elim (topological_layers graph) [
      | none ↦ none
      | some layers ↦ some (record {
        diagnostics =
            if nat_same (length layers) (length seeds)
            then diagnostics
            else diagnostics ++ cycle_diagnostic ∷ [];
        downstream_by_rule_id = frozen_downstream graph.downstream;
        layer_by_rule_id = layers;
      })
    ]

-- ===== src/Rules/Compiler.antt =====
-- packages/rules/src/compiler.ts: the program of the rules that are valid. `localeCompare` is a
-- parameter, as the order it gives; so are the diagnostics of the validation.
pub mod Order
pub mod Indexed
use unifold.Prelude.{
  ℕ, ◌⊎◌, inl, inr, Bool, true, false, Option, none, some, List, [], ◌∷◌, ◌++◌, map, ltb,
  if◌then◌else◌, nat_eq, Text, text_eq, sort_texts, Map, get, put, add_new,
}
use unifold.Rules.Types.{RuleDefinition, RuleDependency, CompiledRule, CompiledProgram}
use unifold.Rules.Graph.{Seed}
use unifold.Rules.Layers.{
  RuleDiagnostic, RuleGraphResult, consumers_of, build_rule_dependency_graph,
}

-- `layers.get(id) ?? 0`
unfoldable pub layer_of : Text → Map Text ℕ → ℕ
layer_of id layers = elim (get id layers) [ none ↦ 0 | some layer ↦ layer ]

unfoldable pub compiled_rule : Map Text (List Text) → Map Text ℕ → Seed → CompiledRule
unfolding layer_of consumers_of
compiled_rule downstream layers seed = record {
  definition = seed.definition;
  downstream_rule_ids = consumers_of seed.definition.id downstream;
  input_dependencies = seed.inputs;
  layer = layer_of seed.definition.id layers;
  output_dependencies = seed.outputs;
  primary_output = seed.primary_output;
  referenced_inputs = seed.referenced_inputs;
}

module _ (locale_leb : Text → Text → Bool) where
  -- `compareRules(left, right) <= 0`
  unfoldable pub rule_leb : CompiledRule → CompiledRule → Bool
  rule_leb left right =
      if ltb left.layer right.layer
      then true
      else if ltb right.layer left.layer
      then false
      else locale_leb left.definition.id right.definition.id

  unfoldable pub insert_rule : CompiledRule → List CompiledRule → List CompiledRule
  unfolding rule_leb
  insert_rule rule [] = rule ∷ []
  insert_rule rule (r ∷ rs) = if rule_leb rule r then rule ∷ r ∷ rs else r ∷ insert_rule rule rs

  -- `sort(compareRules)`, which is stable.
  unfoldable pub sort_rules : List CompiledRule → List CompiledRule
  unfolding insert_rule
  sort_rules [] = []
  sort_rules (rule ∷ rules) = insert_rule rule (sort_rules rules)

unfoldable pub index_by_id : List CompiledRule → Map Text CompiledRule → Map Text CompiledRule
index_by_id [] index = index
index_by_id (rule ∷ rules) index = index_by_id rules (put rule.definition.id rule index)

unfoldable pub add_indexed_rule : Text → Text → Map Text (List Text) → Map Text (List Text)
unfolding consumers_of
add_indexed_rule node_id rule_id index =
    put node_id (add_new rule_id (consumers_of node_id index)) index

unfoldable pub index_inputs_by_node :
    Text → List RuleDependency → Map Text (List Text) → Map Text (List Text)
unfolding add_indexed_rule
index_inputs_by_node rule_id [] index = index
index_inputs_by_node rule_id (input ∷ inputs) index =
    index_inputs_by_node rule_id inputs (add_indexed_rule input.node_id rule_id index)

unfoldable pub index_by_node : List CompiledRule → Map Text (List Text) → Map Text (List Text)
unfolding index_inputs_by_node
index_by_node [] index = index
index_by_node (rule ∷ rules) index =
    index_by_node rules (index_inputs_by_node rule.definition.id rule.input_dependencies index)

unfoldable pub sorted_values : Map Text (List Text) → Map Text (List Text)
sorted_values [] = []
sorted_values ((id, values) ∷ index) = (id, sort_texts values) ∷ sorted_values index

unfoldable pub index_rules_by_node : List CompiledRule → Map Text (List Text)
unfolding index_by_node sorted_values
index_rules_by_node rules = sorted_values (index_by_node rules [])

unfoldable pub create_program :
    (Text → Text → Bool) → List Seed → Map Text (List Text) → Map Text ℕ → CompiledProgram
unfolding sort_rules compiled_rule index_by_id index_rules_by_node
create_program locale_leb seeds downstream layers =
    let rules = sort_rules locale_leb (map (compiled_rule downstream layers) seeds) in
    record {
      rules = rules;
      rules_by_id = index_by_id rules [];
      rules_by_node_id = index_rules_by_node rules;
    }

-- The end of `compileDerivedRules`, from the seeds that are valid: the diagnostics, or the program.
unfoldable pub compile_seeds :
    (Text → Text → Bool)
    → List RuleDiagnostic
    → List Seed
    → Option (List RuleDiagnostic ⊎ CompiledProgram)
unfolding build_rule_dependency_graph create_program
compile_seeds locale_leb validation seeds = elim (build_rule_dependency_graph seeds) [
  | none ↦ none
  | some graph ↦ elim (validation ++ graph.diagnostics) [
    | [] ↦
        some
          (inr (create_program locale_leb seeds graph.downstream_by_rule_id graph.layer_by_rule_id))
    | ◌∷◌ d ds ↦ some (inl (d ∷ ds))
  ]
]

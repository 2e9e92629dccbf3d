-- ===== src/Rules/Tests.antt =====
-- Two rules, of which the second reads what the first one writes.
use unifold.Prelude.{
  ℕ, ◌≤◌, ◌<◌, ◌≡◌, refl, sym, ap, ◌∙◌, subst, ◌≢◌, ◌↔◌, ◌⊎◌, inl, inr, true, Option, none, some,
  List, [], ◌∷◌, nat_eq, length, keep, Text, text, text_same, text_eq, text_leb, sort_texts,
  insert_text, get, put, delete, Member, has, add_new,
}
use unifold.Rules.Compiler.{compile_seeds}
use unifold.Rules.Compiler.Indexed.{compile_seeds-IsIndexed}
use unifold.Rules.Compiler.Order.{InOrder, IsRootedSeeds, compile_seeds-InOrder}
use unifold.Rules.Layers.Acyclic.{seed_ids, build_rule_dependency_graph-IsLayered}
use unifold.Rules.Layers.{RuleGraphResult, consumers_of, build_rule_dependency_graph}
use unifold.Rules.Layers.Rounds.{IsLayered}
use unifold.Contracts.Json.{null, string}
use unifold.Rules.Types.{
  RuleDefinition, RuleDependency, RuleOutput, control_set_value, node_patch_property, CompiledRule,
  CompiledProgram,
}
use unifold.Rules.Dependencies.{dependencies_overlap}
use unifold.Rules.Evaluator.{affected_rules}
use unifold.Rules.Evaluator.Affected.{IsAffected, affected_rules-IsAffected}
use unifold.Rules.Evaluation.{
  Env, Progress, RuleCommand, RuleError, EvaluationOptions, budget_exceeded,
  evaluate_affected_rules,
}
use unifold.Rules.Evaluation.Budgets.{
  Outcome, max_commands, max_rules, start, ids_of, evaluate_affected_rules-Outcome,
}
use unifold.Rules.Graph.{Seed, candidate_rule_ids, create_rule_input_index}
use unifold.Rules.Graph.Candidates.{Reads, candidate_rule_ids-overlap}

abbrev at_node : Text → RuleDependency
at_node pointer = record { node_id = text "n"; pointer = pointer }

abbrev definition_of : Text → Text → RuleOutput → RuleDefinition
definition_of id pointer output = record {
  expression = null;
  id = id;
  inputs = record { name = text "x"; node_id = text "n"; pointer = pointer } ∷ [];
  output = output;
  schema_version = text "1.0.0";
  version = text "1";
}

abbrev first_definition : RuleDefinition
first_definition = definition_of (text "a") (text "/base") (control_set_value (text "n"))

abbrev second_definition : RuleDefinition
second_definition =
    definition_of (text "b") (text "/control/value") (node_patch_property (text "n") (text "p"))

abbrev first_seed : Seed
first_seed = record {
  definition = first_definition;
  inputs = at_node (text "/base") ∷ [];
  outputs = at_node (text "/control") ∷ [];
  primary_output = at_node (text "/control/value");
  referenced_inputs = [];
}

abbrev second_seed : Seed
second_seed = record {
  definition = second_definition;
  inputs = at_node (text "/control/value") ∷ [];
  outputs = at_node (text "/properties/p") ∷ [];
  primary_output = at_node (text "/properties/p");
  referenced_inputs = [];
}

abbrev seeds : List Seed
seeds = first_seed ∷ second_seed ∷ []

in_first : (input : RuleDependency) → Member input first_seed.inputs → input.pointer ≢ []
in_first input (inl e) h = let f = ap (λ (d : RuleDependency). d.pointer) e ∙ h in cc
in_first input (inr bad) h = absurd bad

in_second : (input : RuleDependency) → Member input second_seed.inputs → input.pointer ≢ []
in_second input (inl e) h = let f = ap (λ (d : RuleDependency). d.pointer) e ∙ h in cc
in_second input (inr bad) h = absurd bad

rooted :
    (seed : Seed)
    → Member seed seeds
    → (input : RuleDependency) → Member input seed.inputs
    → input.pointer ≢ []
rooted seed (inl e) input at =
    in_first input (subst (λ (s : Seed). Member input s.inputs) (sym e) at)
rooted seed (inr (inl e)) input at =
    in_second input (subst (λ (s : Seed). Member input s.inputs) (sym e) at)
rooted seed (inr (inr bad)) input at = absurd bad

candidate_rule_ids-overlap_example :
    Member
      (text "b")
      (candidate_rule_ids (at_node (text "/control")) (create_rule_input_index seeds))
    ↔ Reads
        (λ input. dependencies_overlap (at_node (text "/control")) input ≡ true)
        (text "b")
        seeds
candidate_rule_ids-overlap_example =
    candidate_rule_ids-overlap seeds (at_node (text "/control")) (text "b") (λ h. cc) rooted

abbrev first_rule : CompiledRule
first_rule = record {
  definition = first_definition;
  downstream_rule_ids = text "b" ∷ [];
  input_dependencies = first_seed.inputs;
  layer = 0;
  output_dependencies = first_seed.outputs;
  primary_output = first_seed.primary_output;
  referenced_inputs = [];
}

abbrev second_rule : CompiledRule
second_rule = record {
  definition = second_definition;
  downstream_rule_ids = [];
  input_dependencies = second_seed.inputs;
  layer = 1;
  output_dependencies = second_seed.outputs;
  primary_output = second_seed.primary_output;
  referenced_inputs = [];
}

abbrev both_rules : CompiledProgram
both_rules = record {
  rules = first_rule ∷ second_rule ∷ [];
  rules_by_id = (text "a", first_rule) ∷ (text "b", second_rule) ∷ [];
  rules_by_node_id = (text "n", text "a" ∷ text "b" ∷ []) ∷ [];
}

-- The second rule is affected through the first one.
affected_rules_test :
    affected_rules both_rules (at_node (text "/base/disabled") ∷ [])
    ≡ some (first_rule ∷ second_rule ∷ [])
unfolding affected_rules get has add_new text_same dependencies_overlap
affected_rules_test = refl

-- A port that keeps the commands.
abbrev recorder : Env
recorder = record {
  Host = List RuleCommand;
  read = λ host d. inl none;
  apply = λ command host. (command ∷ host, none);
  run_json_logic = λ expression given. inl (string (text "v"));
  stringify = λ v. text "v";
}

abbrev one_command : EvaluationOptions
one_command = record { max_output_commands = some 1; max_rule_evaluations = none }

evaluate_affected_rules-Outcome_example :
    (rules : List CompiledRule) × (affected_rules both_rules (at_node (text "/base") ∷ [])
      ≡ some rules)
    × (result : Option RuleError × Progress recorder) × (evaluate_affected_rules recorder both_rules
          (at_node (text "/base") ∷ [])
          one_command
          []
        ≡ some result)
    × (((max_rules recorder one_command < length rules)
          × (result ≡ (
            some (budget_exceeded (text "Rule evaluation budget exceeded.")),
            start recorder [],
          )))
        ⊎ ((length rules ≤ max_rules recorder one_command)
            × Outcome recorder []
                (max_commands recorder one_command)
                (ids_of recorder rules)
                result))
evaluate_affected_rules-Outcome_example =
    evaluate_affected_rules-Outcome recorder both_rules (at_node (text "/base") ∷ []) one_command []

-- The two rules are in two layers.
abbrev two_layers : RuleGraphResult
two_layers = record {
  diagnostics = [];
  downstream_by_rule_id = (text "a", text "b" ∷ []) ∷ (text "b", []) ∷ [];
  layer_by_rule_id = (text "a", 0) ∷ (text "b", 1) ∷ [];
}

build_rule_dependency_graph_test : build_rule_dependency_graph seeds ≡ some two_layers
unfolding build_rule_dependency_graph get put delete has add_new text_same sort_texts insert_text
build_rule_dependency_graph_test = refl

build_rule_dependency_graph-IsLayered_example :
    ((id : Text)
      → Member id (seed_ids seeds)
      → (l : ℕ) × (get id two_layers.layer_by_rule_id ≡ some l))
    × ((p c : Text)
        → Member c (consumers_of p two_layers.downstream_by_rule_id)
        → (l : ℕ) × (get c two_layers.layer_by_rule_id ≡ some l)
          × IsLayered p l two_layers.layer_by_rule_id)
build_rule_dependency_graph-IsLayered_example =
    build_rule_dependency_graph-IsLayered seeds two_layers build_rule_dependency_graph_test
      (λ bad. bad)

compile_seeds_test : compile_seeds (λ a b. true) [] seeds ≡ some (inr both_rules)
unfolding compile_seeds build_rule_dependency_graph get put delete has add_new text_same sort_texts
    insert_text text_leb
compile_seeds_test = refl

affected_rules-IsAffected_example :
    (ids : List Text) × (affected_rules both_rules (at_node (text "/base/disabled") ∷ [])
      ≡ some (keep (λ (rule : CompiledRule). has rule.definition.id ids) both_rules.rules))
    × ((id : Text)
        → (has id ids ≡ true) ↔ IsAffected both_rules (at_node (text "/base/disabled") ∷ []) id)
affected_rules-IsAffected_example =
    affected_rules-IsAffected both_rules
      (compile_seeds-IsIndexed (λ a b. true) [] seeds both_rules compile_seeds_test)
      (at_node (text "/base/disabled") ∷ [])

in_first_outputs :
    (output : RuleDependency) → Member output first_seed.outputs → output.pointer ≢ []
in_first_outputs output (inl e) h = let f = ap (λ (d : RuleDependency). d.pointer) e ∙ h in cc
in_first_outputs output (inr bad) h = absurd bad

in_second_outputs :
    (output : RuleDependency) → Member output second_seed.outputs → output.pointer ≢ []
in_second_outputs output (inl e) h = let f = ap (λ (d : RuleDependency). d.pointer) e ∙ h in cc
in_second_outputs output (inr bad) h = absurd bad

seeds-IsRootedSeeds : IsRootedSeeds seeds
seeds-IsRootedSeeds seed m = (rooted seed m, λ output n. outputs_rooted seed m output n)
  where
    outputs_rooted :
        (seed : Seed)
        → Member seed seeds
        → (output : RuleDependency) → Member output seed.outputs
        → output.pointer ≢ []
    outputs_rooted s (inl e) o at =
        in_first_outputs o (subst (λ (s : Seed). Member o s.outputs) (sym e) at)
    outputs_rooted s (inr (inl e)) o at =
        in_second_outputs o (subst (λ (s : Seed). Member o s.outputs) (sym e) at)
    outputs_rooted s (inr (inr bad)) o at = absurd bad

compile_seeds-InOrder_example : InOrder both_rules.rules
compile_seeds-InOrder_example =
    compile_seeds-InOrder (λ a b. true) [] seeds both_rules seeds-IsRootedSeeds compile_seeds_test

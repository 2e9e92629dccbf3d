-- ===== src/Rules/Evaluator.antt =====
-- packages/rules/src/evaluator.ts: the rules that a change affects.
pub mod Closure
pub mod Drain
pub mod Direct
pub mod Affected
use unifold.Prelude.{
  ℕ, zero, suc, ◌+◌, Bool, false, Option, none, some, List, [], ◌∷◌, ◌++◌, if◌then◌else◌, nat_eq,
  length, keep, any, Text, text_eq, Map, get, has, add_new,
}
use unifold.Rules.Types.{
  RuleOutput, control_set_disabled, control_set_value, node_patch_property, RuleInput,
  RuleDependency, RuleDefinition, CompiledRule, CompiledProgram,
}
use unifold.Rules.Dependencies.{dependencies_overlap}

unfoldable pub is_affected : CompiledProgram → RuleDependency → Text → Bool
unfolding dependencies_overlap
is_affected program changed id = elim (get id program.rules_by_id) [
  | none ↦ false
  | some rule ↦ any (λ input. dependencies_overlap input changed) rule.input_dependencies
]

-- `addIfAffected`; a set is the list of its members in the order of insertion.
unfoldable pub add_if_affected :
    CompiledProgram → RuleDependency → List Text → List Text → List Text
unfolding is_affected
add_if_affected program changed [] target = target
add_if_affected program changed (id ∷ ids) target =
    add_if_affected program changed ids
      (if is_affected program changed id then add_new id target else target)

unfoldable pub ids_at : CompiledProgram → Text → List Text
ids_at program node_id = elim (get node_id program.rules_by_node_id) [ none ↦ [] | some ids ↦ ids ]

unfoldable pub initial_onto : CompiledProgram → List RuleDependency → List Text → List Text
unfolding add_if_affected ids_at
initial_onto program [] ids = ids
initial_onto program (d ∷ ds) ids =
    initial_onto program ds (add_if_affected program d (ids_at program d.node_id) ids)

unfoldable pub initial_rule_ids : CompiledProgram → List RuleDependency → List Text
unfolding initial_onto
initial_rule_ids program changed = initial_onto program changed []

unfoldable pub downstream_of : CompiledProgram → Text → List Text
downstream_of program id = elim (get id program.rules_by_id) [
  | none ↦ []
  | some rule ↦ rule.downstream_rule_ids
]

-- `addPending` for each of the ids: what is pending, and the target.
unfoldable pub add_pending : List Text → List Text → List Text → List Text × List Text
add_pending [] pending target = (pending, target)
add_pending (id ∷ ids) pending target =
    if has id target
    then add_pending ids pending target
    else add_pending ids (pending ++ id ∷ []) (target ++ id ∷ [])

-- The loop of `affectedRules`, with fuel: an id that is pending is shifted in each round.
unfoldable pub drain : CompiledProgram → ℕ → List Text → List Text → Option (List Text)
unfolding add_pending downstream_of
drain program fuel [] target = some target
drain program zero (id ∷ pending) target = none
drain program (suc fuel) (id ∷ pending) target =
    let (pending', target') = add_pending (downstream_of program id) pending target in
    drain program fuel pending' target'

-- The rules that are downstream of some rule, with repetitions.
unfoldable pub all_downstream : Map Text CompiledRule → List Text
all_downstream [] = []
all_downstream ((id, rule) ∷ rules) = rule.downstream_rule_ids ++ all_downstream rules

unfoldable pub affected_ids : CompiledProgram → List RuleDependency → Option (List Text)
unfolding initial_rule_ids drain all_downstream
affected_ids program changed =
    let ids = initial_rule_ids program changed in
    drain program (length ids + length (all_downstream program.rules_by_id)) ids ids

unfoldable pub affected_rules : CompiledProgram → List RuleDependency → Option (List CompiledRule)
unfolding affected_ids
affected_rules program changed = elim (affected_ids program changed) [
  | none ↦ none
  | some ids ↦ some (keep (λ (rule : CompiledRule). has rule.definition.id ids) program.rules)
]

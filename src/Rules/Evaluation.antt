-- ===== src/Rules/Evaluation.antt =====
-- packages/rules/src/evaluator.ts and command.ts: the evaluation of the affected rules. An error that
-- is thrown is a value; what the port did before it stays done.
pub mod Budgets
use unifold.Prelude.{
  ℕ, ◌+◌, ◌⊎◌, inl, inr, Bool, false, not, Option, none, some, List, [], ◌∷◌, ◌++◌, leb,
  if◌then◌else◌, ◌==◌, nat_eq, length, any, Text, text, text_eq, has,
}
use unifold.Contracts.Json.{JsonValue, JsonObject, null, boolean, end, field, set_field}
use unifold.Rules.Types.{
  RuleOutput, control_set_disabled, control_set_value, node_patch_property, RuleInput,
  RuleDependency, CompiledRule, CompiledProgram,
}
use unifold.Rules.Evaluator.{affected_rules}

-- The three kinds of `UiCommand` that a rule makes.
pub data RuleCommand : Type 0 where
  set_disabled : Text → Bool → RuleCommand
  set_value : Text → JsonValue → RuleCommand
  patch_properties : Text → JsonObject → RuleCommand

pub record EvaluationOptions : Type 0 where
  pub max_output_commands : Option ℕ
  pub max_rule_evaluations : Option ℕ

unfoldable pub disabled_command : Text → JsonValue → RuleCommand ⊎ Text
disabled_command id (boolean disabled) = inl (set_disabled id disabled)
disabled_command id _ = inr (text "control-set-disabled rules must return a boolean.")

-- What the code calls: the state behind the port, whose `read` and `apply` may throw, `runJsonLogic`, which runs the JSON Logic engine and
-- may throw with a message, and `JSON.stringify` on JSON values.
pub record Env : Type 1 where
  pub Host : Type 0
  pub read : Host → RuleDependency → Option JsonValue ⊎ Text
  pub apply : RuleCommand → Host → Host × Option Text
  pub run_json_logic : JsonValue → JsonObject → JsonValue ⊎ Text
  pub stringify : JsonValue → Text

-- `createDerivedRuleCommand`, which may throw.
unfoldable pub create_derived_rule_command : RuleOutput → JsonValue → RuleCommand ⊎ Text
unfolding disabled_command
create_derived_rule_command (control_set_disabled id) value = disabled_command id value
create_derived_rule_command (control_set_value id) value = inl (set_value id value)
create_derived_rule_command (node_patch_property id property) value =
    inl (patch_properties id (field property value end))

unfoldable pub with_default : Option ℕ → ℕ → ℕ
with_default none fallback = fallback
with_default (some value) fallback = value

-- The error that a rule throws: its status and message. An error of the port passes as it is.
pub data RuleError : Type 0 where
  budget_exceeded : Text → RuleError
  failed : Text → RuleError
  port_error : Text → RuleError

unfoldable pub failed_rule : Text → Text → RuleError
failed_rule rule_id reason = failed (text "Rule " ++ rule_id ++ text " failed: " ++ reason)

-- `assertEvaluationBudget` and `assertOutputBudget` let the count pass.
unfoldable pub within_budget : ℕ → ℕ → Bool
within_budget count maximum = leb count maximum

module _ (env : Env) where
  -- What the evaluation has done: the state behind the port, and the two lists of the result.
  pub record Progress : Type 0 where
    pub commands : List RuleCommand
    pub evaluated_rule_ids : List Text
    pub host : env.Host

  value_at : Option JsonValue → JsonValue
  value_at none = null
  value_at (some v) = v

  -- `port.read`, which may throw.
  unfoldable pub read_port : RuleDependency → env.Host → Option JsonValue ⊎ RuleError
  read_port d host = elim (env.read host d) [
    | inl value ↦ inl value
    | inr message ↦ inr (port_error message)
  ]

  input_onto : env.Host → List RuleInput → JsonObject → JsonObject ⊎ RuleError
  unfolding value_at read_port
  input_onto host [] given = inl given
  input_onto host (input ∷ inputs) given =
      elim (read_port (record { node_id = input.node_id; pointer = input.pointer }) host) [
        | inr error ↦ inr error
        | inl value ↦ input_onto host inputs (set_field input.name (value_at value) given)
      ]

  unfoldable pub input_data : CompiledRule → env.Host → JsonObject ⊎ RuleError
  unfolding input_onto
  input_data rule host = input_onto host rule.definition.inputs end

  -- `sameJsonValue`
  unfoldable pub same_json_value : JsonValue → Option JsonValue → Bool
  same_json_value left none = false
  same_json_value left (some right) = env.stringify left == env.stringify right

  unfoldable pub safe_run : CompiledRule → JsonObject → JsonValue ⊎ RuleError
  unfolding failed_rule
  safe_run rule given = elim (env.run_json_logic rule.definition.expression given) [
    | inl value ↦ inl value
    | inr reason ↦ inr (failed_rule rule.definition.id reason)
  ]

  unfoldable pub safe_command : CompiledRule → JsonValue → RuleCommand ⊎ RuleError
  unfolding create_derived_rule_command failed_rule
  safe_command rule value = elim (create_derived_rule_command rule.definition.output value) [
    | inl command ↦ inl command
    | inr reason ↦ inr (failed_rule rule.definition.id reason)
  ]

  -- `port.apply(command)` and `commands.push(command)`.
  unfoldable pub apply_command : RuleCommand → Progress → Option RuleError × Progress
  apply_command command p =
      let (host, thrown) = env.apply command p.host in
      elim thrown [
        | some message ↦ (some (port_error message), record p { host = host })
        | none ↦ (none, record p { commands = p.commands ++ command ∷ []; host = host })
      ]

  -- `evaluateRule` once the value differs from the one that is there.
  unfoldable pub write_value : CompiledRule → JsonValue → ℕ → Progress → Option RuleError × Progress
  unfolding within_budget safe_command apply_command
  write_value rule value max_output_commands p =
      if not (within_budget (length p.commands + 1) max_output_commands)
      then (some (budget_exceeded (text "Rule output command budget exceeded.")), p)
      else elim (safe_command rule value) [
        | inr error ↦ (some error, p)
        | inl command ↦ apply_command command p
      ]

  -- `evaluateRule` after the read of the output.
  unfoldable pub write_unless_same :
      Option JsonValue ⊎ RuleError
      → CompiledRule
      → JsonValue
      → ℕ
      → Progress
      → Option RuleError × Progress
  unfolding same_json_value write_value
  write_unless_same (inr error) rule value max_output_commands p = (some error, p)
  write_unless_same (inl current) rule value max_output_commands p =
      if same_json_value value current
      then (none, p)
      else write_value rule value max_output_commands p

  -- `evaluateRule` after the run of the expression.
  unfoldable pub compare_and_write :
      JsonValue ⊎ RuleError → CompiledRule → ℕ → Progress → Option RuleError × Progress
  unfolding read_port write_unless_same
  compare_and_write (inr error) rule max_output_commands p = (some error, p)
  compare_and_write (inl value) rule max_output_commands p =
      write_unless_same (read_port rule.primary_output p.host) rule value max_output_commands p

  -- `evaluateRule` after the reads of the inputs.
  unfoldable pub run_and_write :
      JsonObject ⊎ RuleError → CompiledRule → ℕ → Progress → Option RuleError × Progress
  unfolding safe_run compare_and_write
  run_and_write (inr error) rule max_output_commands p = (some error, p)
  run_and_write (inl given) rule max_output_commands p =
      compare_and_write (safe_run rule given) rule max_output_commands p

  unfoldable pub evaluate_rule : CompiledRule → ℕ → Progress → Option RuleError × Progress
  unfolding input_data run_and_write
  evaluate_rule rule max_output_commands before =
      run_and_write (input_data rule before.host) rule max_output_commands (record before {
        evaluated_rule_ids = before.evaluated_rule_ids ++ rule.definition.id ∷ [];
      })

  unfoldable pub evaluate_rules : List CompiledRule → ℕ → Progress → Option RuleError × Progress
  unfolding evaluate_rule
  evaluate_rules [] max_output_commands p = (none, p)
  evaluate_rules (rule ∷ rules) max_output_commands p =
      let (error, p') = evaluate_rule rule max_output_commands p in
      elim error [ some e ↦ (some e, p') | none ↦ evaluate_rules rules max_output_commands p' ]

  -- The error that is thrown, if any, and what has been done by then.
  unfoldable pub evaluate_affected_rules :
      CompiledProgram
      → List RuleDependency
      → EvaluationOptions
      → env.Host
      → Option (Option RuleError × Progress)
  unfolding affected_rules with_default within_budget evaluate_rules
  evaluate_affected_rules program changed options host =
      let start : Progress = record { commands = []; evaluated_rule_ids = []; host = host } in
      elim (affected_rules program changed) [
        | none ↦ none
        | some rules ↦
            if not (within_budget (length rules) (with_default options.max_rule_evaluations 1000))
            then some (some (budget_exceeded (text "Rule evaluation budget exceeded.")), start)
            else some (evaluate_rules rules (with_default options.max_output_commands 256) start)
      ]

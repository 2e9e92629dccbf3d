-- ===== src/Rules/Types.antt =====
-- packages/rules/src/types.ts and enums.ts, and packages/contracts/src/derived-rule.ts: rules and what
-- they depend on.
use unifold.Prelude.{ℕ, List, Text, Map}
use unifold.Contracts.Json.{JsonValue}

-- `outputKind` with the members that the kind has.
pub data RuleOutput : Type 0 where
  control_set_disabled : Text → RuleOutput
  control_set_value : Text → RuleOutput
  node_patch_property : Text → Text → RuleOutput

pub record RuleInput : Type 0 where
  pub name : Text
  pub node_id : Text
  pub pointer : Text

pub record RuleDefinition : Type 0 where
  pub expression : JsonValue
  pub id : Text
  pub inputs : List RuleInput
  pub output : RuleOutput
  pub schema_version : Text
  pub version : Text

pub record RuleDependency : Type 0 where
  pub node_id : Text
  pub pointer : Text

pub record CompiledRule : Type 0 where
  pub definition : RuleDefinition
  pub downstream_rule_ids : List Text
  pub input_dependencies : List RuleDependency
  pub layer : ℕ
  pub output_dependencies : List RuleDependency
  pub primary_output : RuleDependency
  pub referenced_inputs : List Text

pub record CompiledProgram : Type 0 where
  pub rules : List CompiledRule
  pub rules_by_id : Map Text CompiledRule
  pub rules_by_node_id : Map Text (List Text)

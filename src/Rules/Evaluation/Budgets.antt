-- ===== src/Rules/Evaluation/Budgets.antt =====
-- What an evaluation of packages/rules/src/evaluator.ts does within its budgets.
use unifold.Prelude.{
  ℕ, ◌+◌, ◌≤◌, ◌<◌, ◌≡◌, refl, sym, ap, ◌∙◌, subst, ◌⊎◌, inl, inr, not, Option, none, some, List,
  [], ◌∷◌, ◌++◌, map, append_assoc, arith, leb, if◌then◌else◌, leb→le, Bool-cases, Option-cases,
  nat_eq, length, keep, all, length-append, Text, text, text_eq, has,
}
use unifold.Contracts.Json.{JsonValue, JsonObject}
use unifold.Rules.Types.{RuleDependency, CompiledRule, CompiledProgram}
use unifold.Rules.Evaluator.{affected_rules}
use unifold.Rules.Evaluator.Affected.{affected_rules_lem}
use unifold.Rules.Evaluation.{
  Env, Progress, RuleCommand, RuleError, EvaluationOptions, port_error, budget_exceeded,
  within_budget, with_default, safe_command, same_json_value, apply_command, write_value,
  write_unless_same, compare_and_write, run_and_write, evaluate_rule, evaluate_rules,
  evaluate_affected_rules,
}

module _ (env : Env) where
  -- The state behind the port after the commands.
  abbrev pub run_commands : List RuleCommand → env.Host → env.Host
  run_commands [] host = host
  run_commands (command ∷ commands) host = run_commands commands (env.apply command host).0

  run_commands-last :
      (commands : List RuleCommand) (command : RuleCommand) (host : env.Host)
      → run_commands (commands ++ command ∷ []) host
        ≡ (env.apply command (run_commands commands host)).0
  run_commands-last [] command host = refl
  run_commands-last (first ∷ commands) command host =
      run_commands-last commands command (env.apply first host).0

  -- The state behind the port is what the commands made of the first one, and if the port has thrown,
  -- what the command that it threw at made of that.
  abbrev pub IsReplayed : env.Host → Option RuleError → Progress env → Type 0
  IsReplayed host error p =
      (p.host ≡ run_commands p.commands host)
      ⊎ ((command : RuleCommand) × (message : Text) × (p.host
            ≡ (env.apply command (run_commands p.commands host)).0)
          × (error ≡ some (port_error message)))

  -- The rules that were evaluated are the first ones, and all of them if nothing was thrown.
  abbrev pub InOrder : List Text → List Text → Option RuleError → Type 0
  InOrder all evaluated error =
      (rest : List Text) × (all ≡ evaluated ++ rest) × (error ≡ none → rest ≡ [])

  pub record Outcome (host : env.Host) (maximum : ℕ) (all : List Text)
      (result : Option RuleError × Progress env) : Type 0 where
    pub bounded : length result.1.commands ≤ maximum
    pub replayed : IsReplayed host result.0 result.1
    pub in_order : InOrder all result.1.evaluated_rule_ids result.0

  -- What holds between two rules.
  record IsReady (host : env.Host) (maximum : ℕ) (p : Progress env) : Type 0 where
    bounded : length p.commands ≤ maximum
    replayed : p.host ≡ run_commands p.commands host

  -- After one rule: ready for the next if nothing was thrown, and otherwise an outcome.
  record Step (host : env.Host) (maximum : ℕ) (ids : List Text)
      (result : Option RuleError × Progress env) : Type 0 where
    bounded : length result.1.commands ≤ maximum
    replayed : IsReplayed host result.0 result.1
    quiet : result.0 ≡ none → result.1.host ≡ run_commands result.1.commands host
    evaluated : result.1.evaluated_rule_ids ≡ ids

  stay :
      (host : env.Host) (maximum : ℕ) (p : Progress env) (error : Option RuleError)
      → IsReady host maximum p
      → Step host maximum p.evaluated_rule_ids (error, p)
  stay host maximum p error r = record {
    bounded = r.bounded;
    replayed = inl r.replayed;
    quiet = λ e. r.replayed;
    evaluated = refl;
  }

  apply_command-Step :
      (host : env.Host) (maximum : ℕ) (command : RuleCommand) (p : Progress env)
      → IsReady host maximum p
      → length p.commands + 1 ≤ maximum
      → Step host maximum p.evaluated_rule_ids (apply_command env command p)
  unfolding apply_command
  apply_command-Step host maximum command p r room =
      let done : (env.apply command p.host).0
          ≡ (env.apply command (run_commands p.commands host)).0 =
        ap (λ h. (env.apply command h).0) r.replayed in
      elim (Option-cases (env.apply command p.host).1) [
        | inr (message, e) ↦
            rw (e, apply_command)
              (record {
                bounded = r.bounded;
                replayed = inr (command, message, done, refl);
                quiet = λ h. cc;
                evaluated = refl;
              })
        | inl e ↦
            let last = run_commands-last p.commands command host in
            rw (e, apply_command)
              (record {
                bounded = omega (arith, length-append p.commands (command ∷ []));
                replayed = inl (done ∙ sym last);
                quiet = λ h. done ∙ sym last;
                evaluated = refl;
              })
      ]

  write_value-Step :
      (host : env.Host) (maximum : ℕ) (rule : CompiledRule) (value : JsonValue) (p : Progress env)
      → IsReady host maximum p
      → Step host maximum p.evaluated_rule_ids (write_value env rule value maximum p)
  unfolding write_value within_budget
  write_value-Step host maximum rule value p r =
      elim (Bool-cases (leb (length p.commands + 1) maximum)) [
        | inr f ↦ rw (f, write_value, within_budget) (stay host maximum p _ r)
        | inl t ↦
            elim (safe_command env rule value)
              as (λ o. Step host maximum p.evaluated_rule_ids (
                if not (leb (length p.commands + 1) maximum)
                then (some (budget_exceeded (text "Rule output command budget exceeded.")), p)
                else elim o [
                  | inr error ↦ (some error, p)
                  | inl command ↦ apply_command env command p
                ])) [
                  | inr error ↦ rw t (stay host maximum p _ r)
                  | inl command ↦ rw t (
                      apply_command-Step host maximum command p r
                        (leb→le (length p.commands + 1) maximum t))
                ]
      ]

  write_unless_same-Step :
      (host : env.Host) (maximum : ℕ) (current : Option JsonValue ⊎ RuleError) (rule : CompiledRule)
      (value : JsonValue) (p : Progress env)
      → IsReady host maximum p
      → Step host maximum p.evaluated_rule_ids (write_unless_same env current rule value maximum p)
  unfolding write_unless_same
  write_unless_same-Step host maximum (inr error) rule value p r = stay host maximum p _ r
  write_unless_same-Step host maximum (inl current) rule value p r =
      elim (Bool-cases (same_json_value env value current)) [
        | inl t ↦ rw (t, write_unless_same) (stay host maximum p _ r)
        | inr f ↦ rw (f, write_unless_same) (write_value-Step host maximum rule value p r)
      ]

  compare_and_write-Step :
      (host : env.Host) (maximum : ℕ) (computed : JsonValue ⊎ RuleError) (rule : CompiledRule)
      (p : Progress env)
      → IsReady host maximum p
      → Step host maximum p.evaluated_rule_ids (compare_and_write env computed rule maximum p)
  unfolding compare_and_write
  compare_and_write-Step host maximum (inr error) rule p r = stay host maximum p _ r
  compare_and_write-Step host maximum (inl value) rule p r =
      write_unless_same-Step host maximum _ rule value p r

  run_and_write-Step :
      (host : env.Host) (maximum : ℕ) (given : JsonObject ⊎ RuleError) (rule : CompiledRule)
      (p : Progress env)
      → IsReady host maximum p
      → Step host maximum p.evaluated_rule_ids (run_and_write env given rule maximum p)
  unfolding run_and_write
  run_and_write-Step host maximum (inr error) rule p r = stay host maximum p _ r
  run_and_write-Step host maximum (inl given) rule p r =
      compare_and_write-Step host maximum _ rule p r

  evaluate_rule-Step :
      (host : env.Host) (maximum : ℕ) (rule : CompiledRule) (p : Progress env)
      → IsReady host maximum p
      → Step host maximum
          (p.evaluated_rule_ids ++ rule.definition.id ∷ [])
          (evaluate_rule env rule maximum p)
  unfolding evaluate_rule
  evaluate_rule-Step host maximum rule p r =
      run_and_write-Step host maximum _ rule
        (record p { evaluated_rule_ids = p.evaluated_rule_ids ++ rule.definition.id ∷ [] })
        (record { bounded = r.bounded; replayed = r.replayed })

  abbrev pub ids_of : List CompiledRule → List Text
  ids_of rules = map (λ (rule : CompiledRule). rule.definition.id) rules

  Step-Outcome :
      (host : env.Host) (maximum : ℕ) (ids rest : List Text)
      (result : Option RuleError × Progress env)
      → Step host maximum ids result
      → (result.0 ≡ none → rest ≡ [])
      → Outcome host maximum (ids ++ rest) result
  Step-Outcome host maximum ids rest result s h = record {
    bounded = s.bounded;
    replayed = s.replayed;
    in_order = (rest, ap (λ xs. xs ++ rest) (sym s.evaluated), h);
  }

  -- The rules after one that has been evaluated.
  after_rule :
      (host : env.Host) (maximum : ℕ) (rules : List CompiledRule)
      (result : Option RuleError × Progress env) (ids : List Text)
      → Step host maximum ids result
      → ((q : Progress env)
          → IsReady host maximum q
          → Outcome host maximum
              (q.evaluated_rule_ids ++ ids_of rules)
              (evaluate_rules env rules maximum q))
      → Outcome host maximum (ids ++ ids_of rules) (elim result.0 [
        | some e ↦ (some e, result.1)
        | none ↦ evaluate_rules env rules maximum result.1
      ])
  after_rule host maximum rules (some e, q) ids s go =
      Step-Outcome host maximum ids (ids_of rules) (some e, q) s (λ h. cc)
  after_rule host maximum rules (none, q) ids s go =
      subst (λ xs. Outcome host maximum (xs ++ ids_of rules) (evaluate_rules env rules maximum q))
        s.evaluated (go q (record { bounded = s.bounded; replayed = s.quiet refl }))

  evaluate_rules-Outcome :
      (host : env.Host) (maximum : ℕ) (rules : List CompiledRule) (p : Progress env)
      → IsReady host maximum p
      → Outcome host maximum
          (p.evaluated_rule_ids ++ ids_of rules)
          (evaluate_rules env rules maximum p)
  unfolding evaluate_rules
  evaluate_rules-Outcome host maximum [] p r =
      Step-Outcome host maximum p.evaluated_rule_ids [] (none, p) (stay host maximum p none r)
        (λ e. refl)
  evaluate_rules-Outcome host maximum (rule ∷ rules) p r =
      subst (λ all. Outcome host maximum all (evaluate_rules env (rule ∷ rules) maximum p))
        (append_assoc p.evaluated_rule_ids (rule.definition.id ∷ []) (ids_of rules))
        (after_rule host maximum rules (evaluate_rule env rule maximum p)
          (p.evaluated_rule_ids ++ rule.definition.id ∷ [])
          (evaluate_rule-Step host maximum rule p r)
          (λ q s. evaluate_rules-Outcome host maximum rules q s))

  abbrev pub max_commands : EvaluationOptions → ℕ
  max_commands options = with_default options.max_output_commands 256

  abbrev pub max_rules : EvaluationOptions → ℕ
  max_rules options = with_default options.max_rule_evaluations 1000

  abbrev pub start : env.Host → Progress env
  start host = record { commands = []; evaluated_rule_ids = []; host = host }

  -- An evaluation always answers. If more rules are affected than may be evaluated, it throws before
  -- anything is done. Otherwise it makes at most the allowed number of commands, the port has received
  -- these and no other, but for one that it may have thrown at, and the affected rules were evaluated
  -- in the program's order, all of them unless something was thrown.
  pub evaluate_affected_rules-Outcome :
      (program : CompiledProgram) (changed : List RuleDependency) (options : EvaluationOptions)
      (host : env.Host)
      → (rules : List CompiledRule) × (affected_rules program changed ≡ some rules)
        × (result : Option RuleError × Progress env) × (evaluate_affected_rules env program changed
              options host
            ≡ some result)
        × (((max_rules options < length rules)
              × (result
                  ≡ (some (budget_exceeded (text "Rule evaluation budget exceeded.")), start host)))
            ⊎ ((length rules ≤ max_rules options)
                × Outcome host (max_commands options) (ids_of rules) result))
  unfolding evaluate_affected_rules within_budget
  evaluate_affected_rules-Outcome program changed options host =
      let (ids, e) = affected_rules_lem program changed in
      let rules = keep (λ (rule : CompiledRule). has rule.definition.id ids) program.rules in
      elim (Bool-cases (leb (length rules) (max_rules options))) [
        | inr f ↦ (
          rules,
          e,
          (some (budget_exceeded (text "Rule evaluation budget exceeded.")), start host),
          rw (e, evaluate_affected_rules, within_budget, f) refl,
          inl (ground arith, refl),
        )
        | inl t ↦ (
          rules,
          e,
          evaluate_rules env rules (max_commands options) (start host),
          rw (e, evaluate_affected_rules, within_budget, t) refl,
          inr (
            leb→le (length rules) (max_rules options) t,
            evaluate_rules-Outcome host (max_commands options) rules (start host)
                (record { bounded = omega arith; replayed = refl }),
          ),
        )
      ]

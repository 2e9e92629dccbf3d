-- ===== src/Rules/Evaluator/Affected.antt =====
-- The rules that packages/rules/src/evaluator.ts finds affected by a change.
use unifold.Prelude.{
  ℕ, zero, suc, ◌+◌, ◌≤◌, ◌≡◌, refl, sym, subst, ◌↔◌, ◌⊎◌, inl, inr, true, some, List, [], ◌∷◌,
  arith, get, iff_trans, nat_eq, length, keep, Text, text_eq, Member, has_iff, has,
}
use unifold.Rules.Types.{RuleDependency, CompiledRule, CompiledProgram}
use unifold.Rules.Graph.Overlaps.{Overlaps}
use unifold.Rules.Evaluator.{
  ids_at, initial_rule_ids, downstream_of, drain, all_downstream, affected_ids, affected_rules,
}
use unifold.Rules.Evaluator.Direct.{initial_onto-Member, is_affected_iff, ids_at-Member}
use unifold.Rules.Evaluator.Closure.{Added, add_pending-Added}
use unifold.Rules.Evaluator.Drain.{missing, drain-total}

-- Each rule is recorded at the nodes of its inputs.
abbrev pub IsIndexed : CompiledProgram → Type 0
IsIndexed program =
    (id : Text) (rule : CompiledRule)
    → get id program.rules_by_id ≡ some rule
    → (input : RuleDependency) → Member input rule.input_dependencies
    → (ids : List Text) × (get input.node_id program.rules_by_node_id ≡ some ids) × Member id ids

module _ (program : CompiledProgram) where
  -- The rules that a change of the dependencies affects: those with an input that overlaps with one
  -- of them, and those downstream of an affected one.
  pub data IsAffected (changed : List RuleDependency) : Text → Type 0 where
    direct :
        (id : Text) (rule : CompiledRule) (input d : RuleDependency)
        → Member d changed
        → get id program.rules_by_id ≡ some rule
        → Member input rule.input_dependencies
        → Overlaps input d
        → IsAffected changed id
    through :
        (id x : Text)
        → IsAffected changed id
        → Member x (downstream_of program id)
        → IsAffected changed x

  -- What holds before each round.
  record IsSound (changed : List RuleDependency) (pending target : List Text) : Type 0 where
    sound : (x : Text) → Member x target → IsAffected changed x
    waiting : (x : Text) → Member x pending → Member x target
    closed :
        (x : Text)
        → Member x target
        → Member x pending ⊎ ((y : Text) → Member y (downstream_of program x) → Member y target)

  round-IsSound :
      (changed : List RuleDependency) (id : Text) (pending target p t : List Text)
      → IsSound changed (id ∷ pending) target
      → Added (downstream_of program id) pending target p t
      → IsSound changed p t
  round-IsSound changed id pending target p t v a = record {
    sound = λ x h. elim (a.only x h) [
      | inl m ↦ v.sound x m
      | inr m ↦ through id x (v.sound id (v.waiting id (inl refl))) m
    ];
    waiting =
        λ x h. elim (a.sources x h) [ inl m ↦ a.old x (v.waiting x (inr m)) | inr m ↦ a.new x m ];
    closed = λ x h. elim (a.waits x h) [
      | inr m ↦ inl m
      | inl m ↦ elim (v.closed x m) [
        | inl (inl e) ↦
            inr (λ y below. a.new y (subst (λ u. Member y (downstream_of program u)) (sym e) below))
        | inl (inr n) ↦ inl (a.keeps x n)
        | inr done ↦ inr (λ y below. a.old y (done y below))
      ]
    ];
  }

  drain-IsSound :
      (changed : List RuleDependency) (fuel : ℕ) (pending target final : List Text)
      → IsSound changed pending target
      → drain program fuel pending target ≡ some final
      → IsSound changed [] final × ((x : Text) → Member x target → Member x final)
  unfolding drain
  drain-IsSound changed fuel [] target final v e =
      let same : target ≡ final = some-injective e in
      (subst (λ t. IsSound changed [] t) same v, λ x h. subst (λ t. Member x t) same h)
    where
      some-injective : some target ≡ some final → target ≡ final
      some-injective h = cc
  drain-IsSound changed zero (id ∷ pending) target final v e = cc
  drain-IsSound changed (suc fuel) (id ∷ pending) target final v e =
      let ids = downstream_of program id in
      let a = add_pending-Added ids pending target in
      let (done, more) =
        drain-IsSound changed fuel _ _ final (round-IsSound changed id pending target _ _ v a) e in
      (done, λ x h. more x (a.old x h))

  missing_bound : (ids t : List Text) → missing ids t ≤ length ids
  missing_bound [] t = omega arith
  missing_bound (i ∷ ids) t = ground (arith, missing_bound ids t)

  found_all :
      IsIndexed program
      → (changed : List RuleDependency) (final : List Text) → IsSound changed [] final
      → ((x : Text) → Member x (initial_rule_ids program changed) → Member x final)
      → (id : Text) → IsAffected changed id
      → Member id final
  unfolding initial_rule_ids
  found_all indexed changed final v first id (direct _ rule input d at found m o) =
      let (ids, e, here) = indexed id rule found input m in
      let there =
        subst (λ n. Member id (ids_at program n)) o.0
          (ids_at-Member program input.node_id id ids e here) in
      first id (
        (initial_onto-Member program changed id []).1
          (inr (d, at, there, (is_affected_iff program d id).1 (rule, found, input, m, o))))
  found_all indexed changed final v first id (through x _ before below) =
      elim (v.closed x (found_all indexed changed final v first x before)) [
        | inl bad ↦ absurd bad
        | inr done ↦ done id below
      ]

  initial-IsSound :
      (changed : List RuleDependency)
      → IsSound changed (initial_rule_ids program changed) (initial_rule_ids program changed)
  unfolding initial_rule_ids
  initial-IsSound changed = record {
    sound = λ x h. elim ((initial_onto-Member program changed x []).0 h) [
      | inl bad ↦ absurd bad
      | inr (d, at, there, a) ↦
          let (rule, found, input, m, o) = (is_affected_iff program d x).0 a in
          direct x rule input d at found m o
    ];
    waiting = λ x h. h;
    closed = λ x h. inl h;
  }

  -- The ids that the search ends with.
  affected_ids_lem :
      (changed : List RuleDependency)
      → (ids : List Text) × (affected_ids program changed ≡ some ids)
        × IsSound changed [] ids
        × ((x : Text) → Member x (initial_rule_ids program changed) → Member x ids)
  unfolding affected_ids
  affected_ids_lem changed =
      let start = initial_rule_ids program changed in
      let all = all_downstream program.rules_by_id in
      let (final, e) =
        drain-total program (length start + length all) start start
          (omega (arith, missing_bound all start)) in
      let (v, first) =
        drain-IsSound changed (length start + length all) start start final
          (initial-IsSound changed) e in
      (final, rw (e, affected_ids) refl, v, first)

  pub affected_rules_lem :
      (changed : List RuleDependency)
      → (ids : List Text) × (affected_rules program changed
          ≡ some (keep (λ (rule : CompiledRule). has rule.definition.id ids) program.rules))
  unfolding affected_rules
  affected_rules_lem changed =
      let (final, e, v, first) = affected_ids_lem changed in (final, rw (e, affected_rules) refl)

  -- For a program that records each rule at the nodes of its inputs, the search for the affected rules
  -- ends, within a round for each id that is directly affected or downstream of a rule, and keeps, in
  -- the program's order, exactly the rules that are affected: those with an input that overlaps with a
  -- changed dependency (on one node, and with the same pointer or one below the other), and those
  -- downstream of an affected one.
  pub affected_rules-IsAffected :
      IsIndexed program
      → (changed : List RuleDependency)
      → (ids : List Text) × (affected_rules program changed
          ≡ some (keep (λ (rule : CompiledRule). has rule.definition.id ids) program.rules))
        × ((id : Text) → (has id ids ≡ true) ↔ IsAffected changed id)
  unfolding affected_rules
  affected_rules-IsAffected indexed changed =
      let (final, e, v, first) = affected_ids_lem changed in
      (
        final,
        rw (e, affected_rules) refl,
        λ id.
            iff_trans (has_iff id final)
              (λ m. v.sound id m, λ h. found_all indexed changed final v first id h),
      )

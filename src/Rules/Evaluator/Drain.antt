-- ===== src/Rules/Evaluator/Drain.antt =====
-- The loop of `affectedRules` of packages/rules/src/evaluator.ts: its end, and what it has found then.
use unifold.Prelude.{
  ℕ, zero, suc, ◌+◌, ◌≤◌, ◌<◌, ◌≡◌, refl, sym, ap, ◌∙◌, subst, inl, inr, false, not, ◌||◌, some,
  List, [], ◌∷◌, ◌++◌, arith, Bool-cases, Option-cases, ◌==◌, nat_eq, ==_iff, length, keep,
  length-append, Text, text_eq, Map, get, Member, has, Member-append,
}
use unifold.Rules.Types.{CompiledRule, CompiledProgram}
use unifold.Rules.Evaluator.{downstream_of, add_pending, drain, all_downstream}

-- How many of the ids are not in the target.
abbrev pub missing : List Text → List Text → ℕ
missing ids target = length (keep (λ id. not (has id target)) ids)

has-last : (k j : Text) (t : List Text) → has k (t ++ j ∷ []) ≡ (has k t || j == k)
unfolding has
has-last k j [] = ground arith
has-last k j (i ∷ t) = ground (arith, has-last k j t)

missing_le : (ids t : List Text) (id : Text) → missing ids (t ++ id ∷ []) ≤ missing ids t
missing_le [] t id = omega arith
missing_le (i ∷ ids) t id = ground (arith, has-last i id t, missing_le ids t id)

missing_lt :
    (ids t : List Text) (id : Text)
    → Member id ids
    → has id t ≡ false
    → missing ids (t ++ id ∷ []) < missing ids t
missing_lt [] t id h new = absurd h
missing_lt (i ∷ ids) t id (inl e) new =
    let at : has i t ≡ false = ap (λ u. has u t) e ∙ new in
    ground (arith, has-last i id t, missing_le ids t id, ==_iff id i, sym e)
missing_lt (i ∷ ids) t id (inr m) new = ground (arith, has-last i id t, missing_lt ids t id m new)

-- Each round of the loop makes this smaller.
add_pending-missing :
    (universe ids pending target : List Text)
    → ((x : Text) → Member x ids → Member x universe)
    → length (add_pending ids pending target).0
        + missing universe (add_pending ids pending target).1
      ≤ length pending + missing universe target
unfolding add_pending
add_pending-missing universe [] pending target h = omega arith
add_pending-missing universe (id ∷ ids) pending target h = elim (Bool-cases (has id target)) [
  | inl t ↦
      rw (t, add_pending) (add_pending-missing universe ids pending target (λ x m. h x (inr m)))
  | inr f ↦
      let rest =
        add_pending-missing universe ids (pending ++ id ∷ []) (target ++ id ∷ [])
          (λ x m. h x (inr m)) in
      let one = length-append pending (id ∷ []) in
      let less = missing_lt universe target id (h id (inl refl)) f in
      rw (f, add_pending) (omega arith)
]

downstream-all :
    (rules : Map Text CompiledRule) (id : Text) (rule : CompiledRule) (x : Text)
    → get id rules ≡ some rule
    → Member x rule.downstream_rule_ids
    → Member x (all_downstream rules)
unfolding get all_downstream
downstream-all [] id rule x at m = cc
downstream-all ((j, first) ∷ rules) id rule x at m = elim (Bool-cases (j == id)) [
  | inl t ↦
      let e : first ≡ rule = some-injective (rw t at at) in
      (Member-append x first.downstream_rule_ids (all_downstream rules)).1
        (inl (subst (λ (r : CompiledRule). Member x r.downstream_rule_ids) (sym e) m))
  | inr f ↦
      (Member-append x first.downstream_rule_ids (all_downstream rules)).1
        (inr (downstream-all rules id rule x (rw f at at) m))
]
  where
    some-injective : some first ≡ some rule → first ≡ rule
    some-injective h = cc

module _ (program : CompiledProgram) where
  within :
      (id x : Text)
      → Member x (downstream_of program id)
      → Member x (all_downstream program.rules_by_id)
  unfolding downstream_of
  within id x m = elim (Option-cases (get id program.rules_by_id)) [
    | inl e ↦
        let d : downstream_of program id ≡ [] = rw (e, downstream_of) refl in
        absurd (subst (λ l. Member x l) d m)
    | inr (rule, e) ↦
        let d : downstream_of program id ≡ rule.downstream_rule_ids = rw (e, downstream_of) refl in
        downstream-all program.rules_by_id id rule x e (subst (λ l. Member x l) d m)
  ]

  -- With a round for each id that is pending or not yet found, the loop ends.
  pub drain-total :
      (fuel : ℕ) (pending target : List Text)
      → length pending + missing (all_downstream program.rules_by_id) target ≤ fuel
      → (final : List Text) × (drain program fuel pending target ≡ some final)
  unfolding drain
  drain-total fuel [] target h = (target, refl)
  drain-total zero (id ∷ pending) target h = absurd (omega arith)
  drain-total (suc fuel) (id ∷ pending) target h = drain-total fuel _ _ (
      omega (
        arith,
        add_pending-missing (all_downstream program.rules_by_id) (downstream_of program id) pending
            target (λ x m. within id x m),
      ))

-- ===== src/Rules/Evaluator/Direct.antt =====
-- The rules that packages/rules/src/evaluator.ts finds affected by a change at once.
use unifold.Prelude.{
  ◌≡◌, refl, sym, ap, subst, ◌↔◌, ◌⊎◌, inl, inr, true, some, List, [], ◌∷◌, Bool-cases,
  Option-cases, any, ◌∙◌, get, nat_eq, Text, text_eq, Member, add_new, add_new-Member,
}
use unifold.Rules.Types.{RuleDependency, CompiledRule, CompiledProgram}
use unifold.Rules.Dependencies.{dependencies_overlap}
use unifold.Rules.Graph.Overlaps.{Overlaps, dependencies_overlap-Overlaps, any_iff}
use unifold.Rules.Evaluator.{is_affected, add_if_affected, ids_at, initial_onto}

module _ (program : CompiledProgram) where
  -- The ids with which the loop starts.
  abbrev pub IsDirect : List RuleDependency → Text → Type 0
  IsDirect changed id =
      (d : RuleDependency) × Member d changed
      × Member id (ids_at program d.node_id)
      × (is_affected program d id ≡ true)

  add_if_affected-Member :
      (d : RuleDependency) (x : Text) (ids t : List Text)
      → Member x (add_if_affected program d ids t)
        ↔ (Member x t ⊎ (Member x ids × (is_affected program d x ≡ true)))
  unfolding add_if_affected
  add_if_affected-Member d x [] t = (λ m. inl m, λ m. elim m [ inl n ↦ n | inr n ↦ absurd n.0 ])
  add_if_affected-Member d x (id ∷ ids) t = elim (Bool-cases (is_affected program d id)) [
    | inl h ↦
        let rest = add_if_affected-Member d x ids (add_new id t) in
        let one = add_new-Member x id t in
        rw (h, add_if_affected)
          (
            λ m. elim (rest.0 m) [
              | inr n ↦ inr (inr n.0, n.1)
              | inl n ↦ elim (one.0 n) [
                | inl k ↦ inl k
                | inr e ↦ inr (inl e, subst (λ u. is_affected program d u ≡ true) e h)
              ]
            ],
            λ m. elim m [
              | inl k ↦ rest.1 (inl (one.1 (inl k)))
              | inr (inl e, a) ↦ rest.1 (inl (one.1 (inr e)))
              | inr (inr n, a) ↦ rest.1 (inr (n, a))
            ],
          )
    | inr h ↦
        let rest = add_if_affected-Member d x ids t in
        rw (h, add_if_affected)
          (
            λ m. elim (rest.0 m) [ inr n ↦ inr (inr n.0, n.1) | inl n ↦ inl n ],
            λ m. elim m [
              | inl k ↦ rest.1 (inl k)
              | inr (inl e, a) ↦ let bad = ap (λ u. is_affected program d u) e in cc
              | inr (inr n, a) ↦ rest.1 (inr (n, a))
            ],
          )
  ]

  pub initial_onto-Member :
      (changed : List RuleDependency) (x : Text) (ids : List Text)
      → Member x (initial_onto program changed ids) ↔ (Member x ids ⊎ IsDirect changed x)
  unfolding initial_onto
  initial_onto-Member [] x ids = (λ m. inl m, λ m. elim m [ inl n ↦ n | inr n ↦ absurd n.1 ])
  initial_onto-Member (d ∷ ds) x ids =
      let one = add_if_affected-Member d x (ids_at program d.node_id) ids in
      let rest =
        initial_onto-Member ds x (add_if_affected program d (ids_at program d.node_id) ids) in
      (
        λ m. elim (rest.0 m) [
          | inr (c, at, there, a) ↦ inr (c, inr at, there, a)
          | inl n ↦ elim (one.0 n) [ inl k ↦ inl k | inr k ↦ inr (d, inl refl, k.0, k.1) ]
        ],
        λ m. elim m [
          | inl k ↦ rest.1 (inl (one.1 (inl k)))
          | inr (c, inr at, there, a) ↦ rest.1 (inr (c, at, there, a))
          | inr (c, inl e, there, a) ↦ rest.1 (
              inl (
                one.1 (
                  inr (
                    subst (λ (u : RuleDependency). Member x (ids_at program u.node_id)) (sym e)
                        there,
                    subst (λ (u : RuleDependency). is_affected program u x ≡ true) (sym e) a,
                  ))))
        ],
      )

  pub is_affected_iff :
      (d : RuleDependency) (id : Text)
      → (is_affected program d id ≡ true) ↔ (
          (rule : CompiledRule) × (get id program.rules_by_id ≡ some rule)
          × (input : RuleDependency) × Member input rule.input_dependencies
          × Overlaps input d)
  unfolding is_affected
  is_affected_iff d id = elim (Option-cases (get id program.rules_by_id)) [
    | inl e ↦ rw (e, is_affected) (λ h. cc, λ (rule, f, input, m, o). cc)
    | inr (r, e) ↦
        let some_input = any_iff (λ input. dependencies_overlap input d) r.input_dependencies in
        let opened : is_affected program d id
            ≡ any (λ input. dependencies_overlap input d) r.input_dependencies =
          rw (e, is_affected) refl in
        (
          λ h.
              let (input, m, k) = some_input.0 (sym opened ∙ h) in
              (r, e, input, m, (dependencies_overlap-Overlaps input d).0 k),
          λ (rule, f, input, m, o).
              let same : rule ≡ r = some-injective (sym f ∙ e) in
              opened
              ∙ some_input.1 (
                input,
                subst (λ (x : CompiledRule). Member input x.input_dependencies) same m,
                (dependencies_overlap-Overlaps input d).1 o,
              ),
        )
  ]
    where
      some-injective : {x y : CompiledRule} → some x ≡ some y → x ≡ y
      some-injective k = cc

  pub ids_at-Member :
      (node_id id : Text) (ids : List Text)
      → get node_id program.rules_by_node_id ≡ some ids
      → Member id ids
      → Member id (ids_at program node_id)
  unfolding ids_at
  ids_at-Member node_id id ids e m = rw (e, ids_at) m

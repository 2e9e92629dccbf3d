-- ===== src/Rules/Compiler/Indexed.antt =====
-- The indexes of a program of packages/rules/src/compiler.ts.
use unifold.Prelude.{
  ℕ, ◌≡◌, refl, sym, ap, ◌∙◌, subst, ◌⊎◌, inl, inr, Bool, Option, none, some, List, [], ◌∷◌, ◌++◌,
  arith, Bool-cases, Option-cases, ◌==◌, nat_eq, ==_iff, List-cases, Text, text_eq, sort_texts, Map,
  get, put, get-put_cases, Member, has_iff, add_new, add_new-Member,
}
use unifold.Rules.Types.{RuleDependency, CompiledRule, CompiledProgram}
use unifold.Rules.Graph.{Seed}
use unifold.Rules.Layers.{RuleDiagnostic, consumers_of, build_rule_dependency_graph}
use unifold.Rules.Layers.Counts.{consumers_of-put}
use unifold.Rules.Layers.Order.{has-sort_texts}
use unifold.Rules.Evaluator.Affected.{IsIndexed}
use unifold.Rules.Compiler.{
  index_by_id, add_indexed_rule, index_inputs_by_node, index_by_node, sorted_values,
  index_rules_by_node, create_program, compile_seeds,
}

-- The id is recorded at the node.
abbrev IsAt : Text → Text → Map Text (List Text) → Type 0
IsAt id node_id index = Member id (consumers_of node_id index)

found-index_by_id :
    (id : Text) (rule : CompiledRule) (rules : List CompiledRule) (m : Map Text CompiledRule)
    → get id (index_by_id rules m) ≡ some rule
    → (get id m ≡ some rule) ⊎ (Member rule rules × (rule.definition.id ≡ id))
unfolding index_by_id
found-index_by_id id rule [] m e = inl e
found-index_by_id id rule (r ∷ rs) m e =
    elim (found-index_by_id id rule rs (put r.definition.id r m) e) [
      | inr (at, same) ↦ inr (inr at, same)
      | inl f ↦ elim (get-put_cases r.definition.id id r rule m f) [
        | inl (same, val) ↦
            inr (inl val, sym (ap (λ (x : CompiledRule). x.definition.id) val) ∙ same)
        | inr (other, old) ↦ inl old
      ]
    ]

add-IsAt :
    (k r : Text) (id n : Text) (m : Map Text (List Text))
    → IsAt id n m ⊎ ((r ≡ id) × (k ≡ n))
    → IsAt id n (add_indexed_rule k r m)
unfolding add_indexed_rule
add-IsAt k r id n m h = elim (Bool-cases (k == n)) [
  | inl t ↦
      let same = (==_iff k n).0 t in
      let here = consumers_of-put k n (add_new r (consumers_of k m)) m in
      subst (λ l. Member id l) (sym (here ∙ rw t refl))
        ((add_new-Member id r (consumers_of k m)).1 (elim h [
          | inl old ↦ inl (subst (λ u. Member id (consumers_of u m)) (sym same) old)
          | inr (e, f) ↦ inr e
        ]))
  | inr f ↦
      let there = consumers_of-put k n (add_new r (consumers_of k m)) m in
      subst (λ l. Member id l) (sym (there ∙ rw f refl))
        (elim h [ inl old ↦ old | inr (e, g) ↦ absurd (ground (arith, ==_iff k n, g)) ])
]

inputs-IsAt :
    (r : Text) (inputs : List RuleDependency) (id n : Text) (m : Map Text (List Text))
    → IsAt id n m
      ⊎ ((r ≡ id) × (input : RuleDependency) × Member input inputs × (input.node_id ≡ n))
    → IsAt id n (index_inputs_by_node r inputs m)
unfolding index_inputs_by_node
inputs-IsAt r [] id n m (inl old) = old
inputs-IsAt r [] id n m (inr (e, input, at, f)) = absurd at
inputs-IsAt r (i ∷ is) id n m (inl old) =
    inputs-IsAt r is id n _ (inl (add-IsAt i.node_id r id n m (inl old)))
inputs-IsAt r (i ∷ is) id n m (inr (e, input, inl same, f)) =
    inputs-IsAt r is id n _
      (inl (add-IsAt i.node_id r id n m (inr (e, ap (λ (d : RuleDependency). d.node_id) same ∙ f))))
inputs-IsAt r (i ∷ is) id n m (inr (e, input, inr at, f)) =
    inputs-IsAt r is id n _ (inr (e, input, at, f))

rules-IsAt :
    (rules : List CompiledRule) (id n : Text) (m : Map Text (List Text))
    → IsAt id n m
      ⊎ ((rule : CompiledRule) × Member rule rules
          × (rule.definition.id ≡ id)
          × (input : RuleDependency) × Member input rule.input_dependencies
          × (input.node_id ≡ n))
    → IsAt id n (index_by_node rules m)
unfolding index_by_node
rules-IsAt [] id n m (inl old) = old
rules-IsAt [] id n m (inr (rule, at, e, input, there, f)) = absurd at
rules-IsAt (r ∷ rs) id n m (inl old) =
    rules-IsAt rs id n _ (inl (inputs-IsAt r.definition.id r.input_dependencies id n m (inl old)))
rules-IsAt (r ∷ rs) id n m (inr (rule, inl same, e, input, there, f)) = rules-IsAt rs id n _ (
    inl (
      inputs-IsAt r.definition.id r.input_dependencies id n m (
        inr (
          ap (λ (x : CompiledRule). x.definition.id) same ∙ e,
          input,
          subst (λ (x : CompiledRule). Member input x.input_dependencies) (sym same) there,
          f,
        ))))
rules-IsAt (r ∷ rs) id n m (inr (rule, inr at, e, input, there, f)) =
    rules-IsAt rs id n _ (inr (rule, at, e, input, there, f))

sorted-IsAt : (id n : Text) (m : Map Text (List Text)) → IsAt id n m → IsAt id n (sorted_values m)
unfolding consumers_of sorted_values get
sorted-IsAt id n [] h = h
sorted-IsAt id n ((j, ids) ∷ m) h = elim (Bool-cases (j == n)) [
  | inl t ↦
      let here : consumers_of n (sorted_values ((j, ids) ∷ m)) ≡ sort_texts ids =
        rw (t, consumers_of, sorted_values, get) refl in
      let there : consumers_of n ((j, ids) ∷ m) ≡ ids = rw (t, consumers_of, get) refl in
      subst (λ l. Member id l) (sym here)
        ((has_iff id (sort_texts ids)).0
          (has-sort_texts id ids ∙ (has_iff id ids).1 (subst (λ l. Member id l) there h)))
  | inr f ↦
      let here : consumers_of n (sorted_values ((j, ids) ∷ m)) ≡ consumers_of n (sorted_values m) =
        rw (f, consumers_of, sorted_values, get) refl in
      let there : consumers_of n ((j, ids) ∷ m) ≡ consumers_of n m =
        rw (f, consumers_of, get) refl in
      subst (λ l. Member id l) (sym here) (sorted-IsAt id n m (subst (λ l. Member id l) there h))
]

recorded_ids :
    (id n : Text) (m : Map Text (List Text))
    → IsAt id n m
    → (ids : List Text) × (get n m ≡ some ids) × Member id ids
unfolding consumers_of
recorded_ids id n m h = elim (Option-cases (get n m)) [
  | inl e ↦
      let empty : consumers_of n m ≡ [] = rw (e, consumers_of) refl in
      absurd (subst (λ l. Member id l) empty h)
  | inr (ids, e) ↦
      let found : consumers_of n m ≡ ids = rw (e, consumers_of) refl in
      (ids, e, subst (λ l. Member id l) found h)
]

create_program-IsIndexed :
    (locale_leb : Text → Text → Bool) (seeds : List Seed) (downstream : Map Text (List Text))
    (layers : Map Text ℕ)
    → IsIndexed (create_program locale_leb seeds downstream layers)
unfolding create_program index_rules_by_node get
create_program-IsIndexed locale_leb seeds downstream layers id rule e input m =
    let rules = (create_program locale_leb seeds downstream layers).rules in
    elim (found-index_by_id id rule rules [] e) [
      | inl bad ↦ absurd (no_entry bad)
      | inr (at, same) ↦ recorded_ids id input.node_id (index_rules_by_node rules) (
          sorted-IsAt id input.node_id (index_by_node rules [])
            (rules-IsAt rules id input.node_id [] (inr (rule, at, same, input, m, refl))))
    ]
  where
    no_entry : ◌≡◌ {A = Option CompiledRule} (get id []) (some rule) → ⊥
    no_entry bad = cc

-- A program that the compilation answers records each rule at the nodes of its inputs.
pub compile_seeds-IsIndexed :
    (locale_leb : Text → Text → Bool) (validation : List RuleDiagnostic) (seeds : List Seed)
    (program : CompiledProgram)
    → compile_seeds locale_leb validation seeds ≡ some (inr program)
    → IsIndexed program
unfolding compile_seeds
compile_seeds-IsIndexed locale_leb validation seeds program h =
    elim (Option-cases (build_rule_dependency_graph seeds)) [
      | inl e ↦
          let bad : compile_seeds locale_leb validation seeds ≡ none = rw (e, compile_seeds) refl in
          let worse = sym bad ∙ h in cc
      | inr (graph, e) ↦
          let made =
            create_program locale_leb seeds graph.downstream_by_rule_id graph.layer_by_rule_id in
          elim (List-cases (validation ++ graph.diagnostics)) [
            | inr (d, ds, f) ↦
                let answer : compile_seeds locale_leb validation seeds ≡ some (inl (d ∷ ds)) =
                  rw (e, compile_seeds, f) refl in
                let bad = sym answer ∙ h in cc
            | inl f ↦
                let answer : compile_seeds locale_leb validation seeds ≡ some (inr made) =
                  rw (e, compile_seeds, f) refl in
                subst IsIndexed (made_lem (sym answer ∙ h)) (
                  create_program-IsIndexed locale_leb seeds graph.downstream_by_rule_id
                    graph.layer_by_rule_id)
          ]
    ]
  where
    made_lem :
        {p q : CompiledProgram}
        → ◌≡◌ {A = Option (List RuleDiagnostic ⊎ CompiledProgram)} (some (inr p)) (some (inr q))
        → p ≡ q
    made_lem k = cc

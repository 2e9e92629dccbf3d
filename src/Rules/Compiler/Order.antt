-- ===== src/Rules/Compiler/Order.antt =====
-- The order of the rules in a program of packages/rules/src/compiler.ts.
use unifold.Prelude.{
  ℕ, ◌≤◌, ◌<◌, ap, ◌≡◌, refl, sym, ◌∙◌, subst, ◌⊎◌, inl, inr, Bool, true, false, Option, some, List,
  [], ◌∷◌, ◌++◌, map, arith, Bool-cases, nat_eq, all, All, List-cases, Text, text_eq, Map, get,
  Member, Member-append,
}
use unifold.Rules.Types.{RuleDependency, CompiledRule, CompiledProgram}
use unifold.Rules.Graph.{Seed}
use unifold.Rules.Graph.Overlaps.{Overlaps, dependencies_overlap-Overlaps}
use unifold.Rules.Graph.Candidates.{IsRooted, candidate_rule_ids-overlap}
use unifold.Rules.Layers.Recorded.{build-IsEdge}
use unifold.Rules.Layers.{
  RuleDiagnostic, RuleGraphResult, cycle_diagnostic, consumers_of, build_rule_dependency_graph,
}
use unifold.Rules.Layers.Rounds.{IsLayered}
use unifold.Rules.Layers.Acyclic.{build_rule_dependency_graph-IsLayered}
use unifold.Rules.Layers.Build.{build_rule_dependency_graph-IsRanked}
use unifold.Rules.Compiler.{
  layer_of, compiled_rule, rule_leb, insert_rule, sort_rules, create_program, compile_seeds,
}

-- The first rule writes a place that overlaps with one that the second rule reads.
abbrev pub Writes : CompiledRule → CompiledRule → Type 0
Writes producer consumer =
    (output : RuleDependency) × Member output producer.output_dependencies
    × (input : RuleDependency) × Member input consumer.input_dependencies
    × Overlaps output input

-- No rule writes what it reads itself, or stands before another one that writes what it reads.
abbrev pub InOrder : List CompiledRule → Type 0
InOrder [] = Unit {0}
InOrder (rule ∷ rules) =
    (Writes rule rule → ⊥)
    × All (λ (later : CompiledRule). Writes later rule → ⊥) rules
    × InOrder rules

-- The layers do not fall.
abbrev IsSorted : List CompiledRule → Type 0
IsSorted [] = Unit {0}
IsSorted (rule ∷ rules) =
    All (λ (later : CompiledRule). rule.layer ≤ later.layer) rules × IsSorted rules

module _ (locale_leb : Text → Text → Bool) where
  insert-All :
      (P : CompiledRule → Type 0) (rule : CompiledRule) (rules : List CompiledRule)
      → P rule
      → All P rules
      → All P (insert_rule locale_leb rule rules)
  unfolding insert_rule
  insert-All P rule [] h all = (h, all)
  insert-All P rule (r ∷ rs) h all = elim (Bool-cases (rule_leb locale_leb rule r)) [
    | inl t ↦ rw (t, insert_rule) (h, all)
    | inr f ↦ rw (f, insert_rule) (all.0, insert-All P rule rs h all.1)
  ]

  sort-All :
      (P : CompiledRule → Type 0) (rules : List CompiledRule)
      → All P rules
      → All P (sort_rules locale_leb rules)
  unfolding sort_rules
  sort-All P [] all = all
  sort-All P (rule ∷ rules) all =
      insert-All P rule (sort_rules locale_leb rules) all.0 (sort-All P rules all.1)

  leb_layer : (a b : CompiledRule) → rule_leb locale_leb a b ≡ true → a.layer ≤ b.layer
  unfolding rule_leb
  leb_layer a b h = ground arith

  not_leb_layer : (a b : CompiledRule) → rule_leb locale_leb a b ≡ false → b.layer ≤ a.layer
  unfolding rule_leb
  not_leb_layer a b h = ground arith

  All-le :
      (m n : ℕ) (rules : List CompiledRule)
      → m ≤ n
      → All (λ (r : CompiledRule). n ≤ r.layer) rules
      → All (λ (r : CompiledRule). m ≤ r.layer) rules
  All-le m n [] h all = all
  All-le m n (r ∷ rs) h all = (omega (arith, h, all.0), All-le m n rs h all.1)

  insert-IsSorted :
      (rule : CompiledRule) (rules : List CompiledRule)
      → IsSorted rules
      → IsSorted (insert_rule locale_leb rule rules)
  unfolding insert_rule
  insert-IsSorted rule [] s = (tt, tt)
  insert-IsSorted rule (r ∷ rs) s = elim (Bool-cases (rule_leb locale_leb rule r)) [
    | inl t ↦
        let first = leb_layer rule r t in
        rw (t, insert_rule) ((first, All-le rule.layer r.layer rs first s.0), s)
    | inr f ↦
        rw (f, insert_rule)
          (
            insert-All (λ (later : CompiledRule). r.layer ≤ later.layer) rule rs
                (not_leb_layer rule r f) s.0,
            insert-IsSorted rule rs s.1,
          )
  ]

  sort-IsSorted : (rules : List CompiledRule) → IsSorted (sort_rules locale_leb rules)
  unfolding sort_rules
  sort-IsSorted [] = tt
  sort-IsSorted (rule ∷ rules) =
      insert-IsSorted rule (sort_rules locale_leb rules) (sort-IsSorted rules)

-- The rule is made from one of the seeds and has the layer that the graph gives to its id.
record FromGraph (seeds : List Seed) (graph : RuleGraphResult) (rule : CompiledRule) : Type 0 where
  seed : Seed
  stored : Member seed seeds
  name : seed.definition.id ≡ rule.definition.id
  reads : rule.input_dependencies ≡ seed.inputs
  writes : rule.output_dependencies ≡ seed.outputs
  layer : rule.layer ≡ layer_of rule.definition.id graph.layer_by_rule_id

compiled-FromGraph :
    (all : List Seed) (graph : RuleGraphResult) (seeds : List Seed)
    → ((seed : Seed) → Member seed seeds → Member seed all)
    → All
        (FromGraph all graph)
        (map (compiled_rule graph.downstream_by_rule_id graph.layer_by_rule_id) seeds)
unfolding compiled_rule
compiled-FromGraph all graph [] h = tt
compiled-FromGraph all graph (seed ∷ seeds) h = (
  record {
    seed = seed;
    stored = h seed (inl refl);
    name = refl;
    reads = refl;
    writes = refl;
    layer = refl;
  },
  compiled-FromGraph all graph seeds (λ s m. h s (inr m)),
)

layer_lem :
    (id : Text) (l : ℕ) (layers : Map Text ℕ) → get id layers ≡ some l → layer_of id layers ≡ l
unfolding layer_of
layer_lem id l layers e = rw (e, layer_of) refl

-- The pointers of the seeds' inputs and outputs are not empty.
abbrev pub IsRootedSeeds : List Seed → Type 0
IsRootedSeeds seeds =
    (seed : Seed)
    → Member seed seeds
    → ((input : RuleDependency) → Member input seed.inputs → IsRooted input)
      × ((output : RuleDependency) → Member output seed.outputs → IsRooted output)

module _ (seeds : List Seed) (graph : RuleGraphResult)
    (built : build_rule_dependency_graph seeds ≡ some graph) (rooted : IsRootedSeeds seeds)
    (rises : (p c : Text)
      → Member c (consumers_of p graph.downstream_by_rule_id)
      → (l : ℕ) × (get c graph.layer_by_rule_id ≡ some l)
        × IsLayered p l graph.layer_by_rule_id) where
  -- A rule that reads what another one writes is in a higher layer.
  Writes-layer :
      (producer consumer : CompiledRule)
      → FromGraph seeds graph producer
      → FromGraph seeds graph consumer
      → Writes producer consumer
      → producer.layer < consumer.layer
  Writes-layer producer consumer p c (output, m, input, n, overlaps) =
      let o = subst (λ l. Member output l) p.writes m in
      let i = subst (λ l. Member input l) c.reads n in
      let candidate =
        (candidate_rule_ids-overlap seeds output c.seed.definition.id
            ((rooted p.seed p.stored).1 output o) (λ s at. (rooted s at).0)).1
          (
            c.seed,
            c.stored,
            refl,
            (input, i, (dependencies_overlap-Overlaps output input).1 overlaps),
          ) in
      let edge =
        build-IsEdge seeds graph built p.seed output c.seed.definition.id p.stored o candidate in
      let (l, at, (lp, there, less)) = rises p.seed.definition.id c.seed.definition.id edge in
      let high = layer_lem c.seed.definition.id l graph.layer_by_rule_id at in
      let low = layer_lem p.seed.definition.id lp graph.layer_by_rule_id there in
      let high' = ap (λ t. layer_of t graph.layer_by_rule_id) c.name in
      let low' = ap (λ t. layer_of t graph.layer_by_rule_id) p.name in
      omega (arith, less, p.layer ∙ sym low' ∙ low, c.layer ∙ sym high' ∙ high)

  none_later :
      (rule : CompiledRule) (later : List CompiledRule)
      → FromGraph seeds graph rule
      → All (FromGraph seeds graph) later
      → All (λ (r : CompiledRule). rule.layer ≤ r.layer) later
      → All (λ (r : CompiledRule). Writes r rule → ⊥) later
  none_later rule [] f from a = tt
  none_later rule (r ∷ rs) f from a = (
    λ w. absurd (omega (arith, Writes-layer r rule from.0 f w, a.0)),
    none_later rule rs f from.1 a.1,
  )

  sorted-InOrder :
      (rules : List CompiledRule)
      → All (FromGraph seeds graph) rules
      → IsSorted rules
      → InOrder rules
  sorted-InOrder [] from s = tt
  sorted-InOrder (rule ∷ rules) from s = (
    λ w. absurd (omega (arith, Writes-layer rule rule from.0 from.0 w)),
    none_later rule rules from.0 from.1 s.0,
    sorted-InOrder rules from.1 s.1,
  )

-- From rules whose places have pointers that are not empty, in every program that the compilation
-- answers the rules stand in an order of evaluation: no rule writes a place that overlaps with one it
-- reads, and none stands before another one that does, so that a single pass evaluates a rule after
-- all those that write what it reads.
pub compile_seeds-InOrder :
    (locale_leb : Text → Text → Bool) (validation : List RuleDiagnostic) (seeds : List Seed)
    (program : CompiledProgram)
    → IsRootedSeeds seeds
    → compile_seeds locale_leb validation seeds ≡ some (inr program)
    → InOrder program.rules
unfolding compile_seeds create_program
compile_seeds-InOrder locale_leb validation seeds program rooted h =
    let (graph, e, ranked) = build_rule_dependency_graph-IsRanked seeds in
    let made = create_program locale_leb seeds graph.downstream_by_rule_id graph.layer_by_rule_id in
    elim (List-cases (validation ++ graph.diagnostics)) [
      | inr (d, ds, f) ↦
          let answer : compile_seeds locale_leb validation seeds ≡ some (inl (d ∷ ds)) =
            rw (e, compile_seeds, f) refl in
          let bad = sym answer ∙ h in cc
      | inl f ↦
          let answer : compile_seeds locale_leb validation seeds ≡ some (inr made) =
            rw (e, compile_seeds, f) refl in
          let same : made ≡ program = inr-injective (sym answer ∙ h) in
          let (all, rises) = build_rule_dependency_graph-IsLayered seeds graph e (λ m.
            subst (λ l. Member cycle_diagnostic l) f
              ((Member-append cycle_diagnostic validation graph.diagnostics).1 (inr m))) in
          let rules =
            map (compiled_rule graph.downstream_by_rule_id graph.layer_by_rule_id) seeds in
          subst (λ (p : CompiledProgram). InOrder p.rules) same
            (sorted-InOrder seeds graph e rooted rises (sort_rules locale_leb rules)
              (sort-All locale_leb (FromGraph seeds graph) rules
                (compiled-FromGraph seeds graph seeds (λ s m. m)))
              (sort-IsSorted locale_leb rules))
    ]
  where
    inr-injective :
        {p q : CompiledProgram}
        → ◌≡◌ {A = Option (List RuleDiagnostic ⊎ CompiledProgram)} (some (inr p)) (some (inr q))
        → p ≡ q
    inr-injective k = cc

-- ===== src/Rules/Graph/Candidates.antt =====
-- The rules that packages/rules/src/dependency-graph.ts finds to read what an output writes.
use unifold.Prelude.{
  Member-map, ◌≡◌, refl, sym, subst, ◌≢◌, ◌↔◌, ◌⊎◌, inl, inr, true, List, [], map, nat_eq, Text,
  text_eq, get, Member,
}
use unifold.Rules.Types.{RuleDependency}
use unifold.Rules.Dependencies.{DependencyKey, dependency_key, key_eq, dependencies_overlap}
use unifold.Rules.Graph.{
  Seed, InputIndex, dependency_lineage, ids_of, index_input, create_rule_input_index,
  candidate_rule_ids,
}
use unifold.Rules.Graph.Lineage.{pointers_overlap_iff}
use unifold.Rules.Graph.Index.{
  ids_of-add_indexed_id, ids_of-index_lineage, part-index_seeds, add_exact-Member, lineage_keys,
  dependencies_overlap_iff,
}

-- An input below the key: the key is in its lineage.
abbrev Below : DependencyKey → RuleDependency → Type 0
Below k input = Member k (map dependency_key (dependency_lineage input))

abbrev At : DependencyKey → RuleDependency → Type 0
At k input = dependency_key input ≡ k

exact_lem :
    (c : Text) (k : DependencyKey) (id : Text) (input : RuleDependency) (index : InputIndex)
    → Member c (ids_of k (index_input id input index).exact)
      ↔ (Member c (ids_of k index.exact) ⊎ ((id ≡ c) × At k input))
unfolding index_input
exact_lem c k id input index =
    let one = ids_of-add_indexed_id k (dependency_key input) c id index.exact in
    (
      λ m. elim (one.0 m) [ inl n ↦ inl n | inr n ↦ inr (n.1, n.0) ],
      λ m. elim m [ inl n ↦ one.1 (inl n) | inr n ↦ one.1 (inr (n.1, n.0)) ],
    )

descendants_lem :
    (c : Text) (k : DependencyKey) (id : Text) (input : RuleDependency) (index : InputIndex)
    → Member c (ids_of k (index_input id input index).descendants)
      ↔ (Member c (ids_of k index.descendants) ⊎ ((id ≡ c) × Below k input))
unfolding index_input
descendants_lem c k id input index =
    ids_of-index_lineage k c id (dependency_lineage input) index.descendants

-- A rule of the seeds reads at an input that matches.
abbrev pub Reads : (RuleDependency → Type 0) → Text → List Seed → Type 0
Reads Matches c seeds =
    (seed : Seed) × Member seed seeds
    × (seed.definition.id ≡ c)
    × ((input : RuleDependency) × Member input seed.inputs × Matches input)

exact_seeds :
    (c : Text) (k : DependencyKey) (seeds : List Seed)
    → Member c (ids_of k (create_rule_input_index seeds).exact) ↔ Reads (At k) c seeds
unfolding create_rule_input_index ids_of get
exact_seeds c k seeds =
    let all =
      part-index_seeds c (λ i. ids_of k i.exact) (At k) (λ id input i. exact_lem c k id input i)
        seeds (record { descendants = []; exact = [] }) in
    (λ m. elim (all.0 m) [ inl bad ↦ absurd bad | inr n ↦ n ], λ n. all.1 (inr n))

descendants_seeds :
    (c : Text) (k : DependencyKey) (seeds : List Seed)
    → Member c (ids_of k (create_rule_input_index seeds).descendants) ↔ Reads (Below k) c seeds
unfolding create_rule_input_index ids_of get
descendants_seeds c k seeds =
    let all =
      part-index_seeds c (λ i. ids_of k i.descendants) (Below k)
        (λ id input i. descendants_lem c k id input i) seeds
        (record { descendants = []; exact = [] }) in
    (λ m. elim (all.0 m) [ inl bad ↦ absurd bad | inr n ↦ n ], λ n. all.1 (inr n))

-- The pointer of the dependency is not empty.
abbrev pub IsRooted : RuleDependency → Type 0
IsRooted d = d.pointer ≢ []

overlap_lem :
    (output input : RuleDependency)
    → IsRooted output
    → IsRooted input
    → (dependencies_overlap output input ≡ true)
      ↔ (Below (dependency_key output) input ⊎ Below (dependency_key input) output)
unfolding dependency_key
overlap_lem output input some_output some_input =
    let both = dependencies_overlap_iff output input in
    let pointers = pointers_overlap_iff output.pointer input.pointer some_output some_input in
    let there = lineage_keys input (dependency_key output) in
    let here = lineage_keys output (dependency_key input) in
    (
      λ h.
          let (e, p) = both.0 h in
          elim (pointers.0 p) [ inl m ↦ inl (there.1 (sym e, m)) | inr m ↦ inr (here.1 (e, m)) ],
      λ h. elim h [
        | inl m ↦ let (e, p) = there.0 m in both.1 (sym e, pointers.1 (inl p))
        | inr m ↦ let (e, p) = here.0 m in both.1 (e, pointers.1 (inr p))
      ],
    )

-- Every rule that is found is one of the seeds.
pub candidate-Member :
    (seeds : List Seed) (output : RuleDependency) (c : Text)
    → Member c (candidate_rule_ids output (create_rule_input_index seeds))
    → Member c (map (λ (seed : Seed). seed.definition.id) seeds)
unfolding candidate_rule_ids
candidate-Member seeds output c m =
    let index = create_rule_input_index seeds in
    let key = dependency_key output in
    let id_of : Seed → Text = λ seed. seed.definition.id in
    elim ((add_exact-Member c (dependency_lineage output) index.exact
        (ids_of key index.descendants)).0
      m) [
        | inl n ↦
            let (seed, at, e, rest) = (descendants_seeds c key seeds).0 n in
            (Member-map id_of c seeds).1 (seed, at, e)
        | inr (k, below, n) ↦
            let (seed, at, e, rest) = (exact_seeds c k seeds).0 n in
            (Member-map id_of c seeds).1 (seed, at, e)
      ]

-- For rules whose places have pointers that are not empty, as the validation demands, the index finds
-- for an output exactly the rules that have an input which overlaps with it, although it looks up the
-- output and its ancestors only and compares it with no input.
pub candidate_rule_ids-overlap :
    (seeds : List Seed) (output : RuleDependency) (c : Text)
    → IsRooted output
    → ((seed : Seed)
        → Member seed seeds
        → (input : RuleDependency) → Member input seed.inputs
        → IsRooted input)
    → Member c (candidate_rule_ids output (create_rule_input_index seeds))
      ↔ Reads (λ input. dependencies_overlap output input ≡ true) c seeds
unfolding candidate_rule_ids
candidate_rule_ids-overlap seeds output c some_output some_inputs =
    let index = create_rule_input_index seeds in
    let key = dependency_key output in
    let all =
      add_exact-Member c (dependency_lineage output) index.exact (ids_of key index.descendants) in
    (
      λ m. elim (all.0 m) [
        | inl n ↦
            let (seed, at, e, (i, there, below)) = (descendants_seeds c key seeds).0 n in
            (
              seed,
              at,
              e,
              (
                i,
                there,
                (overlap_lem output i some_output (some_inputs seed at i there)).1 (inl below),
              ),
            )
        | inr (k, below, n) ↦
            let (seed, at, e, (i, there, same)) = (exact_seeds c k seeds).0 n in
            (
              seed,
              at,
              e,
              (
                i,
                there,
                (overlap_lem output i some_output (some_inputs seed at i there)).1 (
                    inr (
                      subst (λ j. Member j (map dependency_key (dependency_lineage output)))
                        (sym same) below)),
              ),
            )
      ],
      λ (seed, at, e, (i, there, h)).
          elim ((overlap_lem output i some_output (some_inputs seed at i there)).0 h) [
            | inl below ↦
                all.1 (inl ((descendants_seeds c key seeds).1 (seed, at, e, (i, there, below))))
            | inr below ↦ all.1 (
                inr (
                  dependency_key i,
                  below,
                  (exact_seeds c (dependency_key i) seeds).1 (seed, at, e, (i, there, refl)),
                ))
          ],
    )

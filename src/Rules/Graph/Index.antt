-- ===== src/Rules/Graph/Index.antt =====
-- The index of the rules' inputs of packages/rules/src/dependency-graph.ts.
use unifold.Prelude.{
  ◌≡◌, refl, sym, ap, ◌∙◌, subst, ◌↔◌, ◌⊎◌, inl, inr, true, Option, none, some, List, [], ◌∷◌, map,
  arith, Bool-cases, ◌==◌, nat_eq, ==_iff, Text, text_eq, Map, get, put, get-put, Member, add_new,
  Member-map, add_new-Member,
}
use unifold.Rules.Types.{RuleDependency}
use unifold.Rules.Dependencies.{
  DependencyKey, dependency_key, key_eq, pointers_overlap, dependencies_overlap,
}
use unifold.Rules.Graph.{
  Seed, InputIndex, pointer_lineage, dependency_lineage, ids_of, add_indexed_id, index_lineage,
  index_input, index_inputs, index_seeds, add_all, add_exact,
}

pub ids_of-add_indexed_id :
    (k key : DependencyKey) (c id : Text) (index : Map DependencyKey (List Text))
    → Member c (ids_of k (add_indexed_id key id index))
      ↔ (Member c (ids_of k index) ⊎ ((key ≡ k) × (id ≡ c)))
unfolding ids_of add_indexed_id
ids_of-add_indexed_id k key c id index = elim (Bool-cases (key == k)) [
  | inl t ↦
      let e = (==_iff key k).0 t in
      let new = add_new id (ids_of key index) in
      let g : get k (put key new index) ≡ some new = get-put key k new index ∙ rw t refl in
      let at : ids_of k (add_indexed_id key id index) ≡ add_new id (ids_of k index) =
        ap found g ∙ ap (λ j. add_new id (ids_of j index)) e in
      rw at (
        λ m. elim ((add_new-Member c id (ids_of k index)).0 m) [
          | inl n ↦ inl n
          | inr same ↦ inr (e, same)
        ],
        λ m. (add_new-Member c id (ids_of k index)).1 (elim m [ inl n ↦ inl n | inr n ↦ inr n.1 ]),
      )
  | inr f ↦
      let new = add_new id (ids_of key index) in
      let g : get k (put key new index) ≡ get k index = get-put key k new index ∙ rw f refl in
      let at : ids_of k (add_indexed_id key id index) ≡ ids_of k index = ap found g in
      rw at
        (λ m. inl m, λ m. elim m [ inl n ↦ n | inr n ↦ absurd (ground (arith, ==_iff key k, n.0)) ])
]
  where
    found : Option (List Text) → List Text
    found none = []
    found (some ids) = ids

pub ids_of-index_lineage :
    (k : DependencyKey) (c id : Text) (ds : List RuleDependency)
    (index : Map DependencyKey (List Text))
    → Member c (ids_of k (index_lineage id ds index))
      ↔ (Member c (ids_of k index) ⊎ ((id ≡ c) × Member k (map dependency_key ds)))
unfolding index_lineage
ids_of-index_lineage k c id [] index = (λ m. inl m, λ m. elim m [ inl n ↦ n | inr n ↦ absurd n.1 ])
ids_of-index_lineage k c id (d ∷ ds) index =
    let rest = ids_of-index_lineage k c id ds (add_indexed_id (dependency_key d) id index) in
    let one = ids_of-add_indexed_id k (dependency_key d) c id index in
    (
      λ m. elim (rest.0 m) [
        | inr n ↦ inr (n.0, inr n.1)
        | inl n ↦ elim (one.0 n) [ inl o ↦ inl o | inr o ↦ inr (o.1, inl o.0) ]
      ],
      λ m. elim m [
        | inl n ↦ rest.1 (inl (one.1 (inl n)))
        | inr (e, inl o) ↦ rest.1 (inl (one.1 (inr (o, e))))
        | inr (e, inr o) ↦ rest.1 (inr (e, o))
      ],
    )

-- A part of the index in which an input enters its rule where it matches.
module _ (c : Text) (part : InputIndex → List Text) (Matches : RuleDependency → Type 0)
    (enters : (id : Text) (input : RuleDependency) (index : InputIndex)
      → Member c (part (index_input id input index))
        ↔ (Member c (part index) ⊎ ((id ≡ c) × Matches input))) where
  abbrev pub SomeInput : List RuleDependency → Type 0
  SomeInput inputs = (input : RuleDependency) × Member input inputs × Matches input

  abbrev pub SomeSeed : List Seed → Type 0
  SomeSeed seeds =
      (seed : Seed) × Member seed seeds × (seed.definition.id ≡ c) × SomeInput seed.inputs

  part-index_inputs :
      (id : Text) (inputs : List RuleDependency) (index : InputIndex)
      → Member c (part (index_inputs id inputs index))
        ↔ (Member c (part index) ⊎ ((id ≡ c) × SomeInput inputs))
  unfolding index_inputs
  part-index_inputs id [] index =
      (λ m. inl m, λ m. elim m [ inl n ↦ n | inr (e, (i, at, h)) ↦ absurd at ])
  part-index_inputs id (input ∷ inputs) index =
      let rest = part-index_inputs id inputs (index_input id input index) in
      let one = enters id input index in
      (
        λ m. elim (rest.0 m) [
          | inr (e, (i, at, h)) ↦ inr (e, (i, inr at, h))
          | inl n ↦ elim (one.0 n) [ inl o ↦ inl o | inr o ↦ inr (o.0, (input, inl refl, o.1)) ]
        ],
        λ m. elim m [
          | inl n ↦ rest.1 (inl (one.1 (inl n)))
          | inr (e, (i, inl same, h)) ↦
              rest.1 (inl (one.1 (inr (e, subst (λ j. Matches j) (sym same) h))))
          | inr (e, (i, inr at, h)) ↦ rest.1 (inr (e, (i, at, h)))
        ],
      )

  pub part-index_seeds :
      (seeds : List Seed) (index : InputIndex)
      → Member c (part (index_seeds seeds index)) ↔ (Member c (part index) ⊎ SomeSeed seeds)
  unfolding index_seeds
  part-index_seeds [] index =
      (λ m. inl m, λ m. elim m [ inl n ↦ n | inr (s, at, e, h) ↦ absurd at ])
  part-index_seeds (seed ∷ seeds) index =
      let rest = part-index_seeds seeds (index_inputs seed.definition.id seed.inputs index) in
      let one = part-index_inputs seed.definition.id seed.inputs index in
      (
        λ m. elim (rest.0 m) [
          | inr (s, at, e, h) ↦ inr (s, inr at, e, h)
          | inl n ↦ elim (one.0 n) [ inl o ↦ inl o | inr o ↦ inr (seed, inl refl, o.0, o.1) ]
        ],
        λ m. elim m [
          | inl n ↦ rest.1 (inl (one.1 (inl n)))
          | inr (s, inl same, e, h) ↦ rest.1 (
              inl (
                one.1 (
                  inr (
                    subst (λ (t : Seed). (t.definition.id ≡ c) × SomeInput t.inputs) (sym same)
                      (e, h)))))
          | inr (s, inr at, e, h) ↦ rest.1 (inr (s, at, e, h))
        ],
      )

add_all-Member :
    (x : Text) (ids t : List Text) → Member x (add_all ids t) ↔ (Member x t ⊎ Member x ids)
unfolding add_all
add_all-Member x [] t = (λ m. inl m, λ m. elim m [ inl n ↦ n | inr n ↦ absurd n ])
add_all-Member x (id ∷ ids) t =
    let rest = add_all-Member x ids (add_new id t) in
    let one = add_new-Member x id t in
    (
      λ m. elim (rest.0 m) [
        | inr n ↦ inr (inr n)
        | inl n ↦ elim (one.0 n) [ inl o ↦ inl o | inr o ↦ inr (inl o) ]
      ],
      λ m. elim m [
        | inl n ↦ rest.1 (inl (one.1 (inl n)))
        | inr (inl e) ↦ rest.1 (inl (one.1 (inr e)))
        | inr (inr n) ↦ rest.1 (inr n)
      ],
    )

pub add_exact-Member :
    (x : Text) (ds : List RuleDependency) (exact : Map DependencyKey (List Text)) (t : List Text)
    → Member x (add_exact ds exact t) ↔ (
        Member x t
        ⊎ ((k : DependencyKey) × Member k (map dependency_key ds) × Member x (ids_of k exact)))
unfolding add_exact
add_exact-Member x [] exact t = (λ m. inl m, λ m. elim m [ inl n ↦ n | inr (k, at, n) ↦ absurd at ])
add_exact-Member x (d ∷ ds) exact t =
    let rest = add_exact-Member x ds exact (add_all (ids_of (dependency_key d) exact) t) in
    let one = add_all-Member x (ids_of (dependency_key d) exact) t in
    (
      λ m. elim (rest.0 m) [
        | inr (k, at, n) ↦ inr (k, inr at, n)
        | inl n ↦ elim (one.0 n) [ inl o ↦ inl o | inr o ↦ inr (dependency_key d, inl refl, o) ]
      ],
      λ m. elim m [
        | inl n ↦ rest.1 (inl (one.1 (inl n)))
        | inr (k, inl e, n) ↦
            rest.1 (inl (one.1 (inr (subst (λ j. Member x (ids_of j exact)) (sym e) n))))
        | inr (k, inr at, n) ↦ rest.1 (inr (k, at, n))
      ],
    )

abbrev at_node : Text → Text → RuleDependency
at_node id pointer = record { node_id = id; pointer = pointer }

-- A key is in the lineage of a dependency.
pub lineage_keys :
    (d : RuleDependency) (k : DependencyKey)
    → Member k (map dependency_key (dependency_lineage d))
      ↔ ((d.node_id ≡ k.0) × Member k.1 (pointer_lineage d.pointer))
unfolding dependency_lineage dependency_key
lineage_keys d k = (
  λ m.
      let (x, at, e) = (Member-map dependency_key k (dependency_lineage d)).0 m in
      let (p, there, f) = (Member-map (at_node d.node_id) x (pointer_lineage d.pointer)).0 at in
      let g = ap dependency_key f ∙ e in
      (
        ap (λ (j : DependencyKey). j.0) g,
        subst (λ q. Member q (pointer_lineage d.pointer)) (ap (λ (j : DependencyKey). j.1) g) there,
      ),
  λ h. (Member-map dependency_key k (dependency_lineage d)).1 (
    at_node d.node_id k.1,
    (Member-map (at_node d.node_id) (at_node d.node_id k.1) (pointer_lineage d.pointer)).1
        (k.1, h.1, refl),
    ap (λ n. (n, k.1)) h.0,
  ),
)

pub dependencies_overlap_iff :
    (a b : RuleDependency)
    → (dependencies_overlap a b ≡ true)
      ↔ ((a.node_id ≡ b.node_id) × (pointers_overlap a.pointer b.pointer ≡ true))
unfolding dependencies_overlap
dependencies_overlap_iff a b = elim (Bool-cases (a.node_id == b.node_id)) [
  | inl t ↦ rw (t, dependencies_overlap) (λ h. ((==_iff a.node_id b.node_id).0 t, h), λ h. h.1)
  | inr f ↦
      rw (f, dependencies_overlap)
        (λ h. cc, λ h. absurd (ground (arith, ==_iff a.node_id b.node_id, h.0)))
]

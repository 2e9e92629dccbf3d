-- ===== src/Rules/Layers/Names.antt =====
-- The ids that occur in the graph and in the layers of packages/rules/src/dependency-graph.ts.
use unifold.Prelude.{
  ℕ, suc, ◌≤◌, ◌≡◌, refl, sym, subst, ◌⊎◌, inl, inr, some, List, [], ◌∷◌, map, arith, Bool-cases,
  Option-cases, ◌==◌, nat_eq, ==_iff, length, Text, text_eq, Map, get, put, Member, has_iff, has,
  add_new-Member,
}
use unifold.Rules.Graph.{Seed, Graph, seed_map, increment_indegree, add_edge, add_edges}
use unifold.Rules.Layers.Rounds.{Distinct, IsEdge, without, without-length, without-Member}
use unifold.Rules.Layers.Counts.{keys, keys-put, old-IsEdge}

-- A list of different ids that are all in another one is not longer.
pub Distinct-length :
    (xs ys : List Text)
    → Distinct xs
    → ((x : Text) → Member x xs → Member x ys)
    → length xs ≤ length ys
Distinct-length [] ys d h = omega arith
Distinct-length (x ∷ xs) ys d h =
    let rest = Distinct-length xs (without x ys) d.1 (λ y m.
      elim (without-Member x y ys (h y (inr m))) [
        | inl e ↦
            let twice = (has_iff x xs).1 (subst (λ u. Member u xs) (sym e) m) in
            let once = d.0 in cc
        | inr k ↦ k
      ]) in
    omega (arith, rest, without-length x ys (h x (inl refl)))

pub key_of : (x : Text) (m : Map Text ℕ) → Member x (keys m) → (n : ℕ) × (get x m ≡ some n)
unfolding get
key_of x [] h = absurd h
key_of x ((j, n) ∷ m) h = elim (Bool-cases (j == x)) [
  | inl t ↦ (n, rw t refl)
  | inr f ↦ elim h [
    | inl e ↦ absurd (ground (arith, ==_iff j x, e))
    | inr k ↦ let (l, at) = key_of x m k in (l, rw f at)
  ]
]

pub put_key :
    (x k : Text) (n : ℕ) (m : Map Text ℕ)
    → Member x (keys (put k n m))
    → Member x (keys m) ⊎ (k ≡ x)
put_key x k n m h = (add_new-Member x k (keys m)).0 (subst (λ l. Member x l) (keys-put k n m) h)

module _ (known : List Text) where
  -- Every consumer and every key of the counts is known.
  pub record IsKnown (graph : Graph) : Type 0 where
    pub consumers : (p c : Text) → IsEdge graph.downstream p c → Member c known
    pub counted : (x : Text) → Member x (keys graph.indegree) → Member x known

  increment_key :
      (x k : Text) (m : Map Text ℕ)
      → Member x (keys (increment_indegree k m))
      → Member x (keys m) ⊎ (k ≡ x)
  unfolding increment_indegree
  increment_key x k m h = elim (Option-cases (get k m)) [
    | inl e ↦
        let at : increment_indegree k m ≡ put k 1 m = rw (e, increment_indegree) refl in
        put_key x k 1 m (subst (λ l. Member x (keys l)) at h)
    | inr (n, e) ↦
        let at : increment_indegree k m ≡ put k (suc n) m = rw (e, increment_indegree) refl in
        put_key x k (suc n) m (subst (λ l. Member x (keys l)) at h)
  ]

  add_edge-IsKnown :
      (p c : Text) (graph : Graph) → Member c known → IsKnown graph → IsKnown (add_edge p c graph)
  unfolding add_edge
  add_edge-IsKnown p c graph here v = elim (Option-cases (get p graph.downstream)) [
    | inl e ↦ rw (e, add_edge) v
    | inr (cs, e) ↦ elim (Bool-cases (has c cs)) [
      | inl t ↦ rw (e, add_edge, t) v
      | inr f ↦
          rw (e, add_edge, f)
            (record {
              consumers = λ q d edge. elim (old-IsEdge p c cs graph e q d edge) [
                | inl k ↦ v.consumers q d k
                | inr same ↦ subst (λ u. Member u known) same.1 here
              ];
              counted = λ x m. elim (increment_key x c graph.indegree m) [
                | inl k ↦ v.counted x k
                | inr same ↦ subst (λ u. Member u known) same here
              ];
            })
    ]
  ]

  pub add_edges-IsKnown :
      (p : Text) (ids : List Text) (graph : Graph)
      → ((c : Text) → Member c ids → Member c known)
      → IsKnown graph
      → IsKnown (add_edges p ids graph)
  unfolding add_edges
  add_edges-IsKnown p [] graph h v = v
  add_edges-IsKnown p (id ∷ ids) graph h v =
      add_edges-IsKnown p ids (add_edge p id graph) (λ c m. h c (inr m))
        (add_edge-IsKnown p id graph (h id (inl refl)) v)

  pub seed_map-known :
      (seeds : List Seed) (m : Map Text ℕ)
      → ((x : Text) → Member x (keys m) → Member x known)
      → ((x : Text) → Member x (map (λ (s : Seed). s.definition.id) seeds) → Member x known)
      → (x : Text) → Member x (keys (seed_map 0 seeds m))
      → Member x known
  unfolding seed_map
  seed_map-known [] m h ids x k = h x k
  seed_map-known (seed ∷ seeds) m h ids x k =
      seed_map-known seeds (put seed.definition.id 0 m)
        (λ y at. elim (put_key y seed.definition.id 0 m at) [
          | inl n ↦ h y n
          | inr e ↦ ids y (inl e)
        ])
        (λ y at. ids y (inr at)) x k

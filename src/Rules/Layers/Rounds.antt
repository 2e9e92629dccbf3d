-- ===== src/Rules/Layers/Rounds.antt =====
-- What holds during the loop of `topologicalLayers` of packages/rules/src/dependency-graph.ts.
use unifold.Prelude.{
  ℕ, suc, ◌≤◌, ◌<◌, ◌≡◌, refl, sym, ◌∙◌, subst, ◌≢◌, ◌⊎◌, inl, inr, false, ◌||◌, none, some, List,
  [], ◌∷◌, ◌++◌, arith, if◌then◌else◌, Bool-cases, ◌==◌, nat_eq, ==_iff, length, Text, text_eq, Map,
  get, put, delete, get-put, get-put_fresh, get-put_self, get-put_cases, get-delete-some, Member,
  has_iff, has,
}
use unifold.Rules.Layers.{pos, Progress, consumers_of}

-- No id stands twice in the list.
abbrev pub Distinct : List Text → Type 0
Distinct [] = Unit {0}
Distinct (x ∷ xs) = (has x xs ≡ false) × Distinct xs

has-append : (x : Text) (xs ys : List Text) → has x (xs ++ ys) ≡ (has x xs || has x ys)
unfolding has
has-append x [] ys = refl
has-append x (y ∷ xs) ys = ground (arith, has-append x xs ys)

pub Distinct-last :
    (xs : List Text) (c : Text) → Distinct xs → has c xs ≡ false → Distinct (xs ++ c ∷ [])
unfolding has
Distinct-last [] c d h = (refl, tt)
Distinct-last (x ∷ xs) c d h = (
  ground (arith, has-append x xs (c ∷ []), d.0, ==_iff x c, ==_iff c x),
  Distinct-last xs c d.1 (ground arith),
)

-- The list without the first occurrence of an id.
unfoldable pub without : Text → List Text → List Text
without id [] = []
without id (x ∷ xs) = if x == id then xs else x ∷ without id xs

pub without-length :
    (id : Text) (xs : List Text) → Member id xs → suc (length (without id xs)) ≡ length xs
unfolding without
without-length id [] m = absurd m
without-length id (x ∷ xs) (inl e) = ground (arith, ==_iff x id, e)
without-length id (x ∷ xs) (inr m) = ground (arith, without-length id xs m)

pub without-Member :
    (id x : Text) (xs : List Text) → Member x xs → (id ≡ x) ⊎ Member x (without id xs)
unfolding without
without-Member id x [] m = absurd m
without-Member id x (y ∷ ys) m = elim (Bool-cases (y == id)) [
  | inl t ↦ elim m [ inl e ↦ inl (sym ((==_iff y id).0 t) ∙ e) | inr n ↦ inr (rw (t, without) n) ]
  | inr f ↦ elim m [
    | inl e ↦ inr (rw (f, without) (inl e))
    | inr n ↦ elim (without-Member id x ys n) [
      | inl e ↦ inl e
      | inr k ↦ inr (rw (f, without) (inr k))
    ]
  ]
]

-- Its layer is known and lower than the bound.
abbrev pub IsLayered : Text → ℕ → Map Text ℕ → Type 0
IsLayered p bound layers = (l : ℕ) × (get p layers ≡ some l) × (l < bound)

module _ (downstream : Map Text (List Text)) where
  -- The first rule writes what the second one reads.
  abbrev pub IsEdge : Text → Text → Type 0
  IsEdge p c = Member c (consumers_of p downstream)

  -- Every producer of the rule has a layer or is in a list that is not longer than the count.
  abbrev pub Waits : Text → ℕ → Map Text ℕ → Type 0
  Waits c count layers =
      (producers : List Text) × (length producers ≤ count)
      × ((p : Text) → IsEdge p c → ((l : ℕ) × (get p layers ≡ some l)) ⊎ Member p producers)

  -- The state while the rules `rest` of the layer and the edges to `consumers` are still to be done.
  pub record Inv (layer : ℕ) (consumers rest : List Text) (p : Progress) : Type 0 where
    pub spent :
        (x : Text)
        → (Member x (rest ++ p.pending)) ⊎ ((l : ℕ) × (get x p.layers ≡ some l))
        → (n : ℕ) → get x p.remaining ≢ some (pos (suc n))
    pub waits :
        (c : Text) (n : ℕ)
        → get c p.remaining ≡ some (pos (suc n))
        → Waits c (if has c consumers then n else suc n) p.layers
    pub distinct : Distinct (rest ++ p.pending)
    pub fresh : (x : Text) → Member x (rest ++ p.pending) → get x p.layers ≡ none
    pub ready : (x : Text) → Member x rest → (q : Text) → IsEdge q x → IsLayered q layer p.layers
    pub next :
        (x : Text) → Member x p.pending → (q : Text) → IsEdge q x → IsLayered q (suc layer) p.layers
    pub below : (x : Text) (l : ℕ) → get x p.layers ≡ some l → l < suc layer
    pub ranked :
        (x : Text) (l : ℕ)
        → get x p.layers ≡ some l
        → (q : Text) → IsEdge q x
        → IsLayered q l p.layers

  layered_put :
      (p id : Text) (bound l : ℕ) (layers : Map Text ℕ)
      → get id layers ≡ none
      → IsLayered p bound layers
      → IsLayered p bound (put id l layers)
  layered_put p id bound l layers free (m, at, less) =
      (m, get-put_fresh id p l m layers free at, less)

  start-Waits :
      (layer : ℕ) (id c : Text) (n : ℕ) (p : Progress)
      → get id p.layers ≡ none
      → ((q : Text) (l : ℕ) → get q p.layers ≡ some l → get q (put id layer p.layers) ≡ some l)
      → Waits c (suc n) p.layers
      → Waits c (if has c (consumers_of id downstream) then n else suc n) (put id layer p.layers)
  start-Waits layer id c n p free kept (ws, short, covers) =
      elim (Bool-cases (has c (consumers_of id downstream))) [
        | inr f ↦ rw f (
          ws,
          short,
          λ q edge. elim (covers q edge) [ inl (l, at) ↦ inl (l, kept q l at) | inr m ↦ inr m ],
        )
        | inl t ↦
            let here : Member id ws =
              elim (covers id ((has_iff c (consumers_of id downstream)).0 t)) [
                | inl (l, at) ↦ cc
                | inr m ↦ m
              ] in
            rw t (
              without id ws,
              omega (arith, without-length id ws here),
              λ q edge. elim (covers q edge) [
                | inl (l, at) ↦ inl (l, kept q l at)
                | inr m ↦ elim (without-Member id q ws m) [
                  | inl e ↦ inl (
                    layer,
                    subst (λ u. get u (put id layer p.layers) ≡ some layer) e
                        (get-put_self id layer p.layers),
                  )
                  | inr k ↦ inr k
                ]
              ],
            )
      ]

  start_fresh :
      (layer : ℕ) (id x : Text) (rest : List Text) (p : Progress)
      → Inv layer [] (id ∷ rest) p
      → Member x (rest ++ p.pending)
      → get x (put id layer p.layers) ≡ none
  start_fresh layer id x rest p v m = elim (Bool-cases (id == x)) [
    | inl t ↦
        let e = (==_iff id x).0 t in
        let twice =
          (has_iff id (rest ++ p.pending)).1
            (subst (λ u. Member u (rest ++ p.pending)) (sym e) m) in
        let once = v.distinct.0 in cc
    | inr f ↦ get-put id x layer p.layers ∙ rw f (v.fresh x (inr m))
  ]

  -- A rule that starts to be released gets its layer, and its edges are to be done.
  pub start_rule :
      (layer : ℕ) (id : Text) (rest : List Text) (p : Progress)
      → Inv layer [] (id ∷ rest) p
      → Inv layer
          (consumers_of id downstream)
          rest
          (record p { layers = put id layer p.layers; remaining = delete id p.remaining })
  unfolding has
  start_rule layer id rest p v =
      let free : get id p.layers ≡ none = v.fresh id (inl refl) in
      let kept : (q : Text) (l : ℕ)
          → get q p.layers ≡ some l
          → get q (put id layer p.layers) ≡ some l =
        λ q l at. get-put_fresh id q layer l p.layers free at in
      record {
        spent = λ x h n e.
            let (other, at) = get-delete-some id x (pos (suc n)) p.remaining e in
            v.spent x
              (elim h [
                | inl m ↦ inl (inr m)
                | inr (l, k) ↦ elim (get-put_cases id x layer l p.layers k) [
                  | inl (same, val) ↦ absurd (other same)
                  | inr (apart, there) ↦ inr (l, there)
                ]
              ])
              n at;
        waits = λ c n e.
            let (other, at) = get-delete-some id c (pos (suc n)) p.remaining e in
            start-Waits layer id c n p free kept (v.waits c n at);
        distinct = v.distinct.1;
        fresh = λ x m. start_fresh layer id x rest p v m;
        ready = λ x m q edge. layered_put q id layer layer p.layers free (v.ready x (inr m) q edge);
        next = λ x m q edge. layered_put q id (suc layer) layer p.layers free (v.next x m q edge);
        below = λ x l e. elim (get-put_cases id x layer l p.layers e) [
          | inl (same, val) ↦ omega (arith, val)
          | inr (apart, there) ↦ v.below x l there
        ];
        ranked = λ x l e q edge. elim (get-put_cases id x layer l p.layers e) [
          | inl (same, val) ↦ layered_put q id l layer p.layers free (
              subst (λ m. IsLayered q m p.layers) val
                (v.ready id (inl refl) q (subst (λ y. IsEdge q y) (sym same) edge)))
          | inr (apart, there) ↦ layered_put q id l layer p.layers free (v.ranked x l there q edge)
        ];
      }

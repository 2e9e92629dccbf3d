-- ===== src/Rules/Graph/Lineage.antt =====
-- The lineage of a pointer of packages/rules/src/dependency-graph.ts, and the overlap of pointers of
-- dependencies.ts.
use unifold.Prelude.{
  ℕ, zero, suc, ◌≤◌, ◌<◌, ◌≡◌, refl, sym, ap, ◌∙◌, subst, ◌≢◌, ◌↔◌, ◌⊎◌, inl, inr, true, none, some,
  [], ◌∷◌, ◌++◌, append_assoc, arith, nat_same, nat_same_iff, Bool-cases, iff_trans, Option-cases,
  ◌==◌, nat_eq, ==_iff, length, length-append, Text, text_eq, Member,
}
use unifold.Rules.Dependencies.{starts_with, is_pointer_parent, pointers_overlap}
use unifold.Rules.Graph.{before_last_slash, lineage_from, pointer_lineage}

-- The pointer goes on below the head, after a slash.
abbrev pub IsBelow : Text → Text → Type 0
IsBelow head pointer = (rest : Text) × (pointer ≡ head ++ 47 ∷ rest)

starts_with_iff :
    (head child : Text) → (starts_with head child ≡ true) ↔ ((rest : Text) × (child ≡ head ++ rest))
unfolding starts_with
starts_with_iff [] child = (λ h. (child, refl), λ h. refl)
starts_with_iff (c ∷ cs) [] = (λ h. cc, λ h. cc)
starts_with_iff (c ∷ cs) (d ∷ ds) = (
  λ h.
      let e : c ≡ d = (nat_same_iff c d).0 (ground arith) in
      let (rest, f) = (starts_with_iff cs ds).0 (ground arith) in (rest, rw (e, f) refl),
  λ h.
      let (rest, f) = h in
      let e : c ≡ d = cc in
      let g : ds ≡ cs ++ rest = cc in
      ground (arith, (starts_with_iff cs ds).1 (rest, g), (nat_same_iff c d).1 e),
)

pub is_pointer_parent_iff :
    (head pointer : Text) → (is_pointer_parent head pointer ≡ true) ↔ IsBelow head pointer
unfolding is_pointer_parent
is_pointer_parent_iff head pointer = iff_trans (starts_with_iff (head ++ 47 ∷ []) pointer) (
  λ h. (h.0, h.1 ∙ append_assoc head (47 ∷ []) h.0),
  λ h. (h.0, h.1 ∙ sym (append_assoc head (47 ∷ []) h.0)),
)

-- A text without a slash.
abbrev IsPlain : Text → Type 0
IsPlain t = before_last_slash t ≡ none

last_slash :
    (t head : Text)
    → before_last_slash t ≡ some head
    → (rest : Text) × (t ≡ head ++ 47 ∷ rest) × IsPlain rest
unfolding before_last_slash
last_slash [] head h = cc
last_slash (c ∷ cs) head h = elim (Option-cases (before_last_slash cs)) [
  | inr (u, e) ↦
      let (rest, f, plain) = last_slash cs u e in
      let g : head ≡ c ∷ u = some-injective (sym h ∙ rw e refl) in (rest, rw (g, f) refl, plain)
  | inl e ↦ elim (Bool-cases (nat_same c 47)) [
    | inl t ↦
        let g : head ≡ [] = some-injective (sym h ∙ rw (e, t) refl) in
        (cs, rw (g, (nat_same_iff c 47).0 t) refl, e)
    | inr f ↦ let bad = rw (e, f) at h in cc
  ]
]
  where
    some-injective : {u v : Text} → some u ≡ some v → u ≡ v
    some-injective q = cc

-- A text that has a slash has a last one, and what is before it is not shorter than before any other.
slash_before :
    (head rest : Text)
    → (before_last_slash (head ++ 47 ∷ rest) ≡ some head)
      ⊎ ((u : Text) × (before_last_slash (head ++ 47 ∷ rest) ≡ some u) × IsBelow head u)
unfolding before_last_slash
slash_before [] rest = elim (Option-cases (before_last_slash rest)) [
  | inl e ↦ inl (rw e refl)
  | inr (u, e) ↦ inr (47 ∷ u, rw e refl, (u, refl))
]
slash_before (c ∷ cs) rest = elim (slash_before cs rest) [
  | inl e ↦ inl (rw e refl)
  | inr (u, e, (v, f)) ↦ inr (c ∷ u, rw e refl, (v, rw f refl))
]

IsBelow-trans : (p q r : Text) → IsBelow p q → IsBelow q r → IsBelow p r
IsBelow-trans p q r (s, e) (t, f) =
    (s ++ 47 ∷ t, f ∙ ap (λ x. x ++ 47 ∷ t) e ∙ append_assoc p (47 ∷ s) (47 ∷ t))

IsBelow-length : (p q : Text) → IsBelow p q → length p < length q
IsBelow-length p q (rest, e) = rw e (omega (arith, length-append p (47 ∷ rest)))

-- A head of a pointer that is not empty.
abbrev pub IsAncestor : Text → Text → Type 0
IsAncestor q p = (q ≢ []) × IsBelow q p

lineage_step :
    (fuel : ℕ) (p : Text) (c : ℕ) (cs : Text)
    → before_last_slash p ≡ some (c ∷ cs)
    → lineage_from (suc fuel) p ≡ (c ∷ cs) ∷ lineage_from fuel (c ∷ cs)
unfolding lineage_from
lineage_step fuel p c cs e = rw (e, lineage_from) refl

lineage-IsAncestor : (fuel : ℕ) (p q : Text) → Member q (lineage_from fuel p) → IsAncestor q p
unfolding lineage_from
lineage-IsAncestor zero p q h = absurd h
lineage-IsAncestor (suc fuel) p q h = elim (Option-cases (before_last_slash p)) [
  | inl e ↦
      let none_lem : lineage_from (suc fuel) p ≡ [] = rw (e, lineage_from) refl in
      absurd (subst (λ l. Member q l) none_lem h)
  | inr ([], e) ↦
      let none_lem : lineage_from (suc fuel) p ≡ [] = rw (e, lineage_from) refl in
      absurd (subst (λ l. Member q l) none_lem h)
  | inr (c ∷ cs, e) ↦
      let (rest, f, plain) = last_slash p (c ∷ cs) e in
      elim (subst (λ l. Member q l) (lineage_step fuel p c cs e) h) [
        | inl same ↦ (λ bad. cc, (rest, f ∙ ap (λ u. u ++ 47 ∷ rest) same))
        | inr m ↦
            let (some_q, below) = lineage-IsAncestor fuel (c ∷ cs) q m in
            (some_q, IsBelow-trans q (c ∷ cs) p below (rest, f))
      ]
]

IsAncestor-lineage :
    (fuel : ℕ) (p q : Text) → length p ≤ fuel → IsAncestor q p → Member q (lineage_from fuel p)
IsAncestor-lineage zero p q h (some_q, below) = absurd (omega (arith, IsBelow-length q p below))
IsAncestor-lineage (suc fuel) p [] h (some_q, below) = absurd (some_q refl)
IsAncestor-lineage (suc fuel) p (c ∷ cs) h (some_q, (rest, e)) = elim (slash_before (c ∷ cs) rest) [
  | inl f ↦
      subst (λ l. Member (c ∷ cs) l) (sym (lineage_step fuel p c cs (ap before_last_slash e ∙ f)))
        (inl refl)
  | inr ([], f, (v, g)) ↦ cc
  | inr (d ∷ ds, f, (v, g)) ↦
      let at : before_last_slash p ≡ some (d ∷ ds) = ap before_last_slash e ∙ f in
      let (r, k, plain) = last_slash p (d ∷ ds) at in
      subst (λ l. Member (c ∷ cs) l) (sym (lineage_step fuel p d ds at))
        (inr (
          IsAncestor-lineage fuel (d ∷ ds) (c ∷ cs)
            (omega (arith, IsBelow-length (d ∷ ds) p (r, k))) (some_q, (v, g))))
]

-- The lineage of a pointer is the pointer and its ancestors.
pub pointer_lineage_iff : (p q : Text) → Member q (pointer_lineage p) ↔ ((p ≡ q) ⊎ IsAncestor q p)
unfolding pointer_lineage
pointer_lineage_iff p q = (
  λ h. elim h [ inl e ↦ inl e | inr m ↦ inr (lineage-IsAncestor (length p) p q m) ],
  λ h. elim h [ inl e ↦ inl e | inr a ↦ inr (IsAncestor-lineage (length p) p q (omega arith) a) ],
)

-- Two pointers that are not empty overlap exactly when one is in the other's lineage.
pub pointers_overlap_iff :
    (p q : Text)
    → p ≢ []
    → q ≢ []
    → (pointers_overlap p q ≡ true) ↔ (Member p (pointer_lineage q) ⊎ Member q (pointer_lineage p))
unfolding pointers_overlap
pointers_overlap_iff p q some_p some_q = (
  λ h. elim (Bool-cases (p == q)) [
    | inl t ↦ inl ((pointer_lineage_iff q p).1 (inl (sym ((==_iff p q).0 t))))
    | inr f ↦ elim (Bool-cases (is_pointer_parent p q)) [
      | inl t ↦ inl ((pointer_lineage_iff q p).1 (inr (some_p, (is_pointer_parent_iff p q).0 t)))
      | inr g ↦
          let t : is_pointer_parent q p ≡ true = ground arith in
          inr ((pointer_lineage_iff p q).1 (inr (some_q, (is_pointer_parent_iff q p).0 t)))
    ]
  ],
  λ h. elim h [
    | inl m ↦ elim ((pointer_lineage_iff q p).0 m) [
      | inl e ↦ ground (arith, ==_iff p q, e, sym e)
      | inr a ↦ ground (arith, (is_pointer_parent_iff p q).1 a.1)
    ]
    | inr m ↦ elim ((pointer_lineage_iff p q).0 m) [
      | inl e ↦ ground (arith, ==_iff p q, e)
      | inr a ↦ ground (arith, (is_pointer_parent_iff q p).1 a.1)
    ]
  ],
)

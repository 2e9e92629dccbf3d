-- ===== src/Rules/Layers/Counts.antt =====
-- Counts and consumers in the graph of packages/rules/src/dependency-graph.ts: the consumers of a
-- rule are a set, and the count of a rule is not below the number of its producers.
use unifold.Prelude.{
  ℕ, suc, ◌≤◌, ◌≡◌, refl, sym, ap, ◌∙◌, subst, ◌⊎◌, inl, inr, Bool, true, false, Option, none, some,
  List, [], ◌∷◌, ◌++◌, map, if◌then◌else◌, Bool-cases, Option-cases, ◌==◌, nat_eq, ==_iff, length,
  Text, text_eq, Map, get, put, get-put, Member, has, add_new, Member-append,
}
use unifold.Rules.Graph.{Graph, increment_indegree}
use unifold.Rules.Layers.{consumers_of}
use unifold.Rules.Layers.Rounds.{Distinct, Distinct-last, IsEdge}

abbrev pub keys : Map Text ℕ → List Text
keys m = map (λ (entry : Text × ℕ). entry.0) m

abbrev pub indegree_of : Text → Map Text ℕ → ℕ
indegree_of c m = elim (get c m) [ none ↦ 0 | some n ↦ n ]

pub record IsCounted (graph : Graph) : Type 0 where
  pub sets : (id : Text) → Distinct (consumers_of id graph.downstream)
  pub counted :
      (c : Text)
      → (producers : List Text) × (length producers ≤ indegree_of c graph.indegree)
        × ((p : Text) → IsEdge graph.downstream p c → Member p producers)
  pub unique_keys : Distinct (keys graph.indegree)

pub Distinct-add_new : (k : Text) (ks : List Text) → Distinct ks → Distinct (add_new k ks)
unfolding add_new
Distinct-add_new k ks d = elim (Bool-cases (has k ks)) [
  | inl t ↦ rw (t, add_new) d
  | inr f ↦ rw (f, add_new) (Distinct-last ks k d f)
]

pub keys-put : (k : Text) (n : ℕ) (m : Map Text ℕ) → keys (put k n m) ≡ add_new k (keys m)
unfolding put add_new has
keys-put k n [] = refl
keys-put k n ((j, w) ∷ m) = elim (Bool-cases (j == k)) [
  | inl t ↦ rw (t, put) refl
  | inr f ↦ elim (Bool-cases (has k (keys m))) [
    | inl t ↦ rw (f, put, t) (ap (λ l. j ∷ l) (keys-put k n m ∙ rw (t, add_new) refl))
    | inr g ↦ rw (f, put, g) (ap (λ l. j ∷ l) (keys-put k n m ∙ rw (g, add_new) refl))
  ]
]

pub Distinct-put :
    (k : Text) (n : ℕ) (m : Map Text ℕ) → Distinct (keys m) → Distinct (keys (put k n m))
Distinct-put k n m d =
    subst (λ l. Distinct l) (sym (keys-put k n m)) (Distinct-add_new k (keys m) d)

pub consumers_of-put :
    (k id : Text) (cs : List Text) (m : Map Text (List Text))
    → consumers_of id (put k cs m) ≡ (if k == id then cs else consumers_of id m)
unfolding consumers_of
consumers_of-put k id cs m =
    ap found (get-put k id cs m)
    ∙ (elim (Bool-cases (k == id)) [ inl t ↦ rw t refl | inr f ↦ rw f refl ])
  where
    found : Option (List Text) → List Text
    found none = []
    found (some ids) = ids

pub indegree_of-increment :
    (k c : Text) (m : Map Text ℕ)
    → indegree_of c (increment_indegree k m)
      ≡ (if k == c then suc (indegree_of c m) else indegree_of c m)
unfolding increment_indegree
indegree_of-increment k c m = elim (Option-cases (get k m)) [
  | inl e ↦
      let at : increment_indegree k m ≡ put k 1 m = rw (e, increment_indegree) refl in
      counted_lem 1 at (rw (e, indegree_of) refl)
  | inr (n, e) ↦
      let at : increment_indegree k m ≡ put k (suc n) m = rw (e, increment_indegree) refl in
      counted_lem (suc n) at (rw (e, indegree_of) refl)
]
  where
    found : Option ℕ → ℕ
    found none = 0
    found (some n) = n

    counted_lem :
        (n : ℕ)
        → increment_indegree k m ≡ put k n m
        → n ≡ suc (indegree_of k m)
        → indegree_of c (increment_indegree k m)
          ≡ (if k == c then suc (indegree_of c m) else indegree_of c m)
    counted_lem n at h =
        ap (λ l. indegree_of c l) at ∙ ap found (get-put k c n m) ∙ (elim (Bool-cases (k == c)) [
          | inl t ↦ rw t (h ∙ ap (λ u. suc (indegree_of u m)) ((==_iff k c).0 t))
          | inr f ↦ rw f refl
        ])

pub if_true {ℓ} : {A : Type ℓ} (b : Bool) (x y : A) → b ≡ true → (if b then x else y) ≡ x
if_true b x y e = rw e refl

pub if_false {ℓ} : {A : Type ℓ} (b : Bool) (x y : A) → b ≡ false → (if b then x else y) ≡ y
if_false b x y e = rw e refl

pub consumers_lem :
    (p : Text) (cs : List Text) (m : Map Text (List Text))
    → get p m ≡ some cs
    → consumers_of p m ≡ cs
unfolding consumers_of
consumers_lem p cs m e = rw (e, consumers_of) refl

pub old-IsEdge :
    (p c : Text) (cs : List Text) (graph : Graph)
    → get p graph.downstream ≡ some cs
    → (q d : Text) → IsEdge (put p (cs ++ c ∷ []) graph.downstream) q d
    → IsEdge graph.downstream q d ⊎ ((p ≡ q) × (c ≡ d))
old-IsEdge p c cs graph at q d edge = elim (Bool-cases (p == q)) [
  | inr f ↦ inl (
      subst (λ l. Member d l)
        (consumers_of-put p q (cs ++ c ∷ []) graph.downstream ∙ if_false _ _ _ f) edge)
  | inl t ↦
      let e = (==_iff p q).0 t in
      elim ((Member-append d cs (c ∷ [])).0 (
        subst (λ l. Member d l)
          (consumers_of-put p q (cs ++ c ∷ []) graph.downstream ∙ if_true _ _ _ t) edge)) [
            | inl m ↦ inl (
                subst (λ u. Member d (consumers_of u graph.downstream)) e
                  (subst (λ l. Member d l) (sym (consumers_lem p cs graph.downstream at)) m))
            | inr (inl same) ↦ inr (e, same)
            | inr (inr bad) ↦ absurd bad
          ]
]

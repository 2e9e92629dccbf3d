-- ===== src/Rules/Graph/Overlaps.antt =====
-- When two places overlap, of packages/rules/src/dependencies.ts.
use unifold.Prelude.{
  ◌≡◌, refl, ◌↔◌, ◌⊎◌, inl, inr, true, List, [], ◌∷◌, arith, Bool, Bool-cases, ◌==◌, nat_eq, ==_iff,
  any, Text, text_eq, Member, sym, subst,
}
use unifold.Rules.Types.{RuleDependency}
use unifold.Rules.Dependencies.{is_pointer_parent, pointers_overlap, dependencies_overlap}
use unifold.Rules.Graph.Lineage.{IsBelow, is_pointer_parent_iff}
use unifold.Rules.Graph.Index.{dependencies_overlap_iff}

-- The places are of one node, and their pointers are the same or one goes on below the other.
abbrev pub Overlaps : RuleDependency → RuleDependency → Type 0
Overlaps a b =
    (a.node_id ≡ b.node_id)
    × ((a.pointer ≡ b.pointer) ⊎ IsBelow a.pointer b.pointer ⊎ IsBelow b.pointer a.pointer)

pointers_iff : (p q : Text) → (pointers_overlap p q ≡ true) ↔ ((p ≡ q) ⊎ IsBelow p q ⊎ IsBelow q p)
unfolding pointers_overlap
pointers_iff p q = (
  λ h. elim (Bool-cases (p == q)) [
    | inl t ↦ inl ((==_iff p q).0 t)
    | inr f ↦ elim (Bool-cases (is_pointer_parent p q)) [
      | inl t ↦ inr (inl ((is_pointer_parent_iff p q).0 t))
      | inr g ↦ inr (inr ((is_pointer_parent_iff q p).0 (ground arith)))
    ]
  ],
  λ h. elim h [
    | inl e ↦ ground (arith, (==_iff p q).1 e)
    | inr (inl b) ↦ ground (arith, (is_pointer_parent_iff p q).1 b)
    | inr (inr b) ↦ ground (arith, (is_pointer_parent_iff q p).1 b)
  ],
)

pub dependencies_overlap-Overlaps :
    (a b : RuleDependency) → (dependencies_overlap a b ≡ true) ↔ Overlaps a b
dependencies_overlap-Overlaps a b =
    let both = dependencies_overlap_iff a b in
    let pointers = pointers_iff a.pointer b.pointer in
    (λ h. let (e, p) = both.0 h in (e, pointers.0 p), λ (e, o). both.1 (e, pointers.1 o))

pub any_iff :
    (f : RuleDependency → Bool) (ds : List RuleDependency)
    → (any f ds ≡ true) ↔ ((d : RuleDependency) × Member d ds × (f d ≡ true))
unfolding any
any_iff f [] = (λ h. cc, λ (d, m, h). absurd m)
any_iff f (d ∷ ds) = (
  λ h. elim (Bool-cases (f d)) [
    | inl t ↦ (d, inl refl, t)
    | inr g ↦ let (x, m, k) = (any_iff f ds).0 (ground arith) in (x, inr m, k)
  ],
  λ (x, m, k). elim m [
    | inl e ↦ let here = subst (λ (y : RuleDependency). f y ≡ true) (sym e) k in ground arith
    | inr n ↦ let rest = (any_iff f ds).1 (x, n, k) in ground arith
  ],
)

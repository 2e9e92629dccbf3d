-- ===== src/Rules/Layers/Order.antt =====
-- Rounds of the loop of `topologicalLayers` of packages/rules/src/dependency-graph.ts.
use unifold.Prelude.{
  ℕ, zero, suc, ◌+◌, ◌≤◌, ◌≡◌, refl, sym, ◌∙◌, subst, inl, inr, false, ◌||◌, List, [], ◌∷◌, arith,
  if◌then◌else◌, Bool-cases, ◌==◌, nat_eq, ==_iff, Text, text_eq, text_leb, sort_texts, insert_text,
  Map, get, put, delete, Member, has_iff, has,
}
use unifold.Rules.Layers.{ℤ, pos, negsuc, pred, is_zero, count_of, total}
use unifold.Rules.Layers.Rounds.{Distinct}

has-insert_text : (x a : Text) (bs : List Text) → has x (insert_text a bs) ≡ (a == x || has x bs)
unfolding has insert_text
has-insert_text x a [] = refl
has-insert_text x a (b ∷ bs) = ground (arith, has-insert_text x a bs)

pub has-sort_texts : (x : Text) (xs : List Text) → has x (sort_texts xs) ≡ has x xs
unfolding has sort_texts
has-sort_texts x [] = refl
has-sort_texts x (a ∷ as') =
    has-insert_text x a (sort_texts as') ∙ ground (arith, has-sort_texts x as')

pub Member-sort_texts : (x : Text) (xs : List Text) → Member x (sort_texts xs) → Member x xs
Member-sort_texts x xs m =
    (has_iff x xs).0 (sym (has-sort_texts x xs) ∙ (has_iff x (sort_texts xs)).1 m)

Distinct-insert_text :
    (a : Text) (bs : List Text) → Distinct bs → has a bs ≡ false → Distinct (insert_text a bs)
unfolding has insert_text
Distinct-insert_text a [] d h = (refl, tt)
Distinct-insert_text a (b ∷ bs) d h = elim (Bool-cases (text_leb a b)) [
  | inl t ↦ rw (t, insert_text) (h, d)
  | inr f ↦
      rw (f, insert_text)
        (
          ground (arith, has-insert_text b a bs, d.0, ==_iff a b, ==_iff b a),
          Distinct-insert_text a bs d.1 (ground arith),
        )
]

pub Distinct-sort_texts : (xs : List Text) → Distinct xs → Distinct (sort_texts xs)
unfolding sort_texts
Distinct-sort_texts [] d = tt
Distinct-sort_texts (a ∷ as') d =
    Distinct-insert_text a (sort_texts as') (Distinct-sort_texts as' d.1)
      (has-sort_texts a as' ∙ d.0)

pub total-delete : (id : Text) (m : Map Text ℤ) → total (delete id m) ≤ total m
unfolding total delete
total-delete id [] = omega arith
total-delete id ((j, pos n) ∷ m) = ground (arith, total-delete id m)
total-delete id ((j, negsuc n) ∷ m) = ground (arith, total-delete id m)

abbrev pub one_if_zero : ℤ → ℕ
one_if_zero z = if is_zero z then 1 else 0

abbrev weight : ℤ → ℕ
weight (pos n) = n
weight (negsuc n) = 0

total-cons : (j : Text) (z : ℤ) (m : Map Text ℤ) → total ((j, z) ∷ m) ≡ weight z + total m
unfolding total
total-cons j (pos n) m = refl
total-cons j (negsuc n) m = omega arith

weight-pred : (z : ℤ) → weight (pred z) + one_if_zero (pred z) ≤ weight z
unfolding pred is_zero
weight-pred (pos zero) = omega arith
weight-pred (pos (suc zero)) = omega arith
weight-pred (pos (suc (suc n))) = omega arith
weight-pred (negsuc n) = omega arith

pub total-put :
    (c : Text) (m : Map Text ℤ)
    → total (put c (pred (count_of c m)) m) + one_if_zero (pred (count_of c m)) ≤ total m
unfolding total put count_of get pred is_zero
total-put c [] = omega arith
total-put c ((j, z) ∷ m) = elim (Bool-cases (j == c)) [
  | inl t ↦
      rw (t, put, count_of, get)
        (rw (total-cons j (pred z) m, total-cons j z m) (omega (arith, weight-pred z)))
  | inr f ↦
      let z' = pred (count_of c m) in
      let same : count_of c ((j, z) ∷ m) ≡ count_of c m = rw (f, count_of, get) refl in
      let later : put c z' ((j, z) ∷ m) ≡ (j, z) ∷ put c z' m = rw (f, put) refl in
      subst (λ w. total (put c (pred w) ((j, z) ∷ m)) + one_if_zero (pred w) ≤ total ((j, z) ∷ m))
        (sym same)
        (subst (λ l. total l + one_if_zero z' ≤ total ((j, z) ∷ m)) (sym later)
          (omega (arith, total-cons j z (put c z' m), total-cons j z m, total-put c m)))
]

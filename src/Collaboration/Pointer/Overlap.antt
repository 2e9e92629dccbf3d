-- ===== src/Collaboration/Pointer/Overlap.antt =====
-- The overlap of two pointers, of packages/collaboration/src/pointer.ts.
use unifold.Prelude.{
  ℕ, suc, ◌≡◌, refl, sym, ◌∙◌, ◌≢◌, ◌↔◌, ◌⊎◌, inl, inr, Bool, true, false, ◌&&◌, none, some, List,
  [], ◌∷◌, ◌++◌, arith, ◌==◌, nat_eq, ==_iff, ==_refl, ==_ne, length, Text, text_eq,
}
use unifold.Collaboration.Pointer.{agree, min_length, pointers_overlap, decode_pointer}

-- One path of tokens is the head of the other.
abbrev pub IsHead : List Text → List Text → Type 0
IsHead ls rs = (rest : List Text) × (rs ≡ ls ++ rest)

abbrev pub Nested : List Text → List Text → Type 0
Nested ls rs = IsHead ls rs ⊎ IsHead rs ls

shorter : (a b : ℕ) → min_length (suc a) (suc b) ≡ suc (min_length a b)
unfolding min_length
shorter a b = ground arith

min_zero : (a : ℕ) → (min_length 0 a ≡ 0) × (min_length a 0 ≡ 0)
unfolding min_length
min_zero a = ground arith

abbrev overlap : List Text → List Text → Bool
overlap ls rs = agree (min_length (length ls) (length rs)) ls rs

overlap-cons :
    (l r : Text) (ls rs : List Text) → overlap (l ∷ ls) (r ∷ rs) ≡ (l == r && overlap ls rs)
unfolding agree
overlap-cons l r ls rs = rw (shorter (length ls) (length rs))

overlap-Nested : (ls rs : List Text) → overlap ls rs ≡ true → Nested ls rs
overlap-Nested [] rs h = inl (rs, refl)
overlap-Nested (l ∷ ls) [] h = inr (l ∷ ls, refl)
overlap-Nested (l ∷ ls) (r ∷ rs) h =
    let both : (l == r && overlap ls rs) ≡ true = sym (overlap-cons l r ls rs) ∙ h in
    let heads : l ≡ r = (==_iff l r).0 (ground arith) in
    elim (overlap-Nested ls rs (ground arith)) [
      | inl (rest, e) ↦ inl (rest, rw (heads, e))
      | inr (rest, e) ↦ inr (rest, rw (heads, e))
    ]

head-overlap : (ls rest : List Text) → overlap ls (ls ++ rest) ≡ true
unfolding agree
head-overlap [] rest = rw (min_zero (length rest)).0
head-overlap (l ∷ ls) rest =
    overlap-cons l l ls (ls ++ rest) ∙ ground (arith, ==_refl l, head-overlap ls rest)

overlap-head : (ls rest : List Text) → overlap (ls ++ rest) ls ≡ true
unfolding agree
overlap-head [] rest = rw (min_zero (length rest)).1
overlap-head (l ∷ ls) rest =
    overlap-cons l l (ls ++ rest) ls ∙ ground (arith, ==_refl l, overlap-head ls rest)

Nested-overlap : (ls rs : List Text) → Nested ls rs → overlap ls rs ≡ true
Nested-overlap ls rs (inl (rest, e)) = rw e (head-overlap ls rest)
Nested-overlap ls rs (inr (rest, e)) = rw e (overlap-head rs rest)

-- Two pointers that decode overlap exactly when one path of tokens is the head of the other.
pub pointers_overlap-Nested :
    (left right : Text) (ls rs : List Text)
    → decode_pointer left ≡ some ls
    → decode_pointer right ≡ some rs
    → (pointers_overlap left right ≡ true) ↔ Nested ls rs
unfolding pointers_overlap
pointers_overlap-Nested left right ls rs l r =
    rw (l, r, pointers_overlap) (overlap-Nested ls rs, Nested-overlap ls rs)

-- A pointer that does not decode overlaps with every other one.
pub pointers_overlap-undecoded :
    (left right : Text)
    → (decode_pointer left ≡ none) ⊎ (decode_pointer right ≡ none)
    → pointers_overlap left right ≡ true
unfolding pointers_overlap
pointers_overlap-undecoded left right h = ground arith

-- Where the first tokens differ nothing overlaps.
pub pointers_overlap-apart :
    (left right l r : Text) (ls rs : List Text)
    → decode_pointer left ≡ some (l ∷ ls)
    → decode_pointer right ≡ some (r ∷ rs)
    → l ≢ r
    → pointers_overlap left right ≡ false
unfolding pointers_overlap
pointers_overlap-apart left right l r ls rs p q h =
    rw (p, q, pointers_overlap) (overlap-cons l r ls rs ∙ ground (arith, ==_ne l r h))

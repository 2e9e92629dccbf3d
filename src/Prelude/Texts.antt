-- ===== src/Prelude/Texts.antt =====
-- JavaScript strings: lists of UTF-16 code units.
use Prim.Native.Nat.{ℕ}
use Prim.Native.Char.{code}
use Prim.Native.String.{String}
use mathlib.Core.Path.{◌≡◌, refl}
use mathlib.Core.Logic.{◌↔◌}
use mathlib.Core.Bool.{Bool, true, false, ◌&&◌, ◌||◌}
use mathlib.Core.List.{List, [], ◌∷◌}
use native.Mathlib.Omega.{arith}
use unifold.Prelude.Tests.{if◌then◌else◌, Eq, nat_same, ltb, leb}

abbrev pub Text : Type 0
Text = List ℕ

-- A literal of the source; every literal that the model names is ASCII.
abbrev pub text : String → Text
text String.[] = []
text (String.◌∷◌ c s) = code c ∷ text s

unfoldable pub text_same : Text → Text → Bool
text_same [] [] = true
text_same [] (y ∷ ys) = false
text_same (x ∷ xs) [] = false
text_same (x ∷ xs) (y ∷ ys) = nat_same x y && text_same xs ys

pub text_same_eq : (a b : Text) → text_same a b ≡ true → a ≡ b
unfolding text_same
text_same_eq [] [] h = refl
text_same_eq [] (y ∷ ys) h = cc
text_same_eq (x ∷ xs) [] h = cc
text_same_eq (x ∷ xs) (y ∷ ys) h = ground (arith, text_same_eq xs ys)

pub text_same_refl : (a : Text) → text_same a a ≡ true
unfolding text_same
text_same_refl [] = refl
text_same_refl (x ∷ xs) = ground (arith, text_same_refl xs)

pub text_same_iff : (a b : Text) → (text_same a b ≡ true) ↔ (a ≡ b)
text_same_iff a b = (text_same_eq a b, λ e. ground (arith, text_same_refl a))

instance abbrev pub text_eq : Eq Text
text_eq = record { same = text_same; same_iff = text_same_iff }

-- `a <= b` on strings: by code units.
unfoldable pub text_leb : Text → Text → Bool
text_leb [] ys = true
text_leb (x ∷ xs) [] = false
text_leb (x ∷ xs) (y ∷ ys) = ltb x y || (nat_same x y && text_leb xs ys)

unfoldable pub insert_text : Text → List Text → List Text
insert_text a [] = a ∷ []
insert_text a (b ∷ bs) = if text_leb a b then a ∷ b ∷ bs else b ∷ insert_text a bs

-- `sort()` of an array of strings.
unfoldable pub sort_texts : List Text → List Text
unfolding insert_text
sort_texts [] = []
sort_texts (a ∷ as') = insert_text a (sort_texts as')

-- The white space and line ends of ECMAScript, which are `\s` and what `trim` takes off.
unfoldable pub is_space : ℕ → Bool
is_space c =
    (leb 9 c && leb c 13)
    || nat_same c 32
    || nat_same c 160
    || nat_same c 0x1680
    || (leb 0x2000 c && leb c 0x200a)
    || nat_same c 0x2028
    || nat_same c 0x2029
    || nat_same c 0x202f
    || nat_same c 0x205f
    || nat_same c 0x3000
    || nat_same c 0xfeff

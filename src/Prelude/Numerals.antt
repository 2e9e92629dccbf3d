-- ===== src/Prelude/Numerals.antt =====
-- Decimal numerals, and `padStart`.
use Prim.Native.Nat.{ℕ, zero, suc, ◌+◌, ◌-◌, ◌*◌, ◌/◌, ◌%◌, ◌<◌}
use mathlib.Core.Path.{◌≡◌, refl, sym, ap, ◌∙◌}
use mathlib.Core.Logic.{inl, inr}
use mathlib.Core.List.{[], ◌∷◌}
use native.Mathlib.Omega.{arith}
use unifold.Prelude.Tests.{ltb, if◌then◌else◌, Bool-cases}
use unifold.Prelude.Texts.{Text}
use unifold.Prelude.Lists.{length}

-- The fuel bounds the number of digits; `print` gives enough.
digits_onto : ℕ → ℕ → Text → Text
digits_onto zero n acc = acc
digits_onto (suc f) n acc =
    let more = digits_onto f (n / 10) ((48 + n % 10) ∷ acc) in
    if ltb n 10 then (48 + n) ∷ acc else more

unfoldable pub print : ℕ → Text
unfolding digits_onto
print n = digits_onto (suc n) n []

zeros : ℕ → Text → Text
zeros zero t = t
zeros (suc n) t = 48 ∷ zeros n t

-- `padStart(width, "0")`
unfoldable pub pad_zeros : ℕ → Text → Text
unfolding zeros
pad_zeros width t = zeros (width - length t) t

-- The number that decimal digits stand for, read from the left.
value_from : ℕ → Text → ℕ
value_from acc [] = acc
value_from acc (c ∷ cs) = value_from (acc * 10 + (c - 48)) cs

value-digits_onto :
    (f n : ℕ) (acc : Text) → n < f → value_from 0 (digits_onto f n acc) ≡ value_from n acc
unfolding digits_onto value_from
value-digits_onto zero n acc h = elim h [ ]
value-digits_onto (suc f) n acc h = elim (Bool-cases (ltb n 10)) [
  | inl small ↦ rw small (ap (λ (m : ℕ). value_from m acc) (omega arith))
  | inr large ↦ rw large (
      value-digits_onto f (n / 10) ((48 + n % 10) ∷ acc) (ground arith)
      ∙ ap (λ (m : ℕ). value_from m acc) (omega arith))
]

value-zeros : (n : ℕ) (t : Text) → value_from 0 (zeros n t) ≡ value_from 0 t
unfolding zeros value_from
value-zeros zero t = refl
value-zeros (suc n) t = value-zeros n t

value-pad : (width n : ℕ) → value_from 0 (pad_zeros width (print n)) ≡ n
unfolding pad_zeros print
value-pad width n =
    value-zeros (width - length (print n)) (print n)
    ∙ value-digits_onto (suc n) n [] (omega arith)
    ∙ unfold value_from in refl

pub pad_zeros-injective :
    (width m n : ℕ) → pad_zeros width (print m) ≡ pad_zeros width (print n) → m ≡ n
pad_zeros-injective width m n e = sym (value-pad width m) ∙ ap (value_from 0) e ∙ value-pad width n

pub print-injective : (m n : ℕ) → print m ≡ print n → m ≡ n
print-injective m n e = pad_zeros-injective 0 m n (ap (pad_zeros 0) e)

-- ===== src/Collaboration/Pointer/Escapes.antt =====
-- Encoding and decoding the tokens of packages/collaboration/src/pointer.ts.
use unifold.Prelude.{
  ℕ, ◌≡◌, refl, ap, ◌∙◌, inl, inr, false, some, [], ◌∷◌, arith, nat_same, Bool-cases, Text,
}
use unifold.Collaboration.Pointer.{
  tilde, slash, unescape, escape, bad_escape, decode_token, encode_token,
}

unescape-other :
    (c r a : ℕ) (xs : Text) → nat_same a tilde ≡ false → unescape c r (a ∷ xs) ≡ a ∷ unescape c r xs
unfolding unescape
unescape-other c r a [] h = refl
unescape-other c r a (x ∷ xs) h = ground arith

bad_escape-other :
    (a : ℕ) (xs : Text) → nat_same a tilde ≡ false → bad_escape (a ∷ xs) ≡ bad_escape xs
unfolding bad_escape
bad_escape-other a [] h = ground arith
bad_escape-other a (x ∷ xs) h = ground arith

-- What encoding does to one code unit.
data Coded (a : ℕ) (rest : Text) : Type 0 where
  is_tilde : a ≡ tilde → encode_token (a ∷ rest) ≡ tilde ∷ b'0' ∷ encode_token rest → Coded a rest
  is_slash : a ≡ slash → encode_token (a ∷ rest) ≡ tilde ∷ b'1' ∷ encode_token rest → Coded a rest
  is_other :
      nat_same a tilde ≡ false
      → nat_same a slash ≡ false
      → encode_token (a ∷ rest) ≡ a ∷ encode_token rest
      → Coded a rest

coded : (a : ℕ) (rest : Text) → Coded a rest
unfolding encode_token escape
coded a rest = elim (Bool-cases (nat_same a tilde)) [
  | inl t ↦ is_tilde (ground arith) (ground arith)
  | inr f ↦ elim (Bool-cases (nat_same a slash)) [
    | inl t ↦ is_slash (ground arith) (ground arith)
    | inr g ↦ is_other f g (ground arith)
  ]
]

not_bad : (t : Text) → bad_escape (encode_token t) ≡ false
unfolding bad_escape
not_bad [] = unfold encode_token escape in refl
not_bad (a ∷ t) = elim (coded a t) [
  | is_tilde e h ↦ rw h (bad_escape-other b'0' (encode_token t) refl ∙ not_bad t)
  | is_slash e h ↦ rw h (bad_escape-other b'1' (encode_token t) refl ∙ not_bad t)
  | is_other f g h ↦ rw h (bad_escape-other a (encode_token t) f ∙ not_bad t)
]

-- The first replacement of `decodeToken` undoes the second of `encodeToken`.
unescape-slash : (t : Text) → unescape b'1' slash (encode_token t) ≡ escape tilde b'0' t
unfolding unescape escape
unescape-slash [] = unfold encode_token in refl
unescape-slash (a ∷ t) = elim (coded a t) [
  | is_tilde e h ↦
      rw (h, unescape-other b'1' slash b'0' (encode_token t) refl, unescape-slash t) (ground arith)
  | is_slash e h ↦ rw (h, unescape-slash t) (ground arith)
  | is_other f g h ↦
      rw (h, unescape-other b'1' slash a (encode_token t) f, unescape-slash t) (ground arith)
]

unescape-tilde : (t : Text) → unescape b'0' tilde (escape tilde b'0' t) ≡ t
unfolding unescape escape
unescape-tilde [] = refl
unescape-tilde (a ∷ t) = elim (Bool-cases (nat_same a tilde)) [
  | inl h ↦ ground (arith, unescape-tilde t)
  | inr h ↦
      rw h (unescape-other b'0' tilde a (escape tilde b'0' t) h ∙ ap (◌∷◌ a) (unescape-tilde t))
]

-- Decoding an encoded token gives the token back, whatever it holds.
pub decode_token-encode_token : (t : Text) → decode_token (encode_token t) ≡ some t
unfolding decode_token
decode_token-encode_token t = rw (not_bad t, unescape-slash t, unescape-tilde t)

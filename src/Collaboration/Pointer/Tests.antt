-- ===== src/Collaboration/Pointer/Tests.antt =====
-- Pointers with escapes.
use unifold.Prelude.{◌≡◌, refl, ◌↔◌, true, some, [], ◌∷◌, text}
use unifold.Collaboration.Pointer.{decode_token, encode_token, decode_pointer, pointers_overlap}
use unifold.Collaboration.Pointer.Escapes.{decode_token-encode_token}
use unifold.Collaboration.Pointer.Overlap.{Nested, pointers_overlap-Nested}

decode_token-encode_token_example : decode_token (encode_token (text "a/b~1")) ≡ some (text "a/b~1")
decode_token-encode_token_example = decode_token-encode_token (text "a/b~1")

pointers_overlap-Nested_example :
    (pointers_overlap (text "/a~1b") (text "/a~1b/c") ≡ true)
    ↔ Nested (text "a/b" ∷ []) (text "a/b" ∷ text "c" ∷ [])
unfolding decode_pointer
pointers_overlap-Nested_example =
    pointers_overlap-Nested (text "/a~1b") (text "/a~1b/c") (text "a/b" ∷ [])
      (text "a/b" ∷ text "c" ∷ []) refl refl

-- ===== src/Collaboration/Pointer/Owned.antt =====
-- The paths that the framework owns, of packages/collaboration/src/pointer.ts.
use unifold.Prelude.{
  ◌≡◌, refl, ◌⊎◌, inl, inr, false, some, none, List, [], ◌∷◌, ◌++◌, arith, Option-cases, nat_eq,
  ==_refl, ==_iff, Text, text, text_eq,
}
use unifold.Collaboration.Pointer.{
  decode_pointer, last, ends_in_id, targets_framework_owned_identity,
}

-- A path that does not decode, that is the document's revision, or whose last token is "id".
abbrev pub IsOwned : Text → Type 0
IsOwned path =
    (decode_pointer path ≡ none)
    ⊎ (path ≡ text "/revision")
    ⊎ ((front : List Text) × (decode_pointer path ≡ some (front ++ text "id" ∷ [])))

last-append : (front : List Text) (t : Text) → last (front ++ t ∷ []) ≡ some t
unfolding last
last-append [] t = refl
last-append (u ∷ []) t = refl
last-append (u ∷ v ∷ front) t = last-append (v ∷ front) t

-- A path that passes the test is not owned.
pub IsOwned-targets :
    (path : Text) → targets_framework_owned_identity path ≡ false → IsOwned path → ⊥
unfolding targets_framework_owned_identity ends_in_id
IsOwned-targets path h (inl e) = let bad = rw (e, targets_framework_owned_identity) at h in cc
IsOwned-targets path h (inr (inr (front, e))) =
    let bad =
      rw (e, targets_framework_owned_identity, last-append front (text "id"), ends_in_id) at h in
    ground (arith, ==_refl (text "id"))
IsOwned-targets path h (inr (inl e)) = elim (Option-cases (decode_pointer path)) [
  | inl d ↦ let bad = rw (d, targets_framework_owned_identity) at h in cc
  | inr (tokens, d) ↦
      let bad = rw (d, targets_framework_owned_identity) at h in
      ground (arith, (==_iff path (text "/revision")).1 e)
]

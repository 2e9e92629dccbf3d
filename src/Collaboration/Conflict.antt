-- ===== src/Collaboration/Conflict.antt =====
-- packages/collaboration/src/conflict.ts: which intervening changes a proposal runs into.
-- `toLowerCase` is modelled on ASCII letters: no other code unit turns into text that a sensitive
-- pattern matches. The white space of `\s` is the one of ECMAScript.
use unifold.Prelude.{
  ℕ, ◌+◌, Bool, true, false, ◌&&◌, ◌||◌, Option, none, some, List, [], ◌∷◌, ◌++◌, map, ltb, leb,
  nat_same, if◌then◌else◌, ◌==◌, nat_eq, length, keep, any, flat_map, Text, text, text_eq, is_space,
  unique,
}
use unifold.Collaboration.Types.{
  PatchOperation, PatchOperationType, add, copy, move, remove, replace, test, Revision, Conflict,
  ConflictKind, machine, semantics, accessibility, policy, delete_edit, same_path, ancestor_overlap,
}
use unifold.Collaboration.Pointer.{pointers_overlap, operation_paths, array_parent, slash}
pub mod Disjoint
pub mod Compensation
mod Tests

is_structural : PatchOperationType → Bool
is_structural add = true
is_structural copy = true
is_structural move = true
is_structural remove = true
is_structural replace = false
is_structural test = false

-- A path, and its array parent if it has one.
with_parent : Text → List Text
with_parent path = elim (array_parent path) [ none ↦ path ∷ [] | some parent ↦ path ∷ parent ∷ [] ]

unfoldable pub conflict_footprints : PatchOperation → List Text
unfolding is_structural with_parent
conflict_footprints operation =
    let paths = operation_paths operation in
    if is_structural operation.op then unique (flat_map with_parent paths) else paths

lower : ℕ → ℕ
lower c = if leb b'A' c && leb c b'Z' then c + 32 else c

-- `(?:\/|\s|$)`
at_boundary : Text → Bool
unfolding is_space
at_boundary [] = true
at_boundary (c ∷ rest) = nat_same c slash || is_space c

-- The word stands at the head, and a boundary follows.
starts_word : Text → Text → Bool
unfolding at_boundary
starts_word [] rest = at_boundary rest
starts_word (w ∷ ws) [] = false
starts_word (w ∷ ws) (c ∷ rest) = nat_same w c && starts_word ws rest

-- `pattern.test(path)`, for a pattern given by its words.
holds_word : List Text → Text → Bool
unfolding starts_word
holds_word words [] = false
holds_word words (c ∷ rest) = any (λ w. starts_word w (c ∷ rest)) words || holds_word words rest

abbrev machine_words : List Text
machine_words = text "/machine" ∷ text "/machines" ∷ []

abbrev semantics_words : List Text
semantics_words = text "/semantic" ∷ text "/semantics" ∷ []

abbrev accessibility_words : List Text
accessibility_words = text "/aria" ∷ text "/label" ∷ text "/description" ∷ text "/help" ∷ []

abbrev policy_words : List Text
policy_words = text "/stores" ∷ text "/rules" ∷ text "/access" ∷ text "/policy" ∷ []

abbrev sensitive_patterns : List (List Text × ConflictKind)
sensitive_patterns =
    (machine_words, machine)
    ∷ (semantics_words, semantics)
    ∷ (accessibility_words, accessibility)
    ∷ (policy_words, policy)
    ∷ []

first_match : Text → List (List Text × ConflictKind) → Option ConflictKind
unfolding holds_word
first_match path [] = none
first_match path ((words, kind) ∷ rest) =
    if holds_word words path then some kind else first_match path rest

sensitive_kind : Text → Text → Option ConflictKind
unfolding first_match lower
sensitive_kind left right = first_match (map lower (left ++ 32 ∷ right)) sensitive_patterns

is_remove : PatchOperationType → Bool
is_remove remove = true
is_remove _ = false

is_delete_edit : Text → Text → PatchOperation → Revision → Bool
unfolding is_remove
is_delete_edit proposal_path current_path operation revision =
    is_remove operation.op
    || any
        (λ removed. pointers_overlap removed proposal_path || pointers_overlap removed current_path)
        revision.removed_paths

ordinary_conflict_kind : Text → Text → PatchOperation → Revision → ConflictKind
unfolding is_delete_edit
ordinary_conflict_kind proposal_path current_path operation revision =
    if is_delete_edit proposal_path current_path operation revision
    then delete_edit
    else if proposal_path == current_path
    then same_path
    else ancestor_overlap

conflict_kind : Text → Text → PatchOperation → Revision → ConflictKind
unfolding sensitive_kind ordinary_conflict_kind
conflict_kind proposal_path current_path operation revision =
    elim (sensitive_kind proposal_path current_path) [
      | some sensitive ↦ sensitive
      | none ↦ ordinary_conflict_kind proposal_path current_path operation revision
    ]

conflict_of : Text → Text → Text → Text → PatchOperation → Revision → Conflict
unfolding conflict_kind
conflict_of base_revision current_revision proposal_path current_path operation revision = record {
  base_revision = base_revision;
  current_path = current_path;
  current_revision = current_revision;
  kind = conflict_kind proposal_path current_path operation revision;
  proposal_path = proposal_path;
}

-- The conflicts at one changed path of one revision.
conflicts_at : Text → Text → PatchOperation → Revision → Text → List Conflict
conflicts_at base_revision current_revision operation revision current_path =
    map (λ path. conflict_of base_revision current_revision path current_path operation revision)
      (keep (λ path. pointers_overlap path current_path) (conflict_footprints operation))

operation_conflicts : Text → Text → List Revision → PatchOperation → List Conflict
unfolding conflicts_at conflict_of
operation_conflicts base_revision current_revision intervening operation =
    flat_map
      (λ (revision : Revision).
        flat_map (conflicts_at base_revision current_revision operation revision)
          revision.changed_paths)
      intervening

same_conflict_area : Conflict → Conflict → Bool
same_conflict_area left right =
    left.current_path == right.current_path
    && pointers_overlap left.proposal_path right.proposal_path

deeper_of : Conflict → Conflict → Conflict
deeper_of existing value =
    if ltb (length existing.proposal_path) (length value.proposal_path) then value else existing

merge_conflict : List Conflict → Conflict → List Conflict
unfolding same_conflict_area deeper_of
merge_conflict [] value = value ∷ []
merge_conflict (c ∷ cs) value =
    if same_conflict_area c value then deeper_of c value ∷ cs else c ∷ merge_conflict cs value

merge_all : List Conflict → List Conflict → List Conflict
unfolding merge_conflict
merge_all seen [] = seen
merge_all seen (v ∷ vs) = merge_all (merge_conflict seen v) vs

unique_conflicts : List Conflict → List Conflict
unfolding merge_all
unique_conflicts = merge_all []

unfoldable pub collaboration_conflicts :
    Text → Text → List PatchOperation → List Revision → List Conflict
unfolding unique_conflicts operation_conflicts
collaboration_conflicts base_revision current_revision operations intervening =
    unique_conflicts
      (flat_map (operation_conflicts base_revision current_revision intervening) operations)

-- ===== src/Collaboration/Conflict/Disjoint.antt =====
-- Proposals without conflicts, of packages/collaboration/src/conflict.ts.
use unifold.Prelude.{
  ◌≡◌, refl, ◌≢◌, ◌↔◌, inl, inr, false, List, [], ◌∷◌, map, Bool-cases, iff_trans, nat_eq, keep,
  All, flat_map-eq_nil, All-iff, Text, text_eq,
}
use unifold.Collaboration.Types.{PatchOperation, Revision, Conflict}
use unifold.Collaboration.Pointer.{pointers_overlap}
use unifold.Collaboration.Conflict.{
  conflict_footprints, conflict_of, same_conflict_area, deeper_of, operation_conflicts,
  merge_conflict, merge_all, unique_conflicts, collaboration_conflicts,
}

-- The operation's footprint meets none of the paths that the revision changed.
abbrev pub Apart : Revision → PatchOperation → Type 0
Apart revision operation =
    All
      (λ current.
        All (λ path. pointers_overlap path current ≡ false) (conflict_footprints operation))
      revision.changed_paths

abbrev pub Disjoint : List PatchOperation → List Revision → Type 0
Disjoint operations intervening =
    All (λ operation. All (λ revision. Apart revision operation) intervening) operations

merge_all-cons : (c : Conflict) (cs vs : List Conflict) → merge_all (c ∷ cs) vs ≢ []
unfolding merge_all merge_conflict
merge_all-cons c cs [] h = cc
merge_all-cons c cs (v ∷ vs) h = elim (Bool-cases (same_conflict_area c v)) [
  | inl e ↦ merge_all-cons (deeper_of c v) cs vs (rw e at h)
  | inr e ↦ merge_all-cons c (merge_conflict cs v) vs (rw e at h)
]

unique_conflicts-eq_nil : (cs : List Conflict) → (unique_conflicts cs ≡ []) ↔ (cs ≡ [])
unfolding unique_conflicts merge_all merge_conflict
unique_conflicts-eq_nil [] = (λ h. refl, λ h. refl)
unique_conflicts-eq_nil (c ∷ cs) = (λ h. absurd (merge_all-cons c [] cs h), λ h. cc)

module _ (base current : Text) where
  kept-eq_nil :
      (operation : PatchOperation) (revision : Revision) (path : Text) (paths : List Text)
      → (map
            (λ p. conflict_of base current p path operation revision)
            (keep (λ p. pointers_overlap p path) paths)
          ≡ [])
        ↔ All (λ p. pointers_overlap p path ≡ false) paths
  kept-eq_nil operation revision path [] = (λ h. tt, λ h. refl)
  kept-eq_nil operation revision path (p ∷ ps) = elim (Bool-cases (pointers_overlap p path)) [
    | inl e ↦ rw e (λ h. cc, λ h. cc (h.0))
    | inr e ↦ rw e (
      λ h. (refl, (kept-eq_nil operation revision path ps).0 h),
      λ h. (kept-eq_nil operation revision path ps).1 h.1,
    )
  ]

  conflicts-eq_nil :
      (intervening : List Revision) (operation : PatchOperation)
      → (operation_conflicts base current intervening operation ≡ [])
        ↔ All (λ revision. Apart revision operation) intervening
  unfolding operation_conflicts
  conflicts-eq_nil intervening operation = iff_trans (flat_map-eq_nil _ intervening) (
      All-iff
        (λ revision. iff_trans (flat_map-eq_nil _ revision.changed_paths) (
          All-iff (λ path. kept-eq_nil operation revision path (conflict_footprints operation))
            revision.changed_paths))
        intervening)

  -- A proposal has no conflict exactly when no path of its footprint overlaps with a path that an
  -- intervening revision changed.
  pub collaboration_conflicts-eq_nil :
      (operations : List PatchOperation) (intervening : List Revision)
      → (collaboration_conflicts base current operations intervening ≡ [])
        ↔ Disjoint operations intervening
  unfolding collaboration_conflicts
  collaboration_conflicts-eq_nil operations intervening = iff_trans (unique_conflicts-eq_nil _) (
      iff_trans (flat_map-eq_nil _ operations)
        (All-iff (λ operation. conflicts-eq_nil intervening operation) operations))

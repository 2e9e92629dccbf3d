-- ===== src/Collaboration/Patch/Laws.antt =====
-- Accepted patches, of packages/collaboration/src/patch.ts.
use unifold.Prelude.{
  ℕ, suc, ◌≡◌, refl, ◌∙◌, subst, inl, inr, Bool, false, some, List, [], ◌∷◌, arith, Bool-cases,
  Option-cases, nat_eq, ==_refl, any, All, All-map, List-cases, Text, text, text_eq,
}
use unifold.Contracts.Json.{JsonObject, string, get_field, get_field-set_field}
use unifold.Collaboration.Types.{PatchOperation}
use unifold.Collaboration.Requests.{Env}
use unifold.Collaboration.Pointer.{operation_paths, changed_paths, targets_framework_owned_identity}
use unifold.Collaboration.Pointer.Owned.{IsOwned, IsOwned-targets}
use unifold.Collaboration.State.{stamp}
use unifold.Collaboration.Patch.{
  PatchSuccess, patched, policy_from, patch_policy_diagnostics, apply_policy_approved_patch,
  apply_collaboration_patch,
}

-- No path that the operation names is owned by the framework.
abbrev pub LeavesIdentity : PatchOperation → Type 0
LeavesIdentity o = All (λ path. IsOwned path → ⊥) (operation_paths o)

any-All : (f : Text → Bool) (xs : List Text) → any f xs ≡ false → All (λ x. f x ≡ false) xs
any-All f [] h = tt
any-All f (x ∷ xs) h = ground (arith, any-All f xs)

policy_from-eq_nil :
    (n : ℕ) (os : List PatchOperation) → policy_from n os ≡ [] → All LeavesIdentity os
unfolding policy_from
policy_from-eq_nil n [] h = tt
policy_from-eq_nil n (o ∷ os) h =
    elim (Bool-cases (any targets_framework_owned_identity (operation_paths o))) [
      | inl t ↦ let bad = rw t at h in cc
      | inr f ↦ (
        All-map (λ path h. IsOwned-targets path h) (operation_paths o)
            (any-All targets_framework_owned_identity (operation_paths o) f),
        policy_from-eq_nil (suc n) os (rw f at h),
      )
    ]

patched-injective : (a b : PatchSuccess) → patched a ≡ patched b → a ≡ b
patched-injective a b h = cc

stamped_lem :
    (d : JsonObject) (revision : Text)
    → get_field (text "revision") (stamp revision d) ≡ some (string revision)
stamped_lem d revision =
    get_field-set_field (text "revision") (text "revision") (string revision) d
    ∙ rw (==_refl (text "revision"))

module _ (env : Env) where
  -- What a patch that is not refused comes with.
  pub record IsApplied (operations : List PatchOperation) (revision : Text) (applied : PatchSuccess)
      : Type 0 where
    pub leaves : All LeavesIdentity operations
    pub stamped : get_field (text "revision") applied.document ≡ some (string revision)
    pub valid : env.validate applied.document ≡ []
    pub changes : applied.changed_paths ≡ changed_paths operations

  approved_lem :
      (document : JsonObject) (operations : List PatchOperation) (revision : Text)
      (applied : PatchSuccess)
      → All LeavesIdentity operations
      → apply_policy_approved_patch env document operations revision ≡ patched applied
      → IsApplied operations revision applied
  unfolding apply_policy_approved_patch
  approved_lem document operations revision applied leaves h =
      elim (Option-cases (env.apply_patch document operations)) [
        | inl e ↦ let bad = rw (e, apply_policy_approved_patch) at h in cc
        | inr (patch, e) ↦ elim (List-cases (env.validate (stamp revision patch))) [
          | inr (d, ds, f) ↦ let bad = rw (e, f, apply_policy_approved_patch) at h in cc
          | inl f ↦
              let good = rw (e, f, apply_policy_approved_patch) at h in
              subst (IsApplied operations revision) (patched-injective _ applied good) (record {
                leaves = leaves;
                stamped = stamped_lem patch revision;
                valid = f;
                changes = refl;
              })
        ]
      ]

  -- No operation of a patch that is accepted names a path that does not decode, that is "/revision" or
  -- that ends in "id"; its document carries the new revision and passed the host's validation, and the
  -- changed paths are those of its operations. An operation on a path above an id may still change it.
  pub apply_collaboration_patch-IsApplied :
      (document : JsonObject) (operations : List PatchOperation) (revision : Text)
      (applied : PatchSuccess)
      → apply_collaboration_patch env document operations revision ≡ patched applied
      → IsApplied operations revision applied
  unfolding apply_collaboration_patch patch_policy_diagnostics
  apply_collaboration_patch-IsApplied document operations revision applied h =
      elim (List-cases (patch_policy_diagnostics operations)) [
        | inl e ↦
            approved_lem document operations revision applied (policy_from-eq_nil 0 operations e)
              (rw (e, apply_collaboration_patch) at h)
        | inr (d, ds, e) ↦ let bad = rw (e, apply_collaboration_patch) at h in cc
      ]

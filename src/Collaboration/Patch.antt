-- ===== src/Collaboration/Patch.antt =====
-- packages/collaboration/src/patch.ts: a patch is applied to a copy, stamped with its revision and
-- validated by the host.
use unifold.Prelude.{
  ℕ, suc, Bool, true, false, none, some, List, [], ◌∷◌, ◌++◌, map, if◌then◌else◌, keep, any, Text,
  text, print,
}
use unifold.Contracts.Json.{JsonObject}
use unifold.Collaboration.Types.{PatchOperation, PatchOperationType, remove, Diagnostic, ErrorCode}
use unifold.Collaboration.Requests.{Env}
use unifold.Collaboration.Pointer.{operation_paths, changed_paths, targets_framework_owned_identity}
use unifold.Collaboration.Support.{diagnostic}
use unifold.Collaboration.State.{stamp}
pub mod Laws
mod Tests

pub record PatchSuccess : Type 0 where
  pub changed_paths : List Text
  pub document : JsonObject
  pub removed_paths : List Text

pub data PatchResult : Type 0 where
  patched : PatchSuccess → PatchResult
  refused : List Diagnostic → PatchResult

operation_policy_diagnostics : PatchOperation → ℕ → List Diagnostic
unfolding diagnostic
operation_policy_diagnostics operation index =
    if any targets_framework_owned_identity (operation_paths operation)
    then diagnostic ErrorCode.invalid_patch (text "collaboration.patch.frameworkOwned")
        (some (text "/operations/" ++ print index))
      ∷ []
    else []

policy_from : ℕ → List PatchOperation → List Diagnostic
unfolding operation_policy_diagnostics
policy_from index [] = []
policy_from index (o ∷ os) = operation_policy_diagnostics o index ++ policy_from (suc index) os

pub patch_policy_diagnostics : List PatchOperation → List Diagnostic
unfolding policy_from
patch_policy_diagnostics = policy_from 0

is_remove : PatchOperation → Bool
is_remove o = elim o.op [ remove ↦ true | _ ↦ false ]

removed_paths : List PatchOperation → List Text
unfolding is_remove
removed_paths operations = map (λ (o : PatchOperation). o.path) (keep is_remove operations)

patch_failure : Diagnostic
unfolding diagnostic
patch_failure =
    diagnostic ErrorCode.invalid_patch (text "collaboration.patch.failed")
      (some (text "/operations"))

module _ (env : Env) where
  apply_policy_approved_patch : JsonObject → List PatchOperation → Text → PatchResult
  unfolding removed_paths patch_failure
  apply_policy_approved_patch document operations revision =
      elim (env.apply_patch document operations) [
        | none ↦ refused (patch_failure ∷ [])
        | some patch ↦ elim (env.validate (stamp revision patch)) [
          | d ∷ ds ↦ refused (d ∷ ds)
          | [] ↦ patched (record {
            changed_paths = changed_paths operations;
            document = stamp revision patch;
            removed_paths = removed_paths operations;
          })
        ]
      ]

  unfoldable pub apply_collaboration_patch : JsonObject → List PatchOperation → Text → PatchResult
  unfolding apply_policy_approved_patch patch_policy_diagnostics
  apply_collaboration_patch document operations revision =
      elim (patch_policy_diagnostics operations) [
        | d ∷ ds ↦ refused (d ∷ ds)
        | [] ↦ apply_policy_approved_patch document operations revision
      ]

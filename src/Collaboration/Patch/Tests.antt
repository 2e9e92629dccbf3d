-- ===== src/Collaboration/Patch/Tests.antt =====
-- A patch that replaces the title.
use unifold.Prelude.{◌≡◌, refl, [], ◌∷◌, text, text_same, sort_texts, unique}
use unifold.Collaboration.Patch.{
  PatchSuccess, patched, apply_collaboration_patch, apply_policy_approved_patch,
  patch_policy_diagnostics, removed_paths,
}
use unifold.Collaboration.Pointer.{changed_paths, targets_framework_owned_identity, decode_pointer}
use unifold.Collaboration.State.{stamp}
use unifold.Collaboration.Patch.Laws.{IsApplied, apply_collaboration_patch-IsApplied}
use unifold.Collaboration.Fixtures.{host, page, replace_title}

abbrev applied : PatchSuccess
applied = record {
  changed_paths = text "/title" ∷ [];
  document = stamp (text "r2") page;
  removed_paths = [];
}

accepted_lem :
    apply_collaboration_patch host page (replace_title ∷ []) (text "r2") ≡ patched applied
unfolding apply_collaboration_patch apply_policy_approved_patch patch_policy_diagnostics
    changed_paths removed_paths targets_framework_owned_identity decode_pointer text_same sort_texts
    unique
accepted_lem = refl

apply_collaboration_patch-IsApplied_example :
    IsApplied host (replace_title ∷ []) (text "r2") applied
apply_collaboration_patch-IsApplied_example =
    apply_collaboration_patch-IsApplied host page (replace_title ∷ []) (text "r2") applied
      accepted_lem

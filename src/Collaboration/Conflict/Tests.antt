-- ===== src/Collaboration/Conflict/Tests.antt =====
-- Conflicts of one replacement with an undo and with a disjoint change.
use unifold.Prelude.{some, ◌≡◌, refl, ◌↔◌, List, [], ◌∷◌, none, text}
use unifold.Collaboration.Types.{PatchOperation, Revision}
use unifold.Collaboration.Pointer.{decode_pointer, operation_paths}
use unifold.Collaboration.Conflict.{collaboration_conflicts, conflict_footprints}
use unifold.Collaboration.Conflict.Disjoint.{collaboration_conflicts-eq_nil, Disjoint}
use unifold.Collaboration.Conflict.Compensation.{slash_unseen}
use unifold.Collaboration.State.{commit, initial_state}
use unifold.Collaboration.Support.{default_branch_policy}
use unifold.Collaboration.Revisions.{compensation_candidate}
use unifold.Collaboration.Fixtures.{
  replace_title, host, setup, author, page, undo_request, empty_log,
}

abbrev undone : List Revision
undone =
    (commit host
      (compensation_candidate undo_request author (text "r0")
        (record { revision = text "r1"; sequence = 1 }) page)
      none (some (text "r0")) (initial_state host setup empty_log default_branch_policy)).0
    ∷ []

abbrev edits : List PatchOperation
edits = replace_title ∷ []

collaboration_conflicts-eq_nil_example :
    (collaboration_conflicts (text "r0") (text "r1") edits undone ≡ []) ↔ Disjoint edits undone
collaboration_conflicts-eq_nil_example =
    collaboration_conflicts-eq_nil (text "r0") (text "r1") edits undone

slash_unseen_example : collaboration_conflicts (text "r0") (text "r1") edits undone ≡ []
unfolding conflict_footprints operation_paths decode_pointer
slash_unseen_example =
    slash_unseen host (text "r0") (text "r1") edits undone
      (((text "title", [], refl, λ h. cc), tt), tt)
      (
        (
          undo_request,
          author,
          text "r0",
          record { revision = text "r1"; sequence = 1 },
          page,
          initial_state host setup empty_log default_branch_policy,
          refl,
        ),
        tt,
      )

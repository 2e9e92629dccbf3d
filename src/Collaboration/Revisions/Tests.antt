-- ===== src/Collaboration/Revisions/Tests.antt =====
-- An undo on the protected branch, at the state of the fixtures.
use unifold.Prelude.{refl, none, some, text, text_eq, text_same, get}
use unifold.Collaboration.Types.{Revision}
use unifold.Collaboration.Revisions.{undo_revision}
use unifold.Collaboration.Revisions.Laws.{CanUndo, IsUndone, new_revision, undo_revision-IsUndone}
use unifold.Collaboration.Fixtures.{host, reviewer, undo_request, live_branch, working, revision_at}

abbrev newer : Revision
newer = revision_at (text "r1") 1 (some (text "r0"))

abbrev older : Revision
older = revision_at (text "r0") 0 none

can_undo : CanUndo host undo_request reviewer working live_branch newer older
unfolding get text_same
can_undo = record {
  branch = refl;
  is_head = refl;
  stored = refl;
  named = refl;
  has_parent = (text "r0", refl, refl);
  valid = refl;
}

undo_revision-IsUndone_example :
    IsUndone host undo_request reviewer working live_branch newer older
      (undo_revision host undo_request reviewer working).1
      (new_revision host undo_request reviewer working live_branch newer older)
undo_revision-IsUndone_example =
    undo_revision-IsUndone host undo_request reviewer working live_branch newer older can_undo

-- ===== src/Collaboration/Revisions/Laws.antt =====
-- The state after `undoRevision` of packages/collaboration/src/revision-operations.ts.
use unifold.Prelude.{
  suc, ◌≡◌, refl, ap, none, some, List, [], ◌∷◌, nat_eq, ==_iff, Text, text, text_eq, get,
  get-put_self,
}
use unifold.Collaboration.Types.{ActorContext, Branch, Diagnostic, Revision}
use unifold.Collaboration.Requests.{Env, UndoRequest}
use unifold.Collaboration.State.{
  State, stamp, set_head, revision_name, next_revision_identity, emit_event, commit,
}
use unifold.Collaboration.Proposals.{move_head}
use unifold.Collaboration.Revisions.{
  undoable, undo_context, undo_revision_context, undo_parent_context, parent_of, undo_in,
  commit_compensation, validated_undo, commit_validated, compensation_candidate, undo_revision,
}

module _ (env : Env) (request : UndoRequest) (actor : ActorContext) (s : State) (b : Branch)
    (target parent : Revision) where
  abbrev pub next : Text
  next = revision_name (suc s.revision_sequence)

  -- The undo that the request asks for can be made.
  pub record CanUndo : Type 0 where
    pub branch : get request.branch_id s.branches ≡ some b
    pub is_head : b.head_revision ≡ request.target_revision
    pub stored : get request.target_revision s.revisions ≡ some target
    pub named : target.revision ≡ request.target_revision
    pub has_parent :
        (p : Text) × (target.parent_revision ≡ some p) × (get p s.revisions ≡ some parent)
    pub valid : env.validate (stamp next parent.document) ≡ []

  parent_of_lem : CanUndo → parent_of target s ≡ some parent
  unfolding parent_of
  parent_of_lem c = let (p, e, f) = c.has_parent in rw (e, f, parent_of)

  undo_context_lem : CanUndo → undo_context request (some b) s ≡ undoable target parent
  unfolding undo_context undo_revision_context undo_parent_context
  undo_context_lem c =
      rw ((==_iff b.head_revision request.target_revision).1 c.is_head, c.stored, parent_of_lem c)

  -- What an undo leaves behind.
  pub record IsUndone (after : State) (r : Revision) : Type 0 where
    pub head : get request.branch_id after.branches ≡ some (set_head next b)
    pub stored : get next after.revisions ≡ some r
    pub document : r.document ≡ stamp next parent.document
    pub on_top : r.parent_revision ≡ some request.target_revision
    pub compensates : r.compensates_revision ≡ some request.target_revision
    pub changed : r.changed_paths ≡ text "/" ∷ []

  abbrev pub new_revision : Revision
  new_revision =
      (commit env
        (compensation_candidate request actor target.revision (next_revision_identity s).0
          (stamp next parent.document))
        none (some target.revision) (next_revision_identity s).1).0

  commit-IsUndone :
      CanUndo
      → IsUndone
          (commit_validated env request actor target.revision
            (next_revision_identity s).0
            (stamp next parent.document)
            (next_revision_identity s).1).1
          new_revision
  unfolding commit_validated next_revision_identity emit_event commit compensation_candidate
      move_head
  commit-IsUndone c =
      rw (c.branch, move_head)
        (record {
          head = get-put_self request.branch_id (set_head next b) s.branches;
          stored = get-put_self next new_revision s.revisions;
          document = refl;
          on_top = ap some c.named;
          compensates = ap some c.named;
          changed = refl;
        })

  validated-IsUndone :
      (ds : List Diagnostic)
      → ds ≡ []
      → CanUndo
      → IsUndone
          (validated_undo env ds request actor target.revision
            (next_revision_identity s).0
            (stamp next parent.document)
            (next_revision_identity s).1).1
          new_revision
  unfolding validated_undo
  validated-IsUndone [] e c = commit-IsUndone c
  validated-IsUndone (d ∷ ds) e c = cc

  -- An undo that can be made puts on top of the head a revision with the parent's document, on a
  -- protected branch as on any other and with no approval.
  pub undo_revision-IsUndone : CanUndo → IsUndone (undo_revision env request actor s).1 new_revision
  unfolding undo_revision undo_in
  undo_revision-IsUndone c =
      rw (c.branch, undo_context_lem c)
        (unfold commit_compensation next_revision_identity in
          validated-IsUndone (env.validate (stamp next parent.document)) c.valid c)

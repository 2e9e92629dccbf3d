-- ===== src/Collaboration/Revisions.antt =====
-- packages/collaboration/src/revision-operations.ts: publishing, undoing and presence.
pub mod Laws
mod Tests
use unifold.Prelude.{
  not, Option, none, some, List, [], ◌∷◌, if◌then◌else◌, ◌==◌, nat_eq, Text, text, text_eq, get,
  put,
}
use unifold.Contracts.Json.{JsonObject, end, field, string, boolean}
use unifold.Collaboration.Types.{
  ActorContext, Branch, Diagnostic, ErrorCode, EventType, Proposal, Result, Revision, Status,
  revision_value, published_value, presence_value,
}
use unifold.Collaboration.Requests.{Env, PublishRequest, UndoRequest, PresenceRequest}
use unifold.Collaboration.Support.{accepted, conflict, denied, not_found}
use unifold.Collaboration.Governance.{revision_may_publish}
use unifold.Collaboration.Presence
use unifold.Collaboration.State.{
  State, Candidate, Identity, stamp, next_revision_identity, now, emit_event, commit,
}
use unifold.Collaboration.Proposals.{Outcome, move_head, pair}

-- The proposal that a revision came from, if the state knows both.
unfoldable pub proposal_of : Option Revision → State → Option Proposal
proposal_of none s = none
proposal_of (some r) s = elim r.proposal_id [ none ↦ none | some id ↦ get id s.proposals ]

unfoldable pub compensation_candidate :
    UndoRequest → ActorContext → Text → Identity → JsonObject → Candidate
compensation_candidate request actor target_revision identity document = record {
  actor = actor;
  branch_id = request.branch_id;
  changed_paths = text "/" ∷ [];
  correlation_id = request.correlation_id;
  document = document;
  parent_revision = target_revision;
  removed_paths = [];
  revision = identity.revision;
  sequence = identity.sequence;
}

-- The revision to undo, and its parent.
pub data Undo : Type 0 where
  refused : Result → Undo
  undoable : Revision → Revision → Undo

unfoldable pub undo_parent_context : Revision → Option Revision → Undo
undo_parent_context target none = refused (not_found ErrorCode.revision_not_found)
undo_parent_context target (some parent) = undoable target parent

unfoldable pub parent_of : Revision → State → Option Revision
parent_of target s = elim target.parent_revision [ none ↦ none | some id ↦ get id s.revisions ]

-- `undoRevisionContext`, at the revision that it finds.
unfoldable pub undo_revision_context : Option Revision → State → Undo
unfolding undo_parent_context parent_of
undo_revision_context none s = refused (not_found ErrorCode.revision_not_found)
undo_revision_context (some target) s = undo_parent_context target (parent_of target s)

-- `undoContext`, at the branch that it finds.
unfoldable pub undo_context : UndoRequest → Option Branch → State → Undo
unfolding undo_revision_context
undo_context request none s = refused (not_found ErrorCode.branch_not_found)
undo_context request (some branch) s =
    if not (branch.head_revision == request.target_revision)
    then refused (conflict ErrorCode.approval_stale (text "collaboration.undo.stale") none)
    else undo_revision_context (get request.target_revision s.revisions) s

selected_member : Option Text → JsonObject
selected_member none = end
selected_member (some id) = field (text "selectedId") (string id) end

presence_payload : PresenceRequest → ActorContext → JsonObject
unfolding selected_member
presence_payload request actor =
    field (text "actorId") (string actor.actor_id)
      (field (text "draft") (boolean request.draft) (selected_member request.selected_id))

module _ (env : Env) where
  unfoldable pub publish_on : PublishRequest → ActorContext → Branch → State → Outcome
  unfolding proposal_of
  publish_on request actor branch s =
      if not (
        revision_may_publish branch (proposal_of (get request.revision s.revisions) s)
          request.revision)
      then (denied ErrorCode.publish_not_approved, s)
      else let published : Branch = record branch { published_revision = some request.revision } in
        (
          accepted (published_value request.branch_id request.revision),
          emit_event env EventType.revision_published actor request.branch_id request.correlation_id
              (field (text "revision") (string request.revision) end)
              (record s { branches = put request.branch_id published s.branches }),
        )

  unfoldable pub publish_revision : PublishRequest → ActorContext → State → Outcome
  unfolding publish_on
  publish_revision request actor s = elim (get request.branch_id s.branches) [
    | none ↦ (not_found ErrorCode.branch_not_found, s)
    | some branch ↦ publish_on request actor branch s
  ]

  unfoldable pub commit_validated :
      UndoRequest → ActorContext → Text → Identity → JsonObject → State → Outcome
  unfolding compensation_candidate pair
  commit_validated request actor target_revision identity document s =
      let (revision, s₁) =
        commit env (compensation_candidate request actor target_revision identity document) none
          (some target_revision) s in
      (
        accepted (revision_value revision),
        emit_event env EventType.revision_committed actor request.branch_id request.correlation_id
            (pair (text "compensatesRevision") request.target_revision (text "revision")
              revision.revision)
            (move_head request.branch_id revision.revision s₁),
      )

  unfoldable pub validated_undo :
      List Diagnostic → UndoRequest → ActorContext → Text → Identity → JsonObject → State → Outcome
  unfolding commit_validated
  validated_undo (d ∷ ds) request actor target_revision identity document s =
      (record { conflicts = []; diagnostics = d ∷ ds; status = Status.invalid; value = none }, s)
  validated_undo [] request actor target_revision identity document s =
      commit_validated request actor target_revision identity document s

  unfoldable pub commit_compensation :
      UndoRequest → ActorContext → Text → JsonObject → State → Outcome
  unfolding validated_undo
  commit_compensation request actor target_revision parent_document s =
      let (identity, s₁) = next_revision_identity s in
      let document = stamp identity.revision parent_document in
      validated_undo (env.validate document) request actor target_revision identity document s₁

  unfoldable pub undo_in : UndoRequest → ActorContext → Undo → State → Outcome
  unfolding commit_compensation
  undo_in request actor (refused result) s = (result, s)
  undo_in request actor (undoable target parent) s =
      commit_compensation request actor target.revision parent.document s

  unfoldable pub undo_revision : UndoRequest → ActorContext → State → Outcome
  unfolding undo_in undo_context
  undo_revision request actor s =
      undo_in request actor (undo_context request (get request.branch_id s.branches) s) s

  present_on : PresenceRequest → ActorContext → State → Outcome
  unfolding presence_payload
  present_on request actor s =
      let (now_ms, s₁) = now env s in
      let (presence, entries) = Presence.update request actor now_ms s₁.presence in
      (
        accepted (presence_value presence),
        emit_event env EventType.presence_changed actor request.branch_id request.correlation_id
            (presence_payload request actor) (record s₁ { presence = entries }),
      )

  unfoldable pub update_collaboration_presence : PresenceRequest → ActorContext → State → Outcome
  unfolding present_on
  update_collaboration_presence request actor s = elim (get request.branch_id s.branches) [
    | none ↦ (not_found ErrorCode.branch_not_found, s)
    | some branch ↦ present_on request actor s
  ]

-- ===== src/Collaboration/Moves/Revisions.antt =====
-- The moves that publishing, undoing and presence make in the ledger, for
-- packages/collaboration/src/revision-operations.ts.
use unifold.Prelude.{
  ◌≡◌, refl, sym, ap, ◌∙◌, inl, inr, true, Option, none, some, List, [], ◌∷◌, arith, Bool-cases,
  Option-cases, ◌==◌, nat_eq, ==_iff, Text, text_eq, get,
}
use unifold.Contracts.Json.{JsonObject}
use unifold.Collaboration.Types.{ActorContext, Branch, Revision, Diagnostic}
use unifold.Collaboration.Requests.{Env, PublishRequest, UndoRequest, PresenceRequest}
use unifold.Collaboration.Governance.{revision_may_publish}
use unifold.Collaboration.State.{State, Identity, next_revision_identity, now, emit_event, commit}
use unifold.Collaboration.State.Ledger.{
  ledger, Follows, advanced, Move, Moves, stay, go, number, compensate, publish, IsValid,
}
use unifold.Collaboration.Proposals.{move_head}
use unifold.Collaboration.Revisions.{
  Undo, refused, undoable, publish_on, publish_revision, commit_validated, commit_compensation,
  undo_in, undo_context, undo_parent_context, undo_revision_context, parent_of, undo_revision,
  update_collaboration_presence, proposal_of, compensation_candidate, validated_undo,
}
use unifold.Collaboration.Moves.{Commits-commit}

module _ (env : Env) where
  -- Only the head is published.
  pub revision_may_publish-head :
      (b : Branch) (request : PublishRequest) (s : State)
      → revision_may_publish b (proposal_of (get request.revision s.revisions) s) request.revision
        ≡ true
      → b.head_revision ≡ request.revision
  unfolding revision_may_publish
  revision_may_publish-head b request s h =
      (==_iff b.head_revision request.revision).0 (ground arith)

  publish_on-Moves :
      (request : PublishRequest) (actor : ActorContext) (b : Branch) (s : State)
      → get request.branch_id s.branches ≡ some b
      → Moves (ledger s) (ledger (publish_on env request actor b s).1)
  unfolding publish_on emit_event
  publish_on-Moves request actor b s at =
      elim (Bool-cases (
        revision_may_publish b (proposal_of (get request.revision s.revisions) s)
          request.revision)) [
            | inl e ↦ rw e (
                rw (← revision_may_publish-head b request s e)
                  (go stay (publish request.branch_id b at)))
            | inr e ↦ rw e stay
          ]

  pub publish_revision-Moves :
      (request : PublishRequest) (actor : ActorContext) (s : State)
      → Moves (ledger s) (ledger (publish_revision env request actor s).1)
  unfolding publish_revision
  publish_revision-Moves request actor s = elim (Option-cases (get request.branch_id s.branches)) [
    | inl e ↦ rw (e, publish_revision) stay
    | inr (b, e) ↦ rw (e, publish_revision) (publish_on-Moves request actor b s e)
  ]

  ledger-commit_validated :
      (request : UndoRequest) (actor : ActorContext) (b : Branch) (target : Text) (i : Identity)
      (d : JsonObject) (s : State)
      → get request.branch_id s.branches ≡ some b
      → ledger (commit_validated env request actor target i d s).1
        ≡ advanced request.branch_id b
            (commit env (compensation_candidate request actor target i d) none (some target) s).0
            (ledger s)
  unfolding commit_validated move_head emit_event commit
  ledger-commit_validated request actor b target i d s at = ground arith

  validated_undo-Moves :
      (request : UndoRequest) (actor : ActorContext) (b : Branch) (target : Text) (d : JsonObject)
      (ds : List Diagnostic) (s : State)
      → get request.branch_id s.branches ≡ some b
      → target ≡ b.head_revision
      → Moves (ledger s) (
          ledger
            (validated_undo env ds request actor target
              (next_revision_identity s).0
              d
              (next_revision_identity s).1).1)
  unfolding validated_undo
  validated_undo-Moves request actor b target d (e ∷ es) s at same =
      unfold next_revision_identity in go stay number
  validated_undo-Moves request actor b target d [] s at same =
      let (i, s₁) = next_revision_identity s in
      let c = compensation_candidate request actor target i d in
      let r = (commit env c none (some target) s₁).0 in
      let here : get request.branch_id s₁.branches ≡ some b = unfold next_revision_identity in at in
      let f : Follows (ledger s) b c =
        unfold next_revision_identity compensation_candidate in
        record { number = refl; name = refl; parent = same } in
      let move : Move (ledger s) (advanced request.branch_id b r (ledger s₁)) =
        unfold next_revision_identity in
        compensate request.branch_id b c r at f (Commits-commit env c none (some target) s₁) in
      rw (ledger-commit_validated request actor b target i d s₁ here) (go stay move)

  undo_in-Moves :
      (request : UndoRequest) (actor : ActorContext) (b : Branch) (u : Undo) (s : State)
      → get request.branch_id s.branches ≡ some b
      → ((target parent : Revision)
          → u ≡ undoable target parent
          → target.revision ≡ b.head_revision)
      → Moves (ledger s) (ledger (undo_in env request actor u s).1)
  unfolding undo_in commit_compensation
  undo_in-Moves request actor b (refused r) s at same = stay
  undo_in-Moves request actor b (undoable target parent) s at same =
      validated_undo-Moves request actor b target.revision _ _ s at (same target parent refl)

  undo_parent_context-target :
      (t : Revision) (o : Option Revision) (target parent : Revision)
      → undo_parent_context t o ≡ undoable target parent
      → t ≡ target
  unfolding undo_parent_context
  undo_parent_context-target t none target parent e = cc
  undo_parent_context-target t (some q) target parent e = cc

  undo_revision_context-target :
      (o : Option Revision) (s : State) (target parent : Revision)
      → undo_revision_context o s ≡ undoable target parent
      → o ≡ some target
  unfolding undo_revision_context
  undo_revision_context-target none s target parent e = cc
  undo_revision_context-target (some t) s target parent e =
      ap some (undo_parent_context-target t (parent_of t s) target parent e)

  undo_context-target :
      (request : UndoRequest) (b : Branch) (s : State)
      → IsValid (ledger s)
      → (target parent : Revision) → undo_context request (some b) s ≡ undoable target parent
      → target.revision ≡ b.head_revision
  unfolding undo_context
  undo_context-target request b s v target parent e =
      elim (Bool-cases (b.head_revision == request.target_revision)) [
        | inl h ↦
            let found =
              undo_revision_context-target (get request.target_revision s.revisions) s target parent
                (rw h at e) in
            (v.stored request.target_revision target found).name
            ∙ sym ((==_iff b.head_revision request.target_revision).0 h)
        | inr h ↦ let no_undo = rw h at e in cc
      ]

  -- An undo commits a compensation on top of the head, or nothing.
  pub undo_revision-Moves :
      (request : UndoRequest) (actor : ActorContext) (s : State)
      → IsValid (ledger s)
      → Moves (ledger s) (ledger (undo_revision env request actor s).1)
  unfolding undo_revision
  undo_revision-Moves request actor s v = elim (Option-cases (get request.branch_id s.branches)) [
    | inl e ↦ rw e stay
    | inr (b, e) ↦ rw e (
        undo_in-Moves request actor b (undo_context request (some b) s) s e
          (undo_context-target request b s v))
  ]

  pub ledger-update_collaboration_presence :
      (request : PresenceRequest) (actor : ActorContext) (s : State)
      → ledger (update_collaboration_presence env request actor s).1 ≡ ledger s
  unfolding update_collaboration_presence emit_event now
  ledger-update_collaboration_presence request actor s = ground arith

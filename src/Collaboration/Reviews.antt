-- ===== src/Collaboration/Reviews.antt =====
-- packages/collaboration/src/proposal-operations.ts and proposal-context.ts: approving a proposal
-- and commenting on it.
pub mod Laws
mod Tests
use unifold.Prelude.{
  ◌+◌, Bool, true, false, not, Option, none, some, [], ◌∷◌, ◌++◌, if◌then◌else◌, ◌==◌, nat_eq,
  length, any, text, text_eq, get, print,
}
use unifold.Contracts.Json.{JsonObject, end, field, string}
use unifold.Collaboration.Types.{
  ActorContext, Approval, Branch, Comment, Diagnostic, ErrorCode, EventType, Proposal,
  ProposalStatus, Result, Status, proposal_value, approval_stale, revision_value,
}
use unifold.Collaboration.Requests.{Env, ApproveRequest, CommentRequest}
use unifold.Collaboration.Support.{accepted, conflict, not_found, review_required}
use unifold.Collaboration.Governance.{approval_diagnostic, has_required_approvals, approvers}
use unifold.Collaboration.State.{State, Candidate, now, emit_event}
use unifold.Collaboration.Proposals.{Outcome, commit_proposal, put_proposal, pair, accept_committed}

is_stale_code : ErrorCode → Bool
is_stale_code approval_stale = true
is_stale_code _ = false

approval_failure : Diagnostic → Result
unfolding is_stale_code
approval_failure issue = record {
  conflicts = [];
  diagnostics = issue ∷ [];
  status = if is_stale_code issue.code then Status.conflict else Status.denied;
  value = none;
}

module _ (env : Env) where
  -- `recordApproval`: the proposal after it, and the state. A second approval by an actor is dropped.
  unfoldable pub record_approval :
      Proposal → ApproveRequest → ActorContext → State → Proposal × State
  unfolding pair
  record_approval proposal request actor s =
      if any (λ (a : Approval). a.actor_id == actor.actor_id) proposal.approvals
      then (proposal, s)
      else let (approved_at, s₁) = now env s in
        let approval : Approval = record {
          actor_id = actor.actor_id;
          approved_at = approved_at;
          revision = request.expected_revision;
        } in
        let proposal' : Proposal = record proposal {
          approvals = proposal.approvals ++ approval ∷ [];
        } in
        (
          proposal',
          emit_event env EventType.approval_recorded actor proposal.branch_id request.correlation_id
              (pair (text "proposalId") proposal.proposal_id (text "revision")
                request.expected_revision)
              (put_proposal proposal' s₁),
        )

  unfoldable pub finish_with : Proposal → Branch → Candidate → State → Outcome
  unfolding accept_committed
  finish_with proposal branch candidate s =
      if not (branch.head_revision == candidate.parent_revision)
      then (
        conflict ErrorCode.approval_stale (text "collaboration.approval.stale") none,
        put_proposal (record proposal { status = ProposalStatus.stale }) s,
      )
      else accept_committed env (commit_proposal env proposal candidate s)

  -- `finishApprovedProposal`, with `approvedCandidateContext`.
  unfoldable pub finish_approved_proposal : Proposal → State → Outcome
  unfolding finish_with
  finish_approved_proposal proposal s = elim (get proposal.proposal_id s.candidates) [
    | none ↦ (not_found ErrorCode.revision_not_found, s)
    | some candidate ↦ elim (get proposal.branch_id s.branches) [
      | none ↦ (not_found ErrorCode.branch_not_found, s)
      | some branch ↦ finish_with proposal branch candidate s
    ]
  ]

  unfoldable pub after_approval : Branch → Proposal × State → Outcome
  after_approval branch (proposal, s) =
      if not (has_required_approvals branch (approvers proposal.approvals))
      then (review_required (proposal_value proposal), s)
      else finish_approved_proposal proposal s

  unfoldable pub after_diagnostic :
      Option Diagnostic → ApproveRequest → ActorContext → Proposal → Branch → State → Outcome
  unfolding after_approval approval_failure
  after_diagnostic (some issue) request actor proposal branch s = (approval_failure issue, s)
  after_diagnostic none request actor proposal branch s =
      after_approval branch (record_approval proposal request actor s)

  unfoldable pub evaluate_approval :
      ApproveRequest → ActorContext → Proposal → Branch → State → Outcome
  unfolding after_diagnostic
  evaluate_approval request actor proposal branch s =
      let (now_ms, s₁) = now env s in
      after_diagnostic (approval_diagnostic branch proposal actor request.expected_revision now_ms)
        request actor proposal branch s₁

  -- `approveProposal`, with `approvalContext`.
  unfoldable pub approve_proposal : ApproveRequest → ActorContext → State → Outcome
  unfolding evaluate_approval
  approve_proposal request actor s = elim (get request.proposal_id s.proposals) [
    | none ↦ (not_found ErrorCode.proposal_not_found, s)
    | some proposal ↦ elim (get proposal.branch_id s.branches) [
      | none ↦ (not_found ErrorCode.branch_not_found, s)
      | some branch ↦ evaluate_approval request actor proposal branch s
    ]
  ]

  unfoldable pub comment_on : CommentRequest → ActorContext → Proposal → State → Outcome
  unfolding pair
  comment_on request actor proposal s =
      let (created_at, s₁) = now env s in
      let comment : Comment = record {
        actor_id = actor.actor_id;
        body = request.body;
        comment_id = text "comment-" ++ print (length proposal.comments + 1);
        created_at = created_at;
      } in
      let proposal' : Proposal = record proposal { comments = proposal.comments ++ comment ∷ [] } in
      (
        accepted (proposal_value proposal'),
        emit_event env EventType.comment_added actor proposal.branch_id request.correlation_id
            (pair (text "commentId") comment.comment_id (text "proposalId") proposal.proposal_id)
            (put_proposal proposal' s₁),
      )

  unfoldable pub comment_on_proposal : CommentRequest → ActorContext → State → Outcome
  unfolding comment_on
  comment_on_proposal request actor s = elim (get request.proposal_id s.proposals) [
    | none ↦ (not_found ErrorCode.proposal_not_found, s)
    | some proposal ↦ comment_on request actor proposal s
  ]

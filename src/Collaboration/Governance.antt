-- ===== src/Collaboration/Governance.antt =====
-- packages/collaboration/src/governance.ts: who may approve, and what may be published.
use unifold.Prelude.{
  ℕ, Bool, true, false, not, ◌&&◌, ◌||◌, Option, none, some, List, [], ◌∷◌, ◌++◌, map, leb,
  nat_same, if◌then◌else◌, ◌==◌, nat_eq, length, Text, text, text_eq, has, unique,
}
use unifold.Collaboration.Types.{
  ActorContext, Approval, Branch, BranchPolicy, Diagnostic, ErrorCode, Proposal, approval_expired,
  approval_stale, base_not_ancestor, branch_not_found, capability_denied, idempotency_conflict,
  invalid_patch, invalid_request, proposal_not_found, publish_not_approved, realtime_gap,
  reviewer_denied, revision_not_found, schema_rejected, separation_of_duties,
}
pub mod Laws
mod Tests

code_text : ErrorCode → Text
code_text approval_expired = text "approval-expired"
code_text approval_stale = text "approval-stale"
code_text base_not_ancestor = text "base-not-ancestor"
code_text branch_not_found = text "branch-not-found"
code_text capability_denied = text "capability-denied"
code_text idempotency_conflict = text "idempotency-conflict"
code_text invalid_patch = text "invalid-patch"
code_text invalid_request = text "invalid-request"
code_text proposal_not_found = text "proposal-not-found"
code_text publish_not_approved = text "publish-not-approved"
code_text realtime_gap = text "realtime-gap"
code_text reviewer_denied = text "reviewer-denied"
code_text revision_not_found = text "revision-not-found"
code_text schema_rejected = text "schema-rejected"
code_text separation_of_duties = text "separation-of-duties"

approval_issue : ErrorCode → Option Diagnostic
approval_issue code = some (record {
  code = code;
  message_key = text "collaboration.approval." ++ code_text code;
  path = none;
})

stale_approval : Proposal → Text → Option Diagnostic
unfolding approval_issue
stale_approval proposal expected_revision =
    if expected_revision == proposal.candidate_revision then none else approval_issue approval_stale

expired_at : Option ℕ → ℕ → Option Diagnostic
unfolding approval_issue
expired_at none now_ms = none
expired_at (some expires_at) now_ms =
    if leb expires_at now_ms then approval_issue approval_expired else none

expired_approval : Proposal → ℕ → Option Diagnostic
unfolding expired_at
expired_approval proposal = expired_at proposal.expires_at

pub is_reviewer : Branch → Text → Bool
is_reviewer branch actor_id =
    nat_same (length branch.policy.reviewer_ids) 0 || has actor_id branch.policy.reviewer_ids

reviewer_approval : Branch → Text → Option Diagnostic
unfolding approval_issue is_reviewer
reviewer_approval branch actor_id =
    if is_reviewer branch actor_id then none else approval_issue reviewer_denied

separated_approval : Branch → Proposal → Text → Option Diagnostic
unfolding approval_issue
separated_approval branch proposal actor_id =
    if not branch.policy.separate_author_and_reviewer || not (proposal.author_id == actor_id)
    then none
    else approval_issue separation_of_duties

-- `checks.find(isDiagnostic)`
first_issue : List (Option Diagnostic) → Option Diagnostic
first_issue [] = none
first_issue (none ∷ rest) = first_issue rest
first_issue (some issue ∷ rest) = some issue

unfoldable pub approval_diagnostic : Branch → Proposal → ActorContext → Text → ℕ → Option Diagnostic
unfolding stale_approval expired_approval reviewer_approval separated_approval first_issue code_text
approval_diagnostic branch proposal actor expected_revision now_ms = first_issue (
    stale_approval proposal expected_revision
    ∷ expired_approval proposal now_ms
    ∷ reviewer_approval branch actor.actor_id
    ∷ separated_approval branch proposal actor.actor_id
    ∷ [])

unfoldable pub has_required_approvals : Branch → List Text → Bool
has_required_approvals branch reviewer_ids =
    leb branch.policy.required_approvals (length (unique reviewer_ids))

abbrev pub approvers : List Approval → List Text
approvers = map (λ (a : Approval). a.actor_id)

protected_revision_may_publish : Branch → Option Proposal → Text → Bool
unfolding has_required_approvals
protected_revision_may_publish branch none revision = false
protected_revision_may_publish branch (some proposal) revision =
    proposal.candidate_revision == revision
    && has_required_approvals branch (approvers proposal.approvals)

unfoldable pub revision_may_publish : Branch → Option Proposal → Text → Bool
unfolding protected_revision_may_publish
revision_may_publish branch proposal revision =
    if not (branch.head_revision == revision)
    then false
    else if not branch.policy.is_protected
    then true
    else protected_revision_may_publish branch proposal revision

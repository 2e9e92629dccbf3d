-- ===== src/Collaboration/Proposals.antt =====
-- packages/collaboration/src/proposal-operations.ts and proposal-context.ts: submitting a proposal.
-- The proposal that the source mutates in place is the one at its id
-- in the state's map; it is passed along and stored again after each change.
pub mod Laws
mod Tests
use unifold.Prelude.{
  ℕ, ◌+◌, Bool, not, Option, none, some, List, [], ◌∷◌, if◌then◌else◌, ◌==◌, nat_eq, Text, text,
  text_eq, get, put, delete,
}
use unifold.Contracts.Json.{JsonObject, end, field, string, boolean}
use unifold.Collaboration.Types.{
  ActorContext, Approval, Branch, BranchPolicy, Comment, Conflict, ConflictKind, Diagnostic,
  ErrorCode, EventType, Proposal, ProposalStatus, Result, Revision, Status, revision_value,
  proposal_value,
}
use unifold.Collaboration.Requests.{Env, SubmitRequest, ApproveRequest, CommentRequest}
use unifold.Collaboration.Support.{
  accepted, conflict, diagnostic, invalid, not_found, review_required,
}
use unifold.Collaboration.Conflict.{collaboration_conflicts}
use unifold.Collaboration.Governance.{approval_diagnostic, has_required_approvals, approvers}
use unifold.Collaboration.Patch.{
  PatchResult, PatchSuccess, patched, refused, apply_collaboration_patch,
}
use unifold.Collaboration.State.{
  State, Candidate, Identity, Walked, missing, out_of_fuel, found, set_head, next_revision_identity,
  now, emit_event, commit, intervening,
}

abbrev pub Outcome : Type 0
Outcome = Result × State

abbrev pub put_proposal : Proposal → State → State
put_proposal proposal s = record s { proposals = put proposal.proposal_id proposal s.proposals }

base_not_ancestor : SubmitRequest → Text → Result
unfolding diagnostic
base_not_ancestor request current_revision = record {
  conflicts =
      record {
        base_revision = request.base_revision;
        current_path = text "/";
        current_revision = current_revision;
        kind = ConflictKind.base_not_ancestor;
        proposal_path = text "/";
      }
      ∷ [];
  diagnostics =
      diagnostic ErrorCode.base_not_ancestor (text "collaboration.base.notAncestor") none ∷ [];
  status = Status.conflict;
  value = none;
}

-- `branch.headRevision = …` on the branch at an id.
unfoldable pub move_head : Text → Text → State → State
move_head branch_id revision s = elim (get branch_id s.branches) [
  | none ↦ s
  | some branch ↦ record s { branches = put branch_id (set_head revision branch) s.branches }
]

unfoldable pub pending_candidate :
    SubmitRequest → ActorContext → Text → Identity → PatchSuccess → Candidate
pending_candidate request actor parent_revision identity applied = record {
  actor = actor;
  branch_id = request.branch_id;
  changed_paths = applied.changed_paths;
  correlation_id = request.correlation_id;
  document = applied.document;
  parent_revision = parent_revision;
  removed_paths = applied.removed_paths;
  revision = identity.revision;
  sequence = identity.sequence;
}

-- Only a proposal on a protected branch expires.
proposal_expiry : BranchPolicy → ℕ → Option ℕ
proposal_expiry policy created_at =
    if not policy.is_protected then none else some (created_at + policy.approval_ttl_ms)

mutable_proposal : SubmitRequest → ActorContext → Candidate → BranchPolicy → ℕ → Proposal
unfolding proposal_expiry
mutable_proposal request actor candidate policy created_at = record {
  approvals = [];
  author_id = actor.actor_id;
  base_revision = request.base_revision;
  branch_id = request.branch_id;
  candidate_revision = candidate.revision;
  comments = [];
  created_at = created_at;
  expires_at = proposal_expiry policy created_at;
  proposal_id = request.proposal_id;
  rebased = not (request.base_revision == candidate.parent_revision);
  status = ProposalStatus.pending;
}

unfoldable pub pair : Text → Text → Text → Text → JsonObject
pair k v j w = field k (string v) (field j (string w) end)

module _ (env : Env) where
  -- `commitProposal`
  unfoldable pub commit_proposal : Proposal → Candidate → State → Revision × State
  unfolding pair
  commit_proposal proposal candidate s =
      let (revision, s₁) = commit env candidate (some proposal.proposal_id) none s in
      let s₂ = move_head proposal.branch_id revision.revision s₁ in
      let s₃ = put_proposal (record proposal { status = ProposalStatus.committed }) s₂ in
      let s₄ : State = record s₃ { candidates = delete proposal.proposal_id s₃.candidates } in
      (
        revision,
        emit_event env EventType.revision_committed candidate.actor proposal.branch_id
            candidate.correlation_id
            (pair (text "proposalId") proposal.proposal_id (text "revision") revision.revision) s₄,
      )

  unfoldable pub accept_committed : Revision × State → Outcome
  accept_committed (revision, s) = (accepted (revision_value revision), s)

  -- The part of `recordProposal` that stores the proposal and its candidate.
  unfoldable pub keep_proposal :
      SubmitRequest → ActorContext → Candidate → BranchPolicy → State → Proposal × State
  unfolding mutable_proposal
  keep_proposal request actor candidate policy s =
      let (created_at, s₁) = now env s in
      let proposal = mutable_proposal request actor candidate policy created_at in
      let s₂ : State = record s₁ {
        candidates = put request.proposal_id candidate s₁.candidates;
        proposals = put request.proposal_id proposal s₁.proposals;
      } in
      (
        proposal,
        emit_event env EventType.proposal_created actor request.branch_id request.correlation_id
            (field (text "proposalId") (string request.proposal_id) (
              field (text "rebased") (boolean proposal.rebased)
                (field (text "revision") (string candidate.revision) end)))
            s₂,
      )

  unfoldable pub settle : Bool → Candidate → Proposal × State → Outcome
  unfolding accept_committed
  settle is_protected candidate (proposal, s) =
      if is_protected
      then (review_required (proposal_value proposal), s)
      else accept_committed (commit_proposal proposal candidate s)

  -- `recordProposal`, at the branch that it finds.
  unfoldable pub record_on_branch :
      SubmitRequest → ActorContext → Candidate → Branch → State → Outcome
  unfolding settle
  record_on_branch request actor candidate branch s =
      settle branch.policy.is_protected candidate
        (keep_proposal request actor candidate branch.policy s)

  unfoldable pub record_proposal : SubmitRequest → ActorContext → Candidate → State → Outcome
  unfolding record_on_branch
  record_proposal request actor candidate s = elim (get request.branch_id s.branches) [
    | none ↦ (not_found ErrorCode.branch_not_found, s)
    | some branch ↦ record_on_branch request actor candidate branch s
  ]

  unfoldable pub record_patched :
      SubmitRequest → ActorContext → Text → Identity → PatchResult → State → Outcome
  unfolding pending_candidate record_proposal
  record_patched request actor parent_revision identity (refused diagnostics) s = (
    record { conflicts = []; diagnostics = diagnostics; status = Status.invalid; value = none },
    s,
  )
  record_patched request actor parent_revision identity (patched applied) s =
      record_proposal request actor
        (pending_candidate request actor parent_revision identity applied) s

  unfoldable pub create_from :
      SubmitRequest → ActorContext → Text → Identity → Option Revision → State → Outcome
  unfolding record_patched
  create_from request actor parent_revision identity none s =
      (not_found ErrorCode.revision_not_found, s)
  create_from request actor parent_revision identity (some parent) s =
      record_patched request actor parent_revision identity
        (apply_collaboration_patch env parent.document request.operations identity.revision) s

  -- `createProposal`: the revision's number is taken before anything can fail.
  unfoldable pub create_proposal : SubmitRequest → ActorContext → Text → State → Outcome
  unfolding create_from
  create_proposal request actor parent_revision s =
      let (identity, s₁) = next_revision_identity s in
      create_from request actor parent_revision identity (get parent_revision s₁.revisions) s₁

  unfoldable pub submit_unless :
      SubmitRequest → ActorContext → Text → List Conflict → State → Outcome
  unfolding create_proposal
  submit_unless request actor head [] s = create_proposal request actor head s
  submit_unless request actor head (c ∷ cs) s =
      (record { conflicts = c ∷ cs; diagnostics = []; status = Status.conflict; value = none }, s)

  -- The rest of `submitProposal` at the revisions since the base.
  unfoldable pub submit_after : SubmitRequest → ActorContext → Text → Walked → State → Outcome
  unfolding submit_unless base_not_ancestor
  submit_after request actor head missing s = (base_not_ancestor request head, s)
  submit_after request actor head out_of_fuel s = (base_not_ancestor request head, s)
  submit_after request actor head (found revisions) s =
      submit_unless request actor head
        (collaboration_conflicts request.base_revision head request.operations revisions) s

  -- `submitProposal`, with `proposalContext`.
  unfoldable pub submit_proposal : SubmitRequest → ActorContext → State → Outcome
  unfolding submit_after
  submit_proposal request actor s = elim (get request.branch_id s.branches) [
    | none ↦ (not_found ErrorCode.branch_not_found, s)
    | some branch ↦ elim (get request.proposal_id s.proposals) [
      | some p ↦
          (invalid ErrorCode.invalid_request (text "collaboration.proposal.duplicate") none, s)
      | none ↦
          submit_after request actor branch.head_revision
            (intervening branch.head_revision request.base_revision s) s
    ]
  ]

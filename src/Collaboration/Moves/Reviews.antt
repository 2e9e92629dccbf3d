-- ===== src/Collaboration/Moves/Reviews.antt =====
-- The moves that approvals and comments make in the ledger.
use unifold.Prelude.{
  ◌≡◌, sym, subst, inl, inr, Option, none, some, arith, Bool-cases, Option-cases, ◌==◌, nat_eq,
  ==_iff, text_eq, get,
}
use unifold.Collaboration.Types.{ActorContext, Branch, Proposal, Diagnostic}
use unifold.Collaboration.Requests.{Env, ApproveRequest, CommentRequest}
use unifold.Collaboration.Governance.{has_required_approvals, approvers}
use unifold.Collaboration.State.{State, Candidate, now, emit_event}
use unifold.Collaboration.State.Ledger.{ledger, Moves, stay, go}
use unifold.Collaboration.Reviews.{
  record_approval, finish_with, finish_approved_proposal, after_approval, evaluate_approval,
  approve_proposal, comment_on_proposal, after_diagnostic,
}
use unifold.Collaboration.Moves.{Move-commit_proposal}

module _ (env : Env) where
  ledger-record_approval :
      (p : Proposal) (request : ApproveRequest) (actor : ActorContext) (s : State)
      → ledger (record_approval env p request actor s).1 ≡ ledger s
  unfolding record_approval emit_event
  ledger-record_approval p request actor s = ground arith

  finish_with-Moves :
      (p : Proposal) (b : Branch) (c : Candidate) (s : State)
      → get p.proposal_id s.candidates ≡ some c
      → get p.branch_id s.branches ≡ some b
      → Moves (ledger s) (ledger (finish_with env p b c s).1)
  unfolding finish_with
  finish_with-Moves p b c s kept at = elim (Bool-cases (b.head_revision == c.parent_revision)) [
    | inl e ↦ rw e (
        go stay (
          Move-commit_proposal env p c s b kept at
            (sym ((==_iff b.head_revision c.parent_revision).0 e))))
    | inr e ↦ rw e stay
  ]

  finish_approved_proposal-Moves :
      (p : Proposal) (s : State) → Moves (ledger s) (ledger (finish_approved_proposal env p s).1)
  unfolding finish_approved_proposal
  finish_approved_proposal-Moves p s = elim (Option-cases (get p.proposal_id s.candidates)) [
    | inl e ↦ rw (e, finish_approved_proposal) stay
    | inr (c, e) ↦ elim (Option-cases (get p.branch_id s.branches)) [
      | inl f ↦ rw (e, f, finish_approved_proposal) stay
      | inr (b, f) ↦ rw (e, f, finish_approved_proposal) (finish_with-Moves p b c s e f)
    ]
  ]

  after_approval-Moves :
      (b : Branch) (p : Proposal) (s : State)
      → Moves (ledger s) (ledger (after_approval env b (p, s)).1)
  unfolding after_approval
  after_approval-Moves b p s =
      elim (Bool-cases (has_required_approvals b (approvers p.approvals))) [
        | inl e ↦ rw e (finish_approved_proposal-Moves p s)
        | inr e ↦ rw e stay
      ]

  after_diagnostic-Moves :
      (d : Option Diagnostic) (request : ApproveRequest) (actor : ActorContext) (p : Proposal)
      (b : Branch) (s : State)
      → Moves (ledger s) (ledger (after_diagnostic env d request actor p b s).1)
  unfolding after_diagnostic
  after_diagnostic-Moves (some issue) request actor p b s = stay
  after_diagnostic-Moves none request actor p b s =
      let (p', s') = record_approval env p request actor s in
      subst (λ l. Moves l (ledger (after_approval env b (p', s')).1))
        (ledger-record_approval p request actor s) (after_approval-Moves b p' s')

  -- Approving commits a candidate at most.
  pub approve_proposal-Moves :
      (request : ApproveRequest) (actor : ActorContext) (s : State)
      → Moves (ledger s) (ledger (approve_proposal env request actor s).1)
  unfolding approve_proposal evaluate_approval now
  approve_proposal-Moves request actor s =
      elim (Option-cases (get request.proposal_id s.proposals)) [
        | inl e ↦ rw (e, approve_proposal) stay
        | inr (p, e) ↦ elim (Option-cases (get p.branch_id s.branches)) [
          | inl f ↦ rw (e, f, approve_proposal) stay
          | inr (b, f) ↦
              rw (e, f, approve_proposal) (after_diagnostic-Moves _ request actor p b (now env s).1)
        ]
      ]

  -- A comment changes nothing of the ledger.
  pub ledger-comment_on_proposal :
      (request : CommentRequest) (actor : ActorContext) (s : State)
      → ledger (comment_on_proposal env request actor s).1 ≡ ledger s
  unfolding comment_on_proposal emit_event
  ledger-comment_on_proposal request actor s = ground arith

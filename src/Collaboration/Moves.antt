-- ===== src/Collaboration/Moves.antt =====
-- The moves that submitting a proposal makes in the ledger, for
-- packages/collaboration/src/proposal-operations.ts.
mod Reviews
mod Revisions
pub mod Service
mod Tests
use unifold.Prelude.{
  ◌≡◌, refl, inl, inr, Bool, true, false, Option, none, some, List, [], ◌∷◌, arith, Option-cases,
  nat_eq, Text, text_eq, get, get-put_self,
}
use unifold.Collaboration.Types.{
  ActorContext, Branch, Revision, Proposal, ProposalStatus, EventType, Status, Conflict,
}
use unifold.Contracts.Json.{JsonObject}
use unifold.Collaboration.Requests.{Env, SubmitRequest}
use unifold.Collaboration.State.{
  State, Candidate, Walked, missing, out_of_fuel, found, set_head, next_revision_identity, now,
  emit_event, commit,
}
use unifold.Collaboration.State.Ledger.{
  Ledger, ledger, Commits, Follows, numbered, offered, advanced, withdrawn, repolicied, Move,
  number, offer, land, compensate, publish, Moves, stay, go,
}
use unifold.Collaboration.Proposals.{
  Outcome, commit_proposal, move_head, accept_committed, keep_proposal, settle, record_on_branch,
  record_proposal, record_patched, create_from, create_proposal, submit_unless, submit_after,
  submit_proposal, pending_candidate,
}
use unifold.Collaboration.Patch.{
  PatchResult, PatchSuccess, patched, refused, apply_collaboration_patch,
}

module _ (env : Env) where
  -- The revision that a commit of the candidate makes is the candidate.
  Commits-commit :
      (c : Candidate) (p q : Option Text) (s : State) → Commits c (commit env c p q s).0
  unfolding commit
  Commits-commit c p q s = record { name = refl; number = refl; parent = refl; document = refl }

  ledger-commit_proposal :
      (proposal : Proposal) (c : Candidate) (s : State) (b : Branch)
      → get proposal.branch_id s.branches ≡ some b
      → ledger (commit_proposal env proposal c s).1
        ≡ withdrawn proposal.proposal_id
            (advanced proposal.branch_id b (commit_proposal env proposal c s).0 (ledger s))
  unfolding commit_proposal move_head emit_event commit
  ledger-commit_proposal proposal c s b at = ground (arith)

  -- Committing a waiting candidate on top of the head is one move.
  pub Move-commit_proposal :
      (proposal : Proposal) (c : Candidate) (s : State) (b : Branch)
      → get proposal.proposal_id s.candidates ≡ some c
      → get proposal.branch_id s.branches ≡ some b
      → c.parent_revision ≡ b.head_revision
      → Move (ledger s) (ledger (commit_proposal env proposal c s).1)
  Move-commit_proposal proposal c s b kept at parent =
      rw (ledger-commit_proposal proposal c s b at) (
        land proposal.proposal_id proposal.branch_id b c (commit_proposal env proposal c s).0 kept
          at parent (unfold commit_proposal in Commits-commit c (some proposal.proposal_id) none s))

  settle-Moves :
      (l : Ledger) (is_protected : Bool) (c : Candidate) (proposal : Proposal) (s : State)
      (b : Branch)
      → Moves l (ledger s)
      → get proposal.proposal_id s.candidates ≡ some c
      → get proposal.branch_id s.branches ≡ some b
      → c.parent_revision ≡ b.head_revision
      → Moves l (ledger (settle env is_protected c (proposal, s)).1)
  unfolding settle
  settle-Moves l true c proposal s b ms kept at parent = ms
  settle-Moves l false c proposal s b ms kept at parent =
      go ms (Move-commit_proposal proposal c s b kept at parent)

  record_on_branch-Moves :
      (request : SubmitRequest) (actor : ActorContext) (c : Candidate) (b : Branch) (s : State)
      → get request.branch_id s.branches ≡ some b
      → Follows (ledger s) b c
      → Moves
          (ledger s)
          (ledger (record_on_branch env request actor c b (next_revision_identity s).1).1)
  unfolding record_on_branch
  record_on_branch-Moves request actor c b s at f =
      let kept = keep_proposal env request actor c b.policy (next_revision_identity s).1 in
      settle-Moves (ledger s) b.policy.is_protected c kept.0 kept.1 b
        (unfold keep_proposal next_revision_identity emit_event in
          go stay (offer request.proposal_id request.branch_id b c at f))
        (unfold keep_proposal next_revision_identity emit_event in
          get-put_self request.proposal_id c s.candidates)
        (unfold keep_proposal next_revision_identity emit_event in at) f.parent

  pending-Follows :
      (request : SubmitRequest) (actor : ActorContext) (b : Branch) (s : State)
      (applied : PatchSuccess)
      → Follows
          (ledger s)
          b
          (pending_candidate request actor b.head_revision (next_revision_identity s).0 applied)
  unfolding pending_candidate next_revision_identity
  pending-Follows request actor b s applied = record { number = refl; name = refl; parent = refl }

  record_patched-Moves :
      (request : SubmitRequest) (actor : ActorContext) (b : Branch) (s : State) (r : PatchResult)
      → get request.branch_id s.branches ≡ some b
      → Moves (ledger s) (
          ledger
            (record_patched env request actor b.head_revision
              (next_revision_identity s).0
              r
              (next_revision_identity s).1).1)
  unfolding record_patched
  record_patched-Moves request actor b s (refused d) at =
      unfold next_revision_identity in go stay number
  record_patched-Moves request actor b s (patched applied) at =
      let here : get request.branch_id (next_revision_identity s).1.branches ≡ some b =
        unfold next_revision_identity in at in
      rw (here, record_proposal)
        (record_on_branch-Moves request actor _ b s at (pending-Follows request actor b s applied))

  create_from-Moves :
      (request : SubmitRequest) (actor : ActorContext) (b : Branch) (s : State)
      (parent : Option Revision)
      → get request.branch_id s.branches ≡ some b
      → Moves (ledger s) (
          ledger
            (create_from env request actor b.head_revision
              (next_revision_identity s).0
              parent
              (next_revision_identity s).1).1)
  unfolding create_from
  create_from-Moves request actor b s none at = unfold next_revision_identity in go stay number
  create_from-Moves request actor b s (some parent) at = record_patched-Moves request actor b s _ at

  submit_unless-Moves :
      (request : SubmitRequest) (actor : ActorContext) (b : Branch) (cs : List Conflict) (s : State)
      → get request.branch_id s.branches ≡ some b
      → Moves (ledger s) (ledger (submit_unless env request actor b.head_revision cs s).1)
  unfolding submit_unless
  submit_unless-Moves request actor b [] s at = create_from-Moves request actor b s _ at
  submit_unless-Moves request actor b (c ∷ cs) s at = stay

  submit_after-Moves :
      (request : SubmitRequest) (actor : ActorContext) (b : Branch) (w : Walked) (s : State)
      → get request.branch_id s.branches ≡ some b
      → Moves (ledger s) (ledger (submit_after env request actor b.head_revision w s).1)
  unfolding submit_after
  submit_after-Moves request actor b missing s at = stay
  submit_after-Moves request actor b out_of_fuel s at = stay
  submit_after-Moves request actor b (found rs) s at = submit_unless-Moves request actor b _ s at

  -- Submitting a proposal numbers a revision at most, and may offer it and commit it.
  pub submit_proposal-Moves :
      (request : SubmitRequest) (actor : ActorContext) (s : State)
      → Moves (ledger s) (ledger (submit_proposal env request actor s).1)
  unfolding submit_proposal
  submit_proposal-Moves request actor s = elim (Option-cases (get request.branch_id s.branches)) [
    | inl e ↦ rw (e, submit_proposal) stay
    | inr (b, e) ↦ elim (Option-cases (get request.proposal_id s.proposals)) [
      | inl f ↦ rw (e, f, submit_proposal) (submit_after-Moves request actor b _ s e)
      | inr (p, f) ↦ rw (e, f, submit_proposal) stay
    ]
  ]

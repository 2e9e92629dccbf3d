-- ===== src/Collaboration/Reviews/Laws.antt =====
-- Approvals and the heads of branches, of packages/collaboration/src/proposal-operations.ts.
use unifold.Prelude.{
  ◌≤◌, ◌≡◌, refl, sym, ◌∙◌, subst, ◌≢◌, ◌⊎◌, inl, inr, Option, none, some, arith, leb, leb→le,
  Bool-cases, Option-cases, ◌==◌, nat_eq, ==_iff, ==_ne, length, Text, text_eq, get, get-put,
  unique,
}
use unifold.Collaboration.Types.{ActorContext, Branch, Diagnostic, Proposal}
use unifold.Collaboration.Requests.{Env, ApproveRequest}
use unifold.Collaboration.Governance.{approval_diagnostic, has_required_approvals, approvers}
use unifold.Collaboration.Governance.Laws.{MayApprove, approval_diagnostic-MayApprove}
use unifold.Collaboration.State.{State, Candidate, now, emit_event, commit}
use unifold.Collaboration.Proposals.{commit_proposal, move_head, accept_committed}
use unifold.Collaboration.Reviews.{
  record_approval, finish_with, finish_approved_proposal, after_approval, after_diagnostic,
  evaluate_approval, approve_proposal,
}

module _ (env : Env) (request : ApproveRequest) (actor : ActorContext) (id : Text)
    (b : Branch) where
  abbrev Unmoved : State → Type 0
  Unmoved s = get id s.branches ≡ some b

  Unmoved-commit :
      (p : Proposal) (c : Candidate) (s : State)
      → Unmoved s
      → p.branch_id ≢ id
      → Unmoved (commit_proposal env p c s).1
  unfolding commit_proposal move_head emit_event commit
  Unmoved-commit p c s at other = elim (Option-cases (get p.branch_id s.branches)) [
    | inl e ↦ rw (e, move_head) at
    | inr (d, e) ↦
        rw (e, move_head) (get-put p.branch_id id _ s.branches ∙ rw (==_ne p.branch_id id other) at)
  ]

  Unmoved-record_approval :
      (p : Proposal) (s : State) → Unmoved s → Unmoved (record_approval env p request actor s).1
  unfolding record_approval emit_event
  Unmoved-record_approval p s at = ground arith

  Unmoved-finish :
      (p : Proposal) (s : State)
      → Unmoved s
      → p.branch_id ≢ id
      → Unmoved (finish_approved_proposal env p s).1
  unfolding finish_approved_proposal finish_with accept_committed
  Unmoved-finish p s at other = elim (Option-cases (get p.proposal_id s.candidates)) [
    | inl e ↦ rw (e, finish_approved_proposal) at
    | inr (c, e) ↦ elim (Option-cases (get p.branch_id s.branches)) [
      | inl f ↦ rw (e, f, finish_approved_proposal) at
      | inr (d, f) ↦ elim (Bool-cases (d.head_revision == c.parent_revision)) [
        | inl t ↦ rw (e, f, finish_approved_proposal, t) (Unmoved-commit p c s at other)
        | inr g ↦ rw (e, f, finish_approved_proposal, g) at
      ]
    ]
  ]

  -- The policy's approvals are there.
  abbrev Enough : Proposal → Type 0
  Enough p = b.policy.required_approvals ≤ length (unique (approvers p.approvals))

  after_approval_lem :
      (d : Branch) (p : Proposal) (s : State)
      → Unmoved s
      → (p.branch_id ≡ id → d ≡ b)
      → Unmoved (after_approval env d (p, s)).1 ⊎ ((p.branch_id ≡ id) × Enough p)
  unfolding after_approval has_required_approvals
  after_approval_lem d p s at same = elim (Bool-cases (p.branch_id == id)) [
    | inl t ↦
        elim (Bool-cases
          (leb d.policy.required_approvals (length (unique (approvers p.approvals))))) [
            | inl enough ↦
                let here = (==_iff p.branch_id id).0 t in
                inr (
                  here,
                  subst
                      (λ (x : Branch).
                        x.policy.required_approvals ≤ length (unique (approvers p.approvals)))
                      (same here) (leb→le _ _ enough),
                )
            | inr few ↦ inl (rw few at)
          ]
    | inr f ↦
        inl
          (elim (Bool-cases
            (leb d.policy.required_approvals (length (unique (approvers p.approvals))))) [
              | inl enough ↦
                  rw enough (Unmoved-finish p s at (λ here. ground (arith, ==_iff p.branch_id id)))
              | inr few ↦ rw few at
            ])
  ]

  branch-record_approval :
      (p : Proposal) (s : State) → (record_approval env p request actor s).0.branch_id ≡ p.branch_id
  unfolding record_approval
  branch-record_approval p s = ground arith

  -- Why the branch may have moved.
  pub record IsApproved (s : State) (p : Proposal) : Type 0 where
    pub on_branch : p.branch_id ≡ id
    pub allowed : MayApprove b p actor.actor_id request.expected_revision (env.clock s.readings)
    pub enough : Enough (record_approval env p request actor (now env s).1).0

  after_diagnostic_lem :
      (d : Branch) (p : Proposal) (s : State) (o : Option Diagnostic)
      → Unmoved s
      → (p.branch_id ≡ id → d ≡ b)
      → approval_diagnostic d p actor request.expected_revision (env.clock s.readings) ≡ o
      → Unmoved (after_diagnostic env o request actor p d (now env s).1).1 ⊎ IsApproved s p
  unfolding after_diagnostic
  after_diagnostic_lem d p s (some issue) at same e = inl (unfold now in at)
  after_diagnostic_lem d p s none at same e =
      let (p', s') = record_approval env p request actor (now env s).1 in
      let still : Unmoved s' = Unmoved-record_approval p (now env s).1 (unfold now in at) in
      let branch = branch-record_approval p (now env s).1 in
      elim (after_approval_lem d p' s' still (λ h. same (sym branch ∙ h))) [
        | inl x ↦ inl x
        | inr (here, enough) ↦
            let on_branch = sym branch ∙ here in
            inr (record {
              on_branch = on_branch;
              allowed =
                  subst
                    (λ x.
                      MayApprove x p actor.actor_id request.expected_revision
                        (env.clock s.readings))
                    (same on_branch)
                    ((approval_diagnostic-MayApprove d p actor request.expected_revision
                        (env.clock s.readings)).0
                      e);
              enough = enough;
            })
      ]

  -- After an approval a branch is as it was, or the proposal is on it, the actor may approve it, and
  -- with this approval it has as many distinct approvers as the branch's policy asks for.
  pub approve_proposal-IsApproved :
      (s : State)
      → get id s.branches ≡ some b
      → (get id (approve_proposal env request actor s).1.branches ≡ some b)
        ⊎ ((p : Proposal) × (get request.proposal_id s.proposals ≡ some p) × IsApproved s p)
  unfolding approve_proposal evaluate_approval
  approve_proposal-IsApproved s at = elim (Option-cases (get request.proposal_id s.proposals)) [
    | inl e ↦ inl (rw (e, approve_proposal) at)
    | inr (p, e) ↦ elim (Option-cases (get p.branch_id s.branches)) [
      | inl f ↦ inl (rw (e, f, approve_proposal) at)
      | inr (d, f) ↦ elim (after_diagnostic_lem d p s _ at (λ here. same d p f here) refl) [
        | inl x ↦ inl (rw (e, f, approve_proposal) (unfold now in x))
        | inr y ↦ inr (p, e, y)
      ]
    ]
  ]
    where
      same :
          (d : Branch) (p : Proposal)
          → get p.branch_id s.branches ≡ some d
          → p.branch_id ≡ id
          → d ≡ b
      same d p f here = let x = subst (λ t. get t s.branches ≡ some d) here f in ground arith

-- ===== src/Collaboration/Proposals/Laws.antt =====
-- Submissions and protected branches, of packages/collaboration/src/proposal-operations.ts.
use unifold.Prelude.{
  ◌≡◌, ◌∙◌, subst, ◌≢◌, ◌⊎◌, inl, inr, Bool, true, false, Option, none, some, List, [], ◌∷◌, arith,
  Bool-cases, Option-cases, nat_eq, ==_ne, Text, text_eq, get, get-put,
}
use unifold.Collaboration.Types.{ActorContext, Branch, Conflict, Proposal, Revision}
use unifold.Collaboration.Requests.{Env, SubmitRequest}
use unifold.Collaboration.Patch.{PatchResult, patched, refused}
use unifold.Collaboration.State.{
  State, Candidate, Walked, missing, out_of_fuel, found, next_revision_identity, emit_event, commit,
}
use unifold.Collaboration.Proposals.{
  commit_proposal, keep_proposal, settle, record_on_branch, record_proposal, record_patched,
  create_from, submit_unless, submit_after, submit_proposal, move_head,
}

module _ (env : Env) (request : SubmitRequest) (actor : ActorContext) (id : Text) (b : Branch)
    (guarded : b.policy.is_protected ≡ true) where
  -- The branch is still as it was.
  abbrev Unmoved : State → Type 0
  Unmoved s = get id s.branches ≡ some b

  Unmoved-commit_proposal :
      (p : Proposal) (c : Candidate) (s : State)
      → Unmoved s
      → p.branch_id ≢ id
      → Unmoved (commit_proposal env p c s).1
  unfolding commit_proposal move_head emit_event commit
  Unmoved-commit_proposal p c s at other = elim (Option-cases (get p.branch_id s.branches)) [
    | inl e ↦ rw (e, move_head) at
    | inr (d, e) ↦
        rw (e, move_head) (get-put p.branch_id id _ s.branches ∙ rw (==_ne p.branch_id id other) at)
  ]

  Unmoved-settle :
      (is_protected : Bool) (p : Proposal) (c : Candidate) (s : State)
      → Unmoved s
      → (is_protected ≡ true) ⊎ (p.branch_id ≢ id)
      → Unmoved (settle env is_protected c (p, s)).1
  unfolding settle
  Unmoved-settle true p c s at h = at
  Unmoved-settle false p c s at (inl h) = cc
  Unmoved-settle false p c s at (inr other) = Unmoved-commit_proposal p c s at other

  -- The branch of the request is guarded, or is another one.
  guarded_or_other :
      (d : Branch) (s : State)
      → Unmoved s
      → get request.branch_id s.branches ≡ some d
      → (d.policy.is_protected ≡ true) ⊎ (request.branch_id ≢ id)
  guarded_or_other d s at e = elim (Bool-cases d.policy.is_protected) [
    | inl t ↦ inl t
    | inr f ↦ inr (λ same. let e' = subst (λ t. get t s.branches ≡ some d) same e in ground arith)
  ]

  Unmoved-record :
      (c : Candidate) (s : State) → Unmoved s → Unmoved (record_proposal env request actor c s).1
  unfolding record_proposal record_on_branch
  Unmoved-record c s at = elim (Option-cases (get request.branch_id s.branches)) [
    | inl e ↦ rw (e, record_proposal) at
    | inr (d, e) ↦
        let kept = keep_proposal env request actor c d.policy s in
        rw (e, record_proposal)
          (Unmoved-settle d.policy.is_protected kept.0 c kept.1
            (unfold keep_proposal emit_event in at)
            (unfold keep_proposal in guarded_or_other d s at e))
  ]

  Unmoved-patched :
      (head : Text) (r : PatchResult) (s : State)
      → Unmoved s
      → Unmoved
          (record_patched env request actor head
            (next_revision_identity s).0
            r
            (next_revision_identity s).1).1
  unfolding record_patched
  Unmoved-patched head (refused d) s at = unfold next_revision_identity in at
  Unmoved-patched head (patched applied) s at =
      Unmoved-record _ (next_revision_identity s).1 (unfold next_revision_identity in at)

  Unmoved-create :
      (head : Text) (o : Option Revision) (s : State)
      → Unmoved s
      → Unmoved
          (create_from env request actor head
            (next_revision_identity s).0
            o
            (next_revision_identity s).1).1
  unfolding create_from
  Unmoved-create head none s at = unfold next_revision_identity in at
  Unmoved-create head (some r) s at = Unmoved-patched head _ s at

  Unmoved-unless :
      (head : Text) (cs : List Conflict) (s : State)
      → Unmoved s
      → Unmoved (submit_unless env request actor head cs s).1
  unfolding submit_unless
  Unmoved-unless head [] s at = Unmoved-create head _ s at
  Unmoved-unless head (c ∷ cs) s at = at

  Unmoved-after :
      (head : Text) (w : Walked) (s : State)
      → Unmoved s
      → Unmoved (submit_after env request actor head w s).1
  unfolding submit_after
  Unmoved-after head missing s at = at
  Unmoved-after head out_of_fuel s at = at
  Unmoved-after head (found rs) s at = Unmoved-unless head _ s at

  -- A submission, whatever its branch and outcome, leaves every protected branch as it was.
  pub submit_proposal-Unmoved :
      (s : State)
      → get id s.branches ≡ some b
      → get id (submit_proposal env request actor s).1.branches ≡ some b
  unfolding submit_proposal
  submit_proposal-Unmoved s at = elim (Option-cases (get request.branch_id s.branches)) [
    | inl e ↦ rw (e, submit_proposal) at
    | inr (d, e) ↦ elim (Option-cases (get request.proposal_id s.proposals)) [
      | inl f ↦ rw (e, f, submit_proposal) (Unmoved-after d.head_revision _ s at)
      | inr (p, f) ↦ rw (e, f, submit_proposal) at
    ]
  ]

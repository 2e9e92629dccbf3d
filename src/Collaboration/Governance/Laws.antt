-- ===== src/Collaboration/Governance/Laws.antt =====
-- The conditions of packages/collaboration/src/governance.ts on approvals and publications.
use unifold.Prelude.{
  ℕ, ◌≤◌, ◌<◌, ◌≡◌, refl, ◌≢◌, ◌↔◌, ◌⊎◌, inl, inr, true, false, Option, none, some, List, [], ◌∷◌,
  arith, nat_same, Bool-cases, nat_eq, ==_iff, ==_ne, length, Text, text_eq, Member, has_iff,
  unique,
}
use unifold.Collaboration.Types.{ActorContext, Branch, Diagnostic, Proposal}
use unifold.Collaboration.Governance.{
  stale_approval, expired_at, expired_approval, reviewer_approval, separated_approval, first_issue,
  approval_diagnostic, approvers, revision_may_publish,
}

abbrev pub IsLive : Option ℕ → ℕ → Type 0
IsLive none now_ms = Unit {0}
IsLive (some expires_at) now_ms = now_ms < expires_at

-- The conditions under which an actor may approve a proposal.
pub record MayApprove (branch : Branch) (proposal : Proposal) (actor_id expected : Text)
    (now_ms : ℕ) : Type 0 where
  pub current : expected ≡ proposal.candidate_revision
  pub live : IsLive proposal.expires_at now_ms
  pub assigned : (branch.policy.reviewer_ids ≡ []) ⊎ Member actor_id branch.policy.reviewer_ids
  pub separate :
      (branch.policy.separate_author_and_reviewer ≡ false) ⊎ (proposal.author_id ≢ actor_id)

stale_iff :
    (p : Proposal) (expected : Text)
    → (stale_approval p expected ≡ none) ↔ (expected ≡ p.candidate_revision)
unfolding stale_approval
stale_iff p expected = (
  λ h. ground (arith, ==_iff expected p.candidate_revision),
  λ h. ground (arith, ==_iff expected p.candidate_revision),
)

expired_iff : (o : Option ℕ) (now_ms : ℕ) → (expired_at o now_ms ≡ none) ↔ IsLive o now_ms
unfolding expired_at
expired_iff none now_ms = (λ h. tt, λ h. refl)
expired_iff (some t) now_ms = (λ h. ground arith, λ h. ground arith)

length-eq_zero : (xs : List Text) → (nat_same (length xs) 0 ≡ true) ↔ (xs ≡ [])
length-eq_zero [] = (λ h. refl, λ h. refl)
length-eq_zero (x ∷ xs) = (λ h. ground arith, λ h. cc)

reviewer_iff :
    (b : Branch) (id : Text)
    → (reviewer_approval b id ≡ none)
      ↔ ((b.policy.reviewer_ids ≡ []) ⊎ Member id b.policy.reviewer_ids)
unfolding reviewer_approval
reviewer_iff b id = (
  λ h. elim (Bool-cases (nat_same (length b.policy.reviewer_ids) 0)) [
    | inl t ↦ inl ((length-eq_zero b.policy.reviewer_ids).0 t)
    | inr f ↦ inr ((has_iff id b.policy.reviewer_ids).0 (ground arith))
  ],
  λ h. elim h [
    | inl e ↦ ground (arith, (length-eq_zero b.policy.reviewer_ids).1 e)
    | inr m ↦ ground (arith, (has_iff id b.policy.reviewer_ids).1 m)
  ],
)

separated_iff :
    (b : Branch) (p : Proposal) (id : Text)
    → (separated_approval b p id ≡ none)
      ↔ ((b.policy.separate_author_and_reviewer ≡ false) ⊎ (p.author_id ≢ id))
unfolding separated_approval
separated_iff b p id = (
  λ h. elim (Bool-cases b.policy.separate_author_and_reviewer) [
    | inl on ↦ inr (λ same. ground (arith, ==_iff p.author_id id))
    | inr off ↦ inl off
  ],
  λ h. elim h [
    | inl off ↦ ground arith
    | inr differs ↦ ground (arith, ==_ne p.author_id id differs)
  ],
)

first_issue_iff :
    (a b c d : Option Diagnostic)
    → (first_issue (a ∷ b ∷ c ∷ d ∷ []) ≡ none)
      ↔ ((a ≡ none) × (b ≡ none) × (c ≡ none) × (d ≡ none))
unfolding first_issue
first_issue_iff a b c d = (λ h. ground arith, λ h. ground arith)

-- No issue is found exactly when the candidate is the expected one, the approval has not expired,
-- the actor is assigned or nobody is, and a separation of duties does not forbid the author.
pub approval_diagnostic-MayApprove :
    (branch : Branch) (proposal : Proposal) (actor : ActorContext) (expected : Text) (now_ms : ℕ)
    → (approval_diagnostic branch proposal actor expected now_ms ≡ none)
      ↔ MayApprove branch proposal actor.actor_id expected now_ms
unfolding approval_diagnostic expired_approval
approval_diagnostic-MayApprove branch proposal actor expected now_ms =
    let stale = stale_iff proposal expected in
    let expired = expired_iff proposal.expires_at now_ms in
    let assigned = reviewer_iff branch actor.actor_id in
    let separate = separated_iff branch proposal actor.actor_id in
    let all_four =
      first_issue_iff (stale_approval proposal expected) (expired_approval proposal now_ms)
        (reviewer_approval branch actor.actor_id)
        (separated_approval branch proposal actor.actor_id) in
    (
      λ h.
          let (a, b, c, d) = all_four.0 h in
          record {
            current = stale.0 a;
            live = expired.0 b;
            assigned = assigned.0 c;
            separate = separate.0 d;
          },
      λ m.
          all_four.1
            (stale.1 m.current, expired.1 m.live, assigned.1 m.assigned, separate.1 m.separate),
    )

-- What publishing asks for.
abbrev pub MayPublish : Branch → Option Proposal → Text → Type 0
MayPublish branch none revision =
    (branch.head_revision ≡ revision) × (branch.policy.is_protected ≡ false)
MayPublish branch (some proposal) revision =
    (branch.head_revision ≡ revision)
    × ((branch.policy.is_protected ≡ false)
        ⊎ ((proposal.candidate_revision ≡ revision)
            × (branch.policy.required_approvals ≤ length (unique (approvers proposal.approvals)))))

-- A revision may be published on a protected branch exactly when it is the head and the candidate of
-- a proposal with enough distinct approvers, and on any other branch exactly when it is the head.
pub revision_may_publish-MayPublish :
    (branch : Branch) (proposal : Option Proposal) (revision : Text)
    → (revision_may_publish branch proposal revision ≡ true) ↔ MayPublish branch proposal revision
unfolding revision_may_publish
revision_may_publish-MayPublish branch none revision = (
  λ h. ground (arith, ==_iff branch.head_revision revision),
  λ h. ground (arith, ==_iff branch.head_revision revision),
)
revision_may_publish-MayPublish branch (some p) revision = (
  λ h. ground (arith, ==_iff branch.head_revision revision, ==_iff p.candidate_revision revision),
  λ h. ground (arith, ==_iff branch.head_revision revision, ==_iff p.candidate_revision revision),
)

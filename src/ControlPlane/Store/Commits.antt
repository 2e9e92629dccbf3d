-- ===== src/ControlPlane/Store/Commits.antt =====
-- The commits of packages/control-plane/src/reference-store.ts and the revisions they expect.
use unifold.Prelude.{
  ℕ, ◌<◌, ◌≡◌, refl, sym, ap, ◌∙◌, subst, ◌≢◌, ◌↔◌, inl, inr, true, false, Option, none, some, [],
  ◌∷◌, arith, Bool-cases, nat_eq, ==_iff, length, Text, text_eq, get, put, get-put_self, print,
  print-injective,
}
use unifold.ControlPlane.Types.{
  OperationStatus, AuditOutcome, ControlPlaneResult, failure, CommitCommand, DocumentRevision,
}
use unifold.ControlPlane.Store.{
  Store, TenantState, state_of, set_state, record_audit, commit_audit, matches_expected_revision,
  quota_exceeded, revision_name, revision_record, committed, commit_on, commit_document, publish,
  current_revision, same_option,
}
use unifold.ControlPlane.Store.Tenants.{tenant, state_of-tenant, Changes-here, Changes-record_audit}
use unifold.ControlPlane.Store.Turns.{Changes-set_read, max_read}
use unifold.ControlPlane.Store.Valid.{IsValid}

-- The document that a commit finds.
abbrev pub found : CommitCommand → Store → Option DocumentRevision
found command s = get command.object_id (tenant command.tenant_id s).documents

abbrev pub made : CommitCommand → Store → DocumentRevision
made command s =
    revision_record command (revision_name (tenant command.tenant_id s).next_revision)
      (current_revision (found command s))

same_option_iff : (a b : Option Text) → (same_option a b ≡ true) ↔ (a ≡ b)
unfolding same_option
same_option_iff none none = (λ h. refl, λ h. refl)
same_option_iff none (some b) = (λ h. cc, λ h. cc)
same_option_iff (some a) none = (λ h. cc, λ h. cc)
same_option_iff (some a) (some b) =
    (λ h. ap some ((==_iff a b).0 h), λ h. (==_iff a b).1 (some-injective h))
  where
    some-injective : some a ≡ some b → a ≡ b
    some-injective h = cc

matches_iff :
    (current : Option DocumentRevision) (expected : Option Text)
    → (matches_expected_revision current expected ≡ true) ↔ (current_revision current ≡ expected)
unfolding matches_expected_revision
matches_iff current expected = same_option_iff (current_revision current) expected

-- The document is there already, or there is room for one more.
abbrev pub HasRoom : Option DocumentRevision → ℕ → ℕ → Type 0
HasRoom (some current) count maximum = Unit {0}
HasRoom none count maximum = count < maximum

room_iff :
    (current : Option DocumentRevision) (count maximum : ℕ)
    → (quota_exceeded current count maximum ≡ false) ↔ HasRoom current count maximum
unfolding quota_exceeded
room_iff none count maximum = (λ h. ground arith, λ h. ground arith)
room_iff (some current) count maximum = (λ h. tt, λ h. refl)

module _ (command : CommitCommand) (s : Store) where
  abbrev answer : TenantState → ControlPlaneResult DocumentRevision × Store
  answer state = commit_on command state (state_of command.tenant_id s).1

  read_lem : commit_document command s ≡ answer (tenant command.tenant_id s)
  unfolding commit_document
  read_lem = ap answer (state_of-tenant command.tenant_id s)

  -- What an accepted commit leaves.
  abbrev kept : Store
  kept =
      record_audit (commit_audit command AuditOutcome.succeeded (some (made command s).revision)) (
        set_state command.tenant_id
          (committed command (made command s) (tenant command.tenant_id s))
          (state_of command.tenant_id s).1)

  pub record CanCommit : Type 0 where
    pub expected : current_revision (found command s) ≡ command.expected_revision
    pub room :
        HasRoom (found command s) (length (tenant command.tenant_id s).documents) s.max_documents

  can_lem :
      CanCommit
      → answer (tenant command.tenant_id s) ≡ (
        record { error = none; status = OperationStatus.succeeded; value = some (made command s) },
        kept,
      )
  unfolding commit_on
  can_lem c =
      let e = (matches_iff (found command s) command.expected_revision).1 c.expected in
      let q =
        (room_iff (found command s) (length (tenant command.tenant_id s).documents)
            s.max_documents).1
          c.room in
      rw (e, max_read command.tenant_id s, q) refl

  -- A commit that is refused reports no success.
  refused_lem :
      (answer (tenant command.tenant_id s)).0.status ≡ OperationStatus.succeeded → CanCommit
  unfolding commit_on failure
  refused_lem h =
      elim (Bool-cases (matches_expected_revision (found command s) command.expected_revision)) [
        | inr f ↦ let bad = rw f at h in cc
        | inl t ↦
            elim (Bool-cases (
              quota_exceeded (found command s) (length (tenant command.tenant_id s).documents)
                (state_of command.tenant_id s).1.max_documents)) [
                  | inl q ↦ let bad = rw (t, q) at h in cc
                  | inr r ↦ record {
                    expected = (matches_iff (found command s) command.expected_revision).0 t;
                    room =
                        (room_iff (found command s) (length (tenant command.tenant_id s).documents)
                            s.max_documents).0
                          (rw (max_read command.tenant_id s) at r);
                  }
                ]
      ]

  -- A commit succeeds exactly when the revision that it expects is the current one, or none is there
  -- and none is expected, and a new document is within the tenant's limit.
  pub commit_document-CanCommit :
      ((commit_document command s).0.status ≡ OperationStatus.succeeded) ↔ CanCommit
  commit_document-CanCommit = (
    λ h. refused_lem (
        subst
          (λ (r : ControlPlaneResult DocumentRevision × Store).
            r.0.status ≡ OperationStatus.succeeded)
          read_lem h),
    λ c.
        ap (λ (r : ControlPlaneResult DocumentRevision × Store). r.0.status) (read_lem ∙ can_lem c),
  )

  kept_documents :
      (tenant command.tenant_id kept).documents
      ≡ put command.object_id (made command s) (tenant command.tenant_id s).documents
  unfolding commit_audit committed publish
  kept_documents =
      let x = committed command (made command s) (tenant command.tenant_id s) in
      let s₁ = set_state command.tenant_id x (state_of command.tenant_id s).1 in
      let entry = commit_audit command AuditOutcome.succeeded (some (made command s).revision) in
      let here =
        Changes-here command.tenant_id _ s₁ (record_audit entry s₁)
          (Changes-record_audit entry s₁) in
      let there = Changes-here command.tenant_id x s s₁ (Changes-set_read command.tenant_id x s) in
      ap (λ (y : TenantState). y.documents) here ∙ ap (λ (y : TenantState). y.documents) there

  pub after_commit :
      CanCommit
      → (tenant command.tenant_id (commit_document command s).1).documents
        ≡ put command.object_id (made command s) (tenant command.tenant_id s).documents
  after_commit c =
      ap
        (λ (r : ControlPlaneResult DocumentRevision × Store).
          (tenant command.tenant_id r.1).documents)
        (read_lem ∙ can_lem c)
      ∙ kept_documents

-- A number's name without the common prefix.
unprefixed : Text → Text
unprefixed (a ∷ b ∷ c ∷ d ∷ e ∷ f ∷ g ∷ h ∷ i ∷ rest) = rest
unprefixed _ = []

drop_lem : (m n : ℕ) → revision_name m ≡ revision_name n → print m ≡ print n
unfolding revision_name unprefixed
drop_lem m n e = ap unprefixed e

-- The revision that a commit makes is not the one that it replaced.
fresh_lem :
    (o : Option DocumentRevision) (n : ℕ) (expected : Option Text)
    → ((r : DocumentRevision) → o ≡ some r → (k : ℕ) × (r.revision ≡ revision_name k) × (k < n))
    → current_revision o ≡ expected
    → some (revision_name n) ≢ expected
unfolding current_revision revision_name
fresh_lem none n expected named e h = cc
fresh_lem (some r) n expected named e h =
    let (k, name, below) = named r refl in
    let same : revision_name n ≡ revision_name k = some-injective (h ∙ sym e) ∙ name in
    absurd (omega (arith, print-injective n k (drop_lem n k same)))
  where
    some-injective : some (revision_name n) ≡ some r.revision → revision_name n ≡ r.revision
    some-injective q = cc

-- Of two commits of a document that expect the same revision only one succeeds: after the first has
-- succeeded on a valid store, the second one fails, whatever it holds.
pub commit_document-commit_document :
    (first second : CommitCommand) (s : Store)
    → IsValid s
    → second.tenant_id ≡ first.tenant_id
    → second.object_id ≡ first.object_id
    → second.expected_revision ≡ first.expected_revision
    → (commit_document first s).0.status ≡ OperationStatus.succeeded
    → (commit_document second (commit_document first s).1).0.status ≢ OperationStatus.succeeded
unfolding revision_record current_revision
commit_document-commit_document first second s v t o e ok again =
    let c = (commit_document-CanCommit first s).0 ok in
    let d = (commit_document-CanCommit second (commit_document first s).1).0 again in
    let state = tenant first.tenant_id s in
    let now : found second (commit_document first s).1 ≡ some (made first s) =
      ap (λ u. get second.object_id (tenant u (commit_document first s).1).documents) t
      ∙ ap (λ i. get i (tenant first.tenant_id (commit_document first s).1).documents) o
      ∙ ap (λ m. get first.object_id m) (after_commit first s c)
      ∙ get-put_self first.object_id (made first s) state.documents in
    fresh_lem (found first s) state.next_revision first.expected_revision
      (λ r at. (v.documents first.tenant_id).named first.object_id r at) c.expected
      (ap current_revision (sym now) ∙ d.expected ∙ e)

-- ===== src/ControlPlane/Store/Turns.antt =====
-- What a call of packages/control-plane/src/reference-store.ts does to its tenant's documents.
use unifold.Prelude.{
  ℕ, suc, ◌≤◌, ◌<◌, ◌≡◌, refl, sym, ap, ◌∙◌, subst, inl, inr, false, none, some, [], ◌∷◌, arith,
  leb, Bool-cases, Option-cases, nat_eq, length, Text, text_eq, Map, get, put, get-put_cases,
}
use unifold.ControlPlane.Types.{AuditEntry, CommitCommand, AuditOutcome, DocumentRevision}
use unifold.ControlPlane.Store.{
  Store, TenantState, state_of, set_state, record_audit, commit_audit, matches_expected_revision,
  quota_exceeded, revision_name, revision_record, committed, commit_on, commit_document,
  read_document, publish, current_revision,
}
use unifold.ControlPlane.Store.Tenants.{
  tenant, audited, Changes, state_of-tenant, Changes-set_state, Changes-state_of, Changes-trans,
  Changes-here, Changes-record_audit,
}

-- At most `max` documents, and each revision is named by a number below `n`.
pub record IsBounded (n max : ℕ) (documents : Map Text DocumentRevision) : Type 0 where
  pub small : length documents ≤ max
  pub named :
      (id : Text) (r : DocumentRevision)
      → get id documents ≡ some r
      → (k : ℕ) × (r.revision ≡ revision_name k) × (k < n)

length-put_fresh :
    (k : Text) (r : DocumentRevision) (m : Map Text DocumentRevision)
    → get k m ≡ none
    → length (put k r m) ≡ suc (length m)
unfolding get put
length-put_fresh k r [] e = refl
length-put_fresh k r ((j, x) ∷ m) e = ground (arith, length-put_fresh k r m)

length-put_same :
    (k : Text) (r q : DocumentRevision) (m : Map Text DocumentRevision)
    → get k m ≡ some q
    → length (put k r m) ≡ length m
unfolding get put
length-put_same k r q [] e = cc
length-put_same k r q ((j, x) ∷ m) e = ground (arith, length-put_same k r q m)

IsBounded-put :
    (n max : ℕ) (k : Text) (r : DocumentRevision) (m : Map Text DocumentRevision)
    → quota_exceeded (get k m) (length m) max ≡ false
    → r.revision ≡ revision_name n
    → IsBounded n max m
    → IsBounded (suc n) max (put k r m)
unfolding quota_exceeded
IsBounded-put n max k r m room e b = record {
  small = elim (Option-cases (get k m)) [
    | inl free ↦
        let fits : leb max (length m) ≡ false = rw (free, quota_exceeded) at room in
        ground (arith, length-put_fresh k r m free)
    | inr (q, at) ↦ omega (arith, length-put_same k r q m at, b.small)
  ];
  named = λ id q found. elim (get-put_cases k id r q m found) [
    | inl (same, val) ↦ (n, ap (λ (x : DocumentRevision). x.revision) (sym val) ∙ e, omega arith)
    | inr (other, at) ↦ let (j, name, below) = b.named id q at in (j, name, omega arith)
  ];
}

-- One call for the tenant `t`: no other tenant's state changes, the counter of revisions does not fall,
-- and the documents stay bounded.
pub record Turn (t : Text) (s s' : Store) : Type 0 where
  pub after : TenantState
  pub changes : Changes t after s s'
  pub later : (tenant t s).next_revision ≤ after.next_revision
  pub sound :
      IsBounded (tenant t s).next_revision s.max_documents (tenant t s).documents
      → IsBounded after.next_revision s.max_documents after.documents

-- A call that gives the tenant a state with the documents and the counter that it had.
pub Turn-quiet :
    (t : Text) (x : TenantState) (s s' : Store)
    → Changes t x s s'
    → x.documents ≡ (tenant t s).documents
    → x.next_revision ≡ (tenant t s).next_revision
    → Turn t s s'
Turn-quiet t x s s' c d n = record {
  after = x;
  changes = c;
  later = omega (arith, n);
  sound = λ b. rw (d, n) b;
}

pub Turn-record_audit :
    (entry : AuditEntry) (s s' : Store)
    → Turn entry.tenant_id s s'
    → Turn entry.tenant_id s (record_audit entry s')
Turn-record_audit entry s s' turn =
    let x = tenant entry.tenant_id s' in
    let here : x ≡ turn.after = Changes-here entry.tenant_id turn.after s s' turn.changes in
    record {
      after = audited entry turn.after;
      changes =
          Changes-trans entry.tenant_id turn.after (audited entry turn.after) s s'
            (record_audit entry s') turn.changes
            (subst
              (λ (y : TenantState).
                Changes entry.tenant_id (audited entry y) s' (record_audit entry s'))
              here (Changes-record_audit entry s'));
      later = turn.later;
      sound = turn.sound;
    }

pub Turn-state_of : (t : Text) (s : Store) → Turn t s (state_of t s).1
Turn-state_of t s = Turn-quiet t (tenant t s) s _ (Changes-state_of t s) refl refl

-- The state that the call read is replaced.
pub Changes-set_read :
    (t : Text) (x : TenantState) (s : Store) → Changes t x s (set_state t x (state_of t s).1)
Changes-set_read t x s =
    Changes-trans t (tenant t s) x s (state_of t s).1 _ (Changes-state_of t s)
      (Changes-set_state t x (state_of t s).1)

-- The read state is the tenant's, and the limit is the store's.
pub max_read : (t : Text) (s : Store) → (state_of t s).1.max_documents ≡ s.max_documents
max_read t s = (Changes-state_of t s).maximum

commit-Turn :
    (command : CommitCommand) (s : Store)
    → (let current = get command.object_id (tenant command.tenant_id s).documents in
        quota_exceeded current (length (tenant command.tenant_id s).documents) s.max_documents
        ≡ false)
    → (let current = get command.object_id (tenant command.tenant_id s).documents in
        let r =
          revision_record command
            (revision_name (tenant command.tenant_id s).next_revision)
            (current_revision current) in
        Turn command.tenant_id s (
          set_state command.tenant_id
            (committed command r (tenant command.tenant_id s))
            (state_of command.tenant_id s).1))
unfolding committed publish revision_record
commit-Turn command s room =
    let state = tenant command.tenant_id s in
    let current = get command.object_id state.documents in
    let r =
      revision_record command (revision_name state.next_revision) (current_revision current) in
    record {
      after = committed command r state;
      changes = Changes-set_read command.tenant_id (committed command r state) s;
      later = omega arith;
      sound = λ b.
          IsBounded-put state.next_revision s.max_documents command.object_id r state.documents room
            refl b;
    }

-- A commit at the state that it reads.
commit_on-Turn :
    (command : CommitCommand) (s : Store)
    → Turn command.tenant_id s
        (commit_on command (tenant command.tenant_id s) (state_of command.tenant_id s).1).1
unfolding commit_on commit_audit revision_record
commit_on-Turn command s =
    let state = tenant command.tenant_id s in
    let current = get command.object_id state.documents in
    let s₁ = (state_of command.tenant_id s).1 in
    elim (Bool-cases (matches_expected_revision current command.expected_revision)) [
      | inr f ↦ rw f (
          Turn-record_audit (commit_audit command AuditOutcome.failed none) s s₁
            (Turn-state_of command.tenant_id s))
      | inl t ↦
          elim (Bool-cases (quota_exceeded current (length state.documents) s₁.max_documents)) [
            | inl q ↦
                rw (t, q)
                  (Turn-record_audit (commit_audit command AuditOutcome.denied none) s s₁
                    (Turn-state_of command.tenant_id s))
            | inr r ↦
                rw (t, r)
                  (Turn-record_audit
                    (commit_audit command AuditOutcome.succeeded
                      (some (revision_name state.next_revision)))
                    s _ (commit-Turn command s (rw (max_read command.tenant_id s) at r)))
          ]
    ]

pub commit_document-Turn :
    (command : CommitCommand) (s : Store) → Turn command.tenant_id s (commit_document command s).1
unfolding commit_document
commit_document-Turn command s =
    subst
      (λ (x : TenantState).
        Turn command.tenant_id s (commit_on command x (state_of command.tenant_id s).1).1)
      (sym (state_of-tenant command.tenant_id s)) (commit_on-Turn command s)

pub read_document-Turn : (t id : Text) (s : Store) → Turn t s (read_document t id s).1
unfolding read_document
read_document-Turn t id s = Turn-state_of t s

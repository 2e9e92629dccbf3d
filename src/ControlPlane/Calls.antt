-- ===== src/ControlPlane/Calls.antt =====
-- The calls of the store of packages/control-plane/src/reference-store.ts, one after the other. The two
-- steps of `createBackup` are two calls, so that others may come between them.
use unifold.Prelude.{
  ◌≢◌, ℕ, ◌≡◌, refl, sym, ◌∙◌, subst, inl, inr, List, [], ◌∷◌, Option-cases, nat_eq, any, Text,
  text_eq, put, get-put_cases, has,
}
use unifold.ControlPlane.Types.{
  AuditEntry, AuditAction, CommitCommand, EffectLeaseCommand, FailEffectCommand,
  CompleteEffectCommand, RecoveryCommand, DocumentRevision,
}
use unifold.ControlPlane.Outbox.{LeaseCommand, AcknowledgeCommand, ReleaseCommand}
use unifold.ControlPlane.Store.{
  Store, StoreOptions, TenantState, TenantBackup, state_of, record_audit, recovery_audit,
  commit_document, read_document, new_store,
}
use unifold.ControlPlane.Store.Tenants.{
  tenant, tenant-fields, state_of-tenant, Changes-here, Changes-state_of,
}
use unifold.ControlPlane.Store.Turns.{
  IsBounded, Turn, commit_document-Turn, read_document-Turn, Turn-state_of,
}
use unifold.ControlPlane.Store.Valid.{
  IsValid, Turn-IsValid, record_audit-Turn, Away, Turn-Away, new_store-IsValid,
}
use unifold.ControlPlane.Effects.{begin_effect, complete_effect, fail_effect}
use unifold.ControlPlane.Effects.Turns.{begin_effect-Turn, complete_effect-Turn, fail_effect-Turn}
use unifold.ControlPlane.Delivery.{
  lease_outbox, acknowledge_outbox, release_outbox, resume_realtime,
}
use unifold.ControlPlane.Delivery.Turns.{
  lease_outbox-Turn, acknowledge_outbox-Turn, release_outbox-Turn, resume_realtime-Turn,
}
use unifold.ControlPlane.Recovery.{
  Ports, Started, begin_backup, keep_backup, finish_backup, restore_backup,
}
use unifold.ControlPlane.Recovery.Turns.{begin_backup-Turn, restore_backup-Turn}
mod Tests

pub data Call (ports : Ports) : Type 0 where
  audit_call : AuditEntry → Call ports
  begin_call : EffectLeaseCommand → Call ports
  commit_call : CommitCommand → Call ports
  complete_call : CompleteEffectCommand → Call ports
  fail_call : FailEffectCommand → Call ports
  read_call : Text → Text → Call ports
  resume_call : Text → ℕ → Call ports
  lease_call : LeaseCommand → Call ports
  acknowledge_call : AcknowledgeCommand → Call ports
  release_call : ReleaseCommand → Call ports
  start_backup_call : RecoveryCommand → Call ports
  end_backup_call : RecoveryCommand → Started ports → Call ports
  restore_call : RecoveryCommand → Text → Call ports

module _ (ports : Ports) where
  -- The tenant that a call names.
  abbrev pub tenant_of : Call ports → Text
  tenant_of (audit_call e) = e.tenant_id
  tenant_of (begin_call c) = c.tenant_id
  tenant_of (commit_call c) = c.tenant_id
  tenant_of (complete_call c) = c.base.tenant_id
  tenant_of (fail_call c) = c.tenant_id
  tenant_of (read_call t id) = t
  tenant_of (resume_call t n) = t
  tenant_of (lease_call c) = c.tenant_id
  tenant_of (acknowledge_call c) = c.tenant_id
  tenant_of (release_call c) = c.tenant_id
  tenant_of (start_backup_call c) = c.tenant_id
  tenant_of (end_backup_call c b) = c.tenant_id
  tenant_of (restore_call c id) = c.tenant_id

  abbrev pub run : Call ports → Store → Store
  run (audit_call e) s = record_audit e s
  run (begin_call c) s = (begin_effect c s).1
  run (commit_call c) s = (commit_document c s).1
  run (complete_call c) s = (complete_effect c s).1
  run (fail_call c) s = (fail_effect c s).1
  run (read_call t id) s = (read_document t id s).1
  run (resume_call t n) s = (resume_realtime t n s).1
  run (lease_call c) s = (lease_outbox c s).1
  run (acknowledge_call c) s = (acknowledge_outbox c s).1
  run (release_call c) s = (release_outbox c s).1
  run (start_backup_call c) s = (begin_backup ports c s).1
  run (end_backup_call c b) s = (finish_backup ports c b s).1
  run (restore_call c id) s = (restore_backup ports c id s).1

  Turn-IsValid-Away : (t : Text) (s s' : Store) → IsValid s → Turn t s s' → IsValid s' × Away t s s'
  Turn-IsValid-Away t s s' v turn = (Turn-IsValid t s s' v turn, Turn-Away t s s' turn)

  keep_lem :
      (t id : Text) (b : TenantBackup) (s : Store)
      → IsValid s
      → IsBounded (tenant b.tenant_id s).next_revision s.max_documents b.documents
      → IsValid (keep_backup ports id b s) × Away t s (keep_backup ports id b s)
  unfolding keep_backup
  keep_lem t id b s v bounded =
      let s' : Store = record s { backups = put id b s.backups } in
      let same : (u : Text) → tenant u s' ≡ tenant u s = λ u. tenant-fields s s' u refl refl in
      (
        record {
          documents = λ u.
              subst (λ (x : TenantState). IsBounded x.next_revision s.max_documents x.documents)
                (sym (same u)) (v.documents u);
          backups = λ j c e.
              subst (λ (x : TenantState). IsBounded x.next_revision s.max_documents c.documents)
                (sym (same c.tenant_id))
                (elim (get-put_cases id j b c s.backups e) [
                  | inl (here, val) ↦
                      subst
                        (λ (x : TenantBackup).
                          IsBounded (tenant x.tenant_id s).next_revision s.max_documents
                            x.documents)
                        val bounded
                  | inr (there, at) ↦ v.backups j c at
                ]);
        },
        λ u h. same u,
      )

  read-IsBounded :
      (t : Text) (s : Store)
      → IsValid s
      → IsBounded
          (tenant t (state_of t s).1).next_revision
          (state_of t s).1.max_documents
          (state_of t s).0.documents
  read-IsBounded t s v =
      let here = Changes-here t (tenant t s) s (state_of t s).1 (Changes-state_of t s) in
      rw (state_of-tenant t s, here, (Changes-state_of t s).maximum) (v.documents t)

  end_lem :
      (c : RecoveryCommand) (b : Started ports) (s : Store)
      → IsValid s
      → IsValid (finish_backup ports c b s).1 × Away c.tenant_id s (finish_backup ports c b s).1
  unfolding finish_backup recovery_audit
  end_lem c b s v = elim (Option-cases b.digest) [
    | inl e ↦ rw (e, finish_backup) (v, λ u h. refl)
    | inr (digest, e) ↦
        let t = c.tenant_id in
        let (state, s₁) = state_of t s in
        let (v₁, away₁) = Turn-IsValid-Away t s s₁ v (Turn-state_of t s) in
        let backup : TenantBackup = record {
          digest = digest;
          documents = state.documents;
          effects = state.effects;
          tenant_id = t;
        } in
        let bounded : IsBounded (tenant t s₁).next_revision s₁.max_documents state.documents =
          read-IsBounded t s v in
        let (v₂, away₂) = keep_lem t b.backup_id backup s₁ v₁ bounded in
        let s₂ = keep_backup ports b.backup_id backup s₁ in
        let (v₃, away₃) =
          Turn-IsValid-Away t s₂ _ v₂
            (record_audit-Turn (recovery_audit c AuditAction.backup_created b.backup_id) s₂) in
        rw (e, finish_backup) (v₃, λ u h. away₃ u h ∙ away₂ u h ∙ away₁ u h)
  ]

  run_lem :
      (call : Call ports) (s : Store)
      → IsValid s
      → IsValid (run call s) × Away (tenant_of call) s (run call s)
  run_lem (audit_call e) s v = Turn-IsValid-Away e.tenant_id s _ v (record_audit-Turn e s)
  run_lem (begin_call c) s v = Turn-IsValid-Away c.tenant_id s _ v (begin_effect-Turn c s)
  run_lem (commit_call c) s v = Turn-IsValid-Away c.tenant_id s _ v (commit_document-Turn c s)
  run_lem (complete_call c) s v =
      Turn-IsValid-Away c.base.tenant_id s _ v (complete_effect-Turn c s)
  run_lem (fail_call c) s v = Turn-IsValid-Away c.tenant_id s _ v (fail_effect-Turn c s)
  run_lem (read_call t id) s v = Turn-IsValid-Away t s _ v (read_document-Turn t id s)
  run_lem (resume_call t n) s v = Turn-IsValid-Away t s _ v (resume_realtime-Turn t n s)
  run_lem (lease_call c) s v = Turn-IsValid-Away c.tenant_id s _ v (lease_outbox-Turn c s)
  run_lem (acknowledge_call c) s v =
      Turn-IsValid-Away c.tenant_id s _ v (acknowledge_outbox-Turn c s)
  run_lem (release_call c) s v = Turn-IsValid-Away c.tenant_id s _ v (release_outbox-Turn c s)
  run_lem (start_backup_call c) s v =
      Turn-IsValid-Away c.tenant_id s _ v (begin_backup-Turn ports c s)
  run_lem (end_backup_call c b) s v = end_lem c b s v
  run_lem (restore_call c id) s v =
      Turn-IsValid-Away c.tenant_id s _ v (restore_backup-Turn ports c id s v)

  abbrev pub run_all : List (Call ports) → Store → Store
  run_all [] s = s
  run_all (call ∷ calls) s = run_all calls (run call s)

  run_all_lem : (calls : List (Call ports)) (s : Store) → IsValid s → IsValid (run_all calls s)
  run_all_lem [] s v = v
  run_all_lem (call ∷ calls) s v = run_all_lem calls (run call s) (run_lem call s v).0

  -- After any calls of a new store, in any order, no tenant and no backup has more documents than the
  -- limit, and every revision stored or backed up is named by a number that its tenant has used.
  pub run_all-IsValid :
      (options : StoreOptions) (calls : List (Call ports))
      → IsValid (run_all calls (new_store options))
  run_all-IsValid options calls = run_all_lem calls (new_store options) (new_store-IsValid options)

  -- On a valid store a call for one tenant leaves the whole state of every other tenant as it was.
  pub run-Away :
      (call : Call ports) (s : Store) (u : Text)
      → IsValid s
      → tenant_of call ≢ u
      → tenant u (run call s) ≡ tenant u s
  run-Away call s u v other = (run_lem call s v).1 u other

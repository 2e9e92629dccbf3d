-- ===== src/ControlPlane/Recovery/Restores.antt =====
-- The backups of packages/control-plane/src/reference-store.ts that are restored.
use unifold.Prelude.{
  ◌≡◌, refl, sym, ap, ◌∙◌, ◌≢◌, inl, inr, false, not, Option, some, arith, if◌then◌else◌,
  Bool-cases, ◌==◌, nat_eq, ==_iff, Text, text_eq, get, get-put_self,
}
use unifold.ControlPlane.Types.{
  OperationStatus, ErrorCode, AuditAction, RecoveryCommand, success, failure,
}
use unifold.ControlPlane.Store.{
  Store, TenantState, TenantBackup, state_of, set_state, record_audit, publish, recovery_audit,
}
use unifold.ControlPlane.Store.Tenants.{tenant, state_of-tenant, Changes-here, Changes-record_audit}
use unifold.ControlPlane.Store.Turns.{Changes-set_read}
use unifold.ControlPlane.Recovery.{
  Ports, Started, backup_payload, begin_backup, keep_backup, finish_backup, owned_backup, restored,
  apply_restore, restore_backup,
}

module _ (ports : Ports) where
  abbrev pub payload_of : Text → Store → Option Text
  payload_of t s =
      ports.fingerprint (backup_payload ports t (tenant t s).documents (tenant t s).effects)

  -- The backup that `finish_backup` keeps holds what the tenant has then.
  abbrev pub backup_at : RecoveryCommand → Text → Store → TenantBackup
  backup_at command digest s = record {
    digest = digest;
    documents = (tenant command.tenant_id s).documents;
    effects = (tenant command.tenant_id s).effects;
    tenant_id = command.tenant_id;
  }

  kept_lem :
      (entry_store : Store) (command : RecoveryCommand) (id : Text)
      → (record_audit (recovery_audit command AuditAction.backup_created id) entry_store).backups
        ≡ entry_store.backups
  kept_lem s command id =
      (Changes-record_audit (recovery_audit command AuditAction.backup_created id) s).backups

  finish_lem :
      (command : RecoveryCommand) (started : Started ports) (digest : Text) (s : Store)
      → started.digest ≡ some digest
      → get started.backup_id (finish_backup ports command started s).1.backups
        ≡ some (backup_at command digest s)
  unfolding finish_backup keep_backup
  finish_lem command started digest s e =
      let (state, s₁) = state_of command.tenant_id s in
      let backup : TenantBackup = record {
        digest = digest;
        documents = state.documents;
        effects = state.effects;
        tenant_id = command.tenant_id;
      } in
      rw (e, finish_backup)
        (ap (λ m. get started.backup_id m)
            (kept_lem (keep_backup ports started.backup_id backup s₁) command started.backup_id)
          ∙ get-put_self started.backup_id backup s₁.backups
          ∙ ap
              (λ (x : TenantState). some (record {
                digest = digest;
                documents = x.documents;
                effects = x.effects;
                tenant_id = command.tenant_id;
              }))
              (state_of-tenant command.tenant_id s))

  started_digest :
      (command : RecoveryCommand) (s : Store)
      → (begin_backup ports command s).0.digest ≡ payload_of command.tenant_id s
  unfolding begin_backup
  started_digest command s =
      ap
        (λ (x : TenantState).
          ports.fingerprint (backup_payload ports command.tenant_id x.documents x.effects))
        (state_of-tenant command.tenant_id s)

  owned_at :
      (id t : Text) (b : TenantBackup) (s : Store)
      → get id s.backups ≡ some b
      → b.tenant_id ≡ t
      → owned_backup ports id t s ≡ some b
  unfolding owned_backup
  owned_at id t b s at owner =
      let same = (==_iff b.tenant_id t).1 owner in rw (at, owned_backup, same) refl

  -- What a restore of a backup that is there does once its digest is computed.
  restore_at :
      (command : RecoveryCommand) (id digest : Text) (b : TenantBackup) (s : Store)
      → get id s.backups ≡ some b
      → b.tenant_id ≡ command.tenant_id
      → ports.fingerprint (backup_payload ports command.tenant_id b.documents b.effects)
        ≡ some digest
      → restore_backup ports command id s ≡ (
          if not (digest == b.digest)
          then (some (failure OperationStatus.failed ErrorCode.backup_integrity_failed), s)
          else (
            some (apply_restore ports command id b s).0,
            (apply_restore ports command id b s).1,
          ))
  unfolding restore_backup
  restore_at command id digest b s at owner printed =
      let e = owned_at id command.tenant_id b s at owner in
      elim (Bool-cases (digest == b.digest)) [
        | inl g ↦ rw (e, restore_backup, printed, g) refl
        | inr g ↦ rw (e, restore_backup, printed, g) refl
      ]

  restored_lem :
      (command : RecoveryCommand) (id : Text) (b : TenantBackup) (s : Store)
      → ((tenant command.tenant_id (apply_restore ports command id b s).1).documents ≡ b.documents)
        × ((tenant command.tenant_id (apply_restore ports command id b s).1).effects ≡ b.effects)
  unfolding apply_restore recovery_audit restored publish
  restored_lem command id b s =
      let t = command.tenant_id in
      let x = restored ports command id b (state_of t s).0 in
      let s₁ = set_state t x (state_of t s).1 in
      let entry = recovery_audit command AuditAction.backup_restored id in
      let here = Changes-here t _ s₁ (record_audit entry s₁) (Changes-record_audit entry s₁) in
      let there = Changes-here t x s s₁ (Changes-set_read t x s) in
      (
        ap (λ (y : TenantState). y.documents) here ∙ ap (λ (y : TenantState). y.documents) there,
        ap (λ (y : TenantState). y.effects) here ∙ ap (λ (y : TenantState). y.effects) there,
      )

  -- What a backup that was begun in `before` and kept in `s` holds, in any later store.
  module _ (command : RecoveryCommand) (before s later : Store) (digest : Text)
      (printed : payload_of command.tenant_id before ≡ some digest)
      (held : get (begin_backup ports command before).0.backup_id later.backups
        ≡ get
            (begin_backup ports command before).0.backup_id
            (finish_backup ports command (begin_backup ports command before).0 s).1.backups) where
    abbrev id : Text
    id = (begin_backup ports command before).0.backup_id

    abbrev backup : TenantBackup
    backup = backup_at command digest s

    backup_held : get id later.backups ≡ some backup
    backup_held =
        held
        ∙ finish_lem command (begin_backup ports command before).0 digest s
            (started_digest command before ∙ printed)

    payload_again :
        (t : Text) (now : Text)
        → t ≡ command.tenant_id
        → payload_of command.tenant_id s ≡ some now
        → ports.fingerprint (backup_payload ports t backup.documents backup.effects) ≡ some now
    payload_again t now e h =
        ap (λ u. ports.fingerprint (backup_payload ports u backup.documents backup.effects)) e ∙ h

    -- A backup that waits for its digest while nothing changes what its digest is of can be restored by
    -- its tenant from every later store that holds it: the restore succeeds, and gives the tenant the
    -- documents and effects that it had when the backup was made.
    pub restore_backup-finish_backup :
        (again : RecoveryCommand)
        → again.tenant_id ≡ command.tenant_id
        → payload_of command.tenant_id s ≡ payload_of command.tenant_id before
        → ((restore_backup ports again id later).0
            ≡ some (
                success (record {
                  backup_id = id;
                  restored_at = again.occurred_at;
                  tenant_id = again.tenant_id;
                })))
          × ((tenant again.tenant_id (restore_backup ports again id later).1).documents
              ≡ (tenant command.tenant_id s).documents)
          × ((tenant again.tenant_id (restore_backup ports again id later).1).effects
              ≡ (tenant command.tenant_id s).effects)
    unfolding apply_restore
    restore_backup-finish_backup again owner still =
        let now = payload_again again.tenant_id digest owner (still ∙ printed) in
        let at = restore_at again id digest backup later backup_held (sym owner) now in
        let same = (==_iff digest digest).1 refl in
        let done = restored_lem again id backup later in rw (at, same) (refl, done.0, done.1)

    -- A backup whose documents or effects changed during the wait, so that their digest is another one,
    -- is never restored: every restore of it fails as damaged and changes nothing.
    pub restore_backup-torn :
        (again : RecoveryCommand) (now : Text)
        → again.tenant_id ≡ command.tenant_id
        → payload_of command.tenant_id s ≡ some now
        → now ≢ digest
        → restore_backup ports again id later
          ≡ (some (failure OperationStatus.failed ErrorCode.backup_integrity_failed), later)
    restore_backup-torn again now owner changed other =
        let h = payload_again again.tenant_id now owner changed in
        let at = restore_at again id now backup later backup_held (sym owner) h in
        let differ : (now == digest) ≡ false = ground (arith, ==_iff now digest) in
        rw (at, differ) refl

-- ===== src/ControlPlane/Recovery.antt =====
-- packages/control-plane/src/reference-store.ts and reference-store-helpers.ts: backups of a tenant.
-- `createBackup` waits for the digest between two steps, so that other calls may run there. A restore
-- changes the store only after its wait, and a backup never changes, so it is one step.
pub mod Turns
pub mod Restores
use unifold.Prelude.{
  ℕ, suc, Bool, not, Option, none, some, List, [], ◌∷◌, ◌++◌, map, if◌then◌else◌, ◌==◌, nat_eq,
  Text, text, text_eq, Map, get, put, print,
}
use unifold.Contracts.Json.{
  JsonObject, JsonValue, JsonItems, string, boolean, null, object, array, end, field, nil, cons,
}
use unifold.ControlPlane.Types.{
  OperationStatus, ErrorCode, AuditAction, ControlPlaneError, ControlPlaneResult, status_text,
  code_text, success, failure, DocumentRevision, EffectExecution, BackupReceipt, RestoreReceipt,
  RecoveryCommand,
}
use unifold.ControlPlane.Outbox.{MessageType}
use unifold.ControlPlane.Store.{
  Store, StoredEffect, TenantState, TenantBackup, state_of, set_state, record_audit, publish,
  recovery_audit, optional_field,
}

-- The fingerprint port, taken to answer equal values alike, with a digest or by rejecting them (a port
-- that rejects a value at one time and not at another is left out); `localeCompare`, as the order it
-- gives; and the ISO text of an instant.
pub record Ports : Type 0 where
  pub fingerprint : JsonValue → Option Text
  pub locale_leb : Text → Text → Bool
  pub iso_text : ℕ → Text

insert_by {ℓ} : {A : Type ℓ} → (Text → Text → Bool) → Text × A → List (Text × A) → List (Text × A)
insert_by order e [] = e ∷ []
insert_by order e (d ∷ ds) = if order e.0 d.0 then e ∷ d ∷ ds else d ∷ insert_by order e ds

-- The stable sort of the entries by their keys.
sort_by {ℓ} : {A : Type ℓ} → (Text → Text → Bool) → List (Text × A) → List (Text × A)
unfolding insert_by
sort_by order [] = []
sort_by order (e ∷ es) = insert_by order e (sort_by order es)

items_of : List JsonObject → JsonItems
items_of [] = nil
items_of (o ∷ os) = cons (object o) (items_of os)

module _ (ports : Ports) where
  -- A revision, an execution and a result as the JSON values that they are.
  revision_json : DocumentRevision → JsonObject
  unfolding optional_field
  revision_json r = field (text "actorId") (string r.actor_id) (
      field (text "committedAt") (string (ports.iso_text r.committed_at)) (
        field (text "document") (object r.document) (
          field (text "objectId") (string r.object_id) (
            optional_field (text "parentRevision") r.parent_revision (
              field (text "revision") (string r.revision)
                (field (text "tenantId") (string r.tenant_id) end))))))

  execution_json : EffectExecution → JsonObject
  execution_json e = field (text "completedAt") (string (ports.iso_text e.completed_at)) (
      field (text "effectId") (string e.effect_id) (
        field (text "idempotencyKey") (string e.idempotency_key) (
          field (text "objectId") (string e.object_id) (
            field (text "output") e.output (
              field (text "replayed") (boolean e.replayed)
                (field (text "tenantId") (string e.tenant_id) end))))))

  error_fields : Option ControlPlaneError → JsonObject → JsonObject
  error_fields none rest = rest
  error_fields (some e) rest =
      field (text "error")
        (object (
          field (text "code") (string (code_text e.code))
            (field (text "messageKey") (string e.message_key) end)))
        rest

  value_fields : Option EffectExecution → JsonObject
  unfolding execution_json
  value_fields none = end
  value_fields (some e) = field (text "value") (object (execution_json e)) end

  result_json : Option (ControlPlaneResult EffectExecution) → JsonValue
  unfolding error_fields value_fields
  result_json none = null
  result_json (some r) = object (
      error_fields r.error
        (field (text "status") (string (status_text r.status)) (value_fields r.value)))

  backup_document : Text × DocumentRevision → JsonObject
  unfolding revision_json
  backup_document (id, r) =
      field (text "objectId") (string id) (field (text "revision") (object (revision_json r)) end)

  backup_effect : Text × StoredEffect → JsonObject
  unfolding result_json
  backup_effect (key, e) = field (text "fingerprint") (string e.fingerprint) (
      field (text "idempotencyKey") (string key) (
        field (text "pending") (boolean e.pending)
          (field (text "result") (result_json e.result) end)))

  unfoldable pub backup_payload :
      Text → Map Text DocumentRevision → Map Text StoredEffect → JsonValue
  unfolding sort_by items_of backup_document backup_effect
  backup_payload tenant_id source effects = object (
      field (text "documents")
        (array (items_of (map backup_document (sort_by ports.locale_leb source))))
        (field (text "idempotency")
          (array (items_of (map backup_effect (sort_by ports.locale_leb effects))))
          (field (text "tenantId") (string tenant_id) end)))

  -- What `createBackup` holds while it waits: the backup's name and the digest to come.
  pub record Started : Type 0 where
    pub backup_id : Text
    pub digest : Option Text

  -- `createBackup` up to the wait.
  unfoldable pub begin_backup : RecoveryCommand → Store → Started × Store
  unfolding state_of backup_payload
  begin_backup command s =
      let (state, s') = state_of command.tenant_id s in
      (
        record {
          backup_id = text "backup-" ++ print s'.next_backup;
          digest =
              ports.fingerprint (backup_payload command.tenant_id state.documents state.effects);
        },
        record s' { next_backup = suc s'.next_backup },
      )

  unfoldable pub keep_backup : Text → TenantBackup → Store → Store
  keep_backup backup_id backup s = record s { backups = put backup_id backup s.backups }

  -- `createBackup` from the wait on, which reads the tenant's state as it is then.
  unfoldable pub finish_backup :
      RecoveryCommand → Started → Store → Option (ControlPlaneResult BackupReceipt) × Store
  unfolding state_of record_audit recovery_audit keep_backup
  finish_backup command started s = elim started.digest [
    | none ↦ (none, s)
    | some digest ↦
        let (state, s') = state_of command.tenant_id s in
        (
          some (
              success (record {
                backup_id = started.backup_id;
                created_at = command.occurred_at;
                sha256 = digest;
                tenant_id = command.tenant_id;
              })),
          record_audit (recovery_audit command AuditAction.backup_created started.backup_id) (
              keep_backup started.backup_id
                (record {
                  digest = digest;
                  documents = state.documents;
                  effects = state.effects;
                  tenant_id = command.tenant_id;
                })
                s'),
        )
  ]

  -- `ownedBackup`
  unfoldable pub owned_backup : Text → Text → Store → Option TenantBackup
  owned_backup backup_id tenant_id s = elim (get backup_id s.backups) [
    | none ↦ none
    | some backup ↦ if not (backup.tenant_id == tenant_id) then none else some backup
  ]

  -- The tenant's state after a restore.
  unfoldable pub restored : RecoveryCommand → Text → TenantBackup → TenantState → TenantState
  unfolding publish
  restored command backup_id backup state =
      publish command.tenant_id command.correlation_id command.occurred_at
        (field (text "backupId") (string backup_id) end) MessageType.tenant_restored
        (record state { documents = backup.documents; effects = backup.effects })

  unfoldable pub apply_restore :
      RecoveryCommand → Text → TenantBackup → Store → ControlPlaneResult RestoreReceipt × Store
  unfolding state_of restored record_audit recovery_audit set_state
  apply_restore command backup_id backup s =
      let (state, s') = state_of command.tenant_id s in
      (
        success (record {
          backup_id = backup_id;
          restored_at = command.occurred_at;
          tenant_id = command.tenant_id;
        }),
        record_audit (recovery_audit command AuditAction.backup_restored backup_id)
            (set_state command.tenant_id (restored command backup_id backup state) s'),
      )

  unfoldable pub restore_backup :
      RecoveryCommand → Text → Store → Option (ControlPlaneResult RestoreReceipt) × Store
  unfolding owned_backup apply_restore backup_payload
  restore_backup command backup_id s = elim (owned_backup backup_id command.tenant_id s) [
    | none ↦ (some (failure OperationStatus.not_found ErrorCode.backup_not_found), s)
    | some backup ↦
        elim (ports.fingerprint
          (backup_payload command.tenant_id backup.documents backup.effects)) [
            | none ↦ (none, s)
            | some digest ↦
                if not (digest == backup.digest)
                then (some (failure OperationStatus.failed ErrorCode.backup_integrity_failed), s)
                else let (result, s') = apply_restore command backup_id backup s in
                  (some result, s')
          ]
  ]

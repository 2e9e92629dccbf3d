-- ===== src/ControlPlane/Calls/Tests.antt =====
-- A new store, one document and one effect.
use unifold.Prelude.{
  ◌≡◌, refl, ◌≢◌, ◌↔◌, true, Option, none, some, [], ◌∷◌, arith, nat_eq, ==_iff, Text, text,
  text_same, text_eq, get, put, print,
}
use unifold.Contracts.Json.{JsonValue, end, object, array, field, cons}
use unifold.ControlPlane.Types.{
  OperationStatus, AuditOutcome, CommitCommand, EffectLeaseCommand, FailEffectCommand,
  RecoveryCommand, EffectLeaseStatus, ErrorCode, failure, success,
}
use unifold.ControlPlane.Store.{Store, new_store, created_state, commit_document}
use unifold.ControlPlane.Store.Tenants.{tenant}
use unifold.ControlPlane.Store.Valid.{IsValid, new_store-IsValid}
use unifold.ControlPlane.Store.Commits.{
  CanCommit, commit_document-CanCommit, commit_document-commit_document,
}
use unifold.ControlPlane.Effects.{begin_effect, finish_effect, acquired_effect}
use unifold.ControlPlane.Effects.Replays.{begin_all, begin_effect-finish_effect}
use unifold.ControlPlane.Recovery.{
  Ports, begin_backup, finish_backup, backup_payload, restore_backup,
}
use unifold.ControlPlane.Recovery.Restores.{restore_backup-finish_backup, restore_backup-torn}
use unifold.ControlPlane.Calls.{commit_call, begin_call, run_all, run, run_all-IsValid, run-Away}

abbrev here : Text
here = text "tenant"

-- A digest that tells whether there is a document.
abbrev host : Ports
host = record {
  fingerprint = digest;
  locale_leb = λ a b. true;
  iso_text = λ n. text "1970-01-01T00:00:00.000Z";
}
  where
    digest : JsonValue → Option Text
    digest (object (field k (array (cons x xs)) rest)) = some (text "full")
    digest v = some (text "empty")

abbrev empty : Store
empty = new_store (record { max_documents_per_tenant = some 2; realtime_retention = none })

abbrev first_commit : CommitCommand
first_commit = record {
  actor_id = text "a";
  correlation_id = text "c";
  document = end;
  expected_revision = none;
  object_id = text "o";
  occurred_at = 5;
  request_id = text "r";
  tenant_id = here;
  traceparent = none;
}

abbrev lease_command : EffectLeaseCommand
lease_command = record {
  effect_id = text "e";
  fingerprint = text "f";
  idempotency_key = text "k";
  object_id = text "o";
  tenant_id = here;
}

abbrev fail_command : FailEffectCommand
fail_command = record {
  actor_id = text "a";
  completed_at = 6;
  correlation_id = text "c";
  effect_id = text "e";
  idempotency_key = text "k";
  object_id = text "o";
  request_id = text "r";
  tenant_id = here;
  traceparent = none;
}

abbrev recovery_command : RecoveryCommand
recovery_command = record {
  actor_id = text "a";
  correlation_id = text "c";
  occurred_at = 7;
  request_id = text "r";
  tenant_id = here;
  traceparent = none;
}

run_all-IsValid_example : IsValid (
    run_all host
      (commit_call first_commit ∷ begin_call lease_command ∷ [])
      (new_store (record { max_documents_per_tenant = none; realtime_retention = none })))
run_all-IsValid_example =
    run_all-IsValid host (record { max_documents_per_tenant = none; realtime_retention = none })
      (commit_call first_commit ∷ begin_call lease_command ∷ [])

is_other : here ≢ text "other"
is_other e = ground (arith, ==_iff here (text "other"))

run-Away_example :
    tenant (text "other") (run host (commit_call first_commit) empty) ≡ tenant (text "other") empty
run-Away_example =
    run-Away host (commit_call first_commit) empty (text "other")
      (new_store-IsValid (record { max_documents_per_tenant = some 2; realtime_retention = none }))
      is_other

commit_document-CanCommit_example :
    ((commit_document first_commit empty).0.status ≡ OperationStatus.succeeded)
    ↔ CanCommit first_commit empty
commit_document-CanCommit_example = commit_document-CanCommit first_commit empty

first_lem : (commit_document first_commit empty).0.status ≡ OperationStatus.succeeded
unfolding commit_document get put text_same new_store created_state success
first_lem = refl

commit_document-commit_document_example :
    (commit_document first_commit (commit_document first_commit empty).1).0.status
    ≢ OperationStatus.succeeded
commit_document-commit_document_example =
    commit_document-commit_document first_commit first_commit empty
      (new_store-IsValid (record { max_documents_per_tenant = some 2; realtime_retention = none }))
      refl refl refl first_lem

abbrev other_command : EffectLeaseCommand
other_command = record lease_command { idempotency_key = text "other" }

begin_effect-finish_effect_example :
    (begin_effect lease_command (
      begin_all
        (other_command ∷ lease_command ∷ [])
        (finish_effect fail_command
          (failure OperationStatus.failed ErrorCode.effect_failed)
          AuditOutcome.failed
          (begin_effect lease_command empty).1).1)).0
    ≡ some (record {
      result = some (failure OperationStatus.failed ErrorCode.effect_failed);
      status = EffectLeaseStatus.replay;
    })
unfolding begin_effect get put text_same new_store
begin_effect-finish_effect_example =
    begin_effect-finish_effect fail_command (failure OperationStatus.failed ErrorCode.effect_failed)
      AuditOutcome.failed (begin_effect lease_command empty).1 (acquired_effect lease_command) refl
      (other_command ∷ lease_command ∷ []) lease_command refl refl

abbrev begun : Store
begun = (begin_backup host recovery_command empty).1

abbrev kept : Store
kept = (finish_backup host recovery_command (begin_backup host recovery_command empty).0 begun).1

abbrev later : Store
later = (commit_document first_commit kept).1

restore_backup-finish_backup_example :
    ((restore_backup host recovery_command (text "backup-1") later).0
      ≡ some (success (record { backup_id = text "backup-1"; restored_at = 7; tenant_id = here })))
    × ((tenant here (restore_backup host recovery_command (text "backup-1") later).1).documents
        ≡ (tenant here begun).documents)
    × ((tenant here (restore_backup host recovery_command (text "backup-1") later).1).effects
        ≡ (tenant here begun).effects)
unfolding backup_payload get put text_same print new_store created_state begin_backup finish_backup
    commit_document
restore_backup-finish_backup_example =
    restore_backup-finish_backup host recovery_command empty begun later (text "empty") refl refl
      recovery_command refl refl

-- The document comes while the backup waits.
abbrev meanwhile : Store
meanwhile = (commit_document first_commit begun).1

abbrev torn : Store
torn =
    (finish_backup host recovery_command (begin_backup host recovery_command empty).0 meanwhile).1

is_full : text "full" ≢ text "empty"
is_full e = ground (arith, ==_iff (text "full") (text "empty"))

restore_backup-torn_example :
    restore_backup host recovery_command (text "backup-1") torn
    ≡ (some (failure OperationStatus.failed ErrorCode.backup_integrity_failed), torn)
unfolding backup_payload get put text_same print new_store created_state begin_backup
    commit_document
restore_backup-torn_example =
    restore_backup-torn host recovery_command empty meanwhile torn (text "empty") refl refl
      recovery_command (text "full") refl refl is_full

-- ===== src/ControlPlane/Types.antt =====
-- packages/control-plane/src/types.ts and ports.ts: results, audit entries, revisions, effects and the
-- commands of the store. An instant is its number of milliseconds.
use unifold.Prelude.{ℕ, Bool, Option, none, some, ◌++◌, Text, text}
use unifold.Contracts.Json.{JsonObject, JsonValue}

pub data OperationStatus : Type 0 where
  conflict denied failed gap invalid not_found succeeded unavailable : OperationStatus

pub data ErrorCode : Type 0 where
  authorization_denied backup_not_found backup_integrity_failed document_conflict : ErrorCode
  document_not_found effect_failed effect_in_progress effect_not_registered : ErrorCode
  idempotency_conflict invalid_request realtime_gap session_invalid : ErrorCode
  tenant_quota_exceeded transport_unavailable : ErrorCode

pub data AuditAction : Type 0 where
  backup_created backup_restored document_committed document_read : AuditAction
  effect_invoked request_denied : AuditAction

pub data AuditOutcome : Type 0 where
  denied failed succeeded : AuditOutcome

pub data EffectLeaseStatus : Type 0 where
  acquired conflict in_progress replay : EffectLeaseStatus

-- The values of the two enumerations, where they enter a text.
unfoldable pub status_text : OperationStatus → Text
status_text OperationStatus.conflict = text "conflict"
status_text OperationStatus.denied = text "denied"
status_text OperationStatus.failed = text "failed"
status_text OperationStatus.gap = text "gap"
status_text OperationStatus.invalid = text "invalid"
status_text OperationStatus.not_found = text "not-found"
status_text OperationStatus.succeeded = text "succeeded"
status_text OperationStatus.unavailable = text "unavailable"

unfoldable pub code_text : ErrorCode → Text
code_text authorization_denied = text "authorization-denied"
code_text backup_not_found = text "backup-not-found"
code_text backup_integrity_failed = text "backup-integrity-failed"
code_text document_conflict = text "document-conflict"
code_text document_not_found = text "document-not-found"
code_text effect_failed = text "effect-failed"
code_text effect_in_progress = text "effect-in-progress"
code_text effect_not_registered = text "effect-not-registered"
code_text idempotency_conflict = text "idempotency-conflict"
code_text invalid_request = text "invalid-request"
code_text realtime_gap = text "realtime-gap"
code_text session_invalid = text "session-invalid"
code_text tenant_quota_exceeded = text "tenant-quota-exceeded"
code_text transport_unavailable = text "transport-unavailable"

pub record ControlPlaneError : Type 0 where
  pub code : ErrorCode
  pub message_key : Text

pub record ControlPlaneResult {ℓ} (A : Type ℓ) : Type ℓ where
  pub error : Option ControlPlaneError
  pub status : OperationStatus
  pub value : Option A

-- `succeeded` and `failure` of reference-store-helpers.ts.
abbrev pub success {ℓ} : {A : Type ℓ} → A → ControlPlaneResult A
success v = record { error = none; status = OperationStatus.succeeded; value = some v }

unfoldable pub failure {ℓ} : {A : Type ℓ} → OperationStatus → ErrorCode → ControlPlaneResult A
unfolding code_text
failure status code = record {
  error = some (record { code = code; message_key = text "control-plane." ++ code_text code });
  status = status;
  value = none;
}

pub record DocumentRevision : Type 0 where
  pub actor_id : Text
  pub committed_at : ℕ
  pub document : JsonObject
  pub object_id : Text
  pub parent_revision : Option Text
  pub revision : Text
  pub tenant_id : Text

pub record EffectExecution : Type 0 where
  pub completed_at : ℕ
  pub effect_id : Text
  pub idempotency_key : Text
  pub object_id : Text
  pub output : JsonValue
  pub replayed : Bool
  pub tenant_id : Text

pub record BackupReceipt : Type 0 where
  pub backup_id : Text
  pub created_at : ℕ
  pub sha256 : Text
  pub tenant_id : Text

pub record RestoreReceipt : Type 0 where
  pub backup_id : Text
  pub restored_at : ℕ
  pub tenant_id : Text

pub record AuditEntry : Type 0 where
  pub action : AuditAction
  pub actor_id : Text
  pub correlation_id : Text
  pub details : JsonObject
  pub occurred_at : ℕ
  pub outcome : AuditOutcome
  pub request_id : Text
  pub tenant_id : Text
  pub traceparent : Option Text

pub record CommitCommand : Type 0 where
  pub actor_id : Text
  pub correlation_id : Text
  pub document : JsonObject
  pub expected_revision : Option Text
  pub object_id : Text
  pub occurred_at : ℕ
  pub request_id : Text
  pub tenant_id : Text
  pub traceparent : Option Text

pub record EffectLeaseCommand : Type 0 where
  pub effect_id : Text
  pub fingerprint : Text
  pub idempotency_key : Text
  pub object_id : Text
  pub tenant_id : Text

-- A failed effect has no output.
pub record FailEffectCommand : Type 0 where
  pub actor_id : Text
  pub completed_at : ℕ
  pub correlation_id : Text
  pub effect_id : Text
  pub idempotency_key : Text
  pub object_id : Text
  pub request_id : Text
  pub tenant_id : Text
  pub traceparent : Option Text

pub record CompleteEffectCommand : Type 0 where
  pub base : FailEffectCommand
  pub output : JsonValue

pub record RecoveryCommand : Type 0 where
  pub actor_id : Text
  pub correlation_id : Text
  pub occurred_at : ℕ
  pub request_id : Text
  pub tenant_id : Text
  pub traceparent : Option Text

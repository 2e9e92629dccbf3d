-- ===== src/ControlPlane/Store.antt =====
-- packages/control-plane/src/reference-store.ts and reference-store-helpers.ts: the store of the
-- tenants' documents, effects, audits and outboxes. An object that the source changes in place is the
-- value at its key. A method that throws gives `none` for its result.
use unifold.Prelude.{
  ℕ, suc, Bool, true, false, not, Option, none, some, List, [], ◌∷◌, ◌++◌, leb, if◌then◌else◌, ◌==◌,
  nat_eq, length, Text, text, text_eq, Map, get, put, print,
}
use unifold.Contracts.Json.{
  JsonObject, JsonValue, string, boolean, null, object, end, field, set_field,
}
use unifold.ControlPlane.Types.{
  OperationStatus, ErrorCode, AuditAction, AuditOutcome, EffectLeaseStatus, ControlPlaneResult,
  status_text, success, failure, DocumentRevision, EffectExecution, AuditEntry, CommitCommand,
  EffectLeaseCommand, FailEffectCommand, CompleteEffectCommand, RecoveryCommand,
}
use unifold.ControlPlane.Outbox.{
  Outbox, OutboxMessage, MessageType, Entry, LeaseCommand, AcknowledgeCommand, ReleaseCommand,
  Resumed, new_outbox,
}
use unifold.ControlPlane.Outbox
pub mod Tenants
pub mod Turns
pub mod Valid
pub mod Commits

pub record StoredEffect : Type 0 where
  pub fingerprint : Text
  pub pending : Bool
  pub result : Option (ControlPlaneResult EffectExecution)

pub record TenantState : Type 0 where
  pub audits : List AuditEntry
  pub documents : Map Text DocumentRevision
  pub effects : Map Text StoredEffect
  pub next_revision : ℕ
  pub outbox : Outbox

pub record TenantBackup : Type 0 where
  pub digest : Text
  pub documents : Map Text DocumentRevision
  pub effects : Map Text StoredEffect
  pub tenant_id : Text

pub record Store : Type 0 where
  pub backups : Map Text TenantBackup
  pub max_documents : ℕ
  pub next_backup : ℕ
  pub retention : ℕ
  pub tenants : Map Text TenantState

pub record StoreOptions : Type 0 where
  pub max_documents_per_tenant : Option ℕ
  pub realtime_retention : Option ℕ

unfoldable pub configured_limit : Option ℕ → ℕ → ℕ
configured_limit none fallback = fallback
configured_limit (some value) fallback = value

unfoldable pub new_store : StoreOptions → Store
unfolding configured_limit
new_store options = record {
  backups = [];
  max_documents = configured_limit options.max_documents_per_tenant 1000;
  next_backup = 1;
  retention = configured_limit options.realtime_retention 1000;
  tenants = [];
}

unfoldable pub created_state : Store → TenantState
created_state s = record {
  audits = [];
  documents = [];
  effects = [];
  next_revision = 1;
  outbox = new_outbox s.retention;
}

-- `state(tenantId)`
unfoldable pub state_of : Text → Store → TenantState × Store
unfolding created_state
state_of tenant_id s = elim (get tenant_id s.tenants) [
  | some current ↦ (current, s)
  | none ↦ (created_state s, record s { tenants = put tenant_id (created_state s) s.tenants })
]

-- The changes of a tenant's state in place.
unfoldable pub set_state : Text → TenantState → Store → Store
set_state tenant_id state s = record s { tenants = put tenant_id state s.tenants }

-- `recordAudit`
unfoldable pub record_audit : AuditEntry → Store → Store
unfolding state_of set_state
record_audit entry s =
    let (state, s') = state_of entry.tenant_id s in
    set_state entry.tenant_id (record state { audits = state.audits ++ entry ∷ [] }) s'

-- `publish`
unfoldable pub publish : Text → Text → ℕ → JsonObject → MessageType → TenantState → TenantState
publish tenant_id correlation_id occurred_at payload type state = record state {
  outbox =
      Outbox.publish
        (record {
          correlation_id = correlation_id;
          occurred_at = occurred_at;
          payload = payload;
          tenant_id = tenant_id;
          type = type;
        })
        state.outbox;
}

unfoldable pub optional_field : Text → Option Text → JsonObject → JsonObject
optional_field key none rest = rest
optional_field key (some value) rest = field key (string value) rest

unfoldable pub commit_audit : CommitCommand → AuditOutcome → Option Text → AuditEntry
unfolding optional_field
commit_audit command outcome revision = record {
  action = AuditAction.document_committed;
  actor_id = command.actor_id;
  correlation_id = command.correlation_id;
  details =
      field (text "objectId") (string command.object_id)
        (optional_field (text "revision") revision end);
  occurred_at = command.occurred_at;
  outcome = outcome;
  request_id = command.request_id;
  tenant_id = command.tenant_id;
  traceparent = command.traceparent;
}

unfoldable pub effect_audit : FailEffectCommand → AuditOutcome → AuditEntry
effect_audit command outcome = record {
  action = AuditAction.effect_invoked;
  actor_id = command.actor_id;
  correlation_id = command.correlation_id;
  details =
      field (text "effectId") (string command.effect_id)
        (field (text "objectId") (string command.object_id) end);
  occurred_at = command.completed_at;
  outcome = outcome;
  request_id = command.request_id;
  tenant_id = command.tenant_id;
  traceparent = command.traceparent;
}

unfoldable pub recovery_audit : RecoveryCommand → AuditAction → Text → AuditEntry
recovery_audit command action backup_id = record {
  action = action;
  actor_id = command.actor_id;
  correlation_id = command.correlation_id;
  details = field (text "backupId") (string backup_id) end;
  occurred_at = command.occurred_at;
  outcome = AuditOutcome.succeeded;
  request_id = command.request_id;
  tenant_id = command.tenant_id;
  traceparent = command.traceparent;
}

unfoldable pub current_revision : Option DocumentRevision → Option Text
current_revision none = none
current_revision (some current) = some current.revision

same_option : Option Text → Option Text → Bool
same_option none none = true
same_option (some a) (some b) = a == b
same_option _ _ = false

unfoldable pub matches_expected_revision : Option DocumentRevision → Option Text → Bool
unfolding same_option current_revision
matches_expected_revision current expected = same_option (current_revision current) expected

unfoldable pub quota_exceeded : Option DocumentRevision → ℕ → ℕ → Bool
quota_exceeded (some current) document_count maximum = false
quota_exceeded none document_count maximum = leb maximum document_count

unfoldable pub revision_name : ℕ → Text
revision_name n = text "revision-" ++ print n

unfoldable pub revision_record : CommitCommand → Text → Option Text → DocumentRevision
revision_record command revision parent_revision = record {
  actor_id = command.actor_id;
  committed_at = command.occurred_at;
  document = set_field (text "revision") (string revision) command.document;
  object_id = command.object_id;
  parent_revision = parent_revision;
  revision = revision;
  tenant_id = command.tenant_id;
}

-- The tenant's state after an accepted commit, its audit left out.
unfoldable pub committed : CommitCommand → DocumentRevision → TenantState → TenantState
unfolding publish
committed command revision state =
    publish command.tenant_id command.correlation_id command.occurred_at
      (field (text "objectId") (string command.object_id)
        (field (text "revision") (string revision.revision) end))
      MessageType.document_committed
      (record state {
        documents = put command.object_id revision state.documents;
        next_revision = suc state.next_revision;
      })

-- `commitDocument`, from the two guards on.
unfoldable pub commit_on :
    CommitCommand → TenantState → Store → ControlPlaneResult DocumentRevision × Store
unfolding committed record_audit commit_audit matches_expected_revision quota_exceeded
commit_on command state s =
    let current = get command.object_id state.documents in
    if not (matches_expected_revision current command.expected_revision)
    then (
      failure OperationStatus.conflict ErrorCode.document_conflict,
      record_audit (commit_audit command AuditOutcome.failed none) s,
    )
    else if quota_exceeded current (length state.documents) s.max_documents
    then (
      failure OperationStatus.denied ErrorCode.tenant_quota_exceeded,
      record_audit (commit_audit command AuditOutcome.denied none) s,
    )
    else let revision =
        revision_record command (revision_name state.next_revision) (current_revision current) in
      (
        success revision,
        record_audit (commit_audit command AuditOutcome.succeeded (some revision.revision))
            (set_state command.tenant_id (committed command revision state) s),
      )

unfoldable pub commit_document : CommitCommand → Store → ControlPlaneResult DocumentRevision × Store
unfolding state_of commit_on
commit_document command s =
    let (state, s') = state_of command.tenant_id s in commit_on command state s'

unfoldable pub read_document : Text → Text → Store → Option DocumentRevision × Store
unfolding state_of
read_document tenant_id object_id s =
    let (state, s') = state_of tenant_id s in (get object_id state.documents, s')

-- ===== src/ControlPlane/Effects.antt =====
-- packages/control-plane/src/reference-store.ts: effects, which run once for each idempotency key.
pub mod Turns
pub mod Replays
use unifold.Prelude.{
  true, false, not, Option, none, some, if◌then◌else◌, ◌==◌, nat_eq, Text, text, text_eq, get, put,
}
use unifold.Contracts.Json.{JsonObject, JsonValue, string, end, field}
use unifold.ControlPlane.Types.{
  OperationStatus, ErrorCode, AuditOutcome, EffectLeaseStatus, ControlPlaneResult, status_text,
  success, failure, EffectExecution, EffectLeaseCommand, FailEffectCommand, CompleteEffectCommand,
}
use unifold.ControlPlane.Outbox.{MessageType}
use unifold.ControlPlane.Store.{
  Store, StoredEffect, TenantState, state_of, set_state, record_audit, publish, effect_audit,
}

pub record EffectLease : Type 0 where
  pub result : Option (ControlPlaneResult EffectExecution)
  pub status : EffectLeaseStatus

abbrev pub lease_of : EffectLeaseStatus → EffectLease
lease_of status = record { result = none; status = status }

-- `matchingLease`
unfoldable pub matching_lease : StoredEffect → Option EffectLease
matching_lease stored =
    if stored.pending then some (lease_of EffectLeaseStatus.in_progress) else elim stored.result [
      | none ↦ none
      | some result ↦ some (record { result = some result; status = EffectLeaseStatus.replay })
    ]

-- `existingLease`
unfoldable pub existing_lease : StoredEffect → Text → Option EffectLease
unfolding matching_lease
existing_lease stored fingerprint =
    if not (stored.fingerprint == fingerprint)
    then some (lease_of EffectLeaseStatus.conflict)
    else matching_lease stored

-- The effect of a key that is new.
unfoldable pub acquired_effect : EffectLeaseCommand → StoredEffect
acquired_effect command = record {
  fingerprint = command.fingerprint;
  pending = true;
  result = none;
}

unfoldable pub begin_on :
    EffectLeaseCommand → TenantState → Option StoredEffect → Store → Option EffectLease × Store
unfolding existing_lease acquired_effect set_state
begin_on command state (some stored) s = (existing_lease stored command.fingerprint, s)
begin_on command state none s = (
  some (lease_of EffectLeaseStatus.acquired),
  set_state command.tenant_id
      (record state {
        effects = put command.idempotency_key (acquired_effect command) state.effects;
      })
      s,
)

unfoldable pub begin_effect : EffectLeaseCommand → Store → Option EffectLease × Store
unfolding state_of begin_on
begin_effect command s =
    let (state, s') = state_of command.tenant_id s in
    begin_on command state (get command.idempotency_key state.effects) s'

unfoldable pub finished_effect : ControlPlaneResult EffectExecution → StoredEffect → StoredEffect
finished_effect result stored = record stored { pending = false; result = some result }

-- The tenant's state with the effect's result, and its message.
unfoldable pub finished :
    FailEffectCommand
    → ControlPlaneResult EffectExecution
    → StoredEffect
    → TenantState
    → TenantState
unfolding publish finished_effect
finished command result stored state =
    publish command.tenant_id command.correlation_id command.completed_at
      (field (text "effectId") (string command.effect_id) (
        field (text "objectId") (string command.object_id)
          (field (text "status") (string (status_text result.status)) end)))
      MessageType.effect_completed
      (record state {
        effects = put command.idempotency_key (finished_effect result stored) state.effects;
      })

-- `finishEffect`. It throws where there is no lease, but the tenant's state is there then.
unfoldable pub finish_on :
    FailEffectCommand
    → ControlPlaneResult EffectExecution
    → AuditOutcome
    → TenantState
    → Option StoredEffect
    → Store
    → Option (ControlPlaneResult EffectExecution) × Store
unfolding finished record_audit effect_audit set_state
finish_on command result outcome state none s = (none, s)
finish_on command result outcome state (some stored) s = (
  some result,
  record_audit (effect_audit command outcome)
      (set_state command.tenant_id (finished command result stored state) s),
)

unfoldable pub finish_effect :
    FailEffectCommand
    → ControlPlaneResult EffectExecution
    → AuditOutcome
    → Store
    → Option (ControlPlaneResult EffectExecution) × Store
unfolding state_of finish_on
finish_effect command result outcome s =
    let (state, s') = state_of command.tenant_id s in
    finish_on command result outcome state (get command.idempotency_key state.effects) s'

unfoldable pub execution_of : CompleteEffectCommand → EffectExecution
execution_of command = record {
  completed_at = command.base.completed_at;
  effect_id = command.base.effect_id;
  idempotency_key = command.base.idempotency_key;
  object_id = command.base.object_id;
  output = command.output;
  replayed = false;
  tenant_id = command.base.tenant_id;
}

unfoldable pub complete_effect :
    CompleteEffectCommand → Store → Option (ControlPlaneResult EffectExecution) × Store
unfolding execution_of finish_effect
complete_effect command s =
    finish_effect command.base (success (execution_of command)) AuditOutcome.succeeded s

unfoldable pub fail_effect :
    FailEffectCommand → Store → Option (ControlPlaneResult EffectExecution) × Store
unfolding finish_effect
fail_effect command s =
    finish_effect command (failure OperationStatus.failed ErrorCode.effect_failed)
      AuditOutcome.failed s

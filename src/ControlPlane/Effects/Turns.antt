-- ===== src/ControlPlane/Effects/Turns.antt =====
-- What the calls for effects of packages/control-plane/src/reference-store.ts do to their tenant.
use unifold.Prelude.{refl, sym, subst, Option, none, some, nat_eq, text_eq, get}
use unifold.ControlPlane.Types.{
  AuditOutcome, ControlPlaneResult, EffectExecution, EffectLeaseCommand, FailEffectCommand,
  CompleteEffectCommand,
}
use unifold.ControlPlane.Store.{Store, StoredEffect, TenantState, state_of, publish, effect_audit}
use unifold.ControlPlane.Store.Tenants.{tenant, state_of-tenant}
use unifold.ControlPlane.Store.Turns.{
  Turn, Turn-quiet, Turn-record_audit, Turn-state_of, Changes-set_read,
}
use unifold.ControlPlane.Effects.{
  begin_on, begin_effect, finished, finish_on, finish_effect, complete_effect, fail_effect,
}

begin_on-Turn :
    (command : EffectLeaseCommand) (s : Store) (o : Option StoredEffect)
    → Turn command.tenant_id s
        (begin_on command (tenant command.tenant_id s) o (state_of command.tenant_id s).1).1
unfolding begin_on
begin_on-Turn command s (some stored) = Turn-state_of command.tenant_id s
begin_on-Turn command s none =
    Turn-quiet command.tenant_id _ s _ (Changes-set_read command.tenant_id _ s) refl refl

pub begin_effect-Turn :
    (command : EffectLeaseCommand) (s : Store) → Turn command.tenant_id s (begin_effect command s).1
unfolding begin_effect
begin_effect-Turn command s =
    subst
      (λ (x : TenantState).
        Turn command.tenant_id s
          (begin_on command x (get command.idempotency_key x.effects)
            (state_of command.tenant_id s).1).1)
      (sym (state_of-tenant command.tenant_id s)) (begin_on-Turn command s _)

finish_on-Turn :
    (command : FailEffectCommand) (result : ControlPlaneResult EffectExecution)
    (outcome : AuditOutcome) (s : Store) (o : Option StoredEffect)
    → Turn command.tenant_id s
        (finish_on command result outcome
          (tenant command.tenant_id s)
          o
          (state_of command.tenant_id s).1).1
unfolding finish_on finished publish effect_audit
finish_on-Turn command result outcome s none = Turn-state_of command.tenant_id s
finish_on-Turn command result outcome s (some stored) =
    Turn-record_audit (effect_audit command outcome) s _ (
      Turn-quiet command.tenant_id (finished command result stored (tenant command.tenant_id s)) s _
        (Changes-set_read command.tenant_id _ s) refl refl)

pub finish_effect-Turn :
    (command : FailEffectCommand) (result : ControlPlaneResult EffectExecution)
    (outcome : AuditOutcome) (s : Store)
    → Turn command.tenant_id s (finish_effect command result outcome s).1
unfolding finish_effect
finish_effect-Turn command result outcome s =
    subst
      (λ (x : TenantState).
        Turn command.tenant_id s
          (finish_on command result outcome x (get command.idempotency_key x.effects)
            (state_of command.tenant_id s).1).1)
      (sym (state_of-tenant command.tenant_id s)) (finish_on-Turn command result outcome s _)

pub complete_effect-Turn :
    (command : CompleteEffectCommand) (s : Store)
    → Turn command.base.tenant_id s (complete_effect command s).1
unfolding complete_effect
complete_effect-Turn command s = finish_effect-Turn command.base _ AuditOutcome.succeeded s

pub fail_effect-Turn :
    (command : FailEffectCommand) (s : Store) → Turn command.tenant_id s (fail_effect command s).1
unfolding fail_effect
fail_effect-Turn command s = finish_effect-Turn command _ AuditOutcome.failed s

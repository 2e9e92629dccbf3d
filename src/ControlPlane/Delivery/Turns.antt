-- ===== src/ControlPlane/Delivery/Turns.antt =====
-- What the calls for the outbox of packages/control-plane/src/reference-store.ts do to their tenant.
use unifold.Prelude.{ℕ, refl, sym, subst, Option, none, some, Text}
use unifold.ControlPlane.Outbox.{Outbox, Entry, LeaseCommand, AcknowledgeCommand, ReleaseCommand}
use unifold.ControlPlane.Outbox
use unifold.ControlPlane.Store.{Store, TenantState, state_of}
use unifold.ControlPlane.Store.Tenants.{tenant, state_of-tenant}
use unifold.ControlPlane.Store.Turns.{Turn, Turn-quiet, Turn-state_of, Changes-set_read}
use unifold.ControlPlane.Delivery.{
  with_outbox, lease_outbox, acknowledge_outbox, release_outbox, resume_realtime,
}

with_outbox-Turn {ℓ} :
    {A : Type ℓ} (t : Text) (o : Option (A × Outbox)) (s : Store)
    → Turn t s (with_outbox t (tenant t s) o (state_of t s).1).1
unfolding with_outbox
with_outbox-Turn t none s = Turn-state_of t s
with_outbox-Turn t (some r) s = Turn-quiet t _ s _ (Changes-set_read t _ s) refl refl

read_outbox-Turn {ℓ} :
    {A : Type ℓ} (t : Text) (call : Outbox → Option (A × Outbox)) (s : Store)
    → Turn t s (with_outbox t (state_of t s).0 (call (state_of t s).0.outbox) (state_of t s).1).1
read_outbox-Turn t call s =
    subst (λ (x : TenantState). Turn t s (with_outbox t x (call x.outbox) (state_of t s).1).1)
      (sym (state_of-tenant t s)) (with_outbox-Turn t (call (tenant t s).outbox) s)

pub lease_outbox-Turn :
    (command : LeaseCommand) (s : Store) → Turn command.tenant_id s (lease_outbox command s).1
unfolding lease_outbox
lease_outbox-Turn command s = read_outbox-Turn command.tenant_id (Outbox.lease command) s

pub acknowledge_outbox-Turn :
    (command : AcknowledgeCommand) (s : Store)
    → Turn command.tenant_id s (acknowledge_outbox command s).1
unfolding acknowledge_outbox
acknowledge_outbox-Turn command s =
    read_outbox-Turn command.tenant_id (Outbox.acknowledge command) s

pub release_outbox-Turn :
    (command : ReleaseCommand) (s : Store) → Turn command.tenant_id s (release_outbox command s).1
unfolding release_outbox
release_outbox-Turn command s = read_outbox-Turn command.tenant_id (Outbox.release command) s

pub resume_realtime-Turn : (t : Text) (n : ℕ) (s : Store) → Turn t s (resume_realtime t n s).1
unfolding resume_realtime
resume_realtime-Turn t n s = Turn-state_of t s

-- ===== src/ControlPlane/Delivery.antt =====
-- packages/control-plane/src/reference-store.ts: the outbox of each tenant, reached through the store.
pub mod Turns
use unifold.Prelude.{ℕ, Option, none, some, List, Text}
use unifold.ControlPlane.Outbox.{
  Outbox, Entry, LeaseCommand, AcknowledgeCommand, ReleaseCommand, Resumed,
}
use unifold.ControlPlane.Outbox
use unifold.ControlPlane.Store.{Store, TenantState, state_of, set_state}

-- The result of a call of the outbox, which leaves the store as it is where it throws.
unfoldable pub with_outbox {ℓ} :
    {A : Type ℓ} → Text → TenantState → Option (A × Outbox) → Store → Option A × Store
unfolding set_state
with_outbox tenant_id state none s = (none, s)
with_outbox tenant_id state (some (a, outbox)) s =
    (some a, set_state tenant_id (record state { outbox = outbox }) s)

unfoldable pub lease_outbox : LeaseCommand → Store → Option (List Entry) × Store
unfolding state_of with_outbox
lease_outbox command s =
    let (state, s') = state_of command.tenant_id s in
    with_outbox command.tenant_id state (Outbox.lease command state.outbox) s'

unfoldable pub acknowledge_outbox : AcknowledgeCommand → Store → Option ℕ × Store
unfolding state_of with_outbox
acknowledge_outbox command s =
    let (state, s') = state_of command.tenant_id s in
    with_outbox command.tenant_id state (Outbox.acknowledge command state.outbox) s'

unfoldable pub release_outbox : ReleaseCommand → Store → Option ℕ × Store
unfolding state_of with_outbox
release_outbox command s =
    let (state, s') = state_of command.tenant_id s in
    with_outbox command.tenant_id state (Outbox.release command state.outbox) s'

unfoldable pub resume_realtime : Text → ℕ → Store → Resumed × Store
unfolding state_of
resume_realtime tenant_id after_sequence s =
    let (state, s') = state_of tenant_id s in (Outbox.resume after_sequence state.outbox, s')

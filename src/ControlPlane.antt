-- ===== src/ControlPlane.antt =====
-- packages/control-plane: the stored documents and effects of tenants, and durable delivery.
pub mod Types
pub mod Outbox
pub mod Store
pub mod Effects
pub mod Recovery
pub mod Delivery
pub mod Calls

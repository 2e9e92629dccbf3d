-- ===== src/Contracts.antt =====
-- packages/contracts: values shared by the packages.
pub mod Json
pub mod Date

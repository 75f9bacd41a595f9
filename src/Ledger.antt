-- ===== src/Ledger.antt =====
-- The operation ledger: src/core/planes/operationState.ts and its types.
pub mod Types
pub mod Transition
pub mod State
pub mod Methods
pub mod Queries
pub mod OnceKeys
pub mod Soundness
pub mod Durable
pub mod Closed
pub mod Prune

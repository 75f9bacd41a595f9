-- ===== src/Relations.antt =====
-- Relations between models: src/core/relations.ts and its types.
pub mod Types
pub mod Read
pub mod Pending
pub mod Effects
pub mod Derive
pub mod Stable
pub mod Gathers
pub mod Separate
pub mod Apart
pub mod Matrix
pub mod Once

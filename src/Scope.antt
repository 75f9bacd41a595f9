-- ===== src/Scope.antt =====
-- The scope membership ledger: src/core/planes/scopeIndex.ts and its types.
pub mod Entry
pub mod Placement
pub mod Reconcile
pub mod State
pub mod Methods
pub mod Members
pub mod Trim
pub mod Staging
pub mod Indexed
pub mod Commit
pub mod Delta
pub mod Membership
pub mod FreeKey
pub mod Append

-- ===== src/Transaction.antt =====
-- The durable side of commits: src/core/apply/deltaLog.ts and the persistence of
-- src/core/apply/transaction.ts.
pub mod DeltaLog
pub mod Flush
pub mod Agreement
pub mod Covered
pub mod Markers
pub mod Commit
pub mod OpValue
pub mod Codec
pub mod Cut

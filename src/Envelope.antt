-- ===== src/Envelope.antt =====
-- Commit envelopes: src/core/apply/commitEnvelope.ts, with the operations of
-- src/types/core.apply.ops.types.ts.
pub mod Types
pub mod Overlay
pub mod Inputs
pub mod Prepare
pub mod Replay
pub mod Returns
pub mod Compile
pub mod Split

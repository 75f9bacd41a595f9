-- ===== src/WritePolicies.antt =====
-- The write gate of a model: src/core/writePolicies.ts and its types, with the field codecs and
-- the newer-wins test that it calls.
pub mod Types
pub mod Codecs
pub mod Monotonic
pub mod Apply
pub mod Fields
pub mod Groups
pub mod Whole

-- ===== src/Tests.antt =====
-- Runs of the definitions at concrete inputs, and the theorems applied there.
mod Texts
mod Keys
mod Ledgers
mod Scopes
mod Buses
mod Screens
mod Orders
mod Reconciles
mod Filters
mod Gates
mod Effects
mod Envelopes
mod Durables

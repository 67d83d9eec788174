-- ===== src/Tests.antt =====
-- Sample data, tests of the definitions, and the theorems at concrete inputs.
mod Samples
mod Ledger
mod Wallet
mod Outbox
mod Messages
mod Auth
mod System
mod Sessions
mod Gateway
mod Register

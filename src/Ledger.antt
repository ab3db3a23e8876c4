-- ===== src/Ledger.antt =====
-- The ledger of an account (ff_standard_lib/src/strategies/ledgers).
pub mod State
pub mod Paper
pub mod Messages
pub mod Cash
pub mod Conserve
pub mod Session
pub mod Rejected
pub mod Tests
pub mod Valid
pub mod Views
pub mod Service
pub mod Books

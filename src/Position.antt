-- ===== src/Position.antt =====
-- A position: what is held of one symbol in one account, entry by entry
-- (ff_standard_lib/src/standardized_types/position.rs). `none` is a panic.
pub mod Types
pub mod Exit
pub mod Update
pub mod Sums
pub mod Loop
pub mod Valid
pub mod Total
mod Tests

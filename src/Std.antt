-- ===== src/Std.antt =====
-- The parts of the Rust standard library that the program's code relies on.
pub mod Utf8
pub mod Parse
pub mod Decimal
pub mod Int

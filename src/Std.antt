-- ===== src/Std.antt =====
-- What the source uses of Rust's standard library: the methods of `str`, and the printing and
-- parsing of numbers.
pub mod Strings
pub mod Replace
pub mod Split
pub mod Trim
pub mod Decimal
pub mod Bits
pub mod Disk

-- ===== src/Golib.antt =====
-- What the source uses of Go's standard library, over byte lists.
pub mod Base64
pub mod Hex
pub mod Lines
pub mod Num
pub mod Runes

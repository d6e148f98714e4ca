-- ===== src/Text.antt =====
-- The functions of Go's standard library on text that the program calls, over bytes.
pub mod Utf8
pub mod Decimal
pub mod Space
pub mod Atoi
pub mod Segments

-- ===== src/Libc.antt =====
-- What the source uses of the C library: `sscanf` with the conversions that occur, `strtol` in
-- base 10, the character classes of the C locale, and `%02X`.
pub mod Scan
pub mod Hex
pub mod Dec
mod Tests

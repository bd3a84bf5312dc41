-- ===== src/Bits.antt =====
-- 64-bit words: complement, rotation, two's complement, and `&` and `|` as arithmetic.
pub mod Digits
pub mod Word

-- ===== src/Bits/Word.antt =====
-- 64-bit words (`VALUE`, `u64`, `usize`) as numbers below 2 ^ 64, and the signed numbers
-- (`i64`, `isize`, `c_long`) that share their bit patterns.
use magnus.Prelude.{
  ℕ, ◌+◌, ◌-◌, ◌*◌, ◌/◌, ◌%◌, ◌^◌, ◌<◌, ◌≡◌, arith, ltb, if◌then◌else◌, bit_and, bit_or,
}
use magnus.Prelude.Int.{ℤ, pos, negsuc, ◌≤ℤ◌}
use magnus.Bits.Digits.{bit_and_digit, bit_and_mask, bit_or_digit, zero-bit_or, bit_or-zero}

abbrev pub word_mod : ℕ
word_mod = 2 ^ 64

-- The numbers of `i64`.
abbrev pub i64_min : ℤ
i64_min = negsuc (2 ^ 63 - 1)

abbrev pub i64_max : ℤ
i64_max = pos (2 ^ 63 - 1)

abbrev pub Between : ℤ → ℤ → ℤ → Type 0
Between lo hi z = (lo ≤ℤ z) × (z ≤ℤ hi)

abbrev pub IsI64 : ℤ → Type 0
IsI64 z = Between i64_min i64_max z

-- `n as u64` and `transmute::<isize, usize>(n)`: the two's complement pattern.
unfoldable pub to_word : ℤ → ℕ
to_word (pos n) = n % word_mod
to_word (negsuc n) = word_mod - 1 - n % word_mod

-- `w as i64` and `transmute::<usize, isize>(w)`.
unfoldable pub to_signed : ℕ → ℤ
to_signed w = if ltb w (2 ^ 63) then pos w else negsuc (word_mod - 1 - w)

-- A cast `n as uK` and `n as iK` to K bits: the pattern's low bits.
abbrev pub as_unsigned : ℕ → ℤ → ℕ
as_unsigned k (pos n) = n % 2 ^ k
as_unsigned k (negsuc n) = 2 ^ k - 1 - n % 2 ^ k

abbrev pub as_signed : ℕ → ℤ → ℤ
as_signed k z =
    let m = as_unsigned k z in if ltb m (2 ^ (k - 1)) then pos m else negsuc (2 ^ k - 1 - m)

-- The numbers of `iK`.
abbrev pub int_min : ℕ → ℤ
int_min k = negsuc (2 ^ (k - 1) - 1)

abbrev pub int_max : ℕ → ℤ
int_max k = pos (2 ^ (k - 1) - 1)

abbrev pub uint_max : ℕ → ℤ
uint_max k = pos (2 ^ k - 1)

-- `!w`.
abbrev pub complement : ℕ → ℕ
complement w = word_mod - 1 - w

-- `w.rotate_left(3)` and `w.rotate_right(3)`.
abbrev pub rotate_left3 : ℕ → ℕ
rotate_left3 w = w * 2 ^ 3 % word_mod + w / 2 ^ 61

abbrev pub rotate_right3 : ℕ → ℕ
rotate_right3 w = w / 2 ^ 3 + w % 2 ^ 3 * 2 ^ 61

-- `n >> 1` of a signed number: the sign bit is kept.
abbrev pub shr_one : ℤ → ℤ
shr_one (pos n) = pos (n / 2)
shr_one (negsuc n) = negsuc (n / 2)

pub to_word-lt : (z : ℤ) → to_word z < word_mod
unfolding to_word
to_word-lt (pos n) = omega arith
to_word-lt (negsuc n) = omega arith

pub to_signed-to_word : (z : ℤ) → IsI64 z → to_signed (to_word z) ≡ z
unfolding to_word to_signed
to_signed-to_word (pos n) h = ground arith
to_signed-to_word (negsuc n) h = ground arith

pub to_word-to_signed : (w : ℕ) → w < word_mod → to_word (to_signed w) ≡ w
unfolding to_word to_signed
to_word-to_signed w h = ground arith

pub to_signed-IsI64 : (w : ℕ) → w < word_mod → IsI64 (to_signed w)
unfolding to_signed
to_signed-IsI64 w h = ground arith

-- The masks of the tag bits.
pub bit_and-one : (w : ℕ) → bit_and w 1 ≡ w % 2
bit_and-one w = bit_and_mask 1 w

pub bit_and_three : (w : ℕ) → bit_and w 3 ≡ w % 4
bit_and_three w = bit_and_mask 2 w

pub bit_and_seven : (w : ℕ) → bit_and w 7 ≡ w % 8
bit_and_seven w = bit_and_mask 3 w

pub bit_and_byte : (w : ℕ) → bit_and w 0xff ≡ w % 256
bit_and_byte w = bit_and_mask 8 w

-- `w & !1`, `w & !3` and `w & !4`, `w & !8`.
pub bit_and_clear_one : (w : ℕ) → w < word_mod → bit_and w (complement 1) ≡ w / 2 * 2
bit_and_clear_one w h = omega (arith, bit_and_digit w (complement 1), bit_and_mask 63 (w / 2))

pub bit_and_clear_three : (w : ℕ) → w < word_mod → bit_and w (complement 3) ≡ w / 4 * 4
bit_and_clear_three w h = omega (
  arith,
  bit_and_digit w (complement 3),
  bit_and_digit (w / 2) (2 ^ 63 - 2),
  bit_and_mask 62 (w / 2 / 2),
)

pub bit_and_clear_four : (w : ℕ) → w < word_mod → bit_and w (complement 4) ≡ w / 8 * 8 + w % 4
bit_and_clear_four w h = omega (
  arith,
  bit_and_digit w (complement 4),
  bit_and_digit (w / 2) (2 ^ 63 - 3),
  bit_and_digit (w / 2 / 2) (2 ^ 62 - 2),
  bit_and_mask 61 (w / 2 / 2 / 2),
)

pub bit_and_clear_eight : (w : ℕ) → w < word_mod → bit_and w (complement 8) ≡ w / 16 * 16 + w % 8
bit_and_clear_eight w h = omega (
  arith,
  bit_and_digit w (complement 8),
  bit_and_digit (w / 2) (2 ^ 63 - 5),
  bit_and_digit (w / 2 / 2) (2 ^ 62 - 3),
  bit_and_digit (w / 2 / 2 / 2) (2 ^ 61 - 2),
  bit_and_mask 60 (w / 2 / 2 / 2 / 2),
)

-- `w | 2`, and `1 | w` and `2 | w` where the low two bits of `w` are clear.
pub bit_or_two : (w : ℕ) → bit_or w 2 ≡ w / 4 * 4 + 2 + w % 2
bit_or_two w = omega (arith, bit_or_digit w 2, bit_or_digit (w / 2) 1, bit_or-zero (w / 2 / 2))

pub one-bit_or : (q : ℕ) → bit_or 1 (q * 4) ≡ q * 4 + 1
one-bit_or q = omega (arith, bit_or_digit 1 (q * 4), zero-bit_or (q * 4 / 2))

pub two-bit_or : (q : ℕ) → bit_or 2 (q * 4) ≡ q * 4 + 2
two-bit_or q =
    omega (arith, bit_or_digit 2 (q * 4), bit_or_digit 1 (q * 4 / 2), zero-bit_or (q * 4 / 2 / 2))

-- ===== src/Fixnum/Conversions.antt =====
-- When the conversions of a fixnum to Rust's integer types succeed, and with what.
use native.Mathlib.Nat.{mod-eq_of_lt}
use magnus.Prelude.{ℕ, ◌-◌, ◌*◌, ◌%◌, ◌^◌, ◌<◌, ◌≡◌, refl, ok, arith, String}
use magnus.Prelude.Int.{ℤ, pos, negsuc, ltb_ℤ}
use magnus.Bits.Word.{
  to_signed, word_mod, Between, int_min, int_max, uint_max, as_signed, as_unsigned,
}
use magnus.Error.{Result, IsRangeError}
use magnus.Fixnum.{
  to_isize, to_i8, to_i16, to_i32, to_u8, to_u16, to_u32, to_u64, to_usize, is_negative,
  check_signed, check_unsigned,
}

-- A conversion to the integers in `[lo, hi]` keeps the number, and refuses the others.
abbrev pub IsConversion : ℤ → ℤ → {A : Type 0} → (A → ℤ) → ℤ → Result A → Type 0
IsConversion lo hi value z r =
    (Between lo hi z → (a : _) × (r ≡ ok a) × (value a ≡ z)) × (¬ Between lo hi z → IsRangeError r)

-- A cast to a type that holds the number keeps it.
pub as_signed-Between :
    (k : ℕ) (z : ℤ)
    → 2 ^ k ≡ 2 * 2 ^ (k - 1)
    → 0 < 2 ^ (k - 1)
    → Between (int_min k) (int_max k) z
    → as_signed k z ≡ z
as_signed-Between k (pos n) e p b =
    let q : n % 2 ^ k ≡ n = mod-eq_of_lt (omega arith) in ground arith
as_signed-Between k (negsuc n) e p b =
    let q : n % 2 ^ k ≡ n = mod-eq_of_lt (omega arith) in ground arith

check_signed-IsConversion :
    (k : ℕ) (z : ℤ) (m : String)
    → 2 ^ k ≡ 2 * 2 ^ (k - 1)
    → 0 < 2 ^ (k - 1)
    → IsConversion (int_min k) (int_max k) (λ a. a) z (check_signed k z m)
check_signed-IsConversion k (pos n) m e p =
    (λ b. (pos n, ground (arith, as_signed-Between k (pos n) e p b), refl), λ b. ground arith)
check_signed-IsConversion k (negsuc n) m e p =
    (λ b. (negsuc n, ground (arith, as_signed-Between k (negsuc n) e p b), refl), λ b. ground arith)

-- The sign test on the word is the sign of the number.
pub is_negative_lem : (w : ℕ) → is_negative w ≡ ltb_ℤ (to_isize w) (pos 0)
unfolding is_negative to_isize to_signed
is_negative_lem w = ground arith

check_unsigned-IsConversion :
    (k : ℕ) (z : ℤ) (m : String)
    → 0 < 2 ^ k
    → IsConversion (pos 0) (uint_max k) pos z (check_unsigned k (ltb_ℤ z (pos 0)) z m)
check_unsigned-IsConversion k (pos n) m p = (
  λ b. let q : n % 2 ^ k ≡ n = mod-eq_of_lt (omega arith) in (n, ground arith, refl),
  λ b. ground arith,
)
check_unsigned-IsConversion k (negsuc n) m p = (λ b. absurd (omega arith), λ b. ground arith)

pub to_i8_lem : (w : ℕ) → IsConversion (int_min 8) (int_max 8) (λ a. a) (to_isize w) (to_i8 w)
unfolding to_i8
to_i8_lem w = check_signed-IsConversion 8 (to_isize w) _ (omega arith) (omega arith)

pub to_i16_lem : (w : ℕ) → IsConversion (int_min 16) (int_max 16) (λ a. a) (to_isize w) (to_i16 w)
unfolding to_i16
to_i16_lem w = check_signed-IsConversion 16 (to_isize w) _ (omega arith) (omega arith)

pub to_i32_lem : (w : ℕ) → IsConversion (int_min 32) (int_max 32) (λ a. a) (to_isize w) (to_i32 w)
unfolding to_i32
to_i32_lem w = check_signed-IsConversion 32 (to_isize w) _ (omega arith) (omega arith)

pub to_u8_lem : (w : ℕ) → IsConversion (pos 0) (uint_max 8) pos (to_isize w) (to_u8 w)
to_u8_lem w =
    unfold to_u8 in
    rw (is_negative_lem w) (check_unsigned-IsConversion 8 (to_isize w) _ (omega arith))

pub to_u16_lem : (w : ℕ) → IsConversion (pos 0) (uint_max 16) pos (to_isize w) (to_u16 w)
to_u16_lem w =
    unfold to_u16 in
    rw (is_negative_lem w) (check_unsigned-IsConversion 16 (to_isize w) _ (omega arith))

pub to_u32_lem : (w : ℕ) → IsConversion (pos 0) (uint_max 32) pos (to_isize w) (to_u32 w)
to_u32_lem w =
    unfold to_u32 in
    rw (is_negative_lem w) (check_unsigned-IsConversion 32 (to_isize w) _ (omega arith))

-- A fixnum is below 2 ^ 62, so only the sign can be refused.
pub to_u64_lem :
    (w : ℕ) → w < word_mod → IsConversion (pos 0) (uint_max 64) pos (to_isize w) (to_u64 w)
unfolding to_u64 is_negative to_isize to_signed
to_u64_lem w h = (λ b. (as_unsigned 64 (to_isize w), ground arith, ground arith), λ b. ground arith)

pub to_usize_lem :
    (w : ℕ) → w < word_mod → IsConversion (pos 0) (uint_max 64) pos (to_isize w) (to_usize w)
unfolding to_usize is_negative to_isize to_signed
to_usize_lem w h =
    (λ b. (as_unsigned 64 (to_isize w), ground arith, ground arith), λ b. ground arith)

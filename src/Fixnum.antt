-- ===== src/Fixnum.antt =====
-- src/value.rs, `Fixnum`: integers of 63 bits inside a `VALUE`, and their conversions.
-- `c_long` and `isize` are `i64`, `c_ulong` and `usize` are `u64`.
pub mod Encoding
pub mod Conversions
use magnus.Prelude.{
  ℕ, suc, ◌+◌, ◌-◌, ◌*◌, ◌/◌, ◌%◌, ◌^◌, Bool, true, false, ◌&&◌, ◌||◌, Option, none, some, String,
  ok, err, ltb, if◌then◌else◌,
}
use magnus.Prelude.Int.{ℤ, pos, negsuc, ltb_ℤ, leb_ℤ}
use magnus.Bits.Word.{
  to_word, to_signed, shr_one, word_mod, as_signed, as_unsigned, int_min, int_max, uint_max,
}
use magnus.Ruby.{Value, Consts}
use magnus.Error.{Result, error, range_error}
use magnus.Value.{is_fixnum}

abbrev pub ruby_fixnum_max : ℕ
ruby_fixnum_max = (2 ^ 63 - 1) / 2

abbrev pub ruby_fixnum_min : ℤ
ruby_fixnum_min = negsuc (2 ^ 62 - 1)

-- `c_ulong::try_from(n)`, of an `i64`.
abbrev try_from_signed : ℤ → Option ℕ
try_from_signed (pos n) = some n
try_from_signed (negsuc n) = none

abbrev is_some_and {ℓ} : {A : Type ℓ} → Option A → (A → Bool) → Bool
is_some_and none f = false
is_some_and (some a) f = f a

-- `c_long::try_from(n)` never fails: both types are `i64`.
unfoldable pub from_i64_impl : ℤ → Option Value
from_i64_impl n =
    if is_some_and (try_from_signed n) (λ m. ltb m (ruby_fixnum_max + 1)) && leb_ℤ ruby_fixnum_min n
    then (let x = to_word n in some ((x + (x + 1) % word_mod) % word_mod))
    else none

-- `i64::try_from(n).unwrap_or(i64::MAX)`, of a `u64`.
abbrev pub saturate : ℕ → ℤ
saturate n = if ltb n (2 ^ 63) then pos n else pos (2 ^ 63 - 1)

unfoldable pub from_value : Consts → Value → Option Value
from_value c val = if is_fixnum c val then some val else none

unfoldable pub is_negative : Value → Bool
is_negative w = ltb_ℤ (to_signed w) (pos 0)

unfoldable pub to_isize : Value → ℤ
to_isize w = shr_one (to_signed w)

unfoldable pub to_i64 : Value → ℤ
unfolding to_isize
to_i64 w = to_isize w

-- `if res > max || res < min { return Err(..) } Ok(res as iK)`.
abbrev pub check_signed : ℕ → ℤ → String → Result ℤ
check_signed k res message =
    if ltb_ℤ (int_max k) res || ltb_ℤ res (int_min k)
    then err (error range_error message)
    else ok (as_signed k res)

unfoldable pub to_i8 : Value → Result ℤ
unfolding to_isize
to_i8 w = check_signed 8 (to_isize w) "fixnum too big to convert into `i8`"

unfoldable pub to_i16 : Value → Result ℤ
unfolding to_isize
to_i16 w = check_signed 16 (to_isize w) "fixnum too big to convert into `i16`"

unfoldable pub to_i32 : Value → Result ℤ
unfolding to_isize
to_i32 w = check_signed 32 (to_isize w) "fixnum too big to convert into `i32`"

abbrev pub negative_to_unsigned : String
negative_to_unsigned = "can't convert negative integer to unsigned"

-- `if self.is_negative() { return Err(..) }`, then the test of `res` against the maximum.
abbrev pub check_unsigned : ℕ → Bool → ℤ → String → Result ℕ
check_unsigned k negative res message =
    if negative
    then err (error range_error negative_to_unsigned)
    else if ltb_ℤ (uint_max k) res
    then err (error range_error message)
    else ok (as_unsigned k res)

unfoldable pub to_u8 : Value → Result ℕ
unfolding to_isize is_negative
to_u8 w = check_unsigned 8 (is_negative w) (to_isize w) "fixnum too big to convert into `u8`"

unfoldable pub to_u16 : Value → Result ℕ
unfolding to_isize is_negative
to_u16 w = check_unsigned 16 (is_negative w) (to_isize w) "fixnum too big to convert into `u16`"

unfoldable pub to_u32 : Value → Result ℕ
unfolding to_isize is_negative
to_u32 w = check_unsigned 32 (is_negative w) (to_isize w) "fixnum too big to convert into `u32`"

unfoldable pub to_u64 : Value → Result ℕ
unfolding to_isize is_negative
to_u64 w =
    if is_negative w
    then err (error range_error negative_to_unsigned)
    else ok (as_unsigned 64 (to_isize w))

unfoldable pub to_usize : Value → Result ℕ
unfolding to_isize is_negative
to_usize w =
    if is_negative w
    then err (error range_error negative_to_unsigned)
    else ok (as_unsigned 64 (to_isize w))

-- ===== src/Bignum.antt =====
-- src/r_bignum.rs, `RBignum`: handles of integers on Ruby's heap.
pub mod Conversions
use magnus.Prelude.{
  ℕ, ◌+◌, ◌-◌, ◌*◌, ◌%◌, ◌^◌, Bool, true, false, not, ◌&&◌, ◌||◌, Option, none, some, String, ok,
  err, panic, ◌>>=◌, ◌==◌, if◌then◌else◌, bit_and,
}
use magnus.Prelude.Int.{ℤ, pos, negsuc, ltb_ℤ}
use magnus.Bits.Word.{as_signed, as_unsigned, int_max, uint_max}
use magnus.Ruby.{Value, Consts}
use magnus.Ruby.Numbers.{Numbers}
use magnus.Error.{Result, error, range_error, protect}
use magnus.Value.{rb_type}
use magnus.Fixnum.{negative_to_unsigned}

-- What the conversions do with the number that the C function returned.
abbrev pub i32_of : Result ℤ → Result ℤ
i32_of called = do
  res ← called
  if ltb_ℤ (int_max 32) res
      then err (error range_error "bignum too big to convert into `i32`")
      else ok (as_signed 32 res)

abbrev pub isize_of : Result ℤ → Result ℤ
isize_of called = do
  res ← called
  if ltb_ℤ (int_max 64) res
      then err (error range_error "bignum too big to convert into `isize`")
      else ok (as_signed 64 res)

abbrev pub u32_of : Result ℕ → Result ℕ
u32_of called = do
  res ← called
  if ltb_ℤ (uint_max 32) (pos res)
      then err (error range_error "bignum too big to convert into `u32`")
      else ok (as_unsigned 32 (pos res))

abbrev pub usize_of : Result ℕ → Result ℕ
usize_of called = do
  res ← called
  if ltb_ℤ (uint_max 64) (pos res)
      then err (error range_error "bignum too big to convert into `usize`")
      else ok (as_unsigned 64 (pos res))

module _ (c : Consts) (r : Numbers) where
  unfoldable pub from_value : Value → Result (Option Value)
  from_value val = do t ← rb_type c r.heap val; ok (if t == c.t_bignum then some val else none)

  -- `Ok` of a Bignum, or `Err` of the fixnum that Ruby made instead.
  unfoldable pub bignum_from_i64 : ℤ → Result (Option Value × Value)
  unfolding from_value
  bignum_from_i64 n = do let val = r.rb_ll2inum n; b ← from_value val; ok (b, val)

  unfoldable pub bignum_from_u64 : ℕ → Result (Option Value × Value)
  unfolding from_value
  bignum_from_u64 n = do let val = r.rb_ull2inum n; b ← from_value val; ok (b, val)

  unfoldable pub is_positive : Value → Bool
  is_positive w = not (bit_and (r.heap.flags w) c.fl_user1 == 0)

  unfoldable pub is_negative : Value → Bool
  unfolding is_positive
  is_negative w = not (is_positive w)

  unfoldable pub to_i32 : Value → Result ℤ
  to_i32 w = i32_of (protect c (r.rb_num2long w)).result

  unfoldable pub to_i64 : Value → Result ℤ
  to_i64 w = (protect c (r.rb_num2ll w)).result

  unfoldable pub to_isize : Value → Result ℤ
  to_isize w = isize_of (protect c (r.rb_num2ll w)).result

  unfoldable pub to_u32 : Value → Result ℕ
  unfolding is_negative
  to_u32 w =
      if is_negative w
      then err (error range_error negative_to_unsigned)
      else u32_of (protect c (r.rb_num2ulong w)).result

  unfoldable pub to_u64 : Value → Result ℕ
  unfolding is_negative
  to_u64 w =
      if is_negative w
      then err (error range_error negative_to_unsigned)
      else (protect c (r.rb_num2ull w)).result

  unfoldable pub to_usize : Value → Result ℕ
  unfolding is_negative
  to_usize w =
      if is_negative w
      then err (error range_error negative_to_unsigned)
      else usize_of (protect c (r.rb_num2ull w)).result

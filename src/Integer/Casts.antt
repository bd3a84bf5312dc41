-- ===== src/Integer/Casts.antt =====
-- src/integer.rs: the conversions of an `Integer` to Rust's integers.
use magnus.Prelude.{ℕ, ok, err}
use magnus.Prelude.Int.{ℤ}
use magnus.Ruby.{Value, Consts}
use magnus.Ruby.Numbers.{Numbers}
use magnus.Error.{Result, error, range_error}
use magnus.Fixnum
use magnus.Fixnum.{from_i64_impl, saturate}
use magnus.Bignum
use magnus.Integer.{fixnum, bignum, integer_type}

module _ (c : Consts) (r : Numbers) where
  unfoldable pub to_i8 : Value → Result ℤ
  unfolding integer_type
  to_i8 w = elim (integer_type c r w) [
    | fixnum fix ↦ Fixnum.to_i8 fix
    | bignum _ ↦ err (error range_error "bignum too big to convert into `i8`")
  ]

  unfoldable pub to_i16 : Value → Result ℤ
  unfolding integer_type
  to_i16 w = elim (integer_type c r w) [
    | fixnum fix ↦ Fixnum.to_i16 fix
    | bignum _ ↦ err (error range_error "bignum too big to convert into `i16`")
  ]

  unfoldable pub to_i32 : Value → Result ℤ
  unfolding integer_type
  to_i32 w = elim (integer_type c r w) [
    | fixnum fix ↦ Fixnum.to_i32 fix
    | bignum big ↦ Bignum.to_i32 c r big
  ]

  unfoldable pub to_i64 : Value → Result ℤ
  unfolding integer_type
  to_i64 w = elim (integer_type c r w) [
    | fixnum fix ↦ ok (Fixnum.to_i64 fix)
    | bignum big ↦ Bignum.to_i64 c r big
  ]

  unfoldable pub to_isize : Value → Result ℤ
  unfolding integer_type
  to_isize w = elim (integer_type c r w) [
    | fixnum fix ↦ ok (Fixnum.to_isize fix)
    | bignum big ↦ Bignum.to_isize c r big
  ]

  unfoldable pub to_u8 : Value → Result ℕ
  unfolding integer_type
  to_u8 w = elim (integer_type c r w) [
    | fixnum fix ↦ Fixnum.to_u8 fix
    | bignum _ ↦ err (error range_error "bignum too big to convert into `u8`")
  ]

  unfoldable pub to_u16 : Value → Result ℕ
  unfolding integer_type
  to_u16 w = elim (integer_type c r w) [
    | fixnum fix ↦ Fixnum.to_u16 fix
    | bignum _ ↦ err (error range_error "bignum too big to convert into `u16`")
  ]

  unfoldable pub to_u32 : Value → Result ℕ
  unfolding integer_type
  to_u32 w = elim (integer_type c r w) [
    | fixnum fix ↦ Fixnum.to_u32 fix
    | bignum big ↦ Bignum.to_u32 c r big
  ]

  unfoldable pub to_u64 : Value → Result ℕ
  unfolding integer_type
  to_u64 w = elim (integer_type c r w) [
    | fixnum fix ↦ Fixnum.to_u64 fix
    | bignum big ↦ Bignum.to_u64 c r big
  ]

  unfoldable pub to_usize : Value → Result ℕ
  unfolding integer_type
  to_usize w = elim (integer_type c r w) [
    | fixnum fix ↦ Fixnum.to_usize fix
    | bignum big ↦ Bignum.to_usize c r big
  ]

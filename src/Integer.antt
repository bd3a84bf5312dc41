-- ===== src/Integer.antt =====
-- src/integer.rs, `Integer`: a fixnum or a Bignum object behind one handle.
pub mod Casts
pub mod Compare
pub mod Construct
pub mod Conversions
pub mod Visit
pub mod Arith
pub mod Quotients
pub mod Order
use magnus.Prelude.{
  ℕ, ◌+◌, ◌-◌, ◌*◌, ◌/◌, ◌%◌, ◌^◌, Bool, true, false, not, ◌&&◌, Option, none, some, String, ok,
  err, panic, ◌>>=◌, ◌==◌, if◌then◌else◌, leb, bit_and,
}
use magnus.Prelude.Int.{
  ℤ, pos, negsuc, pos_part, neg_part, ltb_ℤ, leb_ℤ, eqb_ℤ, sub_ℕ, ◌+ℤ◌, ◌-ℤ◌, ◌*ℤ◌,
}
use magnus.Bits.Word.{to_word, to_signed, i64_min, i64_max}
use magnus.Ruby.{Value, Consts}
use magnus.Ruby.Numbers.{Numbers}
use magnus.Error.{Result, Tag, error, range_error, Completion, returned, unwound}
use magnus.Value.{rb_type}
use magnus.Fixnum
use magnus.Fixnum.{from_i64_impl, saturate}
use magnus.Bignum

-- `IntegerType`.
pub data IntegerType : Type 0 where
  fixnum : Value → IntegerType
  bignum : Value → IntegerType

-- `i64::checked_add`, `checked_sub` and `checked_mul`: `none` on overflow.
abbrev pub checked : ℤ → Option ℤ
checked z = if leb_ℤ i64_min z && leb_ℤ z i64_max then some z else none

abbrev pub unwrap_or_else : Option Value → Value → Value
unwrap_or_else none w = w
unwrap_or_else (some v) w = v

-- `Result<Fixnum, RBignum>`.
pub data FixnumOrBignum : Type 0 where
  ok_fixnum : Value → FixnumOrBignum
  err_bignum : Value → FixnumOrBignum

-- How the division of two integers ends.
pub data Division : Type 0 where
  quotient : Value → Division
  divide_panic : Division
  divide_unwound : Tag → Value → Division

-- `i64 / i64`.
abbrev pub truncated : ℤ → ℤ → ℤ
truncated a b =
    let magnitude = (pos_part a + neg_part a) / (pos_part b + neg_part b) in
    sub_ℕ
      (if ltb_ℤ a (pos 0)
        then (if ltb_ℤ b (pos 0) then magnitude else 0)
        else (if ltb_ℤ b (pos 0) then 0 else magnitude))
      (if ltb_ℤ a (pos 0)
        then (if ltb_ℤ b (pos 0) then 0 else magnitude)
        else (if ltb_ℤ b (pos 0) then magnitude else 0))

-- `std::cmp::Ordering`.
pub data CmpOrdering : Type 0 where
  less equal greater : CmpOrdering

abbrev pub compare_signed : ℤ → ℤ → CmpOrdering
compare_signed a b = if ltb_ℤ a b then less else if ltb_ℤ b a then greater else equal

module _ (c : Consts) (r : Numbers) where
  unfoldable pub fixnum_from_i64 : ℤ → FixnumOrBignum
  fixnum_from_i64 n = elim (from_i64_impl n) [
    | some f ↦ ok_fixnum f
    | none ↦ err_bignum (r.rb_ll2inum n)
  ]

  unfoldable pub fixnum_from_u64 : ℕ → FixnumOrBignum
  fixnum_from_u64 n = elim (from_i64_impl (saturate n)) [
    | some f ↦ ok_fixnum f
    | none ↦ err_bignum (r.rb_ull2inum n)
  ]

  unfoldable pub integer_from_i64 : ℤ → Value
  integer_from_i64 n = unwrap_or_else (from_i64_impl n) (r.rb_ll2inum n)

  unfoldable pub integer_from_u64 : ℕ → Value
  integer_from_u64 n = unwrap_or_else (from_i64_impl (saturate n)) (r.rb_ull2inum n)

  unfoldable pub from_value : Value → Result (Option Value)
  from_value val =
      if not (bit_and val c.fixnum_flag == 0)
      then ok (some val)
      else do t ← rb_type c r.heap val; ok (if t == c.t_bignum then some val else none)

  unfoldable pub integer_type : Value → IntegerType
  integer_type w = if not (bit_and w c.fixnum_flag == 0) then fixnum w else bignum w

  unfoldable pub norm : Value → Value
  unfolding integer_type
  norm w = elim (integer_type w) [ fixnum f ↦ w | bignum b ↦ r.rb_big_norm b ]

  -- The closures are given as functions; a Bignum on either side goes to Ruby's operation.
  unfoldable pub binary_operation_visit :
      {T : Type 0} → Value → Value → (Value → Value → T) → (Value → Value → T) → T
  unfolding integer_type
  binary_operation_visit self other rust_op ruby_op = elim (integer_type self) [
    | bignum a ↦ ruby_op a other
    | fixnum a ↦ elim (integer_type other) [
      | bignum b ↦ ruby_op (r.rb_int2big (Fixnum.to_isize a)) b
      | fixnum b ↦ rust_op a b
    ]
  ]

  unfoldable pub add_fixnum : Value → Value → Value
  add_fixnum a b =
      let raw_a = to_signed a in
      let raw_b = to_signed b in
      elim (checked (raw_a +ℤ raw_b)) [
        | none ↦ r.rb_big_plus (r.rb_int2big (Fixnum.to_isize a)) b
        | some i ↦ elim (checked (i -ℤ pos 1)) [
          | none ↦ r.rb_big_plus (r.rb_int2big (Fixnum.to_isize a)) b
          | some result ↦ to_word result
        ]
      ]

  unfoldable pub add : Value → Value → Value
  unfolding binary_operation_visit add_fixnum
  add a b = binary_operation_visit a b add_fixnum r.rb_big_plus

  unfoldable pub sub_fixnum : Value → Value → Value
  sub_fixnum a b =
      let raw_a = to_signed a in
      let raw_b = to_signed b in
      elim (checked (raw_a -ℤ raw_b)) [
        | none ↦ r.rb_big_minus (r.rb_int2big (Fixnum.to_isize a)) b
        | some i ↦ elim (checked (i +ℤ pos 1)) [
          | none ↦ r.rb_big_minus (r.rb_int2big (Fixnum.to_isize a)) b
          | some result ↦ to_word result
        ]
      ]

  unfoldable pub sub : Value → Value → Value
  unfolding binary_operation_visit sub_fixnum
  sub a b = binary_operation_visit a b sub_fixnum r.rb_big_minus

  unfoldable pub mul_fixnum : Value → Value → Value
  unfolding integer_from_i64
  mul_fixnum a b =
      let raw_a = Fixnum.to_i64 a in
      let raw_b = Fixnum.to_i64 b in
      elim (checked (raw_a *ℤ raw_b)) [
        | some result ↦ integer_from_i64 result
        | none ↦ r.rb_big_mul (r.rb_int2big (Fixnum.to_isize a)) b
      ]

  unfoldable pub mul : Value → Value → Value
  unfolding binary_operation_visit mul_fixnum
  mul a b = binary_operation_visit a b mul_fixnum r.rb_big_mul

  -- `raw_a / raw_b` of `i64`: rounds towards zero, and panics on a zero divisor.
  unfoldable pub div_fixnum : Value → Value → Division
  unfolding integer_from_i64
  div_fixnum a b =
      let raw_a = Fixnum.to_i64 a in
      let raw_b = Fixnum.to_i64 b in
      if eqb_ℤ raw_b (pos 0)
      then divide_panic
      else quotient (integer_from_i64 (truncated raw_a raw_b))

  unfoldable pub div_bignum : Value → Value → Division
  div_bignum a b = elim (r.rb_big_div a b) [
    | returned result ↦ quotient result
    | unwound tag info ↦ divide_unwound tag info
  ]

  unfoldable pub div : Value → Value → Division
  unfolding binary_operation_visit div_fixnum div_bignum
  div a b = binary_operation_visit a b div_fixnum div_bignum

  unfoldable pub eq : Value → Value → Bool
  unfolding integer_type norm
  eq self other = elim (integer_type self) [
    | bignum a ↦ r.rb_big_eq a other == c.qtrue
    | fixnum a ↦ a == norm other
  ]

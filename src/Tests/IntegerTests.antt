-- ===== src/Tests/IntegerTests.antt =====
-- The properties of integers at concrete numbers, over the sample of Ruby's integers.
use magnus.Prelude.{◌+◌, ◌^◌, ◌≡◌, ◌≢◌, ◌↔◌, inl, inr, refl, true, ok, arith}
use magnus.Prelude.Int.{ℤ, pos, negsuc, ◌+ℤ◌, ◌*ℤ◌}
use magnus.Bits.Word.{int_min, int_max, uint_max, to_signed}
use magnus.Ruby.{Value, modern}
use magnus.Ruby.Numbers.{Represents, IsInteger, IsNormal, denote, IsFloor, IsBignum}
use magnus.Fixnum.{ruby_fixnum_max, to_isize}
use magnus.Fixnum.Encoding.{fixnum_word, IsFixnumWord}
use magnus.Bignum.Conversions.{IsExact}
use magnus.Integer.{fixnum_from_i64, err_bignum, add, mul, div, eq, quotient}
use magnus.Integer.Casts.{
  to_i8, to_i16, to_i32, to_i64, to_isize as to_isize_int, to_u8, to_u16, to_u32, to_u64, to_usize,
}
use magnus.Integer.Construct.{fixnum_from_i64_negative}
use magnus.Integer.Arith.{add-Represents, mul-Represents}
use magnus.Integer.Order.{eq_iff}
use magnus.Integer.Conversions.{signed-IsExact, unsigned-IsExact, to_i32_wrong}
use magnus.Integer.Quotients.{div_fixnum-not-IsFloor}
use magnus.Tests.SampleNumbers.{sample, sample-IsNumbers, address}

-- 7, -7, the largest fixnum, and Bignums next to the ends of `i64` and below.
abbrev seven : Value
seven = 15

abbrev minus_seven : Value
minus_seven = fixnum_word (negsuc 6)

abbrev two : Value
two = 5

abbrev largest : Value
largest = fixnum_word (pos ruby_fixnum_max)

abbrev large : Value
large = address (pos (2 ^ 63))

abbrev below : Value
below = address (negsuc (2 ^ 62 + 5))

IsFixnum_7 : IsFixnumWord seven
IsFixnum_7 = omega arith

IsFixnum_minus_7 : IsFixnumWord minus_seven
IsFixnum_minus_7 = omega arith

IsInteger-largest : IsInteger sample largest
IsInteger-largest = inl (omega arith)

large-IsBignum : IsBignum sample large
large-IsBignum = (omega arith, refl)

below-IsNormal : IsNormal sample below
below-IsNormal = inr ((omega arith, refl), λ h. omega arith)

add-Represents_example :
    Represents sample
      (denote sample largest +ℤ denote sample seven)
      (add modern sample largest seven)
add-Represents_example =
    add-Represents modern sample (inl refl) sample-IsNumbers largest seven IsInteger-largest
      (inl IsFixnum_7)

mul-Represents_example :
    Represents sample
      (denote sample largest *ℤ denote sample minus_seven)
      (mul modern sample largest minus_seven)
mul-Represents_example =
    mul-Represents modern sample (inl refl) sample-IsNumbers largest minus_seven IsInteger-largest
      (inl IsFixnum_minus_7)

fixnum_from_i64_negative_example :
    (w : Value) × (fixnum_from_i64 modern sample (negsuc 6) ≡ err_bignum w)
    × IsFixnumWord w
    × (to_isize w ≡ negsuc 6)
fixnum_from_i64_negative_example =
    fixnum_from_i64_negative modern sample sample-IsNumbers 6 (omega arith, omega arith)

signed-IsExact_example :
    IsExact sample.is_range_error
      (int_min 8)
      (int_max 8)
      (λ z. z)
      (denote sample minus_seven)
      (to_i8 modern sample minus_seven)
    × IsExact sample.is_range_error
        (int_min 16)
        (int_max 16)
        (λ z. z)
        (denote sample minus_seven)
        (to_i16 modern sample minus_seven)
    × IsExact sample.is_range_error
        (int_min 64)
        (int_max 64)
        (λ z. z)
        (denote sample minus_seven)
        (to_i64 modern sample minus_seven)
    × IsExact sample.is_range_error
        (int_min 64)
        (int_max 64)
        (λ z. z)
        (denote sample minus_seven)
        (to_isize_int modern sample minus_seven)
signed-IsExact_example =
    signed-IsExact modern sample (inl refl) sample-IsNumbers minus_seven (inl IsFixnum_minus_7)

unsigned-IsExact_example :
    IsExact sample.is_range_error
      (pos 0)
      (uint_max 8)
      pos
      (denote sample below)
      (to_u8 modern sample below)
    × IsExact sample.is_range_error
        (pos 0)
        (uint_max 16)
        pos
        (denote sample below)
        (to_u16 modern sample below)
    × IsExact sample.is_range_error
        (pos 0)
        (uint_max 32)
        pos
        (denote sample below)
        (to_u32 modern sample below)
    × IsExact sample.is_range_error
        (pos 0)
        (uint_max 64)
        pos
        (denote sample below)
        (to_u64 modern sample below)
    × IsExact sample.is_range_error
        (pos 0)
        (uint_max 64)
        pos
        (denote sample below)
        (to_usize modern sample below)
unsigned-IsExact_example =
    unsigned-IsExact modern sample (inl refl) sample-IsNumbers below below-IsNormal

to_i32_wrong_example : (a : ℤ) × (to_i32 modern sample below ≡ ok a) × (a ≢ denote sample below)
to_i32_wrong_example =
    to_i32_wrong modern sample (inl refl) sample-IsNumbers below below-IsNormal (omega arith)
      (omega arith)

eq_iff_example : (eq modern sample large seven ≡ true) ↔ (denote sample large ≡ denote sample seven)
eq_iff_example =
    eq_iff modern sample (inl refl) sample-IsNumbers large seven (inr large-IsBignum)
      (inl IsFixnum_7)

div_fixnum-not-IsFloor_example :
    (q : Value) × (div modern sample minus_seven two ≡ quotient q)
    × ¬ IsFloor (denote sample minus_seven) (denote sample two) (denote sample q)
unfolding to_isize to_signed
div_fixnum-not-IsFloor_example =
    div_fixnum-not-IsFloor modern sample (inl refl) sample-IsNumbers minus_seven two 6 2
      IsFixnum_minus_7 (omega arith) refl refl (omega arith) (λ e. omega arith)

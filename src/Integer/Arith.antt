-- ===== src/Integer/Arith.antt =====
-- `+`, `-` and `*` of integers are those of the numbers, with and without overflow of the fixnums.
use magnus.Prelude.{◌≡◌, inl, inr}
use magnus.Prelude.Int.{pos, ◌+ℤ◌, ◌-ℤ◌, ◌*ℤ◌}
use magnus.Bits.Word.{to_signed}
use magnus.Ruby.{Value, Consts, IsDocumented}
use magnus.Ruby.Numbers.{Numbers, IsNumbers, Represents, IsInteger, denote}
use magnus.Fixnum.{to_isize, to_i64}
use magnus.Fixnum.Encoding.{IsFixnumWord}
use magnus.Integer.Construct.{denote-fixnum, integer_from_i64-Represents}
use magnus.Integer.Visit.{
  raw, raw-add, raw-sub, checked_cases, visit-Represents, big_path, raw-Represents, raw_of,
}
use magnus.Integer.{add_fixnum, add, sub_fixnum, sub, mul_fixnum, mul}

module _ (c : Consts) (r : Numbers) (d : IsDocumented c) (l : IsNumbers c r) where
  add_fixnum-Represents :
      (a b : Value)
      → IsFixnumWord a
      → IsFixnumWord b
      → Represents r (to_isize a +ℤ to_isize b) (add_fixnum c r a b)
  unfolding add_fixnum
  add_fixnum-Represents a b ha hb = elim (checked_cases (to_signed a +ℤ to_signed b)) [
    | inl over ↦ rw (over, add_fixnum) slow
    | inr fits ↦ elim (checked_cases (to_signed a +ℤ to_signed b -ℤ pos 1)) [
      | inl over ↦ rw (fits.1, over, add_fixnum) slow
      | inr fits' ↦ rw (fits.1, fits'.1, add_fixnum) (raw-Represents c r d l _ _ sum fits'.0)
    ]
  ]
    where
      slow : Represents r (to_isize a +ℤ to_isize b) (r.rb_big_plus (r.rb_int2big (to_isize a)) b)
      slow =
          rw (denote-fixnum r a ha, denote-fixnum r b hb) at
            (big_path c r d l ◌+ℤ◌ r.rb_big_plus l.plus_law a b ha (inl hb))

      sum : to_signed a +ℤ to_signed b -ℤ pos 1 ≡ raw (to_isize a +ℤ to_isize b)
      sum = rw (raw_of c r d l a ha, raw_of c r d l b hb) (raw-add (to_isize a) (to_isize b))

  -- `+` of two integers, fixnums or Bignums, is the integer of their sum in Ruby's form, also where
  -- the sum of the fixnums is no fixnum or overflows the machine word.
  pub add-Represents :
      (a b : Value)
      → IsInteger r a
      → IsInteger r b
      → Represents r (denote r a +ℤ denote r b) (add c r a b)
  unfolding add
  add-Represents a b ha hb =
      visit-Represents c r d l ◌+ℤ◌ (add_fixnum c r) r.rb_big_plus a b ha hb add_fixnum-Represents
        l.plus_law

  sub_fixnum-Represents :
      (a b : Value)
      → IsFixnumWord a
      → IsFixnumWord b
      → Represents r (to_isize a -ℤ to_isize b) (sub_fixnum c r a b)
  unfolding sub_fixnum
  sub_fixnum-Represents a b ha hb = elim (checked_cases (to_signed a -ℤ to_signed b)) [
    | inl over ↦ rw (over, sub_fixnum) slow
    | inr fits ↦ elim (checked_cases (to_signed a -ℤ to_signed b +ℤ pos 1)) [
      | inl over ↦ rw (fits.1, over, sub_fixnum) slow
      | inr fits' ↦ rw (fits.1, fits'.1, sub_fixnum) (raw-Represents c r d l _ _ difference fits'.0)
    ]
  ]
    where
      slow : Represents r (to_isize a -ℤ to_isize b) (r.rb_big_minus (r.rb_int2big (to_isize a)) b)
      slow =
          rw (denote-fixnum r a ha, denote-fixnum r b hb) at
            (big_path c r d l ◌-ℤ◌ r.rb_big_minus l.minus_law a b ha (inl hb))

      difference : to_signed a -ℤ to_signed b +ℤ pos 1 ≡ raw (to_isize a -ℤ to_isize b)
      difference = rw (raw_of c r d l a ha, raw_of c r d l b hb) (raw-sub (to_isize a) (to_isize b))

  -- `-` of two integers, fixnums or Bignums, is the integer of their difference in Ruby's form, also
  -- where the difference of the fixnums is no fixnum or overflows the machine word.
  pub sub-Represents :
      (a b : Value)
      → IsInteger r a
      → IsInteger r b
      → Represents r (denote r a -ℤ denote r b) (sub c r a b)
  unfolding sub
  sub-Represents a b ha hb =
      visit-Represents c r d l ◌-ℤ◌ (sub_fixnum c r) r.rb_big_minus a b ha hb sub_fixnum-Represents
        l.minus_law

  mul_fixnum-Represents :
      (a b : Value)
      → IsFixnumWord a
      → IsFixnumWord b
      → Represents r (to_isize a *ℤ to_isize b) (mul_fixnum c r a b)
  unfolding mul_fixnum to_i64
  mul_fixnum-Represents a b ha hb = elim (checked_cases (to_isize a *ℤ to_isize b)) [
    | inl over ↦ rw (over, mul_fixnum) slow
    | inr fits ↦ rw (fits.1, mul_fixnum) (integer_from_i64-Represents c r l _ fits.0)
  ]
    where
      slow : Represents r (to_isize a *ℤ to_isize b) (r.rb_big_mul (r.rb_int2big (to_isize a)) b)
      slow =
          rw (denote-fixnum r a ha, denote-fixnum r b hb) at
            (big_path c r d l ◌*ℤ◌ r.rb_big_mul l.mul_law a b ha (inl hb))

  -- `*` of two integers, fixnums or Bignums, is the integer of their product in Ruby's form, also
  -- where the product of the fixnums is no fixnum or overflows the machine word.
  pub mul-Represents :
      (a b : Value)
      → IsInteger r a
      → IsInteger r b
      → Represents r (denote r a *ℤ denote r b) (mul c r a b)
  unfolding mul
  mul-Represents a b ha hb =
      visit-Represents c r d l ◌*ℤ◌ (mul_fixnum c r) r.rb_big_mul a b ha hb mul_fixnum-Represents
        l.mul_law

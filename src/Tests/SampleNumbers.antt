-- ===== src/Tests/SampleNumbers.antt =====
-- A concrete form of Ruby's integers: a Bignum's address is sixteen times one more than the number
-- of the integer in the order 0, -1, 1, -2, ...
use native.Mathlib.Nat.{div-add-mod, mod-lt}
use magnus.Prelude.{
  ℕ, ◌+◌, ◌-◌, ◌*◌, ◌/◌, ◌%◌, ◌^◌, ◌≡◌, ◌≢◌, refl, inl, inr, true, false, ◌&&◌, arith, ltb,
  if◌then◌else◌, ◌==◌, Bool-cases,
}
use magnus.Prelude.Int.{ℤ, pos, negsuc, ◌+ℤ◌, ◌-ℤ◌, ◌*ℤ◌, sub_ℕ, ltb_ℤ, leb_ℤ, eqb_ℤ, eqb_ℤ_iff}
use magnus.Bits.Word.{word_mod, uint_max}
use magnus.Ruby.{Value, modern}
use magnus.Ruby.Numbers.{Numbers, IsNumbers, Represents, IsBignum, IsFloor, ReturnsWithin}
use magnus.Error.{Completion, returned, unwound, raise}
use magnus.Fixnum.{to_isize, ruby_fixnum_min, ruby_fixnum_max}
use magnus.Fixnum.Encoding.{IsFixnumRange, fixnum_word}
use magnus.Integer.Construct.{fixnum_word-Represents}

abbrev number_of : ℤ → ℕ
number_of (pos n) = n * 2
number_of (negsuc n) = n * 2 + 1

abbrev number_at : ℕ → ℤ
number_at k = if k % 2 == 0 then pos (k / 2) else negsuc (k / 2)

abbrev pub address : ℤ → Value
address z = (number_of z + 1) * 16

abbrev big_at : Value → ℤ
big_at w = number_at (w / 16 - 1)

abbrev value_of : Value → ℤ
value_of w = if w % 2 == 1 then to_isize w else big_at w

abbrev normal : ℤ → Value
normal z =
    if leb_ℤ ruby_fixnum_min z && leb_ℤ z (pos ruby_fixnum_max) then fixnum_word z else address z

abbrev within_signed : ℤ → Completion ℤ
within_signed z =
    if leb_ℤ (negsuc (2 ^ 63 - 1)) z && leb_ℤ z (pos (2 ^ 63 - 1))
    then returned z
    else unwound raise 0x900

abbrev within_unsigned : ℤ → Completion ℕ
within_unsigned (pos n) = if ltb n word_mod then returned n else unwound raise 0x900
within_unsigned (negsuc n) = unwound raise 0x900

abbrev floor : ℤ → ℤ → ℤ
floor (pos n) (pos m) = pos (n / m)
floor (negsuc n) (pos m) = negsuc (n / m)
floor (pos n) (negsuc m) = sub_ℕ 0 ((n + m) / (m + 1))
floor (negsuc n) (negsuc m) = pos ((n + 1) / (m + 1))

abbrev pub sample : Numbers
sample = record {
  heap = record { flags = λ w. if (w / 16 - 1) % 2 == 0 then 0x200a else 0x0a; klass = λ w. 0 };
  live = λ w. w % 16 == 0 && ltb 0 w;
  is_range_error = λ v. v == 0x900;
  big = big_at;
  rb_ll2inum = normal;
  rb_ull2inum = λ n. normal (pos n);
  rb_int2big = address;
  rb_big_plus = λ a b. normal (big_at a +ℤ value_of b);
  rb_big_minus = λ a b. normal (big_at a -ℤ value_of b);
  rb_big_mul = λ a b. normal (big_at a *ℤ value_of b);
  rb_big_div = λ a b.
      if eqb_ℤ (value_of b) (pos 0)
      then unwound raise 0
      else returned (normal (floor (big_at a) (value_of b)));
  rb_big_norm = λ a. normal (big_at a);
  rb_big_cmp = λ a b. fixnum_word (
      if ltb_ℤ (big_at a) (value_of b)
      then negsuc 0
      else if ltb_ℤ (value_of b) (big_at a)
      then pos 1
      else pos 0);
  rb_big_eq = λ a b. if eqb_ℤ (big_at a) (value_of b) then 0x14 else 0;
  rb_num2long = λ a. within_signed (big_at a);
  rb_num2ll = λ a. within_signed (big_at a);
  rb_num2ulong = λ a. within_unsigned (big_at a);
  rb_num2ull = λ a. within_unsigned (big_at a);
}

big_at-address : (z : ℤ) → big_at (address z) ≡ z
big_at-address (pos n) = ground arith
big_at-address (negsuc n) = ground arith

address-IsBignum : (z : ℤ) → IsBignum sample (address z)
address-IsBignum (pos n) = ground arith
address-IsBignum (negsuc n) = ground arith

value_of-address : (z : ℤ) → value_of (address z) ≡ z
value_of-address (pos n) = ground arith
value_of-address (negsuc n) = ground arith

value_of-bignum : (w : Value) → IsBignum sample w → value_of w ≡ big_at w
value_of-bignum w h = ground arith

pub normal-Represents : (z : ℤ) → Represents sample z (normal z)
normal-Represents z = elim (Bool-cases (leb_ℤ ruby_fixnum_min z && leb_ℤ z (pos ruby_fixnum_max))) [
  | inl e ↦ rw e (fixnum_word-Represents sample z (within e))
  | inr e ↦ rw e (inr (address-IsBignum z, rw (big_at-address z) (outside e)), value_of-address z)
]
  where
    within : (leb_ℤ ruby_fixnum_min z && leb_ℤ z (pos ruby_fixnum_max)) ≡ true → IsFixnumRange z
    within e = ground arith

    outside : (leb_ℤ ruby_fixnum_min z && leb_ℤ z (pos ruby_fixnum_max)) ≡ false → ¬ IsFixnumRange z
    outside e f = ground arith

floor-IsFloor : (a b : ℤ) → b ≢ pos 0 → IsFloor a b (floor a b)
unfolding ◌-ℤ◌ ◌*ℤ◌
floor-IsFloor (pos n) (pos m) h = grind (arith, div-add-mod n m, mod-lt)
floor-IsFloor (negsuc n) (pos m) h = grind (arith, div-add-mod n m, mod-lt)
floor-IsFloor (pos n) (negsuc m) h = grind (arith, div-add-mod (n + m) (m + 1), mod-lt)
floor-IsFloor (negsuc n) (negsuc m) h = grind (arith, div-add-mod (n + 1) (m + 1), mod-lt)

sample_floor :
    (a b : ℤ) (q : Value)
    → b ≢ pos 0
    → (if eqb_ℤ b (pos 0) then unwound raise 0 else returned (normal (floor a b))) ≡ returned q
    → IsFloor a b (value_of q)
sample_floor a b q ne e = elim (Bool-cases (eqb_ℤ b (pos 0))) [
  | inl z ↦ absurd (ne ((eqb_ℤ_iff b (pos 0)).0 z))
  | inr nz ↦
      let w : normal (floor a b) ≡ q = returned_injective (rw nz at e) in
      rw (← w, (normal-Represents (floor a b)).1) (floor-IsFloor a b ne)
]
  where
    returned_injective : {x y : Value} → returned x ≡ returned y → x ≡ y
    returned_injective p = cc

signed-ReturnsWithin :
    (z : ℤ)
    → ReturnsWithin sample.is_range_error
        (λ a. a)
        (negsuc (2 ^ 63 - 1))
        (pos (2 ^ 63 - 1))
        z
        (within_signed z)
signed-ReturnsWithin (pos n) = ground arith
signed-ReturnsWithin (negsuc n) = ground arith

unsigned-ReturnsWithin :
    (z : ℤ) → ReturnsWithin sample.is_range_error pos (pos 0) (uint_max 64) z (within_unsigned z)
unsigned-ReturnsWithin (pos n) = ground arith
unsigned-ReturnsWithin (negsuc n) = ((λ b. absurd (omega arith)), refl, refl)

pub sample-IsNumbers : IsNumbers modern sample
sample-IsNumbers = record {
  ll2inum_law = λ n h. normal-Represents n;
  ull2inum_law = λ n h. normal-Represents (pos n);
  int2big_law = λ n h. (address-IsBignum n, big_at-address n);
  plus_law = λ a b ha hb. normal-Represents _;
  minus_law = λ a b ha hb. normal-Represents _;
  mul_law = λ a b ha hb. normal-Represents _;
  div_law = λ a b q ha hb ne e. sample_floor (big_at a) (value_of b) q ne e;
  norm_law = λ a ha. normal-Represents _;
  cmp_law = λ a b ha hb. refl;
  eq_law = λ a b ha hb. (
    λ e. ground (arith, eqb_ℤ_iff (big_at a) (value_of b)),
    λ e. ground (arith, eqb_ℤ_iff (big_at a) (value_of b)),
  );
  num2long_law = λ a ha. signed-ReturnsWithin (big_at a);
  num2ll_law = λ a ha. signed-ReturnsWithin (big_at a);
  num2ulong_law = λ a ha h. unsigned-ReturnsWithin (big_at a);
  num2ull_law = λ a ha h. unsigned-ReturnsWithin (big_at a);
  sign_law = λ a ha. ground arith;
  type_law = λ a ha. ground arith;
}

-- ===== src/Ruby/Numbers.antt =====
-- The functions of Ruby's C API that src/integer.rs and src/r_bignum.rs call, as a parameter,
-- with what Ruby documents of them.
use magnus.Prelude.{
  ℕ, ◌-◌, ◌%◌, ◌^◌, ◌<◌, ◌≡◌, ◌≢◌, ◌↔◌, ◌⊎◌, Bool, true, false, ◌==◌, if◌then◌else◌, bit_and,
}
use magnus.Prelude.Int.{ℤ, pos, negsuc, ◌+ℤ◌, ◌-ℤ◌, ◌*ℤ◌, ltb_ℤ, ◌<ℤ◌, ◌≤ℤ◌}
use magnus.Bits.Word.{word_mod, IsI64, Between, uint_max}
use magnus.Ruby.{Value, Consts, Heap}
use magnus.Error.{Completion, returned, unwound}
use magnus.Fixnum.{to_isize}
use magnus.Fixnum.Encoding.{IsFixnumWord, IsFixnumRange, fixnum_word}

-- `live w` says that `w` is the address of a Bignum object, and `big w` is its number.
pub record Numbers : Type 0 where
  pub heap : Heap
  pub live : Value → Bool
  pub is_range_error : Value → Bool
  pub big : Value → ℤ
  pub rb_ll2inum : ℤ → Value
  pub rb_ull2inum : ℕ → Value
  pub rb_int2big : ℤ → Value
  pub rb_big_plus : Value → Value → Value
  pub rb_big_minus : Value → Value → Value
  pub rb_big_mul : Value → Value → Value
  pub rb_big_div : Value → Value → Completion Value
  pub rb_big_norm : Value → Value
  pub rb_big_cmp : Value → Value → Value
  pub rb_big_eq : Value → Value → Value
  pub rb_num2long : Value → Completion ℤ
  pub rb_num2ll : Value → Completion ℤ
  pub rb_num2ulong : Value → Completion ℕ
  pub rb_num2ull : Value → Completion ℕ

module _ (r : Numbers) where
  abbrev pub IsBignum : Value → Type 0
  IsBignum w = (w % 2 ≡ 0) × (r.live w ≡ true)

  abbrev pub IsInteger : Value → Type 0
  IsInteger w = IsFixnumWord w ⊎ IsBignum w

  -- The number that an Integer value stands for.
  abbrev pub denote : Value → ℤ
  denote w = if w % 2 == 1 then to_isize w else r.big w

  -- The form in which Ruby returns an integer: a fixnum where the number fits one.
  abbrev pub IsNormal : Value → Type 0
  IsNormal w = IsFixnumWord w ⊎ (IsBignum w × ¬ IsFixnumRange (r.big w))

  abbrev pub Represents : ℤ → Value → Type 0
  Represents z w = IsNormal w × (denote w ≡ z)

  -- The sign of a comparison, as an integer.
  abbrev pub sign_of : ℤ → ℤ → ℤ
  sign_of a b = if ltb_ℤ a b then negsuc 0 else if ltb_ℤ b a then pos 1 else pos 0

-- `q` is the quotient of `a` by `b` rounded towards minus infinity: the remainder has the sign of
-- the divisor and is smaller.
abbrev pub IsFloor : ℤ → ℤ → ℤ → Type 0
IsFloor a b q =
    let rest = a -ℤ b *ℤ q in
    ((pos 0 <ℤ b) → (pos 0 ≤ℤ rest) × (rest <ℤ b)) × ((b <ℤ pos 0) → (rest ≤ℤ pos 0) × (b <ℤ rest))

-- A conversion to a C integer type returns the number if the type holds it, and raises a RangeError
-- elsewhere; `raised` tells which exceptions are such.
abbrev pub ReturnsWithin :
    (Value → Bool) → {A : Type 0} → (A → ℤ) → ℤ → ℤ → ℤ → Completion A → Type 0
ReturnsWithin raised value lo hi z (returned a) = Between lo hi z × (value a ≡ z)
ReturnsWithin raised value lo hi z (unwound tag info) =
    (¬ Between lo hi z) × (tag ≡ magnus.Error.Tag.raise) × (raised info ≡ true)

pub record IsNumbers (c : Consts) (r : Numbers) : Type 0 where
  pub ll2inum_law : (n : ℤ) → IsI64 n → Represents r n (r.rb_ll2inum n)
  pub ull2inum_law : (n : ℕ) → n < word_mod → Represents r (pos n) (r.rb_ull2inum n)
  pub int2big_law : (n : ℤ) → IsI64 n → IsBignum r (r.rb_int2big n) × (r.big (r.rb_int2big n) ≡ n)
  pub plus_law :
      (a b : Value)
      → IsBignum r a
      → IsInteger r b
      → Represents r (r.big a +ℤ denote r b) (r.rb_big_plus a b)
  pub minus_law :
      (a b : Value)
      → IsBignum r a
      → IsInteger r b
      → Represents r (r.big a -ℤ denote r b) (r.rb_big_minus a b)
  pub mul_law :
      (a b : Value)
      → IsBignum r a
      → IsInteger r b
      → Represents r (r.big a *ℤ denote r b) (r.rb_big_mul a b)
  -- Ruby's division rounds towards minus infinity, and raises on zero.
  pub div_law :
      (a b q : Value)
      → IsBignum r a
      → IsInteger r b
      → denote r b ≢ pos 0
      → r.rb_big_div a b ≡ returned q
      → IsFloor (r.big a) (denote r b) (denote r q)
  pub norm_law : (a : Value) → IsBignum r a → Represents r (r.big a) (r.rb_big_norm a)
  pub cmp_law :
      (a b : Value)
      → IsBignum r a
      → IsInteger r b
      → r.rb_big_cmp a b ≡ fixnum_word (sign_of r (r.big a) (denote r b))
  pub eq_law :
      (a b : Value)
      → IsBignum r a
      → IsInteger r b
      → (r.rb_big_eq a b ≡ c.qtrue) ↔ (r.big a ≡ denote r b)
  pub num2long_law :
      (a : Value)
      → IsBignum r a
      → ReturnsWithin r.is_range_error
          (λ z. z)
          (negsuc (2 ^ 63 - 1))
          (pos (2 ^ 63 - 1))
          (r.big a)
          (r.rb_num2long a)
  pub num2ll_law :
      (a : Value)
      → IsBignum r a
      → ReturnsWithin r.is_range_error
          (λ z. z)
          (negsuc (2 ^ 63 - 1))
          (pos (2 ^ 63 - 1))
          (r.big a)
          (r.rb_num2ll a)
  -- The unsigned conversions are documented for numbers that are not negative.
  pub num2ulong_law :
      (a : Value)
      → IsBignum r a
      → ltb_ℤ (r.big a) (pos 0) ≡ false
      → ReturnsWithin r.is_range_error pos (pos 0) (uint_max 64) (r.big a) (r.rb_num2ulong a)
  pub num2ull_law :
      (a : Value)
      → IsBignum r a
      → ltb_ℤ (r.big a) (pos 0) ≡ false
      → ReturnsWithin r.is_range_error pos (pos 0) (uint_max 64) (r.big a) (r.rb_num2ull a)
  -- The sign flag of a Bignum object is set when it is not negative, and its type is Bignum's.
  pub sign_law :
      (a : Value)
      → IsBignum r a
      → (bit_and (r.heap.flags a) c.fl_user1 == 0) ≡ ltb_ℤ (r.big a) (pos 0)
  pub type_law : (a : Value) → IsBignum r a → bit_and (r.heap.flags a) c.t_mask ≡ c.t_bignum

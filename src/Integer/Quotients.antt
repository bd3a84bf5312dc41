-- ===== src/Integer/Quotients.antt =====
-- `/` of integers: two fixnums are divided by Rust, which rounds towards zero; where a Bignum
-- takes part Ruby divides, and rounds towards minus infinity.
use native.Mathlib.Nat.{div-add-mod}
use magnus.Prelude.{ℕ, ◌+◌, ◌%◌, ◌<◌, ◌≡◌, ◌≢◌, ◌⊎◌, inl, inr, false, sym, ◌∙◌, arith, Bool-cases}
use magnus.Prelude.Int.{ℤ, pos, negsuc, ◌-ℤ◌, ◌*ℤ◌, eqb_ℤ, eqb_ℤ_iff}
use magnus.Bits.Word.{IsI64}
use magnus.Ruby.{Value, Consts, IsDocumented}
use magnus.Ruby.Numbers.{Numbers, IsNumbers, Represents, IsInteger, IsBignum, denote, IsFloor}
use magnus.Error.{returned}
use magnus.Fixnum.{to_isize, to_i64}
use magnus.Fixnum.Encoding.{IsFixnumRange, IsFixnumWord, to_isize-IsFixnumRange}
use magnus.Integer.Construct.{denote-fixnum, denote-bignum, integer_from_i64-Represents}
use magnus.Integer.Visit.{visit_bignum, visit_fixnum}
use magnus.Integer.{
  quotient, divide_panic, div, div_fixnum, div_bignum, truncated, integer_from_i64,
}

truncated-IsI64 : (a b : ℤ) → IsFixnumRange a → b ≢ pos 0 → IsI64 (truncated a b)
truncated-IsI64 (pos n) (pos m) h ne = grind arith
truncated-IsI64 (negsuc n) (pos m) h ne = grind arith
truncated-IsI64 (pos n) (negsuc m) h ne = grind arith
truncated-IsI64 (negsuc n) (negsuc m) h ne = grind arith

-- With a negative dividend, a positive divisor and a rest, Rust's quotient is not Ruby's.
truncated_not-IsFloor :
    (n m : ℕ)
    → 0 < m
    → (n + 1) % m ≢ 0
    → ¬ IsFloor (negsuc n) (pos m) (truncated (negsuc n) (pos m))
unfolding ◌-ℤ◌ ◌*ℤ◌
truncated_not-IsFloor n m h rest f = grind (arith, div-add-mod (n + 1) m)

module _ (c : Consts) (r : Numbers) (d : IsDocumented c) (l : IsNumbers c r) (a b : Value) where
  rust_quotient :
      IsFixnumWord a
      → eqb_ℤ (to_isize b) (pos 0) ≡ false
      → (q : Value) × (to_isize b ≢ pos 0)
        × (div_fixnum c r a b ≡ quotient q)
        × Represents r (truncated (to_isize a) (to_isize b)) q
  unfolding div_fixnum to_i64
  rust_quotient h nz = (
    integer_from_i64 c r (truncated (to_isize a) (to_isize b)),
    nonzero,
    rw (nz, div_fixnum),
    integer_from_i64-Represents c r l _
        (truncated-IsI64 (to_isize a) (to_isize b) (to_isize-IsFixnumRange a h) nonzero),
  )
    where
      nonzero : to_isize b ≢ pos 0
      nonzero e = cc ((eqb_ℤ_iff (to_isize b) (pos 0)).1 e)

  -- `/` of two fixnums panics when the divisor is zero, and gives the integer of the quotient
  -- truncated towards zero when it is not.
  pub div_fixnum_lem :
      IsFixnumWord a
      → IsFixnumWord b
      → ((denote r b ≡ pos 0) × (div c r a b ≡ divide_panic))
        ⊎ ((q : Value) × (denote r b ≢ pos 0)
            × (div c r a b ≡ quotient q)
            × Represents r (truncated (denote r a) (denote r b)) q)
  unfolding div div_fixnum to_i64
  div_fixnum_lem h k =
      rw
        (
          visit_fixnum c r d a b (div_fixnum c r) (div_bignum c r) h k,
          denote-fixnum r a h,
          denote-fixnum r b k,
        )
        (elim (Bool-cases (eqb_ℤ (to_isize b) (pos 0))) [
          | inl z ↦ inl ((eqb_ℤ_iff _ _).0 z, rw (z, div_fixnum))
          | inr nz ↦ inr (rust_quotient h nz)
        ])

  -- `/` of a Bignum by an integer that is not zero gives what Ruby's division returns, when it
  -- returns, and this is the quotient rounded towards minus infinity.
  pub div_bignum_lem :
      (q : Value)
      → IsBignum r a
      → IsInteger r b
      → denote r b ≢ pos 0
      → r.rb_big_div a b ≡ returned q
      → (div c r a b ≡ quotient q) × IsFloor (denote r a) (denote r b) (denote r q)
  unfolding div div_bignum
  div_bignum_lem q h hb ne e = (
    rw (visit_bignum c r d a b (div_fixnum c r) (div_bignum c r) h) (rw (e, div_bignum)),
    rw (denote-bignum r a h) (l.div_law a b q h hb ne e),
  )

  -- `/` of a negative fixnum by a positive one that does not divide it is not the quotient rounded
  -- towards minus infinity, which Ruby's `/` is.
  pub div_fixnum-not-IsFloor :
      (n m : ℕ)
      → IsFixnumWord a
      → IsFixnumWord b
      → denote r a ≡ negsuc n
      → denote r b ≡ pos m
      → 0 < m
      → (n + 1) % m ≢ 0
      → (q : Value) × (div c r a b ≡ quotient q) × ¬ IsFloor (denote r a) (denote r b) (denote r q)
  div_fixnum-not-IsFloor n m h k ea eb positive rest = elim (div_fixnum_lem h k) [
    | inl (zero_divisor, panics) ↦ absurd (not_zero (sym eb ∙ zero_divisor))
    | inr (q, ne, made, (normal, same)) ↦
        (q, made, rw (same, ea, eb) (truncated_not-IsFloor n m positive rest))
  ]
    where
      not_zero : pos m ≡ pos 0 → ⊥
      not_zero e = omega (arith, pos_injective e)
        where
          pos_injective : pos m ≡ pos 0 → m ≡ 0
          pos_injective p = cc

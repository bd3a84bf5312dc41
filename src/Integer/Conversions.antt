-- ===== src/Integer/Conversions.antt =====
-- The conversions of an integer in Ruby's form to Rust's integer types.
use magnus.Prelude.{Bool, ◌≡◌, ◌≢◌, refl, inl, inr, ok, err, panic, arith, String}
use magnus.Prelude.Int.{ℤ, pos, ◌≤ℤ◌, ◌<ℤ◌}
use magnus.Bits.Word.{Between, int_min, int_max, uint_max}
use magnus.Ruby.{Value, Consts, IsDocumented}
use magnus.Ruby.Numbers.{Numbers, IsNumbers, IsNormal, IsBignum, denote}
use magnus.Error.{
  Result, IsRangeError, jump, exception, error, range_error, type_error, arg_error, index_error,
  fatal, user_class,
}
use magnus.Fixnum
use magnus.Fixnum.{to_isize}
use magnus.Fixnum.Encoding.{IsFixnumRange, IsFixnumWord, to_isize-IsFixnumRange}
use magnus.Fixnum.Conversions as Small
use magnus.Fixnum.Conversions.{IsConversion}
use magnus.Bignum
use magnus.Bignum.Conversions as Large
use magnus.Bignum.Conversions.{IsExact, IsRangeErr}
use magnus.Integer.Construct.{
  integer_type_fixnum, integer_type_bignum, denote-fixnum, denote-bignum,
}
use magnus.Integer.{fixnum, bignum, integer_type}
use magnus.Integer.Casts.{
  to_i8, to_i16, to_i32, to_i64, to_isize as to_isize_int, to_u8, to_u16, to_u32, to_u64, to_usize,
}

IsRangeError-IsRangeErr :
    {A : Type 0} (raised : Value → Bool) (x : Result A) → IsRangeError x → IsRangeErr raised x
IsRangeError-IsRangeErr raised (ok a) h = absurd h
IsRangeError-IsRangeErr raised panic h = absurd h
IsRangeError-IsRangeErr raised (err (jump t)) h = absurd h
IsRangeError-IsRangeErr raised (err (exception e)) h = absurd h
IsRangeError-IsRangeErr raised (err (error range_error m)) h = (error range_error m, refl, tt)
IsRangeError-IsRangeErr raised (err (error type_error m)) h = absurd h
IsRangeError-IsRangeErr raised (err (error arg_error m)) h = absurd h
IsRangeError-IsRangeErr raised (err (error index_error m)) h = absurd h
IsRangeError-IsRangeErr raised (err (error fatal m)) h = absurd h
IsRangeError-IsRangeErr raised (err (error (user_class v) m)) h = absurd h

IsConversion-IsExact :
    {raised : Value → Bool} (lo hi : ℤ) {A : Type 0} (value : A → ℤ) (z : ℤ) (x : Result A)
    → IsConversion lo hi value z x
    → IsExact raised lo hi value z x
IsConversion-IsExact {raised} lo hi value z x h =
    (h.0, λ b. IsRangeError-IsRangeErr raised x (h.1 b))

-- A conversion that dispatches on the kind of integer is exact if both its branches are.
module _ (c : Consts) (r : Numbers) (d : IsDocumented c) (w : Value) where
  dispatch :
      (lo hi : ℤ) {A : Type 0} (value : A → ℤ) (f g : Value → Result A)
      → (IsFixnumWord w → IsExact r.is_range_error lo hi value (to_isize w) (f w))
      → (IsBignum r w
          → ¬ IsFixnumRange (r.big w)
          → IsExact r.is_range_error lo hi value (r.big w) (g w))
      → IsNormal r w
      → IsExact r.is_range_error lo hi value
          (denote r w)
          (elim (integer_type c r w) [ fixnum x ↦ f x | bignum x ↦ g x ])
  dispatch lo hi value f g small large (inl h) =
      rw (denote-fixnum r w h, integer_type_fixnum c r d w h) (small h)
  dispatch lo hi value f g small large (inr h) =
      rw (denote-bignum r w h.0, integer_type_bignum c r d w h.0) (large h.0 h.1)

-- A number outside the fixnums is outside the smaller types too.
refused :
    {raised : Value → Bool} (lo hi z : ℤ) {A : Type 0} (value : A → ℤ) (m : String)
    → Between Fixnum.ruby_fixnum_min (pos Fixnum.ruby_fixnum_max) lo
    → Between Fixnum.ruby_fixnum_min (pos Fixnum.ruby_fixnum_max) hi
    → ¬ IsFixnumRange z
    → IsExact raised lo hi value z (err (error range_error m))
refused lo hi z value m l h out =
    (λ b. absurd (out (omega arith)), λ b. (error range_error m, refl, tt))

-- Every fixnum is an `i64`.
kept :
    {raised : Value → Bool} (w : Value)
    → IsFixnumWord w
    → IsExact raised (int_min 64) (int_max 64) (λ z. z) (to_isize w) (ok (to_isize w))
kept w h = (λ b. (to_isize w, refl, refl), λ b. absurd (b (within (to_isize-IsFixnumRange w h))))
  where
    within : IsFixnumRange (to_isize w) → Between (int_min 64) (int_max 64) (to_isize w)
    within f = omega arith

module _ (c : Consts) (r : Numbers) (d : IsDocumented c) (l : IsNumbers c r) (w : Value)
    (n : IsNormal r w) where
  -- `to_i8`, `to_i16`, `to_i64` and `to_isize` of an integer in Ruby's form give its number when the
  -- type holds it, and a `RangeError` when not.
  pub signed-IsExact :
      IsExact r.is_range_error (int_min 8) (int_max 8) (λ z. z) (denote r w) (to_i8 c r w)
      × IsExact r.is_range_error (int_min 16) (int_max 16) (λ z. z) (denote r w) (to_i16 c r w)
      × IsExact r.is_range_error (int_min 64) (int_max 64) (λ z. z) (denote r w) (to_i64 c r w)
      × IsExact r.is_range_error
          (int_min 64)
          (int_max 64)
          (λ z. z)
          (denote r w)
          (to_isize_int c r w)
  unfolding to_i8 to_i16 to_i64 to_isize_int
  signed-IsExact = (
    dispatch c r d w (int_min 8) (int_max 8) (λ z. z) Fixnum.to_i8 _
        (λ h.
          IsConversion-IsExact (int_min 8) (int_max 8) (λ z. z) (to_isize w) (Fixnum.to_i8 w)
            (Small.to_i8_lem w))
        (λ h out.
          refused (int_min 8) (int_max 8) (r.big w) (λ z. z) _ (omega arith) (omega arith) out)
        n,
    dispatch c r d w (int_min 16) (int_max 16) (λ z. z) Fixnum.to_i16 _
        (λ h.
          IsConversion-IsExact (int_min 16) (int_max 16) (λ z. z) (to_isize w) (Fixnum.to_i16 w)
            (Small.to_i16_lem w))
        (λ h out.
          refused (int_min 16) (int_max 16) (r.big w) (λ z. z) _ (omega arith) (omega arith) out)
        n,
    dispatch c r d w (int_min 64) (int_max 64) (λ z. z) (λ x. ok (Fixnum.to_i64 x))
        (Bignum.to_i64 c r) (λ h. unfold Fixnum.to_i64 in kept w h)
        (λ h out. Large.to_i64-IsExact c r l w h) n,
    dispatch c r d w (int_min 64) (int_max 64) (λ z. z) (λ x. ok (Fixnum.to_isize x))
        (Bignum.to_isize c r) (kept w) (λ h out. Large.to_isize-IsExact c r l w h) n,
  )

  -- `to_u8`, `to_u16`, `to_u32`, `to_u64` and `to_usize` of an integer in Ruby's form give its number
  -- when the type holds it, and a `RangeError` when not, so also for every negative number.
  pub unsigned-IsExact :
      IsExact r.is_range_error (pos 0) (uint_max 8) pos (denote r w) (to_u8 c r w)
      × IsExact r.is_range_error (pos 0) (uint_max 16) pos (denote r w) (to_u16 c r w)
      × IsExact r.is_range_error (pos 0) (uint_max 32) pos (denote r w) (to_u32 c r w)
      × IsExact r.is_range_error (pos 0) (uint_max 64) pos (denote r w) (to_u64 c r w)
      × IsExact r.is_range_error (pos 0) (uint_max 64) pos (denote r w) (to_usize c r w)
  unfolding to_u8 to_u16 to_u32 to_u64 to_usize
  unsigned-IsExact = (
    dispatch c r d w (pos 0) (uint_max 8) pos Fixnum.to_u8 _
        (λ h.
          IsConversion-IsExact (pos 0) (uint_max 8) pos (to_isize w) (Fixnum.to_u8 w)
            (Small.to_u8_lem w))
        (λ h out. refused (pos 0) (uint_max 8) (r.big w) pos _ (omega arith) (omega arith) out) n,
    dispatch c r d w (pos 0) (uint_max 16) pos Fixnum.to_u16 _
        (λ h.
          IsConversion-IsExact (pos 0) (uint_max 16) pos (to_isize w) (Fixnum.to_u16 w)
            (Small.to_u16_lem w))
        (λ h out. refused (pos 0) (uint_max 16) (r.big w) pos _ (omega arith) (omega arith) out) n,
    dispatch c r d w (pos 0) (uint_max 32) pos Fixnum.to_u32 (Bignum.to_u32 c r)
        (λ h.
          IsConversion-IsExact (pos 0) (uint_max 32) pos (to_isize w) (Fixnum.to_u32 w)
            (Small.to_u32_lem w))
        (λ h out. Large.to_u32-IsExact c r l w h) n,
    dispatch c r d w (pos 0) (uint_max 64) pos Fixnum.to_u64 (Bignum.to_u64 c r)
        (λ h.
          IsConversion-IsExact (pos 0) (uint_max 64) pos (to_isize w) (Fixnum.to_u64 w)
            (Small.to_u64_lem w h.0))
        (λ h out. Large.to_u64-IsExact c r l w h) n,
    dispatch c r d w (pos 0) (uint_max 64) pos Fixnum.to_usize (Bignum.to_usize c r)
        (λ h.
          IsConversion-IsExact (pos 0) (uint_max 64) pos (to_isize w) (Fixnum.to_usize w)
            (Small.to_usize_lem w h.0))
        (λ h out. Large.to_usize-IsExact c r l w h) n,
  )

  -- `to_i32` of an integer in Ruby's form that is not below the least `i32` gives its number when
  -- an `i32` holds it, and a `RangeError` when not.
  pub to_i32-IsExact :
      int_min 32 ≤ℤ denote r w
      → IsExact r.is_range_error (int_min 32) (int_max 32) (λ z. z) (denote r w) (to_i32 c r w)
  unfolding to_i32
  to_i32-IsExact low =
      dispatch c r d w (int_min 32) (int_max 32) (λ z. z) Fixnum.to_i32 (Bignum.to_i32 c r)
        (λ h.
          IsConversion-IsExact (int_min 32) (int_max 32) (λ z. z) (to_isize w) (Fixnum.to_i32 w)
            (Small.to_i32_lem w))
        (λ h out. Large.to_i32-not_below c r l w h (rw (denote-bignum r w h) at low)) n

  -- `to_i32` of a number below the fixnums that fits an `i64` is not refused, though no `i32` holds
  -- it: the result is `Ok` of another number.
  pub to_i32_wrong :
      int_min 64 ≤ℤ denote r w
      → denote r w <ℤ Fixnum.ruby_fixnum_min
      → (a : ℤ) × (to_i32 c r w ≡ ok a) × (a ≢ denote r w)
  to_i32_wrong low high = go n
    where
      go : IsNormal r w → (a : ℤ) × (to_i32 c r w ≡ ok a) × (a ≢ denote r w)
      go (inl h) = absurd (outside (rw (denote-fixnum r w h) at high) (to_isize-IsFixnumRange w h))
        where
          outside : to_isize w <ℤ Fixnum.ruby_fixnum_min → IsFixnumRange (to_isize w) → ⊥
          outside p q = omega arith
      go (inr h) =
          let (a, e, ne) =
            Large.to_i32-below c r l w h.0 (rw (denote-bignum r w h.0) at low)
              (far (rw (denote-bignum r w h.0) at high)) in
          (
            a,
            unfold to_i32 in ground (arith, integer_type_bignum c r d w h.0),
            rw (denote-bignum r w h.0) ne,
          )
        where
          far : r.big w <ℤ Fixnum.ruby_fixnum_min → r.big w <ℤ int_min 32
          far p = omega arith

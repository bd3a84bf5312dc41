-- ===== src/Bignum/Conversions.antt =====
-- When the conversions of a Bignum to Rust's integer types succeed, and with what.
use magnus.Prelude.{
  Bool, if◌then◌else◌, ℕ, ◌≡◌, ◌≢◌, refl, inl, inr, ok, err, true, false, arith, Bool-cases,
}
use magnus.Prelude.Int.{ℤ, pos, negsuc, ◌≤ℤ◌, ◌<ℤ◌, ltb_ℤ}
use magnus.Bits.Word.{Between, int_min, int_max, uint_max, as_signed}
use magnus.Ruby.{Value, Consts}
use magnus.Ruby.Numbers.{Numbers, IsNumbers, IsBignum, ReturnsWithin}
use magnus.Error.{
  Result, Completion, returned, unwound, protect, ErrorType, error, range_error, exception,
}
use magnus.Fixnum.Conversions.{as_signed-Between}
use magnus.Fixnum.{negative_to_unsigned}
use magnus.Bignum.{
  isize_of, i32_of, u32_of, usize_of, is_negative, to_i32, to_i64, to_isize, to_u32, to_u64,
  to_usize,
}

-- The error is a RangeError: one of this class, or an exception that is such.
abbrev pub IsRange : (Value → Bool) → ErrorType → Type 0
IsRange raised (error range_error m) = Unit {0}
IsRange raised (exception e) = raised e ≡ true
IsRange raised _ = ⊥

-- The call returned a RangeError.
abbrev pub IsRangeErr : (Value → Bool) → {A : Type 0} → Result A → Type 0
IsRangeErr raised r = (e : ErrorType) × (r ≡ err e) × IsRange raised e

-- A conversion to the integers in `[lo, hi]` keeps the number, and refuses the others with a RangeError.
abbrev pub IsExact : (Value → Bool) → ℤ → ℤ → {A : Type 0} → (A → ℤ) → ℤ → Result A → Type 0
IsExact raised lo hi value z r =
    (Between lo hi z → (a : _) × (r ≡ ok a) × (value a ≡ z))
    × (¬ Between lo hi z → IsRangeErr raised r)

-- A call that Ruby documents to return within a range is exact under `protect`.
protect-IsExact :
    {raised : Value → Bool} (c : Consts) {A : Type 0} (value : A → ℤ) (lo hi z : ℤ)
    (m : Completion A)
    → ReturnsWithin raised value lo hi z m
    → IsExact raised lo hi value z (protect c m).result
protect-IsExact c value lo hi z (returned a) h =
    (λ b. (a, unfold protect in refl, h.1), λ b. absurd (b h.0))
protect-IsExact c value lo hi z (unwound tag info) h =
    (λ b. absurd (h.0 b), λ b. (exception info, (unfold protect in rw h.1), h.2))

-- `if res > max { return Err(..) } Ok(res as iK)` after a call that returns an `i64`.
to_isize_after :
    {raised : Value → Bool} (c : Consts) (z : ℤ) (m : Completion ℤ)
    → ReturnsWithin raised (λ z. z) (int_min 64) (int_max 64) z m
    → IsExact raised (int_min 64) (int_max 64) (λ z. z) z (isize_of (protect c m).result)
to_isize_after c z (returned a) h = (
  λ b. (
    a,
    unfold protect in ground (arith, as_signed-Between 64 a (omega arith) (omega arith)),
    h.1,
  ),
  λ b. absurd (b h.0),
)
to_isize_after c z (unwound tag info) h =
    (λ b. absurd (h.0 b), λ b. (exception info, (unfold protect in rw h.1), h.2))

-- The same for the calls that return a `u64`.
u32_of-IsExact :
    {raised : Value → Bool} (c : Consts) (z : ℤ) (m : Completion ℕ)
    → ReturnsWithin raised pos (pos 0) (uint_max 64) z m
    → IsExact raised (pos 0) (uint_max 32) pos z (u32_of (protect c m).result)
u32_of-IsExact c z (returned n) h = (
  λ b. (n, unfold protect in ground arith, h.1),
  λ b. (
    error range_error "bignum too big to convert into `u32`",
    (unfold protect in ground arith),
    tt,
  ),
)
u32_of-IsExact c z (unwound tag info) h =
    (λ b. absurd (h.0 (b.0, omega arith)), λ b. (exception info, (unfold protect in rw h.1), h.2))

usize_of-IsExact :
    {raised : Value → Bool} (c : Consts) (z : ℤ) (m : Completion ℕ)
    → ReturnsWithin raised pos (pos 0) (uint_max 64) z m
    → IsExact raised (pos 0) (uint_max 64) pos z (usize_of (protect c m).result)
usize_of-IsExact c z (returned n) h =
    (λ b. (n, unfold protect in ground arith, h.1), λ b. absurd (b h.0))
usize_of-IsExact c z (unwound tag info) h =
    (λ b. absurd (h.0 b), λ b. (exception info, (unfold protect in rw h.1), h.2))

-- `to_i32` tests the upper bound alone.
i32_of-not_below :
    {raised : Value → Bool} (c : Consts) (z : ℤ) (m : Completion ℤ)
    → ReturnsWithin raised (λ a. a) (int_min 64) (int_max 64) z m
    → int_min 32 ≤ℤ z
    → IsExact raised (int_min 32) (int_max 32) (λ a. a) z (i32_of (protect c m).result)
i32_of-not_below c z (returned a) h low = (
  λ b. (
    a,
    unfold protect in ground (arith, as_signed-Between 32 a (omega arith) (omega arith)),
    h.1,
  ),
  λ b. (
    error range_error "bignum too big to convert into `i32`",
    (unfold protect in ground arith),
    tt,
  ),
)
i32_of-not_below c z (unwound tag info) h low = (
  λ b. absurd (h.0 (low_end b, high_end b)),
  λ b. (exception info, (unfold protect in rw h.1), h.2),
)
  where
    low_end : Between (int_min 32) (int_max 32) z → int_min 64 ≤ℤ z
    low_end b = omega arith

    high_end : Between (int_min 32) (int_max 32) z → z ≤ℤ int_max 64
    high_end b = omega arith

as_signed-differs : (z : ℤ) → z <ℤ int_min 32 → as_signed 32 z ≢ z
as_signed-differs (pos n) h = absurd (omega arith)
as_signed-differs (negsuc n) h = ground arith

i32_of-below :
    (raised : Value → Bool) (c : Consts) (z : ℤ) (m : Completion ℤ)
    → ReturnsWithin raised (λ a. a) (int_min 64) (int_max 64) z m
    → int_min 64 ≤ℤ z
    → z <ℤ int_min 32
    → (a : ℤ) × (i32_of (protect c m).result ≡ ok a) × (a ≢ z)
i32_of-below raised c z (returned a) h low high =
    (as_signed 32 a, unfold protect in ground arith, rw h.1 (as_signed-differs z high))
i32_of-below raised c z (unwound tag info) h low high = absurd (h.0 (low, omega arith))

module _ (c : Consts) (r : Numbers) (l : IsNumbers c r) (w : Value) (b : IsBignum r w) where
  pub is_negative_lem : is_negative c r w ≡ ltb_ℤ (r.big w) (pos 0)
  unfolding is_negative
  is_negative_lem = ground (arith, l.sign_law w b)

  pub to_i64-IsExact :
      IsExact r.is_range_error (int_min 64) (int_max 64) (λ z. z) (r.big w) (to_i64 c r w)
  unfolding to_i64
  to_i64-IsExact =
      protect-IsExact c (λ z. z) (int_min 64) (int_max 64) (r.big w) (r.rb_num2ll w)
        (l.num2ll_law w b)

  pub to_isize-IsExact :
      IsExact r.is_range_error (int_min 64) (int_max 64) (λ z. z) (r.big w) (to_isize c r w)
  unfolding to_isize
  to_isize-IsExact = to_isize_after c (r.big w) (r.rb_num2ll w) (l.num2ll_law w b)

  unsigned-IsExact :
      (hi : ℤ) (called : Result ℕ)
      → (ltb_ℤ (r.big w) (pos 0) ≡ false → IsExact r.is_range_error (pos 0) hi pos (r.big w) called)
      → IsExact r.is_range_error
          (pos 0)
          hi
          pos
          (r.big w)
          (if is_negative c r w then err (error range_error negative_to_unsigned) else called)
  unsigned-IsExact hi called exact =
      rw is_negative_lem (elim (Bool-cases (ltb_ℤ (r.big w) (pos 0))) [
        | inl neg ↦ rw neg (
          (λ n. absurd (below neg n.0)),
          (λ n. (error range_error negative_to_unsigned, refl, tt)),
        )
        | inr nonneg ↦ rw nonneg (exact nonneg)
      ])
    where
      below : ltb_ℤ (r.big w) (pos 0) ≡ true → pos 0 ≤ℤ r.big w → ⊥
      below neg h = ground arith

  pub to_u64-IsExact : IsExact r.is_range_error (pos 0) (uint_max 64) pos (r.big w) (to_u64 c r w)
  unfolding to_u64
  to_u64-IsExact = unsigned-IsExact (uint_max 64) _ λ nonneg.
      protect-IsExact c pos (pos 0) (uint_max 64) (r.big w) (r.rb_num2ull w)
        (l.num2ull_law w b nonneg)

  pub to_u32-IsExact : IsExact r.is_range_error (pos 0) (uint_max 32) pos (r.big w) (to_u32 c r w)
  unfolding to_u32
  to_u32-IsExact =
      unsigned-IsExact (uint_max 32) _
        λ nonneg. u32_of-IsExact c (r.big w) (r.rb_num2ulong w) (l.num2ulong_law w b nonneg)

  pub to_usize-IsExact :
      IsExact r.is_range_error (pos 0) (uint_max 64) pos (r.big w) (to_usize c r w)
  unfolding to_usize
  to_usize-IsExact =
      unsigned-IsExact (uint_max 64) _
        λ nonneg. usize_of-IsExact c (r.big w) (r.rb_num2ull w) (l.num2ull_law w b nonneg)

  pub to_i32-not_below :
      int_min 32 ≤ℤ r.big w
      → IsExact r.is_range_error (int_min 32) (int_max 32) (λ a. a) (r.big w) (to_i32 c r w)
  unfolding to_i32
  to_i32-not_below low = i32_of-not_below c (r.big w) (r.rb_num2long w) (l.num2long_law w b) low

  -- A number of `i64` below the least `i32` is not refused: the result is another number.
  pub to_i32-below :
      int_min 64 ≤ℤ r.big w
      → r.big w <ℤ int_min 32
      → (a : ℤ) × (to_i32 c r w ≡ ok a) × (a ≢ r.big w)
  unfolding to_i32
  to_i32-below low high =
      i32_of-below r.is_range_error c (r.big w) (r.rb_num2long w) (l.num2long_law w b) low high

-- ===== src/Convert/RoundTrip.antt =====
-- What a Rust value is after it has become a Ruby value and been converted back.
use magnus.Prelude.{
  Bool, ℕ, ◌≡◌, refl, ap, ◌∙◌, true, false, some, ok, ◌==◌, arith, inl, inr, bit_and, ==_iff,
}
use magnus.Prelude.Int.{ℤ, pos}
use magnus.Bits.Word.{Between, int_min, int_max, uint_max}
use magnus.Ruby.{Value, Consts, IsDocumented}
use magnus.Ruby.Numbers.{Numbers, IsNumbers, IsBignum, IsNormal, denote}
use magnus.Error.{Result, Completion}
use magnus.Value.{is_immediate, r_basic, rb_type, is_fixnum}
use magnus.Value.Tags.{is_fixnum_word}
use magnus.Bignum.Conversions.{IsExact}
use magnus.Integer as Integer
use magnus.Integer.Construct.{integer_from_i64-Represents, integer_from_u64-Represents}
use magnus.Integer.Conversions.{signed-IsExact, unsigned-IsExact, to_i32-IsExact}
use magnus.Convert.{
  Signed, i8, i16, i32, i64, isize, Unsigned, u8, u16, u32, u64, usize, signed_into_value,
  unsigned_into_value, integer_try_convert, signed_try_convert, unsigned_try_convert,
}

abbrev pub bits : Signed → ℕ
bits i8 = 8
bits i16 = 16
bits i32 = 32
bits i64 = 64
bits isize = 64

abbrev pub unsigned_bits : Unsigned → ℕ
unsigned_bits u8 = 8
unsigned_bits u16 = 16
unsigned_bits u32 = 32
unsigned_bits u64 = 64
unsigned_bits usize = 64

exactly :
    {raised : Value → Bool} (lo hi : ℤ) {A : Type 0} (value : A → ℤ) (z n : ℤ) (x : Result A)
    → IsExact raised lo hi value z x
    → z ≡ n
    → Between lo hi n
    → (a : A) × (x ≡ ok a) × (value a ≡ n)
exactly lo hi value z n x h e b = let (a, f, g) = h.0 (rw e b) in (a, f, g ∙ e)

-- The conversion gives the number itself.
signed_exactly :
    {raised : Value → Bool} (lo hi z n : ℤ) (x : Result ℤ)
    → IsExact raised lo hi (λ z. z) z x
    → z ≡ n
    → Between lo hi n
    → x ≡ ok n
signed_exactly lo hi z n x h e b =
    let (a, f, g) = exactly lo hi (λ z. z) z n x h e b in f ∙ ap (λ a. ok a) g

unsigned_exactly :
    {raised : Value → Bool} (lo hi z : ℤ) (n : ℕ) (x : Result ℕ)
    → IsExact raised lo hi pos z x
    → z ≡ pos n
    → Between lo hi (pos n)
    → x ≡ ok n
unsigned_exactly lo hi z n x h e b =
    let (a, f, g) = exactly lo hi pos z (pos n) x h e b in
    let g' : a ≡ n = cc g in f ∙ ap (λ a. ok a) g'

module _ (c : Consts) (r : Numbers) (d : IsDocumented c) (l : IsNumbers c r)
    (rb_to_int : Value → Completion Value) where
  heap_type :
      (w : Value)
      → is_immediate c w ≡ false
      → bit_and (r.heap.flags w) c.t_mask ≡ c.t_bignum
      → rb_type c r.heap w ≡ ok c.t_bignum
  unfolding rb_type r_basic
  heap_type w a e = rw (a, rb_type, r_basic) (rw e refl)

  from_value_normal :
      (w : Value)
      → IsNormal r w
      → (IsBignum r w → is_immediate c w ≡ false)
      → Integer.from_value c r w ≡ ok (some w)
  unfolding Integer.from_value
  from_value_normal w (inl h) a = unfold is_fixnum in ground (arith, is_fixnum_word c d w)
  from_value_normal w (inr h) a =
      let small : bit_and w c.fixnum_flag == 0 ≡ true =
        unfold is_fixnum in ground (arith, is_fixnum_word c d w) in
      let type : rb_type c r.heap w ≡ ok c.t_bignum = heap_type w (a h.0) (l.type_law w h.0) in
      rw small (rw type (rw ((==_iff c.t_bignum c.t_bignum).1 refl) refl))

  integer_try_convert_normal :
      (w : Value)
      → IsNormal r w
      → (IsBignum r w → is_immediate c w ≡ false)
      → integer_try_convert c r rb_to_int w ≡ ok w
  unfolding integer_try_convert
  integer_try_convert_normal w n a = rw (from_value_normal w n a) refl

  -- A number of each of Rust's signed integer types becomes a Ruby integer from which the type's
  -- `try_convert` gives it back, if the Ruby integer is no Bignum at the word of an immediate.
  pub signed_try_convert-signed_into_value :
      (t : Signed) (n : ℤ)
      → Between (int_min (bits t)) (int_max (bits t)) n
      → (IsBignum r (signed_into_value c r t n)
          → is_immediate c (signed_into_value c r t n) ≡ false)
      → signed_try_convert c r rb_to_int t (signed_into_value c r t n) ≡ ok n
  unfolding signed_try_convert signed_into_value
  signed_try_convert-signed_into_value i8 n b a =
      let w = Integer.integer_from_i64 c r n in
      let m = integer_from_i64-Represents c r l n (omega (arith, b)) in
      rw (integer_try_convert_normal w m.0 a) (
        signed_exactly (int_min 8) (int_max 8) (denote r w) n _ (signed-IsExact c r d l w m.0).0 m.1
          b)
  signed_try_convert-signed_into_value i16 n b a =
      let w = Integer.integer_from_i64 c r n in
      let m = integer_from_i64-Represents c r l n (omega (arith, b)) in
      rw (integer_try_convert_normal w m.0 a) (
        signed_exactly (int_min 16) (int_max 16) (denote r w) n _ (signed-IsExact c r d l w m.0).1
          m.1 b)
  signed_try_convert-signed_into_value i32 n b a =
      let w = Integer.integer_from_i64 c r n in
      let m = integer_from_i64-Represents c r l n (omega (arith, b)) in
      rw (integer_try_convert_normal w m.0 a) (
        signed_exactly (int_min 32) (int_max 32) (denote r w) n _
          (to_i32-IsExact c r d l w m.0 (rw m.1 b.0)) m.1 b)
  signed_try_convert-signed_into_value i64 n b a =
      let w = Integer.integer_from_i64 c r n in
      let m = integer_from_i64-Represents c r l n (omega (arith, b)) in
      rw (integer_try_convert_normal w m.0 a) (
        signed_exactly (int_min 64) (int_max 64) (denote r w) n _ (signed-IsExact c r d l w m.0).2
          m.1 b)
  signed_try_convert-signed_into_value isize n b a =
      let w = Integer.integer_from_i64 c r n in
      let m = integer_from_i64-Represents c r l n (omega (arith, b)) in
      rw (integer_try_convert_normal w m.0 a) (
        signed_exactly (int_min 64) (int_max 64) (denote r w) n _ (signed-IsExact c r d l w m.0).3
          m.1 b)

  -- A number of each of Rust's unsigned integer types becomes a Ruby integer from which the type's
  -- `try_convert` gives it back, if the Ruby integer is no Bignum at the word of an immediate.
  unsigned_try_convert-unsigned_into_value :
      (t : Unsigned) (n : ℕ)
      → Between (pos 0) (uint_max (unsigned_bits t)) (pos n)
      → (IsBignum r (unsigned_into_value c r t n)
          → is_immediate c (unsigned_into_value c r t n) ≡ false)
      → unsigned_try_convert c r rb_to_int t (unsigned_into_value c r t n) ≡ ok n
  unfolding unsigned_try_convert unsigned_into_value
  unsigned_try_convert-unsigned_into_value u8 n b a =
      let w = Integer.integer_from_u64 c r n in
      let m = integer_from_u64-Represents c r l n (omega (arith, b)) in
      rw (integer_try_convert_normal w m.0 a) (
        unsigned_exactly (pos 0) (uint_max 8) (denote r w) n _ (unsigned-IsExact c r d l w m.0).0
          m.1 b)
  unsigned_try_convert-unsigned_into_value u16 n b a =
      let w = Integer.integer_from_u64 c r n in
      let m = integer_from_u64-Represents c r l n (omega (arith, b)) in
      rw (integer_try_convert_normal w m.0 a) (
        unsigned_exactly (pos 0) (uint_max 16) (denote r w) n _ (unsigned-IsExact c r d l w m.0).1
          m.1 b)
  unsigned_try_convert-unsigned_into_value u32 n b a =
      let w = Integer.integer_from_u64 c r n in
      let m = integer_from_u64-Represents c r l n (omega (arith, b)) in
      rw (integer_try_convert_normal w m.0 a) (
        unsigned_exactly (pos 0) (uint_max 32) (denote r w) n _ (unsigned-IsExact c r d l w m.0).2
          m.1 b)
  unsigned_try_convert-unsigned_into_value u64 n b a =
      let w = Integer.integer_from_u64 c r n in
      let m = integer_from_u64-Represents c r l n (omega (arith, b)) in
      rw (integer_try_convert_normal w m.0 a) (
        unsigned_exactly (pos 0) (uint_max 64) (denote r w) n _ (unsigned-IsExact c r d l w m.0).3
          m.1 b)
  unsigned_try_convert-unsigned_into_value usize n b a =
      let w = Integer.integer_from_u64 c r n in
      let m = integer_from_u64-Represents c r l n (omega (arith, b)) in
      rw (integer_try_convert_normal w m.0 a) (
        unsigned_exactly (pos 0) (uint_max 64) (denote r w) n _ (unsigned-IsExact c r d l w m.0).4
          m.1 b)

-- ===== src/Integer/Construct.antt =====
-- The integers that magnus makes from Rust's numbers.
use magnus.Prelude.{ℕ, ◌<◌, ◌≡◌, inl, inr, sym, ap, ◌∙◌, arith}
use magnus.Prelude.Int.{ℤ, pos, negsuc}
use magnus.Bits.Word.{IsI64, word_mod}
use magnus.Ruby.{Value, Consts, IsDocumented}
use magnus.Ruby.Numbers.{Numbers, IsNumbers, Represents, IsNormal, IsInteger, IsBignum, denote}
use magnus.Value.Tags.{is_fixnum_word}
use magnus.Value.{is_fixnum}
use magnus.Fixnum.{to_isize, saturate}
use magnus.Fixnum.Encoding.{
  IsFixnumRange, IsFixnumWord, fixnum_word, from_i64_impl-cases, from_i64_impl-negative,
  fixnum_word-IsFixnumWord, to_isize-fixnum_word, fixnum_word-to_isize, to_isize-IsFixnumRange,
}
use magnus.Integer.{
  err_bignum, fixnum, bignum, fixnum_from_i64, integer_from_i64, integer_from_u64, integer_type,
}

module _ (c : Consts) (r : Numbers) (d : IsDocumented c) where
  pub integer_type_fixnum : (w : Value) → IsFixnumWord w → integer_type c r w ≡ fixnum w
  unfolding integer_type
  integer_type_fixnum w h = unfold is_fixnum in ground (arith, is_fixnum_word c d w)

  pub integer_type_bignum : (w : Value) → IsBignum r w → integer_type c r w ≡ bignum w
  unfolding integer_type
  integer_type_bignum w h = unfold is_fixnum in ground (arith, is_fixnum_word c d w)

module _ (r : Numbers) where
  pub denote-fixnum : (w : Value) → IsFixnumWord w → denote r w ≡ to_isize w
  denote-fixnum w h = ground arith

  pub denote-bignum : (w : Value) → IsBignum r w → denote r w ≡ r.big w
  denote-bignum w h = ground arith

  pub IsNormal-IsInteger : (w : Value) → IsNormal r w → IsInteger r w
  IsNormal-IsInteger w (inl h) = inl h
  IsNormal-IsInteger w (inr h) = inr h.0

  pub fixnum_word-Represents : (z : ℤ) → IsFixnumRange z → Represents r z (fixnum_word z)
  fixnum_word-Represents z h =
      let word = fixnum_word-IsFixnumWord z h in
      (inl word, rw (denote-fixnum (fixnum_word z) word) (to_isize-fixnum_word z h))

  -- Ruby's form of a number in the fixnum range is its fixnum.
  pub Represents-fixnum_word :
      (z : ℤ) (w : Value) → Represents r z w → IsFixnumRange z → w ≡ fixnum_word z
  Represents-fixnum_word z w (inl h, e) f =
      sym (fixnum_word-to_isize w h) ∙ ap fixnum_word (sym (denote-fixnum w h) ∙ e)
  Represents-fixnum_word z w (inr h, e) f = absurd (h.1 (rw (sym (denote-bignum w h.0) ∙ e) f))

  -- A number has one normal form at most among the fixnums, and no Bignum is equal to it.
  pub Represents-IsBignum :
      (z : ℤ) (w : Value) → Represents r z w → ¬ IsFixnumRange z → IsBignum r w × (r.big w ≡ z)
  Represents-IsBignum z w (inl h, e) f =
      absurd (f (rw (← e, denote-fixnum w h) (to_isize-IsFixnumRange w h)))
  Represents-IsBignum z w (inr h, e) f = (h.0, sym (denote-bignum w h.0) ∙ e)

module _ (c : Consts) (r : Numbers) (l : IsNumbers c r) where
  -- Every `i64` becomes the integer of that number, in Ruby's form.
  pub integer_from_i64-Represents : (n : ℤ) → IsI64 n → Represents r n (integer_from_i64 c r n)
  unfolding integer_from_i64
  integer_from_i64-Represents n h = elim (from_i64_impl-cases n) [
    | inl e ↦ rw e (l.ll2inum_law n h)
    | inr e ↦ rw e.1 (fixnum_word-Represents r n e.0)
  ]

  -- Every `u64` becomes the integer of that number, in Ruby's form.
  pub integer_from_u64-Represents :
      (n : ℕ) → n < word_mod → Represents r (pos n) (integer_from_u64 c r n)
  unfolding integer_from_u64
  integer_from_u64-Represents n h = elim (from_i64_impl-cases (saturate n)) [
    | inl e ↦ rw e (l.ull2inum_law n h)
    | inr e ↦ rw e.1 (rw (same e.0) (fixnum_word-Represents r (pos n) (rw (same e.0) at e.0)))
  ]
    where
      same : IsFixnumRange (saturate n) → saturate n ≡ pos n
      same b = ground arith

  -- `Fixnum::from_i64` of a negative number that fits a fixnum is `Err`, whose handle is no Bignum:
  -- it is the word of the fixnum of this number.
  pub fixnum_from_i64_negative :
      (n : ℕ)
      → IsFixnumRange (negsuc n)
      → (w : Value) × (fixnum_from_i64 c r (negsuc n) ≡ err_bignum w)
        × IsFixnumWord w
        × (to_isize w ≡ negsuc n)
  unfolding fixnum_from_i64
  fixnum_from_i64_negative n h =
      let made = l.ll2inum_law (negsuc n) (omega arith) in
      let e = Represents-fixnum_word r (negsuc n) (r.rb_ll2inum (negsuc n)) made h in
      (
        r.rb_ll2inum (negsuc n),
        ground (arith, from_i64_impl-negative n),
        rw e (fixnum_word-IsFixnumWord (negsuc n) h),
        rw e (to_isize-fixnum_word (negsuc n) h),
      )

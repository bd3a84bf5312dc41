-- ===== src/Fixnum/Encoding.antt =====
-- What `Fixnum::from_i64_impl` encodes, and that `to_isize` reads it back.
use native.Mathlib.Decide.{dec_le}
use magnus.Prelude.{
  ℕ, ◌+◌, ◌-◌, ◌*◌, ◌%◌, ◌≤◌, ◌<◌, ◌≡◌, refl, ◌↔◌, ◌⊎◌, inl, inr, some, none, arith,
}
use magnus.Prelude.Int.{ℤ, pos, negsuc}
use magnus.Bits.Word.{to_word, to_signed, word_mod, Between}
use magnus.Ruby.{Value}
use magnus.Fixnum.{from_i64_impl, to_isize, ruby_fixnum_min, ruby_fixnum_max}

-- The integers that Ruby keeps in a `VALUE`.
abbrev pub IsFixnumRange : ℤ → Type 0
IsFixnumRange n = Between ruby_fixnum_min (pos ruby_fixnum_max) n

-- A word of a fixnum: the tag bit is set.
abbrev pub IsFixnumWord : Value → Type 0
IsFixnumWord w = (w < word_mod) × (w % 2 ≡ 1)

-- The word of an integer: twice the number and the tag, as a 64-bit pattern.
abbrev pub fixnum_word : ℤ → Value
fixnum_word (pos n) = n * 2 + 1
fixnum_word (negsuc n) = word_mod - 1 - n * 2

pub from_i64_impl-pos :
    (n : ℕ) → n ≤ ruby_fixnum_max → from_i64_impl (pos n) ≡ some (fixnum_word (pos n))
unfolding from_i64_impl to_word
from_i64_impl-pos n h = ground arith

pub from_i64_impl-negative : (n : ℕ) → from_i64_impl (negsuc n) ≡ none
unfolding from_i64_impl
from_i64_impl-negative n = refl

pub from_i64_impl-above : (n : ℕ) → ruby_fixnum_max < n → from_i64_impl (pos n) ≡ none
unfolding from_i64_impl
from_i64_impl-above n h = ground arith

pub to_isize-fixnum_word : (z : ℤ) → IsFixnumRange z → to_isize (fixnum_word z) ≡ z
unfolding to_isize to_signed
to_isize-fixnum_word (pos n) h = ground arith
to_isize-fixnum_word (negsuc n) h = ground arith

pub fixnum_word-to_isize : (w : ℕ) → IsFixnumWord w → fixnum_word (to_isize w) ≡ w
unfolding to_isize to_signed
fixnum_word-to_isize w h = ground arith

pub fixnum_word-IsFixnumWord : (z : ℤ) → IsFixnumRange z → IsFixnumWord (fixnum_word z)
fixnum_word-IsFixnumWord (pos n) h = omega arith
fixnum_word-IsFixnumWord (negsuc n) h = omega arith

pub to_isize-IsFixnumRange : (w : ℕ) → IsFixnumWord w → IsFixnumRange (to_isize w)
unfolding to_isize to_signed
to_isize-IsFixnumRange w h = ground arith

-- `from_i64_impl` gives the word of its number, or nothing.
pub from_i64_impl-cases :
    (n : ℤ)
    → (from_i64_impl n ≡ none) ⊎ (IsFixnumRange n × (from_i64_impl n ≡ some (fixnum_word n)))
from_i64_impl-cases (pos n) = elim (dec_le n ruby_fixnum_max) [
  | yes h ↦ inr ((omega arith, omega arith), from_i64_impl-pos n h)
  | no h ↦ inl (from_i64_impl-above n (omega arith))
]
from_i64_impl-cases (negsuc n) = inl (from_i64_impl-negative n)

-- `from_i64_impl` encodes a number as its fixnum exactly when it is from 0 to the largest fixnum.
pub from_i64_impl_iff :
    (n : ℤ) → (from_i64_impl n ≡ some (fixnum_word n)) ↔ Between (pos 0) (pos ruby_fixnum_max) n
from_i64_impl_iff (pos n) = elim (dec_le n ruby_fixnum_max) [
  | yes h ↦ ((λ e. (omega arith, omega arith)), (λ b. from_i64_impl-pos n h))
  | no h ↦ ((λ e. cc (from_i64_impl-above n (omega arith))), (λ b. absurd (omega arith)))
]
from_i64_impl_iff (negsuc n) = ((λ e. cc (from_i64_impl-negative n)), (λ b. absurd (omega arith)))

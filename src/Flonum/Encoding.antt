-- ===== src/Flonum/Encoding.antt =====
-- `from_f64_impl` and `to_f64` are inverse partial functions.
use mathlib.Core.Path.{subst}
use native.Mathlib.Decide.{dec_lt}
use magnus.Prelude.{
  ℕ, ◌+◌, ◌-◌, ◌*◌, ◌/◌, ◌%◌, ◌^◌, ◌<◌, ◌≡◌, ◌≢◌, refl, ◌↔◌, ◌⊎◌, inl, inr, true, false, Option,
  some, none, arith, ◌==◌, if◌then◌else◌, not, ◌&&◌, ◌||◌, bit_and, bit_or, sym, ap, ◌∙◌,
  Bool-cases, ==_iff,
}
use magnus.Bits.Word.{
  word_mod, complement, rotate_left3, rotate_right3, bit_and_seven, bit_and_clear_one,
  bit_and_clear_three, bit_or_two, one-bit_or, two-bit_or,
}
use magnus.Ruby.{Value, Consts, IsDocumented}
use magnus.Value.Tags.{is_flonum_word}
use magnus.Value.{is_flonum}
use magnus.Flonum.{
  from_f64_impl, to_f64, zero_word, Floats, IsFloats, float_from_f64, float_to_f64, from_value,
  unwrap_or,
}

-- The exponents that a flonum can hold: bits 62 to 60 are 011 or 100.
abbrev pub Encodable : ℕ → Type 0
Encodable v = (v ≢ 0x3000000000000000) × ((v / 2 ^ 60 % 8 ≡ 3) ⊎ (v / 2 ^ 60 % 8 ≡ 4))

top_test :
    (b : ℕ)
    → b < 8
    → (bit_and ((b + word_mod - 3) % word_mod) (complement 1) == 0) ≡ (b == 3) || (b == 4)
top_test b h = ground (arith, bit_and_clear_one ((b + word_mod - 3) % word_mod))

-- The word of the bits `v`: the top three bits move to the bottom, and the tag takes the place of
-- two of them.
abbrev pub word_of : ℕ → Value
word_of v = rotate_left3 v / 4 * 4 + 2

abbrev bits_of : Value → ℕ
bits_of w = rotate_right3 (w / 4 * 4 + (2 - w / 2 ^ 63))

encoded_word :
    (v : ℕ) → v < word_mod → bit_or (bit_and (rotate_left3 v) (complement 1)) 2 ≡ word_of v
encoded_word v h = omega (
  arith,
  bit_or_two (bit_and (rotate_left3 v) (complement 1)),
  bit_and_clear_one (rotate_left3 v) (omega arith),
)

from_f64_impl-Encodable : (v : ℕ) → v < word_mod → Encodable v → from_f64_impl v ≡ some (word_of v)
unfolding from_f64_impl
from_f64_impl-Encodable v h e = ground (
  arith,
  bit_and_seven (v / 2 ^ 60),
  top_test (bit_and (v / 2 ^ 60) 7) (omega (arith, bit_and_seven (v / 2 ^ 60))),
  encoded_word v h,
)

from_f64_impl-other :
    (v : ℕ)
    → v < word_mod
    → ¬ Encodable v
    → from_f64_impl v ≡ (if v == 0 then some zero_word else none)
unfolding from_f64_impl
from_f64_impl-other v h e = ground (
  arith,
  bit_and_seven (v / 2 ^ 60),
  top_test (bit_and (v / 2 ^ 60) 7) (omega (arith, bit_and_seven (v / 2 ^ 60))),
)

to_f64-bits_of : (w : ℕ) → w < word_mod → w % 4 ≡ 2 → w ≢ zero_word → to_f64 w ≡ bits_of w
unfolding to_f64
to_f64-bits_of w h tag ne =
    ground (arith, bit_and_clear_three w h, one-bit_or (w / 4), two-bit_or (w / 4))

word_of-lem :
    (v : ℕ)
    → v < word_mod
    → Encodable v
    → (word_of v < word_mod)
      × (word_of v % 4 ≡ 2)
      × (word_of v ≢ zero_word)
      × (bits_of (word_of v) ≡ v)
word_of-lem v h e = omega arith

bits_of-lem :
    (w : ℕ)
    → w < word_mod
    → w % 4 ≡ 2
    → w ≢ zero_word
    → (bits_of w < word_mod) × Encodable (bits_of w) × (word_of (bits_of w) ≡ w)
bits_of-lem w h tag ne = (omega arith, (omega arith, top), omega arith)
  where
    top : (bits_of w / 2 ^ 60 % 8 ≡ 3) ⊎ (bits_of w / 2 ^ 60 % 8 ≡ 4)
    top = elim (dec_lt w (2 ^ 63)) [ yes low ↦ inr (omega arith) | no high ↦ inl (omega arith) ]

Encodable-cases : (v : ℕ) → Encodable v ⊎ ¬ Encodable v
Encodable-cases v =
    elim (Bool-cases
      (not (v == 0x3000000000000000) && (v / 2 ^ 60 % 8 == 3 || v / 2 ^ 60 % 8 == 4))) [
        | inl e ↦ inl (ground arith)
        | inr e ↦ inr (λ h. ground arith)
      ]

to_f64-zero_word : to_f64 zero_word ≡ 0
unfolding to_f64
to_f64-zero_word = refl

from_f64_impl-zero : from_f64_impl 0 ≡ some zero_word
unfolding from_f64_impl
from_f64_impl-zero = refl

-- `from_f64_impl` and `to_f64` are inverse to one another on 64-bit words: `v` is encoded as `w`
-- exactly when `w` has the tag of a flonum and is decoded to `v`.
pub from_f64_impl-to_f64_iff :
    (v w : ℕ)
    → v < word_mod
    → w < word_mod
    → (from_f64_impl v ≡ some w) ↔ ((w % 4 ≡ 2) × (to_f64 w ≡ v))
from_f64_impl-to_f64_iff v w hv hw = (forth (Encodable-cases v), back)
  where
    forth : Encodable v ⊎ ¬ Encodable v → from_f64_impl v ≡ some w → (w % 4 ≡ 2) × (to_f64 w ≡ v)
    forth (inl e) p =
        let (fits, tag, ne, same) = word_of-lem v hv e in
        let q : word_of v ≡ w = some_eq (sym (from_f64_impl-Encodable v hv e) ∙ p) in
        rw (← q) (tag, to_f64-bits_of (word_of v) fits tag ne ∙ same)
      where
        some_eq : some (word_of v) ≡ some w → word_of v ≡ w
        some_eq s = cc
    forth (inr o) p = ground (arith, from_f64_impl-other v hv o, to_f64-zero_word)

    back : (w % 4 ≡ 2) × (to_f64 w ≡ v) → from_f64_impl v ≡ some w
    back h = elim (Bool-cases (w == zero_word)) [
      | inl z ↦ at_zero ((==_iff w zero_word).0 z)
      | inr z ↦ elsewhere (λ e. absurd (ground (arith, (==_iff w zero_word).1 e)))
    ]
      where
        at_zero : w ≡ zero_word → from_f64_impl v ≡ some w
        at_zero z = ground (arith, from_f64_impl-zero, to_f64-zero_word)

        elsewhere : w ≢ zero_word → from_f64_impl v ≡ some w
        elsewhere ne =
            let (fits, enc, same) = bits_of-lem w hw h.0 ne in
            let e : bits_of w ≡ v = sym (to_f64-bits_of w hw h.0 ne) ∙ h.1 in
            subst (λ x. from_f64_impl x ≡ some w) e
              (from_f64_impl-Encodable (bits_of w) fits enc ∙ ap some same)

from_f64_impl-bounded : (v w : ℕ) → v < word_mod → from_f64_impl v ≡ some w → w < word_mod
from_f64_impl-bounded v w h e = elim (Encodable-cases v) [
  | inl enc ↦
      omega (arith, (word_of-lem v h enc).0, some_eq (sym (from_f64_impl-Encodable v h enc) ∙ e))
  | inr o ↦ ground (arith, from_f64_impl-other v h o)
]
  where
    some_eq : some (word_of v) ≡ some w → word_of v ≡ w
    some_eq s = cc

module _ (c : Consts) (f : Floats) (d : IsDocumented c) (l : IsFloats f) where
  heap_float : (v : ℕ) → is_flonum c (f.rb_float_new_in_heap v) ≡ false
  heap_float v = ground (arith, is_flonum_word c d (f.rb_float_new_in_heap v), l.aligned_law v)

  from_heap : (v : ℕ) → from_f64_impl v ≡ none → float_from_f64 c f v ≡ f.rb_float_new_in_heap v
  unfolding float_from_f64
  from_heap v e = ap (λ x. unwrap_or x (f.rb_float_new_in_heap v)) e

  from_word : (v w : ℕ) → from_f64_impl v ≡ some w → float_from_f64 c f v ≡ w
  unfolding float_from_f64
  from_word v w e = ap (λ x. unwrap_or x (f.rb_float_new_in_heap v)) e

  read_heap : (w : ℕ) → is_flonum c w ≡ false → float_to_f64 c f w ≡ f.rb_float_value w
  unfolding float_to_f64 from_value
  read_heap w e = rw (float_to_f64, e) refl

  read_word : (w : ℕ) → is_flonum c w ≡ true → float_to_f64 c f w ≡ to_f64 w
  unfolding float_to_f64 from_value
  read_word w e = rw (float_to_f64, e) refl

  at_encoding :
      (v : ℕ)
      → v < word_mod
      → (found : Option Value) → from_f64_impl v ≡ found
      → float_to_f64 c f (float_from_f64 c f v) ≡ v
  at_encoding v h none e = rw (from_heap v e) (read_heap _ (heap_float v) ∙ l.value_law v)
  at_encoding v h (some w) e =
      let (tag, same) = (from_f64_impl-to_f64_iff v w h (from_f64_impl-bounded v w h e)).0 e in
      let flonum : is_flonum c w ≡ true = is_flonum_word c d w ∙ (==_iff (w % 4) 2).1 tag in
      rw (from_word v w e) (read_word w flonum ∙ same)

  -- A 64-bit float that is converted to a value is read back with the same bits, whether it fits a
  -- flonum or goes to the heap, from which Ruby reads what it has stored.
  pub float_to_f64-float_from_f64 :
      (v : ℕ) → v < word_mod → float_to_f64 c f (float_from_f64 c f v) ≡ v
  float_to_f64-float_from_f64 v h = at_encoding v h (from_f64_impl v) refl

-- ===== src/Value/Tags.antt =====
-- The bit patterns of the kinds of values, and that the tests of src/value.rs tell them apart.
use magnus.Prelude.{
  ℕ, ◌+◌, ◌*◌, ◌/◌, ◌%◌, ◌^◌, ◌<◌, ◌≡◌, not, ◌||◌, ◌≢◌, ◌↔◌, ◌⊎◌, inl, inr, false, Option, none,
  some, ok, panic, arith, ◌==◌, bit_and,
}
use magnus.Bits.Word.{
  word_mod, bit_and-one, bit_and_three, bit_and_seven, bit_and_byte, bit_and_clear_four,
  bit_and_clear_eight,
}
use magnus.Ruby.{Value, Consts, Heap, IsDocumented}
use magnus.Value.{
  RClass, false_class, nil_class, true_class, integer, symbol, float, of_object, is_immediate,
  is_fixnum, is_flonum, is_static_symbol, to_bool, rb_type, class,
}

-- What a `VALUE` can be: one of the special constants, a number in the upper 63 bits, a symbol
-- number in the upper 56, a float in the upper 62, or the address of an object, aligned to eight.
pub data Kind : Type 0 where
  false_kind nil_kind true_kind undef_kind : Kind
  fixnum_kind : ℕ → Kind
  symbol_kind : ℕ → Kind
  flonum_kind : ℕ → Kind
  object_kind : ℕ → Kind

abbrev pub bits : Consts → Kind → Value
bits c false_kind = c.qfalse
bits c nil_kind = c.qnil
bits c true_kind = c.qtrue
bits c undef_kind = c.qundef
bits c (fixnum_kind n) = n * 2 + 1
bits c (symbol_kind n) = n * 256 + 12
bits c (flonum_kind n) = n * 4 + 2
bits c (object_kind n) = n * 8

-- The number fits its field; an address is neither null nor the word of `nil`.
abbrev pub Fits : Consts → Kind → Type 0
Fits c (fixnum_kind n) = n < 2 ^ 63
Fits c (symbol_kind n) = n < 2 ^ 56
Fits c (flonum_kind n) = n < 2 ^ 62
Fits c (object_kind n) = (0 < n) × (n * 8 ≢ c.qnil) × (n < 2 ^ 61)
Fits c _ = Unit {0}

abbrev pub type_of : Consts → Heap → Kind → ℕ
type_of c h false_kind = c.t_false
type_of c h nil_kind = c.t_nil
type_of c h true_kind = c.t_true
type_of c h undef_kind = c.t_undef
type_of c h (fixnum_kind n) = c.t_fixnum
type_of c h (symbol_kind n) = c.t_symbol
type_of c h (flonum_kind n) = c.t_float
type_of c h (object_kind n) = bit_and (h.flags (n * 8)) c.t_mask

abbrev pub class_of : Heap → Kind → Option RClass
class_of h false_kind = some false_class
class_of h nil_kind = some nil_class
class_of h true_kind = some true_class
class_of h undef_kind = none
class_of h (fixnum_kind n) = some integer
class_of h (symbol_kind n) = some symbol
class_of h (flonum_kind n) = some float
class_of h (object_kind n) = some (of_object (h.klass (n * 8)))

module _ (c : Consts) (d : IsDocumented c) where
  -- Only the address of an object is no immediate.
  pub is_immediate_word :
      (w : ℕ) → w < word_mod → is_immediate c w ≡ not (w % 8 == 0) || w == 0 || w == c.qnil
  unfolding is_immediate
  is_immediate_word w h = elim d [
    | inl e ↦ rw e (ground (arith, bit_and_seven w, bit_and_clear_four w h))
    | inr e ↦ rw e (ground (arith, bit_and_seven w, bit_and_clear_eight w h))
  ]

  pub is_fixnum_word : (w : ℕ) → is_fixnum c w ≡ (w % 2 == 1)
  unfolding is_fixnum
  is_fixnum_word w = ground (arith, bit_and-one w)

  pub is_static_symbol_word : (w : ℕ) → is_static_symbol c w ≡ (w % 256 == 12)
  unfolding is_static_symbol
  is_static_symbol_word w = elim d [
    | inl e ↦ rw e (ground (arith, bit_and_byte w))
    | inr e ↦ rw e (ground (arith, bit_and_byte w))
  ]

  pub is_flonum_word : (w : ℕ) → is_flonum c w ≡ (w % 4 == 2)
  unfolding is_flonum
  is_flonum_word w = ground (arith, bit_and_three w)

  -- `to_bool` is false exactly of `false` and `nil`, among the 64-bit words.
  pub to_bool_word :
      (w : ℕ) → w < word_mod → (to_bool c w ≡ false) ↔ ((w ≡ c.qfalse) ⊎ (w ≡ c.qnil))
  unfolding to_bool
  to_bool_word w h = elim d [
    | inl e ↦ rw e (ground (arith, bit_and_clear_four w h))
    | inr e ↦ rw e (ground (arith, bit_and_clear_eight w h))
  ]

module _ (c : Consts) (h : Heap) (d : IsDocumented c) where
  -- `rb_type` gives the type of every kind of value: that of the tag for an immediate, and that of
  -- the flags for an object.
  pub rb_type-bits : (k : Kind) → Fits c k → rb_type c h (bits c k) ≡ ok (type_of c h k)
  unfolding rb_type is_immediate
  rb_type-bits false_kind f = ground arith
  rb_type-bits nil_kind f = ground arith
  rb_type-bits true_kind f = ground arith
  rb_type-bits undef_kind f = ground arith
  rb_type-bits (fixnum_kind n) f =
      let w = n * 2 + 1 in
      elim d [
        | inl e ↦ rw e (ground (arith, bit_and_seven w, bit_and-one w))
        | inr e ↦ rw e (ground (arith, bit_and_seven w, bit_and-one w))
      ]
  rb_type-bits (symbol_kind n) f =
      let w = n * 256 + 12 in
      elim d [
        | inl e ↦ rw e (ground (arith, bit_and_seven w, bit_and-one w, bit_and_byte w))
        | inr e ↦ rw e (ground (arith, bit_and_seven w, bit_and-one w, bit_and_byte w))
      ]
  rb_type-bits (flonum_kind n) f =
      let w = n * 4 + 2 in
      let three = bit_and_three w in
      elim d [
        | inl e ↦ rw e (ground (arith, bit_and_seven w, bit_and-one w, bit_and_byte w, three))
        | inr e ↦ rw e (ground (arith, bit_and_seven w, bit_and-one w, bit_and_byte w, three))
      ]
  rb_type-bits (object_kind n) f = ground (arith, is_immediate_word c d (n * 8) (omega arith))

  -- `class` gives the class of every kind of value, and panics on `undef` alone.
  class-bits :
      (k : Kind)
      → Fits c k
      → class c h (bits c k) ≡ elim (class_of h k) [ some r ↦ ok r | none ↦ panic ]
  unfolding class is_immediate
  class-bits false_kind f = ground arith
  class-bits nil_kind f = ground arith
  class-bits true_kind f = ground arith
  class-bits undef_kind f = ground arith
  class-bits (fixnum_kind n) f =
      let w = n * 2 + 1 in
      elim d [
        | inl e ↦ rw e (ground (arith, bit_and_seven w, bit_and-one w))
        | inr e ↦ rw e (ground (arith, bit_and_seven w, bit_and-one w))
      ]
  class-bits (symbol_kind n) f =
      let w = n * 256 + 12 in
      elim d [
        | inl e ↦ rw e (ground (arith, bit_and_seven w, bit_and-one w, bit_and_byte w))
        | inr e ↦ rw e (ground (arith, bit_and_seven w, bit_and-one w, bit_and_byte w))
      ]
  class-bits (flonum_kind n) f =
      let w = n * 4 + 2 in
      let three = bit_and_three w in
      elim d [
        | inl e ↦ rw e (ground (arith, bit_and_seven w, bit_and-one w, bit_and_byte w, three))
        | inr e ↦ rw e (ground (arith, bit_and_seven w, bit_and-one w, bit_and_byte w, three))
      ]
  class-bits (object_kind n) f = ground (arith, is_immediate_word c d (n * 8) (omega arith))

  -- `rb_type` panics on every 64-bit word that is of no kind.
  pub rb_type_panics :
      (w : ℕ) → w < word_mod → ((k : Kind) → Fits c k → bits c k ≢ w) → rb_type c h w ≡ panic
  unfolding rb_type is_immediate
  rb_type_panics w lt no_kind = elim d [
    | inl e ↦ rw e (
        ground (
          arith,
          bit_and_seven w,
          bit_and-one w,
          bit_and_byte w,
          bit_and_three w,
          bit_and_clear_four w lt,
          rw e at (no_kind false_kind tt),
          rw e at (no_kind nil_kind tt),
          rw e at (no_kind true_kind tt),
          rw e at (no_kind undef_kind tt),
          no_kind (fixnum_kind (w / 2)),
          no_kind (symbol_kind (w / 256)),
          no_kind (flonum_kind (w / 4)),
          rw e at (no_kind (object_kind (w / 8))),
        ))
    | inr e ↦ rw e (
        ground (
          arith,
          bit_and_seven w,
          bit_and-one w,
          bit_and_byte w,
          bit_and_three w,
          bit_and_clear_eight w lt,
          rw e at (no_kind false_kind tt),
          rw e at (no_kind nil_kind tt),
          rw e at (no_kind true_kind tt),
          rw e at (no_kind undef_kind tt),
          no_kind (fixnum_kind (w / 2)),
          no_kind (symbol_kind (w / 256)),
          no_kind (flonum_kind (w / 4)),
          rw e at (no_kind (object_kind (w / 8))),
        ))
  ]

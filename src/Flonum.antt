-- ===== src/Flonum.antt =====
-- src/value/flonum.rs and src/float.rs: floats inside a `VALUE`. An `f64` is its bit pattern.
pub mod Encoding
use magnus.Prelude.{
  ℕ, ◌+◌, ◌-◌, ◌*◌, ◌/◌, ◌%◌, ◌^◌, ◌≡◌, Bool, not, ◌&&◌, Option, none, some, ok, err, ◌>>=◌, ◌==◌,
  if◌then◌else◌, bit_and, bit_or,
}
use magnus.Bits.Word.{word_mod, complement, rotate_left3, rotate_right3}
use magnus.Ruby.{Value, Consts, Heap}
use magnus.Error.{Result, Completion, protect, error, range_error}
use magnus.Value.{is_flonum, rb_type}

-- The word that stands for 0.0, whose own bits do not fit the pattern.
abbrev pub zero_word : Value
zero_word = 0x8000000000000002

unfoldable pub from_f64_impl : ℕ → Option Value
from_f64_impl v =
    let bits = bit_and (v / 2 ^ 60) 0x7 in
    if not (v == 0x3000000000000000)
      && bit_and ((bits + word_mod - 3) % word_mod) (complement 1) == 0
    then some (bit_or (bit_and (rotate_left3 v) (complement 1)) 0x02)
    else if v == 0
    then some zero_word
    else none

unfoldable pub to_f64 : Value → ℕ
to_f64 v =
    if not (v == zero_word)
    then (let b63 = v / 2 ^ 63 in
        rotate_right3 (bit_or ((2 + word_mod - b63) % word_mod) (bit_and v (complement 0x03))))
    else 0

unfoldable pub from_value : Consts → Value → Option Value
unfolding is_flonum
from_value c val = if is_flonum c val then some val else none

-- The functions of Ruby's C API that make and read floats on the heap.
pub record Floats : Type 0 where
  pub rb_float_new_in_heap : ℕ → Value
  pub rb_float_value : Value → ℕ
  pub rb_to_float : Value → Completion Value

-- A float on the heap is an aligned address from which the same bits are read.
pub record IsFloats (f : Floats) : Type 0 where
  pub aligned_law : (v : ℕ) → f.rb_float_new_in_heap v % 4 ≡ 0
  pub value_law : (v : ℕ) → f.rb_float_value (f.rb_float_new_in_heap v) ≡ v

abbrev pub unwrap_or : Option Value → Value → Value
unwrap_or none w = w
unwrap_or (some v) w = v

module _ (c : Consts) (f : Floats) where
  unfoldable pub float_from_f64 : ℕ → Value
  float_from_f64 n = unwrap_or (from_f64_impl n) (f.rb_float_new_in_heap n)

  unfoldable pub float_to_f64 : Value → ℕ
  unfolding from_value
  float_to_f64 w = elim (from_value c w) [ some flonum ↦ to_f64 flonum | none ↦ f.rb_float_value w ]

  unfoldable pub float_from_value : Heap → Value → Result (Option Value)
  float_from_value h val =
      if is_flonum c val
      then ok (some val)
      else do t ← rb_type c h val; ok (if t == c.t_float then some val else none)

  unfoldable pub float_try_convert : Heap → Value → Result Value
  unfolding float_from_value
  float_try_convert h val = do
    found ← float_from_value h val
    elim found [ some i ↦ ok i | none ↦ (protect c (f.rb_to_float val)).result ]

  -- `Flonum::try_convert`.
  unfoldable pub try_convert : Heap → Value → Result Value
  unfolding float_try_convert from_value
  try_convert h val = do
    float ← float_try_convert h val
    elim (from_value c float) [
      | some flonum ↦ ok flonum
      | none ↦ err (error range_error "float out of range for flonum")
    ]

-- ===== src/Value.antt =====
-- src/value.rs: the tests on the bits of a `VALUE` (`private::ReprValue` and `ReprValue`).
pub mod Tags
use magnus.Prelude.{
  ℕ, ◌-◌, ◌*◌, ◌%◌, ◌^◌, Bool, true, false, not, ◌||◌, Option, none, some, ok, panic, ◌==◌,
  if◌then◌else◌, bit_and,
}
use magnus.Bits.Word.{complement, word_mod}
use magnus.Ruby.{Value, Consts, Heap}
use magnus.Error.{Result}

-- `RClass` handles: the classes of immediates, and the class that an object's header names.
pub data RClass : Type 0 where
  false_class nil_class true_class integer symbol float : RClass
  of_object : Value → RClass

module _ (c : Consts) where
  unfoldable pub is_immediate : Value → Bool
  is_immediate val =
      let immediate_p = not (bit_and val c.immediate_mask == 0) in
      let test = not (bit_and val (complement c.qnil) == 0) in immediate_p || not test

  unfoldable pub r_basic : Value → Option Value
  unfolding is_immediate
  r_basic val = if is_immediate val then none else some val

  unfoldable pub is_false : Value → Bool
  is_false val = val == c.qfalse

  unfoldable pub is_true : Value → Bool
  is_true val = val == c.qtrue

  unfoldable pub is_undef : Value → Bool
  is_undef val = val == c.qundef

  unfoldable pub is_nil : Value → Bool
  is_nil val = val == c.qnil

  unfoldable pub is_fixnum : Value → Bool
  is_fixnum val = not (bit_and val c.fixnum_flag == 0)

  -- `!(usize::MAX << shift)`, the mask of the `shift` low bits.
  unfoldable pub is_static_symbol : Value → Bool
  is_static_symbol val =
      let mask = complement ((word_mod - 1) * 2 ^ c.special_shift % word_mod) in
      bit_and val mask == c.symbol_flag

  unfoldable pub is_flonum : Value → Bool
  is_flonum val = bit_and val c.flonum_mask == c.flonum_flag

  unfoldable pub to_bool : Value → Bool
  to_bool val = not (bit_and val (complement c.qnil) == 0)

  unfoldable pub rb_type_immediate : Value → Result ℕ
  unfolding is_false is_nil is_true is_undef is_fixnum is_static_symbol is_flonum
  rb_type_immediate val =
      if is_false val
      then ok c.t_false
      else if is_nil val
      then ok c.t_nil
      else if is_true val
      then ok c.t_true
      else if is_undef val
      then ok c.t_undef
      else if is_fixnum val
      then ok c.t_fixnum
      else if is_static_symbol val
      then ok c.t_symbol
      else if is_flonum val
      then ok c.t_float
      else panic

  unfoldable pub rb_type : Heap → Value → Result ℕ
  unfolding r_basic rb_type_immediate
  rb_type h val = elim (r_basic val) [
    | some p ↦ ok (bit_and (h.flags p) c.t_mask)
    | none ↦ rb_type_immediate val
  ]

  unfoldable pub class_immediate : Value → Result RClass
  unfolding is_false is_nil is_true is_undef is_fixnum is_static_symbol is_flonum
  class_immediate val =
      if is_false val
      then ok false_class
      else if is_nil val
      then ok nil_class
      else if is_true val
      then ok true_class
      else if is_undef val
      then panic
      else if is_fixnum val
      then ok integer
      else if is_static_symbol val
      then ok symbol
      else if is_flonum val
      then ok float
      else panic

  unfoldable pub class : Heap → Value → Result RClass
  unfolding r_basic class_immediate
  class h val = elim (r_basic val) [
    | some p ↦ ok (of_object (h.klass p))
    | none ↦ class_immediate val
  ]

  unfoldable pub is_frozen : Heap → Value → Bool
  unfolding r_basic
  is_frozen h val = elim (r_basic val) [
    | none ↦ true
    | some p ↦ not (bit_and (h.flags p) c.fl_freeze == 0)
  ]

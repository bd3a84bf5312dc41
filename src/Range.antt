-- ===== src/Range.antt =====
-- src/range.rs: ranges from Rust's range types, and the indices that a range stands for.
pub mod Bounds
pub mod Members
use magnus.Prelude.{
  ℕ, ◌+◌, ◌*◌, Bool, true, false, Option, none, some, Outcome, ok, err, panic, ◌>>=◌, ltb,
  if◌then◌else◌,
}
use magnus.Prelude.Int.{ℤ, pos}
use magnus.Bits.Word.{as_signed, as_unsigned, word_mod}
use magnus.Ruby.{Value, Consts, Heap}
use magnus.Error.{Result, ErrorType, error, type_error, Completion, protect}
use magnus.Value.{to_bool}
use magnus.RStruct as RStruct
use magnus.RStruct.{Memory}

-- The functions of Ruby's C API. `is_range` is the test of the class. `rb_range_beg_len` gives what it stores through its pointers, or unwinds.
pub record RangeCalls : Type 0 where
  pub rb_range_new : Value → Value → Bool → Completion Value
  pub rb_range_beg_len : Value → ℤ → Completion (ℤ × ℤ)
  pub is_range : Value → Bool

-- `std::ops`
pub data StdRange (T : Type 0) : Type 0 where
  range range_inclusive : T → T → StdRange T
  range_from range_to range_to_inclusive : T → StdRange T
  range_full : StdRange T

module _ (c : Consts) (r : RangeCalls) where
  unfoldable pub range_new : Value → Value → Bool → Result Value
  unfolding protect
  range_new beg end excl = (protect c (r.rb_range_new beg end excl)).result

  abbrev pub unwrapped : {A : Type 0} → Result A → Result A
  unwrapped (ok a) = ok a
  unwrapped (err e) = panic
  unwrapped panic = panic

  -- The `IntoValue` of Rust's six range types.
  unfoldable pub into_value_with : {T : Type 0} → (T → Value) → StdRange T → Result Value
  into_value_with into (range start end) = unwrapped (range_new (into start) (into end) true)
  into_value_with into (range_inclusive start end) =
      unwrapped (range_new (into start) (into end) false)
  into_value_with into (range_from start) = unwrapped (range_new (into start) c.qnil false)
  into_value_with into (range_to end) = unwrapped (range_new c.qnil (into end) true)
  into_value_with into (range_to_inclusive end) = unwrapped (range_new c.qnil (into end) false)
  into_value_with into range_full = unwrapped (range_new c.qnil c.qnil false)

  abbrev filtered : Value → Option Value → Option Value
  filtered val none = none
  filtered val (some s) = if r.is_range val then some s else none

  unfoldable from_value : Heap → Value → Result (Option Value)
  unfolding RStruct.from_value
  from_value h val = RStruct.from_value c h val >>= λ s. ok (filtered val s)

  unfoldable try_convert : Heap → Value → Result Value
  unfolding from_value
  try_convert h val = from_value h val >>= λ handle. elim handle [
    | some v ↦ ok v
    | none ↦ err (error type_error "no implicit conversion into Range")
  ]

  abbrev and_then : {A B : Type 0} → Result A → (A → Result B) → Result B
  and_then (ok a) f = f a
  and_then (err e) f = err e
  and_then panic f = panic

  unfoldable pub beg : {T : Type 0} → Heap → Memory → (Value → Result T) → Value → Result T
  beg h mem convert self = RStruct.get c h mem convert self 0

  unfoldable pub end : {T : Type 0} → Heap → Memory → (Value → Result T) → Value → Result T
  end h mem convert self = RStruct.get c h mem convert self 1

  unfoldable pub excl : Heap → Memory → Value → Result Bool
  excl h mem self = and_then (unwrapped (RStruct.get c h mem ok self 2)) (λ v. ok (to_bool c v))

  -- `length as c_long`; `begp as usize` and `lenp as usize`.
  abbrev as_usizes : ℤ × ℤ → ℕ × ℕ
  as_usizes p = (as_unsigned 64 p.0, as_unsigned 64 p.1)

  unfoldable pub beg_len : Value → ℕ → Result (ℕ × ℕ)
  beg_len self length =
      and_then ((protect c (r.rb_range_beg_len self (as_signed 64 (pos length)))).result)
        (λ p. ok (as_usizes p))

  -- The start and the end of the `Range<usize>`; the addition panics above `usize::MAX`.
  unfoldable pub to_range_with_len : Value → ℕ → Result (ℕ × ℕ)
  to_range_with_len self length =
      and_then (beg_len self length)
        (λ p. if ltb (p.0 + p.1) word_mod then ok (p.0, p.0 + p.1) else panic)

-- ===== src/Integer/Compare.antt =====
-- src/integer.rs: the order of `Integer`s.
use magnus.Prelude.{Option, some, ok, panic}
use magnus.Prelude.Int.{pos}
use magnus.Bits.Word.{to_signed}
use magnus.Ruby.{Value, Consts}
use magnus.Ruby.Numbers.{Numbers}
use magnus.Error.{Result}
use magnus.Integer.{CmpOrdering, compare_signed, binary_operation_visit}
use magnus.Integer.Casts.{to_i64}

module _ (c : Consts) (r : Numbers) where
  -- `partial_cmp` of the words as two `i64`, and the sign that Ruby's comparison returns.
  unfoldable pub rust_compare : Value → Value → Result (Option CmpOrdering)
  rust_compare x y = ok (some (compare_signed (to_signed x) (to_signed y)))

  unfoldable pub ruby_compare : Value → Value → Result (Option CmpOrdering)
  ruby_compare x y = elim (to_i64 c r (r.rb_big_cmp x y)) [
    | ok n ↦ ok (some (compare_signed n (pos 0)))
    | _ ↦ panic
  ]

  unfoldable pub partial_cmp : Value → Value → Result (Option CmpOrdering)
  unfolding binary_operation_visit rust_compare ruby_compare
  partial_cmp a b = binary_operation_visit c r a b rust_compare ruby_compare

-- ===== src/Range/Bounds.antt =====
-- src/range.rs: the ranges that `to_range_with_len` gives.
use native.Mathlib.Nat.{mod-eq_of_lt}
use magnus.Prelude.{ℕ, ◌≡◌, ◌<◌, ◌+◌, ◌%◌, ◌^◌, refl, ok, lt→ltb, arith}
use magnus.Prelude.Int.{pos}
use magnus.Bits.Word.{as_unsigned, as_signed, word_mod}
use magnus.Ruby.{Value, Consts}
use magnus.Error.{returned, protect}
use magnus.Range.{RangeCalls, beg_len, to_range_with_len}

as_usize : (n : ℕ) → n < 2 ^ 63 → as_unsigned 64 (pos n) ≡ n
as_usize n h = let q : n % 2 ^ 64 ≡ n = mod-eq_of_lt (omega arith) in ground arith

module _ (c : Consts) (r : RangeCalls) where
  beg_len_lem :
      (self : Value) (length b n : ℕ)
      → b < 2 ^ 63
      → n < 2 ^ 63
      → r.rb_range_beg_len self (as_signed 64 (pos length)) ≡ returned (pos b, pos n)
      → beg_len c r self length ≡ ok (b, n)
  unfolding beg_len protect
  beg_len_lem self length b n hb hn called = rw called (rw (as_usize b hb, as_usize n hn) refl)

  -- When Ruby finds that a range begins at `b` and has `n` indices, `to_range_with_len` is the Rust
  -- range from `b` to `b + n`, without an overflow or a loss in the casts, for all `b` and `n` that a
  -- `c_long` holds.
  to_range_with_len_lem :
      (self : Value) (length b n : ℕ)
      → b < 2 ^ 63
      → n < 2 ^ 63
      → r.rb_range_beg_len self (as_signed 64 (pos length)) ≡ returned (pos b, pos n)
      → to_range_with_len c r self length ≡ ok (b, b + n)
  unfolding to_range_with_len
  to_range_with_len_lem self length b n hb hn called =
      rw (beg_len_lem self length b n hb hn called)
        (rw (lt→ltb (b + n) word_mod (omega arith)) refl)

-- ===== src/ScanArgs/Calls.antt =====
-- `rb_scan_args`, `rb_get_kwargs` and `rb_error_arity` of Ruby's C API, which src/scan_args.rs
-- calls, and the format string of `rb_scan_args` as Ruby documents it.
use magnus.Prelude.{ℕ, List}
use magnus.Prelude.Int.{ℤ}
use magnus.Ruby.{Value}
use magnus.Error.{Completion}

-- The characters of a format string.
pub data Char : Type 0 where
  digit : ℕ → Char
  star colon ampersand : Char

-- The calls return their result with the values that they store through the pointers.
pub record ScanCalls : Type 0 where
  pub rb_scan_args : List Value → List Char → Completion (ℕ × List Value)
  pub rb_get_kwargs : Value → List ℕ → ℕ → ℤ → Completion (ℕ × List Value)
  pub rb_error_arity : ℤ → ℤ → ℤ → Completion Value

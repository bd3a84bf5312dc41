-- ===== src/Method.antt =====
-- src/method.rs: the functions that stand between Ruby's interpreter and a Rust function, and
-- `raise` with what it needs of src/error.rs. The handle `&Ruby` has no state and is left out of
-- the arguments of a Rust function.
pub mod Raise
pub mod Calls
use magnus.Prelude.{
  ℕ, ◌+◌, ◌-◌, String, Bool, true, false, Option, none, some, List, [], ◌∷◌, ok, err, panic,
  Outcome, ◌>>=◌, length,
}
use magnus.Ruby.{Value, Consts}
use magnus.Error.{
  Result, ErrorType, ExceptionClass, fatal, jump, error, exception, Tag, Completion, returned,
  unwound, protect,
}

-- What `std::panic` hands to `catch_unwind`: a `&'static str`, a `String`, or another type.
pub data Payload : Type 0 where
  static_str : String → Payload
  string : String → Payload
  other_payload : Payload

-- How Rust code can fail: with an `Err`, or by a panic.
pub data Fault : Type 0 where
  failed : ErrorType → Fault
  panicked : Payload → Fault

abbrev pub Ran : Type 0 → Type 0
Ran A = Outcome Fault A

-- What `raise` uses of Ruby: the object of an exception class with a message, a class's object,
-- and the tests of `is_kind_of`.
pub record Classes : Type 0 where
  pub new_instance : ExceptionClass → String → Completion Value
  pub class_value : ExceptionClass → Value
  pub is_inherited : ExceptionClass → Value → Bool
  pub is_kind_of_class : Value → Value → Bool

-- `Error::from_panic`
unfoldable pub from_panic : Payload → ErrorType
from_panic (static_str m) = error fatal m
from_panic (string m) = error fatal m
from_panic other_payload = error fatal "panic"

-- `Error::value`
unfoldable pub value : Classes → ErrorType → Option Value
value k (jump t) = none
value k (error c m) = some (k.class_value c)
value k (exception e) = some e

-- `Error::is_kind_of`
unfoldable pub is_kind_of : Classes → ErrorType → Value → Bool
is_kind_of k (jump t) class = false
is_kind_of k (error c m) class = k.is_inherited c class
is_kind_of k (exception e) class = k.is_kind_of_class e class

-- `#(TryConvert::try_convert(arg~N)?,)*`; Ruby passes as many arguments as the arity says.
abbrev pub convert_args : {T : Type 0} → List (Value → Ran T) → List Value → Ran (List T)
convert_args [] args = ok []
convert_args (convert ∷ converts) [] = panic
convert_args (convert ∷ converts) (arg ∷ args) = do
  t ← convert arg
  ts ← convert_args converts args
  ok (t ∷ ts)

module _ {S : Type 0} (convert_self : Value → Ran S) where
  -- `MethodRbAry` and `RubyMethodRbAry`: the arguments come as one Ruby array.
  unfoldable pub rb_ary_call_convert_value :
      {T : Type 0} → (Value → Ran T) → (S → T → Ran Value) → Value → Value → Ran Value
  rb_ary_call_convert_value convert func rb_self args = do
    self ← convert_self rb_self
    args ← convert args
    func self args

  -- `MethodCAry` and `RubyMethodCAry`: the arguments come as a slice and are not converted.
  unfoldable pub c_ary_call_convert_value :
      (S → List Value → Ran Value) → List Value → Value → Ran Value
  c_ary_call_convert_value func args rb_self = do self ← convert_self rb_self; func self args

  -- `Method0` to `Method16`
  unfoldable pub method_call_convert_value :
      {T : Type 0}
      → List (Value → Ran T)
      → (S → List T → Ran Value)
      → Value
      → List Value
      → Ran Value
  method_call_convert_value converts func rb_self args = do
    self ← convert_self rb_self
    ts ← convert_args converts args
    func self ts

-- `Block`: `proc_from_value` is `Proc::from_value`.
unfoldable pub block_call_convert_value :
    (Value → Option Value)
    → (List Value → Option Value → Ran Value)
    → List Value
    → Value
    → Ran Value
block_call_convert_value proc_from_value func args blockarg = func args (proc_from_value blockarg)

module _ (c : Consts) (k : Classes) where
  -- `Error::exception`
  unfoldable pub exception_of : ErrorType → Result Value
  unfolding protect
  exception_of (jump t) = panic
  exception_of (error class msg) = elim ((protect c (k.new_instance class msg)).result) [
    | ok e ↦ ok e
    | err (exception e) ↦ ok e
    | err (jump t) ↦ panic
    | err (error c' m) ↦ panic
    | panic ↦ panic
  ]
  exception_of (exception e) = ok e

  -- `raise`: `Tag::resume` unwinds with the tag and leaves the thread's `errinfo`, which is given,
  -- and `rb_exc_raise` unwinds with the exception.
  unfoldable pub raise : Value → ErrorType → Result (Completion Value)
  raise errinfo (jump tag) = ok (unwound tag errinfo)
  raise errinfo (error class msg) =
      exception_of (error class msg) >>= λ e. ok (unwound magnus.Error.Tag.raise e)
  raise errinfo (exception e) =
      exception_of (exception e) >>= λ v. ok (unwound magnus.Error.Tag.raise v)

  -- The end of each `call_handle_error`: a panic becomes an error, and an error is raised. What
  -- is left of `panic` is a panic that reaches the `extern "C"` function, which aborts.
  abbrev pub handle_error : {A : Type 0} → Value → Ran A → (A → Value) → Result (Completion Value)
  handle_error errinfo (ok v) returning = ok (returned (returning v))
  handle_error errinfo (err (failed e)) returning = raise errinfo e
  handle_error errinfo (err (panicked p)) returning = raise errinfo (from_panic p)
  handle_error errinfo panic returning = panic

  -- `Init` and `RubyInit`; what Ruby gets from an `Init` function is not a value.
  unfoldable pub init_call_handle_error :
      Value → (Unit {0} → Ran (Unit {0})) → Result (Completion Value)
  init_call_handle_error errinfo func = handle_error errinfo (func tt) (λ u. c.qnil)

  unfoldable pub ruby_init_call_handle_error :
      Value → (Unit {0} → Ran (Unit {0})) → Result (Completion Value)
  ruby_init_call_handle_error errinfo func = handle_error errinfo (func tt) (λ u. c.qnil)

  unfoldable pub block_call_handle_error :
      Value
      → (Value → Option Value)
      → (List Value → Option Value → Ran Value)
      → List Value
      → Value
      → Result (Completion Value)
  unfolding block_call_convert_value
  block_call_handle_error errinfo proc_from_value func args blockarg =
      handle_error errinfo (block_call_convert_value proc_from_value func args blockarg) (λ v. v)

  -- `Thread` and `Synchronize`
  unfoldable pub thread_call_handle_error :
      Value → (Unit {0} → Ran Value) → Result (Completion Value)
  thread_call_handle_error errinfo func = handle_error errinfo (func tt) (λ v. v)

  unfoldable pub synchronize_call_handle_error :
      Value → (Unit {0} → Ran Value) → Result (Completion Value)
  synchronize_call_handle_error errinfo func = handle_error errinfo (func tt) (λ v. v)

  module _ {S : Type 0} (convert_self : Value → Ran S) where
    unfoldable pub rb_ary_call_handle_error :
        {T : Type 0}
        → Value
        → (Value → Ran T)
        → (S → T → Ran Value)
        → Value
        → Value
        → Result (Completion Value)
    rb_ary_call_handle_error errinfo convert func rb_self args =
        handle_error errinfo (rb_ary_call_convert_value convert_self convert func rb_self args)
          (λ v. v)

    unfoldable pub c_ary_call_handle_error :
        Value → (S → List Value → Ran Value) → List Value → Value → Result (Completion Value)
    c_ary_call_handle_error errinfo func args rb_self =
        handle_error errinfo (c_ary_call_convert_value convert_self func args rb_self) (λ v. v)

    unfoldable pub method_call_handle_error :
        {T : Type 0}
        → Value
        → List (Value → Ran T)
        → (S → List T → Ran Value)
        → Value
        → List Value
        → Result (Completion Value)
    method_call_handle_error errinfo converts func rb_self args =
        handle_error errinfo (method_call_convert_value convert_self converts func rb_self args)
          (λ v. v)

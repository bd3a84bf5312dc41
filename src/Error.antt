-- ===== src/Error.antt =====
-- src/error.rs: the error values that magnus passes through `Result`.
pub mod Returned
use magnus.Prelude.{ℕ, String, Option, none, some, Outcome, ok, err, panic, ◌==◌, if◌then◌else◌}
use magnus.Ruby.{Value, Consts}

-- The exception classes that the modelled code names, and those of user code.
pub data ExceptionClass : Type 0 where
  type_error : ExceptionClass
  range_error : ExceptionClass
  arg_error : ExceptionClass
  index_error : ExceptionClass
  fatal : ExceptionClass
  user_class : Value → ExceptionClass

-- `Tag`: the states of `rb_protect` other than 0.
pub data Tag : Type 0 where
  return break next retry redo raise throw fatal_tag : Tag

pub data ErrorType : Type 0 where
  jump : Tag → ErrorType
  error : ExceptionClass → String → ErrorType
  exception : Value → ErrorType

-- The number that C has for a tag (`#[repr(i32)]`).
abbrev pub tag_code : Tag → ℕ
tag_code return = 1
tag_code break = 2
tag_code next = 3
tag_code retry = 4
tag_code redo = 5
tag_code raise = 6
tag_code throw = 7
tag_code fatal_tag = 8

-- `transmute::<c_int, Tag>`, undefined (`none`) on other numbers.
abbrev pub tag_of_code : ℕ → Option Tag
tag_of_code n =
    if n == 1
    then some return
    else if n == 2
    then some break
    else if n == 3
    then some next
    else if n == 4
    then some retry
    else if n == 5
    then some redo
    else if n == 6
    then some raise
    else if n == 7
    then some throw
    else if n == 8
    then some fatal_tag
    else none

abbrev pub Result : Type 0 → Type 0
Result A = Outcome ErrorType A

-- The call returned an error of class `RangeError`.
abbrev pub IsRangeError : {A : Type 0} → Result A → Type 0
IsRangeError (ok a) = ⊥
IsRangeError panic = ⊥
IsRangeError (err (error range_error m)) = Unit {0}
IsRangeError (err _) = ⊥

-- How a call into C ends: it returns, or it unwinds the stack up to the next `rb_protect` with a
-- tag, the thread's `errinfo` then holding the value that is passed on.
pub data Completion (A : Type 0) : Type 0 where
  returned : A → Completion A
  unwound : Tag → Value → Completion A

-- What `protect` gives, and what it stores into the thread's `errinfo`, if it does.
pub record Protected (A : Type 0) : Type 0 where
  pub result : Result A
  pub errinfo : Option Value

-- `protect(func)`: `rb_protect` gives state 0 and the value of a call that returns, and the
-- tag's number for one that unwinds.
unfoldable pub protect : {A : Type 0} → Consts → Completion A → Protected A
protect c (returned a) = record { result = ok a; errinfo = none }
protect c (unwound tag info) =
    let state = tag_code tag in
    if state == 6 then record { result = err (exception info); errinfo = some c.qnil } else record {
      result = elim (tag_of_code state) [ some t ↦ err (jump t) | none ↦ panic ];
      errinfo = none;
    }

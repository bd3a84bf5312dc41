-- ===== src/Method/Raise.antt =====
-- What a Rust error is after it has crossed Ruby's interpreter from one Rust function to another.
use magnus.Prelude.{◌≡◌, ◌≢◌, refl, ap, ok, err, String, ◌⊎◌, inl, inr}
use magnus.Ruby.{Value, Consts}
use magnus.Error.{
  ErrorType, ExceptionClass, jump, error, exception, Tag, Completion, returned, unwound, protect,
}
use magnus.Method.{Classes, exception_of, raise}

-- Making an exception object returns it or raises another exception.
abbrev pub IsClasses : Classes → Type 0
IsClasses k =
    (class : ExceptionClass) (msg : String)
    → (e : Value) × ((k.new_instance class msg ≡ returned e)
        ⊎ (k.new_instance class msg ≡ unwound Tag.raise e))

-- The error that a Rust caller gets for an error that a Rust function has raised.
abbrev pub Received : Classes → ErrorType → ErrorType → Type 0
Received k (jump t) e = e ≡ jump t
Received k (exception v) e = e ≡ exception v
Received k (error class msg) e =
    (v : Value) × (e ≡ exception v)
    × ((k.new_instance class msg ≡ returned v) ⊎ (k.new_instance class msg ≡ unwound Tag.raise v))

abbrev unwinding : Tag → Value → Completion Value
unwinding t info = unwound t info

module _ (c : Consts) (k : Classes) where
  exception_of-new :
      (class : ExceptionClass) (msg : String) (v : Value)
      → ((k.new_instance class msg ≡ returned v) ⊎ (k.new_instance class msg ≡ unwound Tag.raise v))
      → exception_of c k (error class msg) ≡ ok v
  unfolding exception_of protect
  exception_of-new class msg v (inl e) = rw (e, exception_of) refl
  exception_of-new class msg v (inr e) = rw (e, exception_of) refl

  protect-raise : (v : Value) → (protect c (unwinding Tag.raise v)).result ≡ err (exception v)
  unfolding protect
  protect-raise v = refl

  protect-jump :
      (t : Tag) (info : Value)
      → t ≢ Tag.raise
      → (protect c (unwinding t info)).result ≡ err (jump t)
  unfolding protect
  protect-jump Tag.return info ne = refl
  protect-jump Tag.break info ne = refl
  protect-jump Tag.next info ne = refl
  protect-jump Tag.retry info ne = refl
  protect-jump Tag.redo info ne = refl
  protect-jump Tag.raise info ne = absurd (ne refl)
  protect-jump Tag.throw info ne = refl
  protect-jump Tag.fatal_tag info ne = refl

  -- An error that is raised from Rust into Ruby always unwinds, without a panic, and the next
  -- `protect` on the stack gives it back: a jump and an exception as they were, and a class with
  -- a message as an exception object that was made from them, or that Ruby raised in making it.
  -- The error is not a jump with the tag of a raised exception, which `protect` never gives.
  pub raise-protect :
      (errinfo : Value) (e : ErrorType)
      → IsClasses k
      → e ≢ jump Tag.raise
      → (completion : Completion Value) × (e' : ErrorType) × (raise c k errinfo e ≡ ok completion)
        × ((protect c completion).result ≡ err e')
        × Received k e e'
  unfolding raise exception_of
  raise-protect errinfo (jump t) l ne =
      (unwound t errinfo, jump t, refl, protect-jump t errinfo (λ e. ne (ap jump e)), refl)
  raise-protect errinfo (exception v) l ne =
      (unwound Tag.raise v, exception v, refl, protect-raise v, refl)
  raise-protect errinfo (error class msg) l ne =
      let (v, made) = l class msg in
      (
        unwound Tag.raise v,
        exception v,
        raised v (exception_of-new class msg v made),
        protect-raise v,
        (v, refl, made),
      )
    where
      raised :
          (v : Value)
          → exception_of c k (error class msg) ≡ ok v
          → raise c k errinfo (error class msg) ≡ ok (unwound Tag.raise v)
      raised v e = rw e refl

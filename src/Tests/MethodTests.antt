-- ===== src/Tests/MethodTests.antt =====
-- The properties of calls from Ruby at a concrete method.
use magnus.Prelude.{
  ℕ, ◌≡◌, inl, refl, true, false, List, [], ◌∷◌, ok, err, ◌+◌, ◌*◌, ◌==◌, if◌then◌else◌,
}
use magnus.Ruby.{Value, modern}
use magnus.Error.{Completion, returned, ErrorType, error, type_error, protect}
use magnus.Method.{Ran, failed, panicked, static_str, Classes, raise, method_call_handle_error}
use magnus.Method.Raise.{IsClasses, Received, raise-protect}
use magnus.Method.Calls.{Ends, called, next, done, method_call_handle_error-Ends}

-- Every class makes one exception object.
abbrev pub classes : Classes
classes = record {
  new_instance = λ class msg. returned 0x100;
  class_value = λ class. 0x200;
  is_inherited = λ class v. true;
  is_kind_of_class = λ e class. false;
}

pub classes-IsClasses : IsClasses classes
classes-IsClasses class msg = (0x100, inl refl)

abbrev convert : Value → Ran ℕ
convert v = if v == 0 then err (failed (error type_error "no value")) else ok (v * 2)

-- Adds its argument to `self`, and panics where the sum is 6.
abbrev func : ℕ → List ℕ → Ran Value
func self [] = ok self
func self (t ∷ ts) = if self + t == 6 then err (panicked (static_str "six")) else ok (self + t)

raise-protect_example :
    (completion : Completion Value) × (e' : ErrorType) × (raise modern classes 0
        (error type_error "wrong")
      ≡ ok completion)
    × ((protect modern completion).result ≡ err e')
    × Received classes (error type_error "wrong") e'
raise-protect_example =
    raise-protect modern classes 0 (error type_error "wrong") classes-IsClasses (λ e. cc e)

method_call_handle_error-Ends_example :
    (completion : Completion Value) × (method_call_handle_error modern classes convert 0
        (convert ∷ [])
        func
        1
        (2 ∷ [])
      ≡ ok completion)
    × Ends modern classes (λ v. v) (func 2 (4 ∷ [])) completion
method_call_handle_error-Ends_example =
    method_call_handle_error-Ends modern classes classes-IsClasses convert 0 (convert ∷ []) func 1
      (2 ∷ []) (func 2 (4 ∷ [])) (called refl (next refl done)) (λ e. cc e) (λ e. cc e)

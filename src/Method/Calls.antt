-- ===== src/Method/Calls.antt =====
-- Calls of Rust functions from Ruby: when the function runs, and what becomes of its result.
use mathlib.Core.Path.{Path, subst}
use magnus.Prelude.{◌≡◌, ◌≢◌, ◌↔◌, refl, ap, ok, err, panic, Outcome, ◌>>=◌, List, [], ◌∷◌, String}
use magnus.Ruby.{Value, Consts}
use magnus.Error.{ErrorType, jump, error, fatal, Tag, Completion, returned, protect}
use magnus.Method.{
  Ran, Fault, failed, panicked, Payload, static_str, string, other_payload, from_panic, Classes,
  handle_error, convert_args, method_call_convert_value, method_call_handle_error,
}
use magnus.Method.{
  rb_ary_call_handle_error, c_ary_call_handle_error, rb_ary_call_convert_value,
  c_ary_call_convert_value,
}
use magnus.Method.Raise.{IsClasses, Received, raise-protect}

bind_ok :
    {E A B : Type 0} (m : Outcome E A) (f : A → Outcome E B) (b : B)
    → (m >>= f) ≡ ok b
    → (a : A) × (m ≡ ok a) × (f a ≡ ok b)
bind_ok (ok a) f b h = (a, refl, h)
bind_ok (err e) f b h = absurd cc
bind_ok panic f b h = absurd cc

ok_injective : {E A : Type 0} {a b : A} → Path (Outcome E A) (ok a) (ok b) → a ≡ b
ok_injective h = cc

-- The arguments are converted one by one, from the first.
pub data Accepts {T : Type 0} : List (Value → Ran T) → List Value → List T → Type 0 where
  done : {args : List Value} → Accepts [] args []
  next :
      {convert : Value → Ran T} {arg : Value} {t : T} {converts : List (Value → Ran T)}
      {args : List Value} {ts : List T}
      → convert arg ≡ ok t
      → Accepts converts args ts
      → Accepts (convert ∷ converts) (arg ∷ args) (t ∷ ts)

-- An argument is refused: those before it convert, and it does not.
pub data Refuses {T : Type 0} : List (Value → Ran T) → List Value → Fault → Type 0 where
  here :
      {convert : Value → Ran T} {arg : Value} {fault : Fault} {converts : List (Value → Ran T)}
      {args : List Value}
      → convert arg ≡ err fault
      → Refuses (convert ∷ converts) (arg ∷ args) fault
  later :
      {convert : Value → Ran T} {arg : Value} {t : T} {fault : Fault}
      {converts : List (Value → Ran T)} {args : List Value}
      → convert arg ≡ ok t
      → Refuses converts args fault
      → Refuses (convert ∷ converts) (arg ∷ args) fault

-- How a method runs: `self` is refused, an argument is, or the function is called with all of them.
pub data Runs {S T : Type 0} (convert_self : Value → Ran S) (converts : List (Value → Ran T))
    (func : S → List T → Ran Value) (rb_self : Value) (args : List Value) : Ran Value → Type 0 where
  self_refused :
      {fault : Fault}
      → convert_self rb_self ≡ err fault
      → Runs convert_self converts func rb_self args (err fault)
  argument_refused :
      {self : S} {fault : Fault}
      → convert_self rb_self ≡ ok self
      → Refuses converts args fault
      → Runs convert_self converts func rb_self args (err fault)
  called :
      {self : S} {ts : List T}
      → convert_self rb_self ≡ ok self
      → Accepts converts args ts
      → Runs convert_self converts func rb_self args (func self ts)

-- The message of a panic: its own if it is a string of either type, and otherwise a constant.
abbrev pub panic_message : Payload → String
panic_message (static_str m) = m
panic_message (string m) = m
panic_message other_payload = "panic"

-- The error of a run that fails, as Ruby gets it.
abbrev pub Ends : {A : Type 0} → Consts → Classes → (A → Value) → Ran A → Completion Value → Type 0
Ends c k returning (ok a) completion = completion ≡ returned (returning a)
Ends c k returning (err (failed e)) completion =
    (e' : ErrorType) × ((protect c completion).result ≡ err e') × Received k e e'
Ends c k returning (err (panicked p)) completion =
    (e' : ErrorType) × ((protect c completion).result ≡ err e')
    × Received k (error fatal (panic_message p)) e'
Ends c k returning panic completion = ⊥

pub from_panic_lem : (p : Payload) → from_panic p ≡ error fatal (panic_message p)
unfolding from_panic
from_panic_lem (static_str m) = refl
from_panic_lem (string m) = refl
from_panic_lem other_payload = refl

convert_args-Accepts :
    {T : Type 0} {converts : List (Value → Ran T)} {args : List Value} {ts : List T}
    → Accepts converts args ts
    → convert_args converts args ≡ ok ts
convert_args-Accepts done = refl
convert_args-Accepts (next e rest) = rw (e, convert_args-Accepts rest) refl

convert_args-Refuses :
    {T : Type 0} {converts : List (Value → Ran T)} {args : List Value} {fault : Fault}
    → Refuses converts args fault
    → convert_args converts args ≡ err fault
convert_args-Refuses (here e) = rw e refl
convert_args-Refuses (later e rest) = rw (e, convert_args-Refuses rest) refl

Runs-convert_value :
    {S T : Type 0} {convert_self : Value → Ran S} {converts : List (Value → Ran T)}
    {func : S → List T → Ran Value} {rb_self : Value} {args : List Value} {ran : Ran Value}
    → Runs convert_self converts func rb_self args ran
    → method_call_convert_value convert_self converts func rb_self args ≡ ran
unfolding method_call_convert_value
Runs-convert_value (self_refused e) = rw e refl
Runs-convert_value (argument_refused e rest) = rw (e, convert_args-Refuses rest) refl
Runs-convert_value (called e all) = rw (e, convert_args-Accepts all) refl

module _ (c : Consts) (k : Classes) (l : IsClasses k) where
  pub handle_error-Ends :
      {A : Type 0} (errinfo : Value) (ran : Ran A) (returning : A → Value)
      → ran ≢ err (failed (jump Tag.raise))
      → ran ≢ panic
      → (completion : Completion Value) × (handle_error c k errinfo ran returning ≡ ok completion)
        × Ends c k returning ran completion
  handle_error-Ends errinfo (ok a) returning ne np = (returned (returning a), refl, refl)
  handle_error-Ends errinfo panic returning ne np = absurd (np refl)
  handle_error-Ends errinfo (err (failed e)) returning ne np =
      let (completion, e', raised, got, received) =
        raise-protect c k errinfo e l (λ same. ne (ap (λ x. err (failed x)) same)) in
      (completion, raised, (e', got, received))
  handle_error-Ends errinfo (err (panicked p)) returning ne np =
      let (completion, e', raised, got, received) =
        raise-protect c k errinfo (error fatal (panic_message p)) l (λ same. absurd cc) in
      (completion, rw (from_panic_lem p) raised, (e', got, received))

  module _ {S : Type 0} (convert_self : Value → Ran S) where
    -- A Rust method that Ruby calls returns to Ruby or unwinds, and no panic leaves it. If `self` and
    -- the arguments convert, the function is called with them, and the value that it returns is
    -- returned; its error, or that of `self` or else of the first argument that does not convert, is
    -- the one that the next `protect` gives; and a panic of either is an exception made from `fatal`
    -- and the panic's message, or "panic" if its payload is no string. The run is not a bare tag of a
    -- raised exception, nor an abort.
    pub method_call_handle_error-Ends :
        {T : Type 0} (errinfo : Value) (converts : List (Value → Ran T))
        (func : S → List T → Ran Value) (rb_self : Value) (args : List Value) (ran : Ran Value)
        → Runs convert_self converts func rb_self args ran
        → ran ≢ err (failed (jump Tag.raise))
        → ran ≢ panic
        → (completion : Completion Value) × (method_call_handle_error c k convert_self errinfo
              converts func rb_self args
            ≡ ok completion)
          × Ends c k (λ v. v) ran completion
    unfolding method_call_handle_error
    method_call_handle_error-Ends errinfo converts func rb_self args ran runs ne np =
        rw (Runs-convert_value runs) (handle_error-Ends errinfo ran (λ v. v) ne np)

module _ (c : Consts) (k : Classes) (l : IsClasses k) {S : Type 0}
    (convert_self : Value → Ran S) where
  -- A Rust method that takes its arguments as one Ruby array returns to Ruby or unwinds, and no
  -- panic leaves it: the function's value is returned, its error, or that of a conversion, is the
  -- one that the next `protect` gives, and a panic is an exception made from `fatal` and the panic's
  -- message. The run is not a bare tag of a raised exception, nor an abort.
  pub rb_ary_call_handle_error-Ends :
      {T : Type 0} (errinfo : Value) (convert : Value → Ran T) (func : S → T → Ran Value)
      (rb_self args : Value)
      → rb_ary_call_convert_value convert_self convert func rb_self args
        ≢ err (failed (jump Tag.raise))
      → rb_ary_call_convert_value convert_self convert func rb_self args ≢ panic
      → (completion : Completion Value) × (rb_ary_call_handle_error c k convert_self errinfo convert
            func rb_self args
          ≡ ok completion)
        × Ends c k
            (λ v. v)
            (rb_ary_call_convert_value convert_self convert func rb_self args)
            completion
  unfolding rb_ary_call_handle_error
  rb_ary_call_handle_error-Ends errinfo convert func rb_self args ne np =
      handle_error-Ends c k l errinfo
        (rb_ary_call_convert_value convert_self convert func rb_self args) (λ v. v) ne np

  -- A Rust method that takes its arguments as a slice returns to Ruby or unwinds, and no panic
  -- leaves it: the function's value is returned, its error, or that of the conversion of `self`, is
  -- the one that the next `protect` gives, and a panic is an exception made from `fatal` and the
  -- panic's message. The run is not a bare tag of a raised exception, nor an abort.
  pub c_ary_call_handle_error-Ends :
      (errinfo : Value) (func : S → List Value → Ran Value) (args : List Value) (rb_self : Value)
      → c_ary_call_convert_value convert_self func args rb_self ≢ err (failed (jump Tag.raise))
      → c_ary_call_convert_value convert_self func args rb_self ≢ panic
      → (completion : Completion Value) × (c_ary_call_handle_error c k convert_self errinfo func
            args rb_self
          ≡ ok completion)
        × Ends c k (λ v. v) (c_ary_call_convert_value convert_self func args rb_self) completion
  unfolding c_ary_call_handle_error
  c_ary_call_handle_error-Ends errinfo func args rb_self ne np =
      handle_error-Ends c k l errinfo (c_ary_call_convert_value convert_self func args rb_self)
        (λ v. v) ne np

Accepts-convert_args :
    {T : Type 0} (converts : List (Value → Ran T)) (args : List Value) (ts : List T)
    → convert_args converts args ≡ ok ts
    → Accepts converts args ts
Accepts-convert_args [] args ts h = subst (Accepts [] args) (ok_injective h) done
Accepts-convert_args (convert ∷ converts) [] ts h = absurd cc
Accepts-convert_args (convert ∷ converts) (arg ∷ args) ts h =
    let (t, et, h') = bind_ok (convert arg) _ ts h in
    let (rest, er, h'') = bind_ok (convert_args converts args) _ ts h' in
    subst (Accepts (convert ∷ converts) (arg ∷ args)) (ok_injective h'')
      (next et (Accepts-convert_args converts args rest er))

-- A method call gives a value exactly when `self` and each argument convert and the function
-- gives this value for them.
pub method_call_convert_value_iff :
    {S T : Type 0} (convert_self : Value → Ran S) (converts : List (Value → Ran T))
    (func : S → List T → Ran Value) (rb_self : Value) (args : List Value) (v : Value)
    → (method_call_convert_value convert_self converts func rb_self args ≡ ok v) ↔ (
        (self : S) × (ts : List T) × (convert_self rb_self ≡ ok self)
        × Accepts converts args ts
        × (func self ts ≡ ok v))
unfolding method_call_convert_value
method_call_convert_value_iff convert_self converts func rb_self args v = (
  (λ h.
      let (self, es, h1) = bind_ok (convert_self rb_self) _ v h in
      let (ts, et, h2) = bind_ok (convert_args converts args) _ v h1 in
      (self, ts, es, Accepts-convert_args converts args ts et, h2)),
  λ (self, ts, es, et, ef). rw (es, convert_args-Accepts et) ef,
)

-- ===== src/TypedData.antt =====
-- src/r_typed_data.rs and src/typed_data.rs: Rust values in Ruby objects. A type that implements
-- `TypedData` is the number of its data type; the values of all these types are a sum `T`.
pub mod Builder
pub mod Compare
pub mod Lifetime
pub mod Soundness
pub mod Reached
pub mod Drain
pub mod Dup
pub mod Freeze
pub mod Cloned
use magnus.Prelude.{
  ℕ, suc, ◌+◌, Bool, true, false, not, ◌&&◌, ◌||◌, String, Option, none, some, Outcome, ok, err,
  panic, ◌>>=◌, ◌==◌, leb, if◌then◌else◌,
}
use magnus.Ruby.{Value, Consts, Heap}
use magnus.Error.{Result, ErrorType, error, type_error, Completion, protect}
use magnus.Method.{Payload, static_str, string, other_payload}
use magnus.Value.{rb_type}
use magnus.Prelude.Int.{ℤ}
use magnus.Bits.Word.{to_signed}

-- An object of typed data: its class, the pointer to the Rust value, and its data type.
pub record Wrapped : Type 0 where
  pub class : Value
  pub ptr : ℕ
  pub data_type : ℕ

-- The boxes of Rust's heap that are allocated, and Ruby's objects of typed data; the addresses in
-- use are below `limit`. `attached` gives the object of a singleton class. A Rust type of size zero,
-- whose `Box::new` takes no memory, is left aside.
pub record Store (T : Type 0) : Type 0 where
  pub boxes : ℕ → Option T
  pub objects : Value → Option Wrapped
  pub frozen : Value → Bool
  pub attached : Value → Option Value
  pub limit : ℕ

abbrev pub set_box : {T : Type 0} → Store T → ℕ → Option T → Store T
set_box s p b = record s { boxes = λ q. if p == q then b else s.boxes q; limit = s.limit + suc p }

abbrev pub set_object : {T : Type 0} → Store T → Value → Option Wrapped → Store T
set_object s v w = record s {
  objects = λ u. if v == u then w else s.objects u;
  limit = s.limit + suc v;
}

-- The object at an address that is in use is another one.
abbrev pub put_object : {T : Type 0} → Store T → Value → Option Wrapped → Store T
put_object s v w = record s { objects = λ u. if v == u then w else s.objects u }

-- Rust's allocator, and the functions of Ruby's C API on typed data. A null pointer is 0.
pub record TypedCalls (T : Type 0) : Type 0 where
  pub box_new : Store T → ℕ
  pub rb_data_typed_object_wrap : Value → ℕ → ℕ → Store T → Value × Store T
  pub rb_check_typeddata : Value → ℕ → Store T → Completion ℕ

-- A type that implements `TypedData`: the class of the type and that of a value, and its
-- data type.
pub record TypedData (T : Type 0) : Type 0 where
  pub type_class : Value
  pub class_for : T → Value
  pub data_type : ℕ

-- How a function ends that C calls and no panic may leave: it returns, or it crashes with a message.
pub data Ending (A : Type 0) : Type 0 where
  done : A → Ending A
  bug : String → Ending A

-- `bug_from_panic`
unfoldable pub bug_from_panic : {A : Type 0} → Payload → String → Ending A
bug_from_panic (static_str m) or = bug m
bug_from_panic (string m) or = bug m
bug_from_panic other_payload or = bug or

-- The match on a `catch_unwind`; `err` is a panic.
abbrev pub caught : {A : Type 0} → Outcome Payload A → String → Ending A
caught (ok a) or = done a
caught (err p) or = bug_from_panic p or
caught panic or = bug or

-- `DataTypeFunctions`; `G` is what marking and compacting change.
pub record DataTypeFunctions (T G : Type 0) : Type 0 where
  pub free : T → Outcome Payload (Unit {0})
  pub mark : T → G → Outcome Payload (Unit {0}) × G
  pub size : T → Outcome Payload ℕ
  pub compact : T → G → Outcome Payload (Unit {0}) × G

module _ {T G : Type 0} (f : DataTypeFunctions T G) where
  -- `Box::from_raw` of a pointer that is not of a box is undefined: `none`. The box is dropped
  -- whether `free` returns or panics.
  unfoldable pub extern_free : ℕ → Store T → Option (Ending (Unit {0}) × Store T)
  unfolding bug_from_panic
  extern_free ptr s = elim (s.boxes ptr) [
    | none ↦ none
    | some t ↦ some (caught (f.free t) "panic in DataTypeFunctions::free", set_box s ptr none)
  ]

  unfoldable extern_mark : ℕ → Store T → G → Option (Ending (Unit {0}) × G)
  unfolding bug_from_panic
  extern_mark ptr s g = elim (s.boxes ptr) [
    | none ↦ none
    | some t ↦ some (caught (f.mark t g).0 "panic in DataTypeFunctions::mark", (f.mark t g).1)
  ]

  unfoldable extern_size : ℕ → Store T → Option (Ending ℕ)
  unfolding bug_from_panic
  extern_size ptr s = elim (s.boxes ptr) [
    | none ↦ none
    | some t ↦ some (caught (f.size t) "panic in DataTypeFunctions::size")
  ]

  unfoldable extern_compact : ℕ → Store T → G → Option (Ending (Unit {0}) × G)
  unfolding bug_from_panic
  extern_compact ptr s g = elim (s.boxes ptr) [
    | none ↦ none
    | some t ↦
        some (caught (f.compact t g).0 "panic in DataTypeFunctions::compact", (f.compact t g).1)
  ]

-- `RTypedData::from_value`; `typed_flag` reads the word of that name behind a pointer.
unfoldable pub from_value : Consts → Heap → (ℕ → ℕ) → Value → Result (Option Value)
from_value c h typed_flag val = rb_type c h val >>= λ t. ok (
    if t == c.t_data && (not (typed_flag val == 0) && leb (typed_flag val) 3)
    then some val
    else none)

module _ {T : Type 0} (c : Consts) (r : TypedCalls T) where
  -- `wrap_as`; `is_inherited` is asked by the `debug_assert!`, with debug assertions on.
  unfoldable pub wrap_as :
      Bool → (Value → Value → Bool) → TypedData T → T → Value → Store T → Result Value × Store T
  wrap_as debug is_inherited t value class s =
      if debug && not (is_inherited class t.type_class)
      then (panic, s)
      else (let ptr = r.box_new s in
          let (v, s') =
            r.rb_data_typed_object_wrap class ptr t.data_type (set_box s ptr (some value)) in
          (ok v, s'))

  unfoldable pub wrap :
      Bool → (Value → Value → Bool) → TypedData T → T → Store T → Result Value × Store T
  unfolding wrap_as
  wrap debug is_inherited t value s = wrap_as debug is_inherited t value (t.class_for value) s

  -- `(ptr as *const T).as_ref()`; a pointer that is neither null nor of a box is undefined: `none`.
  abbrev pub as_ref : Store T → ℕ → Option (Option T)
  as_ref s ptr =
      if ptr == 0 then some none else elim (s.boxes ptr) [ none ↦ none | some t ↦ some (some t) ]

  -- `res` after the call of `protect`, whose own result is thrown away.
  abbrev pub checked : Store T → Result ℕ → Option (Option T)
  checked s (ok ptr) = as_ref s ptr
  checked s (err e) = some none
  checked s panic = some none

  abbrev ok_or_else : Option (Option T) → Option (Result T)
  ok_or_else none = none
  ok_or_else (some none) = some (err (error type_error "no implicit conversion"))
  ok_or_else (some (some t)) = some (ok t)

  -- `get` and `get_unconstrained`
  unfoldable pub get : TypedData T → Value → Store T → Option (Result T)
  unfolding protect
  get t self s = ok_or_else (checked s (protect c (r.rb_check_typeddata self t.data_type s)).result)

  -- What the conversions do with the handle.
  abbrev with_handle : Result (Option Value) → (Value → Option (Result T)) → Option (Result T)
  with_handle (ok (some v)) k = k v
  with_handle (ok none) k = some (err (error type_error "no implicit conversion"))
  with_handle (err e) k = some (err e)
  with_handle panic k = some panic

  -- The `TryConvert` of `&T`.
  unfoldable pub ref_try_convert :
      Heap → (ℕ → ℕ) → TypedData T → Value → Store T → Option (Result T)
  unfolding from_value get
  ref_try_convert h typed_flag t val s =
      with_handle (from_value c h typed_flag val) (λ v. get t v s)

  -- The `TryConvert` of `Obj<T>`.
  unfoldable obj_try_convert :
      Heap → (ℕ → ℕ) → TypedData T → Value → Store T → Option (Result Value)
  unfolding from_value get
  obj_try_convert h typed_flag t val s = elim (from_value c h typed_flag val) [
    | ok (some v) ↦ elim (get t v s) [
      | none ↦ none
      | some (ok x) ↦ some (ok v)
      | some (err e) ↦ some (err e)
      | some panic ↦ some panic
    ]
    | ok none ↦ some (err (error type_error "no implicit conversion"))
    | err e ↦ some (err e)
    | panic ↦ some panic
  ]

  -- `Obj::deref`
  unfoldable pub deref : TypedData T → Value → Store T → Option (Result T)
  unfolding get
  deref t self s = elim (get t self s) [
    | none ↦ none
    | some (ok x) ↦ some (ok x)
    | some (err e) ↦ some panic
    | some panic ↦ some panic
  ]

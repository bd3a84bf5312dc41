-- ===== src/RArray.antt =====
-- src/r_array.rs: `RArray`. A method is a function of the space; the conversions of its type
-- parameters are arguments, `into` for `IntoValue` and `convert` for `TryConvert`, and run no Ruby
-- code.
pub mod Calls
pub mod Build
pub mod TypedArray
pub mod Typed
pub mod Typecheck
pub mod Iterate
pub mod Loops
pub mod Buffer
pub mod Chunks
pub mod Stack
pub mod Elements
use magnus.Prelude.{
  ℕ, ◌+◌, ◌-◌, suc, zero, Bool, true, false, not, Option, none, some, List, [], ◌∷◌, Outcome, ok,
  err, panic, ◌==◌, if◌then◌else◌, length, ltb,
}
use magnus.Prelude.Int.{ℤ, pos, negsuc, ltb_ℤ}
use magnus.Bits.Word.{as_signed}
use magnus.Ruby.{Value, Consts, Heap}
use magnus.Error.{Result, ErrorType, error, type_error}
use magnus.Value.{rb_type, to_bool, is_nil}
use magnus.Integer.{CmpOrdering, less, equal, greater}
use magnus.Space.{Space, Effect, pure, lift, calling, protected, ◌>>=◌, ◌>>◌}
use magnus.RArray.Calls.{ArrayCalls}

abbrev pub Conversion : Type 0 → Type 0
Conversion T = Value → Result T

abbrev pub collected : {T : Type 0} → Result T → Result (List T) → Result (List T)
collected (ok t) (ok ts) = ok (t ∷ ts)
collected (ok t) (err e) = err e
collected (ok t) panic = panic
collected (err e) rest = err e
collected panic rest = panic

-- `iter().map(T::try_convert).collect()`
abbrev pub collect : {T : Type 0} → Conversion T → List Value → Result (List T)
collect convert [] = ok []
collect convert (v ∷ vs) = collected (convert v) (collect convert vs)

module _ (c : Consts) (r : ArrayCalls) where
  unfoldable pub ary_new : {E : Type 0} → Effect E Value
  ary_new = calling r.rb_ary_new

  unfoldable pub ary_new_capa : {E : Type 0} → ℕ → Effect E Value
  ary_new_capa n = calling (r.rb_ary_new_capa n)

  unfoldable pub ary_new_from_values : {E : Type 0} → List Value → Effect E Value
  ary_new_from_values slice = calling (r.rb_ary_new_from_values slice)

  unfoldable pub from_value : Heap → Value → Result (Option Value)
  unfolding rb_type
  from_value h val = elim (rb_type c h val) [
    | ok t ↦ ok (if t == c.t_array then some val else none)
    | err e ↦ err e
    | panic ↦ panic
  ]

  unfoldable pub try_convert : Heap → Value → Effect ErrorType Value
  unfolding from_value
  try_convert h val = do
    found ← lift (from_value h val)
    elim found [
      | some v ↦ pure v
      | none ↦ protected c (r.rb_check_array_type val) >>= λ res.
          lift (from_value h res) >>= λ found'. elim found' [
            | some v ↦ pure v
            | none ↦ lift (err (error type_error "no implicit conversion into Array"))
          ]
    ]

  unfoldable pub to_ary : Value → Effect ErrorType Value
  to_ary val = protected c (r.rb_ary_to_ary val)

  unfoldable pub dup : {E : Type 0} → Value → Effect E Value
  dup self = calling (r.rb_ary_subseq self (pos 0) (pos 0x7fffffffffffffff))

  -- `RARRAY_LEN`
  unfoldable pub len : Value → Space → ℕ
  len self s = length (s.items self)

  unfoldable pub is_empty : Value → Space → Bool
  unfolding len
  is_empty self s = len self s == 0

  unfoldable pub includes : {T : Type 0} → (T → Value) → Value → T → Space → Bool
  includes into self val s = to_bool c (r.rb_ary_includes self (into val) s)

  unfoldable pub cat : Value → List Value → Effect ErrorType (Unit {0})
  cat self values = protected c (r.rb_ary_cat self values) >> pure tt

  unfoldable pub concat : Value → Value → Effect ErrorType (Unit {0})
  concat self other = protected c (r.rb_ary_concat self other) >> pure tt

  unfoldable pub plus : {E : Type 0} → Value → Value → Effect E Value
  plus self other = calling (r.rb_ary_plus self other)

  unfoldable pub push : {T : Type 0} → (T → Value) → Value → T → Effect ErrorType (Unit {0})
  push into self item = protected c (r.rb_ary_push self (into item)) >> pure tt

  unfoldable pub pop : {T : Type 0} → Conversion T → Value → Effect ErrorType T
  pop convert self = do v ← protected c (r.rb_ary_pop self); lift (convert v)

  unfoldable pub unshift : {T : Type 0} → (T → Value) → Value → T → Effect ErrorType (Unit {0})
  unshift into self item = protected c (r.rb_ary_unshift self (into item)) >> pure tt

  unfoldable pub shift : {T : Type 0} → Conversion T → Value → Effect ErrorType T
  shift convert self = do v ← protected c (r.rb_ary_shift self); lift (convert v)

  unfoldable pub delete : {T : Type 0} → (T → Value) → Value → T → Effect ErrorType (Unit {0})
  delete into self item = protected c (r.rb_ary_delete self (into item)) >> pure tt

  unfoldable pub delete_at : {T : Type 0} → Conversion T → Value → ℤ → Effect ErrorType T
  delete_at convert self index = do
    v ← protected c (r.rb_ary_delete_at self index)
    lift (convert v)

  unfoldable pub clear : Value → Effect ErrorType (Unit {0})
  clear self = protected c (r.rb_ary_clear self) >> pure tt

  -- `len as c_long`
  unfoldable pub resize : Value → ℕ → Effect ErrorType (Unit {0})
  resize self n = protected c (r.rb_ary_resize self (as_signed 64 (pos n))) >> pure tt

  unfoldable pub reverse : Value → Effect ErrorType (Unit {0})
  reverse self = protected c (r.rb_ary_reverse self) >> pure tt

  unfoldable pub rotate : Value → ℤ → Effect ErrorType (Unit {0})
  rotate self rot = protected c (r.rb_ary_rotate self rot) >> pure tt

  unfoldable pub sort : Value → Effect ErrorType (Unit {0})
  sort self = protected c (r.rb_ary_sort_bang self) >> pure tt

  -- `RARRAY_CONST_PTR` and `RARRAY_LEN`
  unfoldable pub as_slice : Value → Space → List Value
  as_slice self s = s.items self

  unfoldable pub to_vec : {T : Type 0} → Conversion T → Value → Effect ErrorType (List T)
  unfolding as_slice
  to_vec convert self s = (collect convert (as_slice self s), s)

  unfoldable pub to_value_array : ℕ → Value → Effect ErrorType (List Value)
  unfolding as_slice
  to_value_array n self s =
      if length (as_slice self s) == n
      then (ok (as_slice self s), s)
      else (err (error type_error "expected Array of length N"), s)

  unfoldable pub to_array : {T : Type 0} → Conversion T → ℕ → Value → Effect ErrorType (List T)
  unfolding as_slice
  to_array convert n self s =
      let slice = as_slice self s in
      if not (length slice == n)
      then (err (error type_error "expected Array of length N"), s)
      else (collect convert slice, s)

  unfoldable pub join : {T : Type 0} → (T → Value) → Value → T → Effect ErrorType Value
  join into self sep = protected c (r.rb_ary_join self (into sep))

  unfoldable pub entry : {T : Type 0} → Conversion T → Value → ℤ → Effect ErrorType T
  entry convert self offset s = (convert (r.rb_ary_entry self offset s), s)

  unfoldable pub store : {T : Type 0} → (T → Value) → Value → ℤ → T → Effect ErrorType (Unit {0})
  store into self offset val = protected c (r.rb_ary_store self offset (into val)) >> pure tt

  unfoldable pub is_shared : Value → Value → Space → Bool
  is_shared self other s = to_bool c (r.rb_ary_shared_with_p self other s)

  unfoldable pub replace : Value → Value → Effect ErrorType (Unit {0})
  replace self from = protected c (r.rb_ary_replace self from) >> pure tt

  -- `offset as c_long`, `length as c_long`
  unfoldable pub subseq : {E : Type 0} → Value → ℕ → ℕ → Effect E (Option Value)
  subseq self offset n = do
    val ← calling (r.rb_ary_subseq self (as_signed 64 (pos offset)) (as_signed 64 (pos n)))
    pure (if not (is_nil c val) then some val else none)

  unfoldable pub assoc :
      {K T : Type 0} → (K → Value) → Conversion T → Value → K → Effect ErrorType T
  assoc into convert self key = do
    v ← protected c (r.rb_ary_assoc self (into key))
    lift (convert v)

  unfoldable pub rassoc :
      {K T : Type 0} → (K → Value) → Conversion T → Value → K → Effect ErrorType T
  rassoc into convert self value = do
    v ← protected c (r.rb_ary_rassoc self (into value))
    lift (convert v)

  -- `i.cmp(&0)`, of the result as an `Option<i64>`.
  abbrev cmp_zero : ℤ → CmpOrdering
  cmp_zero i = if ltb_ℤ i (pos 0) then less else if ltb_ℤ (pos 0) i then greater else equal

  unfoldable pub cmp : Conversion (Option ℤ) → Value → Value → Effect ErrorType (Option CmpOrdering)
  cmp convert self other = do
    v ← protected c (r.rb_ary_cmp self other)
    opt ← lift (convert v)
    pure (elim opt [ none ↦ none | some i ↦ some (cmp_zero i) ])

-- ===== src/RHash.antt =====
-- src/r_hash.rs: `RHash`. A method is a function of the space, as in `RArray`; a closure given to
-- `foreach` has a state of its own and changes no Ruby object.
pub mod Calls
pub mod Build
pub mod Buffer
pub mod Chunks
pub mod Foreach
pub mod Pairs
use magnus.Prelude.{
  ℕ, ◌+◌, suc, zero, Bool, true, false, not, Option, none, some, List, [], ◌∷◌, ◌++◌, Outcome, ok,
  err, panic, ◌==◌, if◌then◌else◌, leb, ltb, length, take, map,
}
use magnus.Ruby.{Value, Consts, Heap}
use magnus.Error.{Result, ErrorType, error, type_error, Completion, protect}
use magnus.Value.{rb_type, is_undef}
use magnus.Space.{
  Space, Effect, pure, lift, calling, protected, settled, after, unwrap, ◌>>=◌, ◌>>◌,
}
use magnus.Method.{Ran, Classes, handle_error}
use magnus.RArray.{Conversion}
use magnus.RArray.Build.{set_checked, empty_buffer}
use magnus.RHash.Calls.{HashCalls, Callback}

-- `#[repr(u32)]`
pub data ForEach : Type 0 where
  continue stop delete : ForEach

abbrev pub foreach_code : ForEach → Value
foreach_code continue = 0
foreach_code stop = 1
foreach_code delete = 2

module _ {S K V : Type 0} (convert_key : Value → Ran K) (convert_value : Value → Ran V)
    (func : K → V → S → Ran ForEach × S) where
  abbrev with_value : K → Ran V → S → Ran ForEach × S
  with_value k (ok v) st = func k v st
  with_value k (err e) st = (err e, st)
  with_value k panic st = (panic, st)

  abbrev with_key : Ran K → Ran V → S → Ran ForEach × S
  with_key (ok k) v st = with_value k v st
  with_key (err e) v st = (err e, st)
  with_key panic v st = (panic, st)

  unfoldable pub call_convert_value : Value → Value → S → Ran ForEach × S
  call_convert_value key value st = with_key (convert_key key) (convert_value value) st

  unfoldable pub call_handle_error : Consts → Classes → Value → Callback S
  unfolding call_convert_value
  call_handle_error c k errinfo key value st = (
    handle_error c k errinfo (call_convert_value key value st).0 foreach_code,
    (call_convert_value key value st).1,
  )

module _ (c : Consts) (r : HashCalls) where
  unfoldable pub hash_new : {E : Type 0} → Effect E Value
  hash_new = calling r.rb_hash_new

  -- `n as c_long`: no capacity is above `isize::MAX`.
  unfoldable pub hash_new_capa : {E : Type 0} → ℕ → Effect E Value
  hash_new_capa n = calling (r.rb_hash_new_capa n)

  -- `cfg(ruby_gte_3_2)` is an argument.
  unfoldable pub hash_maybe_capa : {E : Type 0} → Bool → ℕ → Effect E Value
  unfolding hash_new hash_new_capa
  hash_maybe_capa ruby_gte_3_2 n = if ruby_gte_3_2 then hash_new_capa n else hash_new

  unfoldable pub from_value : Heap → Value → Result (Option Value)
  unfolding rb_type
  from_value h val = elim (rb_type c h val) [
    | ok t ↦ ok (if t == c.t_hash then some val else none)
    | err e ↦ err e
    | panic ↦ panic
  ]

  unfoldable pub try_convert : Heap → Value → Effect ErrorType Value
  unfolding from_value
  try_convert h val = do
    found ← lift (from_value h val)
    elim found [
      | some v ↦ pure v
      | none ↦ protected c (r.rb_check_hash_type val) >>= λ res.
          lift (from_value h res) >>= λ found'. elim found' [
            | some v ↦ pure v
            | none ↦ lift (err (error type_error "no implicit conversion into Hash"))
          ]
    ]

  unfoldable pub aset :
      {K V : Type 0} → (K → Value) → (V → Value) → Value → K → V → Effect ErrorType (Unit {0})
  aset into_key into_val self key val =
      protected c (r.rb_hash_aset self (into_key key) (into_val val)) >> pure tt

  unfoldable pub bulk_insert : Value → List Value → Effect ErrorType (Unit {0})
  bulk_insert self slice = protected c (r.rb_hash_bulk_insert slice self) >> pure tt

  unfoldable pub update : Value → Value → Effect ErrorType (Unit {0})
  update self other = protected c (r.rb_hash_update_by self other) >> pure tt

  module _ {T U : Type 0} (into : T → Value) (convert : Conversion U) where
    unfoldable pub aref : Value → T → Effect ErrorType U
    aref self key = do v ← protected c (r.rb_hash_aref self (into key)); lift (convert v)

    unfoldable pub lookup : Value → T → Effect ErrorType U
    lookup self key = do v ← protected c (r.rb_hash_lookup self (into key)); lift (convert v)

    unfoldable pub lookup2 : {D : Type 0} → (D → Value) → Value → T → D → Effect ErrorType U
    lookup2 into_default self key default = do
      v ← protected c (r.rb_hash_lookup2 self (into key) (into_default default))
      lift (convert v)

    unfoldable pub fetch : Value → T → Effect ErrorType U
    fetch self key = do v ← protected c (r.rb_hash_fetch self (into key)); lift (convert v)

    unfoldable pub delete_key : Value → T → Effect ErrorType U
    delete_key self key = do v ← protected c (r.rb_hash_delete self (into key)); lift (convert v)

  -- `.ok().and_then(|v| (!v.is_undef()).then(|| v))`
  abbrev found : {E : Type 0} → Result Value × Space → Outcome E (Option Value) × Space
  found (ok v, s) = (ok (if not (is_undef c v) then some v else none), s)
  found (err e, s) = (ok none, s)
  found (panic, s) = (panic, s)

  unfoldable pub get : {T E : Type 0} → (T → Value) → Value → T → Effect E (Option Value)
  get into self key s = found (protected c (r.rb_hash_lookup2 self (into key) c.qundef) s)

  unfoldable pub clear : Value → Effect ErrorType (Unit {0})
  clear self = protected c (r.rb_hash_clear self) >> pure tt

  -- The value is a fixnum.
  unfoldable pub size : Value → Space → Value
  size self s = r.rb_hash_size self s

  unfoldable pub len : Value → Space → ℕ
  len self s = r.rb_hash_size_num self s

  unfoldable pub is_empty : Value → Space → Bool
  unfolding len
  is_empty self s = len self s == 0

  -- The `protect` around the loop: what it returns, and the closure's state.
  abbrev with_state : {S : Type 0} → Result (Unit {0}) → S → Result S
  with_state (ok u) st = ok st
  with_state (err e) st = err e
  with_state panic st = panic

  abbrev loop_end : {S : Type 0} → (Result (Completion (Unit {0})) × S) × Space → Result S × Space
  loop_end ((ok e, st), s) = (with_state ((protect c e).result) st, s)
  loop_end ((err e, st), s) = (panic, s)
  loop_end ((panic, st), s) = (panic, s)

  module _ (k : Classes) (errinfo : Value) {K V : Type 0} (convert_key : Value → Ran K)
      (convert_value : Value → Ran V) where
    -- Gives the state in which the closure is left.
    unfoldable pub foreach :
        {S : Type 0} → (K → V → S → Ran ForEach × S) → S → Value → Effect ErrorType S
    foreach func st self s =
        loop_end (
          r.rb_hash_foreach (call_handle_error convert_key convert_value func c k errinfo) self st
            s)

    unfoldable pub to_vec : Value → Effect ErrorType (List (K × V))
    to_vec self = foreach (λ key value vec. (ok continue, vec ++ (key, value) ∷ [])) [] self

    -- `HashMap::insert`, by the equality of the keys.
    abbrev pub insert : (K → K → Bool) → K → V → List (K × V) → List (K × V)
    insert same key value [] = (key, value) ∷ []
    insert same key value (p ∷ ps) =
        if same p.0 key then (p.0, value) ∷ ps else p ∷ insert same key value ps

    unfoldable pub to_hash_map : (K → K → Bool) → Value → Effect ErrorType (List (K × V))
    to_hash_map same self = foreach (λ key value m. (ok continue, insert same key value m)) [] self

  -- `HashMap::into_value_with`, with the map's pairs in the order of its iterator; the result of
  -- `aset` is dropped.
  abbrev ignored : {F : Type 0} → Result (Unit {0}) × Space → Outcome F (Unit {0}) × Space
  ignored (ok u, s) = (ok tt, s)
  ignored (err e, s) = (ok tt, s)
  ignored (panic, s) = (panic, s)

  unfoldable pub aset_all :
      {K V F : Type 0} → (K → Value) → (V → Value) → List (K × V) → Value → Effect F (Unit {0})
  aset_all into_key into_val [] hash = pure tt
  aset_all into_key into_val (p ∷ ps) hash =
      (λ s. ignored (aset into_key into_val hash p.0 p.1 s)) >> aset_all into_key into_val ps hash

  unfoldable pub into_value_with :
      {K V F : Type 0} → (K → Value) → (V → Value) → List (K × V) → Effect F Value
  unfolding aset_all hash_new
  into_value_with into_key into_val self = do
    hash ← hash_new
    aset_all into_key into_val self hash
    pure hash

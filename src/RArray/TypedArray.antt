-- ===== src/RArray/TypedArray.antt =====
-- src/r_array.rs: `TypedArray`, by its array, and `RArray::typecheck`.
use magnus.Prelude.{ℕ, suc, Bool, Option, none, some, List, ok, panic}
use magnus.Prelude.Int.{ℤ}
use magnus.Ruby.{Value, Consts}
use magnus.Error.{Result, ErrorType, Completion, returned, unwound}
use magnus.Integer.{CmpOrdering}
use magnus.Space.{Space, Effect, pure, lift, calling, unwrap, after, ◌>>=◌, ◌>>◌}
use magnus.RArray.Calls.{ArrayCalls}
use magnus.RArray as RArray
use magnus.RArray.{Conversion}
use magnus.RArray.Iterate.{Iter, iter_new, into_iter, for_each}

-- A call into C outside `protect`; an unwinding leaves the Rust code, for which `panic` stands.
abbrev pub unprotected_end : {A : Type 0} → Completion A × Space → Result A × Space
unprotected_end (returned a, s) = (ok a, s)
unprotected_end (unwound tag v, s) = (panic, s)

abbrev pub unprotected : {A : Type 0} → (Space → Completion A × Space) → Effect ErrorType A
unprotected call s = unprotected_end (call s)

module _ (c : Consts) (r : ArrayCalls) where
  -- `rb_obj_hide`
  abbrev hidden : {E : Type 0} → Value → Effect E Value
  hidden ary s = (ok ary, r.rb_obj_hide ary s)

  unfoldable pub typed_ary_new : {E : Type 0} → Effect E Value
  typed_ary_new = calling (r.rb_ary_hidden_new 0)

  -- The loop has a round for each item and one more.
  unfoldable pub check_items :
      {T : Type 0} → Conversion T → Value → Effect ErrorType (Option (Unit {0}))
  check_items convert self s =
      after (into_iter c r self s)
        (for_each c r (λ v. ok v) (λ v. lift (convert v) >> pure tt) (suc (RArray.len c r self s)))

  unfoldable pub typecheck : {T : Type 0} → Conversion T → Value → Effect ErrorType Value
  unfolding check_items
  typecheck convert self = do
    check_items convert self
    ary ← calling (r.rb_ary_hidden_new 0)
    unprotected (r.rb_ary_replace ary self)
    pure ary

  unfoldable pub to_r_array : {E : Type 0} → Value → Effect E Value
  to_r_array self s = (ok self, r.rb_obj_reveal self s)

  unfoldable pub dup : {E : Type 0} → Value → Effect E Value
  dup self = do ary ← RArray.dup c r self; hidden ary

  unfoldable pub concat : Value → Value → Effect ErrorType (Unit {0})
  concat self other = RArray.concat c r self other

  unfoldable pub plus : {E : Type 0} → Value → Value → Effect E Value
  plus self other = do new_ary ← RArray.plus c r self other; hidden new_ary

  unfoldable pub as_slice : Value → Space → List Value
  as_slice self s = RArray.as_slice c r self s

  unfoldable pub to_value_array : ℕ → Value → Effect ErrorType (List Value)
  to_value_array n self = RArray.to_value_array c r n self

  unfoldable pub join : {S : Type 0} → (S → Value) → Value → S → Effect ErrorType Value
  join into self sep = RArray.join c r into self sep

  unfoldable pub replace : Value → Value → Effect ErrorType (Unit {0})
  replace self from = RArray.replace c r self from

  unfoldable pub subseq : {E : Type 0} → Value → ℕ → ℕ → Effect E (Option Value)
  subseq self offset n = RArray.subseq c r self offset n >>= λ found. elim found [
    | none ↦ pure none
    | some ary ↦ hidden ary >>= λ ary'. pure (some ary')
  ]

  unfoldable pub cmp : Conversion (Option ℤ) → Value → Value → Effect ErrorType (Option CmpOrdering)
  cmp convert self other = RArray.cmp c r convert self other

  -- The proxies.
  unfoldable pub len : Value → Space → ℕ
  len self s = RArray.len c r self s

  unfoldable pub is_empty : Value → Space → Bool
  is_empty self s = RArray.is_empty c r self s

  unfoldable pub clear : Value → Effect ErrorType (Unit {0})
  clear self = RArray.clear c r self

  unfoldable pub resize : Value → ℕ → Effect ErrorType (Unit {0})
  resize self n = RArray.resize c r self n

  unfoldable pub reverse : Value → Effect ErrorType (Unit {0})
  reverse self = RArray.reverse c r self

  unfoldable pub rotate : Value → ℤ → Effect ErrorType (Unit {0})
  rotate self rot = RArray.rotate c r self rot

  unfoldable pub sort : Value → Effect ErrorType (Unit {0})
  sort self = RArray.sort c r self

  module _ {T : Type 0} (into : T → Value) where
    unfoldable pub includes : Value → T → Space → Bool
    includes self val s = RArray.includes c r into self val s

    unfoldable pub push : Value → T → Effect ErrorType (Unit {0})
    push self item = RArray.push c r into self item

    unfoldable pub unshift : Value → T → Effect ErrorType (Unit {0})
    unshift self item = RArray.unshift c r into self item

    unfoldable pub delete : Value → T → Effect ErrorType (Unit {0})
    delete self item = RArray.delete c r into self item

    unfoldable pub store : Value → ℤ → T → Effect ErrorType (Unit {0})
    store self offset val = RArray.store c r into self offset val

  unfoldable pub cat : Value → List Value → Effect ErrorType (Unit {0})
  cat self s = RArray.cat c r self s

  module _ {T : Type 0} (convert : Conversion T) where
    unfoldable pub pop : Value → Effect ErrorType T
    pop self = RArray.pop c r convert self

    unfoldable pub shift : Value → Effect ErrorType T
    shift self = RArray.shift c r convert self

    unfoldable pub delete_at : Value → ℤ → Effect ErrorType T
    delete_at self index = RArray.delete_at c r convert self index

    unfoldable pub entry : Value → ℤ → Effect ErrorType T
    entry self offset = RArray.entry c r convert self offset

    unfoldable pub to_array : ℕ → Value → Effect ErrorType (List T)
    to_array n self = RArray.to_array c r convert n self

    unfoldable pub to_vec : {F : Type 0} → Value → Effect F (List T)
    to_vec self = unwrap (RArray.to_vec c r convert self)

  unfoldable pub iter : {E : Type 0} → Value → Effect E Iter
  unfolding dup
  iter self = do ary ← dup self; iter_new c r ary

  unfoldable pub typed_into_iter : {E : Type 0} → Value → Effect E Iter
  typed_into_iter self = iter_new c r self

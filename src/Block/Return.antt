-- ===== src/Block/Return.antt =====
-- src/method.rs: what a method, an init function or a block returns to Ruby, and src/block.rs: the
-- methods of `Ruby` that yield. An error is converted by `into_error`, for `IntoError`.
use magnus.Prelude.{ℕ, List, Outcome, ok, err, panic}
use magnus.Ruby.{Value, Consts}
use magnus.Error.{Result, ErrorType, Completion, returned, unwound, protect}
use magnus.Convert.{ArgTuple, into_arg_list_with, kw_splat, and_then}
use magnus.Block.{
  Ended, EnsureCalls, Yielding, do_yield_iter, do_yield_values_iter, do_yield_splat_iter,
}

-- `map` and `map_err`
abbrev mapped : {E A B : Type 0} → (A → B) → (E → ErrorType) → Outcome E A → Result B
mapped f into_error (ok a) = ok (f a)
mapped f into_error (err e) = err (into_error e)
mapped f into_error panic = panic

unfoldable pub into_return_value :
    {E T : Type 0} → (T → Value) → (E → ErrorType) → Outcome E T → Result Value
into_return_value into into_error self = mapped into into_error self

unfoldable pub value_into_return_value : {T : Type 0} → (T → Value) → T → Result Value
unfolding into_return_value
value_into_return_value into self = into_return_value into (λ e. e) (ok self)

unfoldable pub into_init_return :
    {E : Type 0} → (E → ErrorType) → Outcome E (Unit {0}) → Result (Unit {0})
into_init_return into_error self = mapped (λ u. u) into_error self

unfoldable pub into_block_return : {T : Type 0} → (T → Value) → Result T → Result Value
into_block_return into self = mapped into (λ e. e) self

unfoldable pub value_into_block_return : {T : Type 0} → (T → Value) → T → Result Value
unfolding into_block_return
value_into_block_return into self = into_block_return into (ok self)

-- `Yield`, `YieldValues` and `YieldSplat`, by the items of their iterator.
pub data Yield (T : Type 0) : Type 0 where
  iter : List T → Yield T
  enumerator : Value → Yield T

-- A call that returns a `Result`, unwinds through the Rust function, or aborts.
abbrev pub Returning : Type 0 → Type 0
Returning S = Outcome ⊥ (Completion (Result Value)) × S

module _ (c : Consts) (r : EnsureCalls) {S E : Type 0} (into_error : E → ErrorType) where
  abbrev nil_after : {T : Type 0} → Ended × Yielding T S → Returning S
  nil_after (ok (returned v), w) = (ok (returned (ok c.qnil)), w.ruby)
  nil_after (ok (unwound tag v), w) = (ok (unwound tag v), w.ruby)
  nil_after (err e, w) = (err e, w.ruby)
  nil_after (panic, w) = (panic, w.ruby)

  -- What the three share: the items go to the block, or the enumerator is returned.
  abbrev yield_return :
      {T : Type 0} → (List T → S → Ended × Yielding T S) → Outcome E (Yield T) → S → Returning S
  yield_return do_yield (ok (iter i)) s = nil_after (do_yield i s)
  yield_return do_yield (ok (enumerator e)) s = (ok (returned (ok e)), s)
  yield_return do_yield (err e) s = (ok (returned (err (into_error e))), s)
  yield_return do_yield panic s = (panic, s)

  unfoldable pub yield_into_return_value :
      {T : Type 0}
      → (T → Value)
      → (Value → S → Completion Value × S)
      → Outcome E (Yield T)
      → S
      → Returning S
  yield_into_return_value into rb_yield self s =
      yield_return (do_yield_iter c r into rb_yield) self s

  unfoldable pub yield_values_into_return_value :
      {T : Type 0}
      → (T → Value)
      → ℕ
      → ℕ
      → (List Value → ℕ → S → Completion Value × S)
      → Outcome E (Yield (ArgTuple T))
      → S
      → Returning S
  yield_values_into_return_value into pass_keywords no_keywords rb_yield_values_kw self s =
      yield_return (do_yield_values_iter c r into pass_keywords no_keywords rb_yield_values_kw) self
        s

  unfoldable pub yield_splat_into_return_value :
      (Value → S → Completion Value × S) → Outcome E (Yield Value) → S → Returning S
  yield_splat_into_return_value rb_yield_splat self s =
      yield_return (do_yield_splat_iter c r rb_yield_splat) self s

-- The methods of `Ruby` that yield, under `protect`.
module _ (c : Consts) {S U : Type 0} (convert : Value → Result U) where
  abbrev converted : Completion Value × S → Result U × S
  converted (completion, s) = (and_then (protect c completion).result convert, s)

  unfoldable pub yield_value :
      {T : Type 0} → (T → Value) → (Value → S → Completion Value × S) → T → S → Result U × S
  yield_value into rb_yield val s = converted (rb_yield (into val) s)

  unfoldable pub yield_values :
      {T : Type 0}
      → (T → Value)
      → ℕ
      → ℕ
      → (List Value → ℕ → S → Completion Value × S)
      → ArgTuple T
      → S
      → Result U × S
  yield_values into pass_keywords no_keywords rb_yield_values_kw vals s = converted (
      rb_yield_values_kw (into_arg_list_with into vals) (kw_splat pass_keywords no_keywords vals) s)

  unfoldable pub yield_splat : (Value → S → Completion Value × S) → Value → S → Result U × S
  yield_splat rb_yield_splat vals s = converted (rb_yield_splat vals s)

-- ===== src/Fiber.antt =====
-- src/fiber.rs: Ruby's fibers. A closure that a fiber runs is in a box of typed data, as in
-- src/thread.rs, and the fiber keeps the object that has this box.
pub mod Made
use magnus.Prelude.{
  ℕ, Bool, true, false, Option, none, some, List, [], ◌∷◌, ok, err, panic, ◌>>=◌, if◌then◌else◌,
}
use magnus.Ruby.{Value, Consts}
use magnus.Error.{Result, error, type_error, Tag, Completion, returned, unwound, protect}
use magnus.Method.{Ran, Classes, block_call_handle_error}
use magnus.Value.{to_bool}
use magnus.Convert.{ArgTuple, into_arg_list_with, kw_splat}
use magnus.TypedData.{Store, TypedCalls}
use magnus.Thread as Thread
use magnus.Thread.{Closures, Entry, function, closure_at, World, Tasks, take}

-- `Storage`
pub data Storage : Type 0 where
  inherit lazy : Storage
  use_hash : Value → Storage

unfoldable pub storage_as_rb_value : Consts → Storage → Value
storage_as_rb_value c inherit = c.qundef
storage_as_rb_value c lazy = c.qnil
storage_as_rb_value c (use_hash hash) = hash

-- The number says whether the last argument is keywords.
pub record FiberCalls (T S : Type 0) : Type 0 where
  pub rb_fiber_new_storage : Entry → Value → World T S → Completion Value × World T S
  pub rb_fiber_new : Entry → World T S → Completion Value × World T S
  pub rb_ivar_set : Value → Value → World T S → Completion Value × World T S
  pub rb_fiber_current : World T S → Value
  pub rb_fiber_yield_kw : List Value → ℕ → World T S → Completion Value × World T S
  pub rb_obj_is_fiber : Value → World T S → Value
  pub rb_fiber_alive_p : Value → World T S → Value
  pub rb_fiber_resume_kw : Value → List Value → ℕ → World T S → Completion Value × World T S
  pub rb_fiber_transfer_kw : Value → List Value → ℕ → World T S → Completion Value × World T S
  pub rb_fiber_raise : Value → List Value → World T S → Completion Value × World T S

-- `wrap_closure`, which is the one of src/thread.rs.
unfoldable pub wrap_closure :
    {T F : Type 0} → Closures T F → TypedCalls T → F → Store T → (ℕ × Value) × Store T
wrap_closure k r func s = Thread.wrap_closure k r func s

module _ {T S F : Type 0} (c : Consts) (x : Classes) (errinfo : Value) (ruby_gte_3_2 : Bool)
    (proc_from_value : Value → Option Value)
    (body : F → List Value → Option Value → World T S → Ran Value × World T S) (k : Closures T F)
    (r : TypedCalls T) (q : FiberCalls T S) where
  -- `call`: `take().unwrap()`, then the closure with the arguments and the block.
  abbrev run_taken :
      Option (Option F × Store T)
      → List Value
      → Value
      → Tasks S
      → Option (Result (Completion Value) × World T S)
  run_taken none args blockarg tasks = none
  run_taken (some (none, s)) args blockarg tasks = some (panic, (s, tasks))
  run_taken (some (some func, s)) args blockarg tasks =
      let end = body func args (proc_from_value blockarg) (s, tasks) in
      some (
        block_call_handle_error c x errinfo proc_from_value (λ given block. end.0) args blockarg,
        end.1,
      )

  unfoldable call :
      ℕ → List Value → Value → World T S → Option (Result (Completion Value) × World T S)
  call ptr args blockarg (s, tasks) = run_taken (take k r ptr s) args blockarg tasks

  -- The call that makes a fiber, by Ruby's version.
  abbrev pub make : Storage → Entry → World T S → Completion Value × World T S
  make storage entry w =
      if ruby_gte_3_2
      then q.rb_fiber_new_storage entry (storage_as_rb_value c storage) w
      else q.rb_fiber_new entry w

  unfoldable fiber_new : Storage → ℕ → World T S → Result Value × World T S
  unfolding storage_as_rb_value protect
  fiber_new storage func w =
      let made = make storage (function func) w in ((protect c made.0).result, made.1)

  abbrev unwrapped : {A : Type 0} → Result A → Result A
  unwrapped (ok a) = ok a
  unwrapped (err e) = panic
  unwrapped panic = panic

  -- `fiber.ivar_set("__rust_closure", keepalive).unwrap()` inside the call of `protect`
  abbrev pub keep : Value → Completion Value × World T S → Result Value × World T S
  keep keepalive (returned fiber, w) =
      let set = q.rb_ivar_set fiber keepalive w in
      (unwrapped (protect c set.0).result >>= λ v. ok fiber, set.1)
  keep keepalive (unwound tag e, w) = ((protect c (unwound tag e)).result, w)

  unfoldable pub fiber_new_from_fn : Storage → F → World T S → Result Value × World T S
  unfolding wrap_closure storage_as_rb_value protect
  fiber_new_from_fn storage func w =
      let wrapped = wrap_closure k r func w.0 in
      keep wrapped.0.1 (make storage (closure_at wrapped.0.0) (wrapped.1, w.1))

  unfoldable fiber_current : World T S → Value
  fiber_current w = q.rb_fiber_current w

  unfoldable from_value : Value → World T S → Option Value
  unfolding to_bool
  from_value val w = if to_bool c (q.rb_obj_is_fiber val w) then some val else none

  unfoldable is_alive : Value → World T S → Bool
  unfolding to_bool
  is_alive self w = to_bool c (q.rb_fiber_alive_p self w)

  unfoldable try_convert : Value → World T S → Result Value
  unfolding from_value
  try_convert val w = elim (from_value val w) [
    | some v ↦ ok v
    | none ↦ err (error type_error "no implicit conversion into Fiber")
  ]

  -- The conversions of the arguments and of the result are arguments.
  module _ {A U : Type 0} (into : A → Value) (pass_keywords no_keywords : ℕ)
      (convert : Value → Result U) where
    abbrev ended : Completion Value × World T S → Result U × World T S
    ended (completion, w) = ((protect c completion).result >>= convert, w)

    unfoldable fiber_yield : ArgTuple A → World T S → Result U × World T S
    unfolding protect
    fiber_yield args w = ended (
        q.rb_fiber_yield_kw (into_arg_list_with into args) (kw_splat pass_keywords no_keywords args)
          w)

    unfoldable resume : Value → ArgTuple A → World T S → Result U × World T S
    unfolding protect
    resume self args w = ended (
        q.rb_fiber_resume_kw self (into_arg_list_with into args)
          (kw_splat pass_keywords no_keywords args) w)

    unfoldable transfer : Value → ArgTuple A → World T S → Result U × World T S
    unfolding protect
    transfer self args w = ended (
        q.rb_fiber_transfer_kw self (into_arg_list_with into args)
          (kw_splat pass_keywords no_keywords args) w)

  unfoldable raise :
      {U : Type 0} → (Value → Result U) → Value → Value → World T S → Result U × World T S
  unfolding protect
  raise convert self e w =
      let sent = q.rb_fiber_raise self (e ∷ []) w in ((protect c sent.0).result >>= convert, sent.1)

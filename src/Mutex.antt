-- ===== src/Mutex.antt =====
-- src/mutex.rs: Ruby's mutexes, and the code that runs while one is held.
pub mod Held
use magnus.Prelude.{
  ℕ, Bool, true, false, Option, none, some, Outcome, ok, err, panic, ◌>>=◌, if◌then◌else◌,
}
use magnus.Ruby.{Value, Consts, Heap}
use magnus.Error.{Result, error, type_error, Completion, protect}
use magnus.Method.{Ran, Classes, synchronize_call_handle_error}
use magnus.Value.{to_bool}
use magnus.TypedData
use magnus.Block.{Ended}

-- Who holds a mutex, as seen by the running thread.
pub data Holder : Type 0 where
  free mine other : Holder

abbrev pub Locks : Type 0
Locks = Value → Holder

-- The functions of Ruby's C API on mutexes. The function that `rb_mutex_synchronize` calls shares
-- a state of its own with the caller.
pub record MutexCalls : Type 1 where
  pub rb_mutex_new : Locks → Value × Locks
  pub rb_mutex_locked_p : Value → Locks → Value
  pub rb_mutex_trylock : Value → Locks → Value × Locks
  pub rb_mutex_lock : Value → Locks → Completion Value × Locks
  pub rb_mutex_unlock : Value → Locks → Completion Value × Locks
  pub rb_mutex_sleep : Value → Value → Locks → Completion Value × Locks
  pub rb_mutex_synchronize :
      {W : Type 0} → Value → (Locks × W → Ended × (Locks × W)) → Locks × W → Ended × (Locks × W)

-- `protect` of a call that may also abort by a panic.
abbrev protect_ended : Consts → Ended → Result Value
protect_ended c (ok completion) = (protect c completion).result
protect_ended c (err e) = absurd e
protect_ended c panic = panic

-- How the function called from C ends by what `call_handle_error` gives, which is no `Err`.
abbrev ended_of : Result (Completion Value) → Ended
ended_of (ok completion) = ok completion
ended_of (err e) = panic
ended_of panic = panic

-- The closure, full or taken, and what it shares.
pub record Slot (S : Type 0) : Type 0 where
  pub some_func : Bool
  pub shared : S

module _ (c : Consts) (r : MutexCalls) where
  unfoldable mutex_new : Locks → Value × Locks
  mutex_new s = r.rb_mutex_new s

  -- `mutex_class` is Ruby's constant Mutex, and `is_kind_of` the test for a class.
  unfoldable from_value :
      Heap → (ℕ → ℕ) → Result Value → (Value → Value → Bool) → Value → Result (Option Value)
  from_value h typed_flag mutex_class is_kind_of val = elim mutex_class [
    | err e ↦ ok none
    | panic ↦ panic
    | ok class ↦ TypedData.from_value c h typed_flag val >>= λ handle.
        ok (if is_kind_of val class then handle else none)
  ]

  unfoldable pub is_locked : Value → Locks → Bool
  unfolding to_bool
  is_locked self s = to_bool c (r.rb_mutex_locked_p self s)

  unfoldable pub trylock : Value → Locks → Bool × Locks
  unfolding to_bool
  trylock self s = let (v, s') = r.rb_mutex_trylock self s in (to_bool c v, s')

  -- `protect(..)?; Ok(())`
  abbrev ended_unit : Completion Value × Locks → Result (Unit {0}) × Locks
  ended_unit (completion, s) = ((protect c completion).result >>= λ v. ok tt, s)

  unfoldable lock : Value → Locks → Result (Unit {0}) × Locks
  unfolding protect
  lock self s = ended_unit (r.rb_mutex_lock self s)

  unfoldable unlock : Value → Locks → Result (Unit {0}) × Locks
  unfolding protect
  unlock self s = ended_unit (r.rb_mutex_unlock self s)

  -- `seconds` converts the seconds of a duration, a number of nanoseconds.
  unfoldable sleep : (ℕ → Value) → Value → Option ℕ → Locks → Result (Unit {0}) × Locks
  unfolding protect
  sleep seconds self none s = ended_unit (r.rb_mutex_sleep self c.qnil s)
  sleep seconds self (some duration) s = ended_unit (r.rb_mutex_sleep self (seconds duration) s)

  module _ (k : Classes) (errinfo : Value) {S : Type 0} where
    -- `call`: `take().unwrap()`, then the closure and the conversion of what it returns.
    unfoldable pub call :
        (Locks × S → Ran Value × (Locks × S)) → Locks × Slot S → Ended × (Locks × Slot S)
    unfolding synchronize_call_handle_error
    call func (s, slot) =
        let end = func (s, slot.shared) in
        if slot.some_func
        then (
          ended_of (synchronize_call_handle_error c k errinfo (λ u. end.0)),
          (end.1.0, record { some_func = false; shared = end.1.1 }),
        )
        else (panic, (s, slot))

    module _ {T : Type 0} where
      unfoldable pub synchronize :
          (Value → Result T)
          → Value
          → (Locks × S → Ran Value × (Locks × S))
          → Locks × S
          → Result T × (Locks × S)
      unfolding call protect
      synchronize try_convert self func (s, shared) =
          let end =
            r.rb_mutex_synchronize self (call func)
              (s, record { some_func = true; shared = shared }) in
          (protect_ended c end.0 >>= try_convert, (end.1.0, end.1.1.shared))

  unfoldable try_convert :
      Heap → (ℕ → ℕ) → Result Value → (Value → Value → Bool) → Value → Result Value
  unfolding from_value
  try_convert h typed_flag mutex_class is_kind_of val =
      from_value h typed_flag mutex_class is_kind_of val >>= λ handle. elim handle [
        | some v ↦ ok v
        | none ↦ err (error type_error "no implicit conversion into Mutex")
      ]

-- ===== src/Thread/Control.antt =====
-- src/thread.rs: the threads that there are, sleeping, waking and stopping them, their local values and
-- the handle of a thread.
use magnus.Prelude.{ℕ, Bool, not, Option, none, some, ok, err, ◌>>=◌, ◌==◌, if◌then◌else◌}
use magnus.Prelude.Int.{pos}
use magnus.Bits.Word.{to_signed}
use magnus.Time.{as_secs, subsec_micros}
use magnus.Ruby.{Value, Consts, Heap}
use magnus.Error.{Result, error, type_error, Completion, protect}
use magnus.TypedData
use magnus.TypedData.{Store, set_box, TypedCalls}
use magnus.Thread.{World, ThreadCalls}

module _ {T S : Type 0} (c : Consts) (q : ThreadCalls T S) where
  unfoldable thread_current : World T S → Value
  thread_current w = q.rb_thread_current w

  unfoldable thread_main : World T S → Value
  thread_main w = q.rb_thread_main w

  unfoldable thread_schedule : World T S → World T S
  thread_schedule w = q.rb_thread_schedule w

  -- `protect(|| { ..; qnil })?; Ok(())`
  abbrev ended_unit : {A : Type 0} → Completion A × World T S → Result (Unit {0}) × World T S
  ended_unit (completion, w) = ((protect c completion).result >>= λ v. ok tt, w)

  unfoldable thread_wait_fd : ℕ → World T S → Result (Unit {0}) × World T S
  unfolding protect
  thread_wait_fd fd w = ended_unit (q.rb_thread_wait_fd fd w)

  unfoldable thread_fd_writable : ℕ → World T S → Result (Unit {0}) × World T S
  unfolding protect
  thread_fd_writable fd w = ended_unit (q.rb_thread_fd_writable fd w)

  unfoldable thread_fd_close : ℕ → World T S → Result (Unit {0}) × World T S
  unfolding protect
  thread_fd_close fd w = ended_unit (q.rb_thread_fd_close fd w)

  unfoldable thread_alone : World T S → Bool
  thread_alone w = not (q.rb_thread_alone w == 0)

  -- A duration is a number of nanoseconds, below 2 ^ 64 seconds; `tv_sec` is the seconds' bits.
  unfoldable thread_sleep : ℕ → World T S → Result (Unit {0}) × World T S
  unfolding protect
  thread_sleep duration w =
      ended_unit
        (q.rb_thread_wait_for (to_signed (as_secs duration)) (pos (subsec_micros duration)) w)

  unfoldable thread_sleep_forever : World T S → Result (Unit {0}) × World T S
  unfolding protect
  thread_sleep_forever w = ended_unit (q.rb_thread_sleep_forever w)

  unfoldable thread_sleep_deadly : World T S → Result (Unit {0}) × World T S
  unfolding protect
  thread_sleep_deadly w = ended_unit (q.rb_thread_sleep_deadly w)

  unfoldable thread_stop : World T S → Result (Unit {0}) × World T S
  unfolding protect
  thread_stop w = ended_unit (q.rb_thread_sleep_forever w)

  unfoldable thread_check_ints : World T S → Result (Unit {0}) × World T S
  unfolding protect
  thread_check_ints w = ended_unit (q.rb_thread_check_ints w)

  unfoldable wakeup : Value → World T S → Result (Unit {0}) × World T S
  unfolding protect
  wakeup self w = ended_unit (q.rb_thread_wakeup self w)

  unfoldable wakeup_alive : Value → World T S → World T S
  wakeup_alive self w = q.rb_thread_wakeup_alive self w

  unfoldable run : Value → World T S → Result (Unit {0}) × World T S
  unfolding protect
  run self w = ended_unit (q.rb_thread_run self w)

  unfoldable kill : Value → World T S → Result (Unit {0}) × World T S
  unfolding protect
  kill self w = ended_unit (q.rb_thread_kill self w)

  -- The conversions are arguments.
  unfoldable local_aref :
      {I U : Type 0} → (I → ℕ) → (Value → Result U) → Value → I → World T S → Result U
  local_aref into_id convert self key w = convert (q.rb_thread_local_aref self (into_id key) w)

  unfoldable local_aset :
      {I U : Type 0}
      → (I → ℕ)
      → (U → Value)
      → Value
      → I
      → U
      → World T S
      → Result (Unit {0}) × World T S
  unfolding protect
  local_aset into_id into self key val w =
      ended_unit (q.rb_thread_local_aset self (into_id key) (into val) w)

  unfoldable interrupted : Value → World T S → Bool
  interrupted self w = not (q.rb_thread_interrupted self w == 0)

  unfoldable from_value : Heap → (ℕ → ℕ) → (Value → Bool) → Value → Result (Option Value)
  from_value h typed_flag is_thread val = TypedData.from_value c h typed_flag val >>= λ handle.
      ok (if is_thread val then handle else none)

  unfoldable try_convert : Heap → (ℕ → ℕ) → (Value → Bool) → Value → Result Value
  unfolding from_value
  try_convert h typed_flag is_thread val = from_value h typed_flag is_thread val >>= λ handle.
      elim handle [
        | some v ↦ ok v
        | none ↦ err (error type_error "no implicit conversion into Thread")
      ]

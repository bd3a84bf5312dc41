-- ===== src/Thread.antt =====
-- src/thread.rs: Ruby's threads. A closure that a thread runs is in a box of typed data, and the
-- thread keeps the object that has this box.
pub mod Closure
pub mod Control
pub mod Created
use magnus.Prelude.{
  ℕ, Bool, true, false, not, Option, none, some, Outcome, ok, err, panic, ◌>>=◌, ◌==◌,
  if◌then◌else◌,
}
use magnus.Prelude.Int.{ℤ, pos}
use magnus.Bits.Word.{to_signed}
use magnus.Time.{as_secs, subsec_micros}
use magnus.Ruby.{Value, Consts, Heap}
use magnus.Error.{Result, error, type_error, Completion, returned, unwound, protect}
use magnus.Method.{Ran, Classes, thread_call_handle_error}
use magnus.TypedData
use magnus.TypedData.{Store, set_box, TypedCalls}
use magnus.TypedData.Builder as Builder
use magnus.TypedData.Builder.{DataType, TypedFlags}

-- Closures among the values in boxes: `closure` makes the box's value of the `Option` that holds a
-- closure, and `slot` is that `Option`, if the value is one of a closure.
pub record Closures (T F : Type 0) : Type 0 where
  pub closure : Option F → T
  pub slot : T → Option (Option F)
  pub data_type : ℕ

-- What a thread is started with: a function, or a pointer to a closure.
pub data Entry : Type 0 where
  function : ℕ → Entry
  closure_at : ℕ → Entry

-- Ruby's threads and fibers: what each runs, the object that it keeps for Rust, and all else.
pub record Tasks (S : Type 0) : Type 0 where
  pub entry : Value → Option Entry
  pub kept : Value → Option Value
  pub ruby : S

abbrev pub World : Type 0 → Type 0 → Type 0
World T S = Store T × Tasks S

pub record ThreadCalls (T S : Type 0) : Type 0 where
  pub rb_thread_create : Entry → World T S → Completion Value × World T S
  pub rb_ivar_set : Value → Value → World T S → Completion Value × World T S
  pub rb_thread_current : World T S → Value
  pub rb_thread_main : World T S → Value
  pub rb_thread_schedule : World T S → World T S
  pub rb_thread_wait_fd : ℕ → World T S → Completion (Unit {0}) × World T S
  pub rb_thread_fd_writable : ℕ → World T S → Completion (Unit {0}) × World T S
  pub rb_thread_fd_close : ℕ → World T S → Completion (Unit {0}) × World T S
  pub rb_thread_alone : World T S → ℕ
  pub rb_thread_wait_for : ℤ → ℤ → World T S → Completion (Unit {0}) × World T S
  pub rb_thread_sleep_forever : World T S → Completion (Unit {0}) × World T S
  pub rb_thread_sleep_deadly : World T S → Completion (Unit {0}) × World T S
  pub rb_thread_check_ints : World T S → Completion (Unit {0}) × World T S
  pub rb_thread_wakeup : Value → World T S → Completion Value × World T S
  pub rb_thread_wakeup_alive : Value → World T S → World T S
  pub rb_thread_run : Value → World T S → Completion Value × World T S
  pub rb_thread_kill : Value → World T S → Completion Value × World T S
  pub rb_thread_local_aref : Value → ℕ → World T S → Value
  pub rb_thread_local_aset : Value → ℕ → Value → World T S → Completion Value × World T S
  pub rb_thread_interrupted : Value → World T S → ℕ

-- The data type of a closure.
unfoldable closure_data_type : Bool → TypedFlags → DataType
closure_data_type ruby_gte_3_0 f =
    Builder.build ruby_gte_3_0 f
      (Builder.mark (Builder.free_immediately (Builder.new "rust closure")))

module _ {T F : Type 0} (k : Closures T F) (r : TypedCalls T) where
  -- `wrap_closure`: the pointer to the `Option` and the object that keeps it; its class is 0. The
  -- `Option` is the first field of the box, and its pointer is taken as that of the box; the data
  -- types in the boxes, which are all alike, are one number.
  unfoldable pub wrap_closure : F → Store T → (ℕ × Value) × Store T
  wrap_closure func s =
      let ptr = r.box_new s in
      let made =
        r.rb_data_typed_object_wrap 0 ptr k.data_type
          (set_box s ptr (some (k.closure (some func)))) in
      ((ptr, made.0), made.1)

  -- `take()` of the `Option` behind a pointer; a pointer that is of no closure is undefined.
  abbrev taken : ℕ → Store T → Option (Option F) → Option (Option F × Store T)
  taken ptr s none = none
  taken ptr s (some slot) = some (slot, set_box s ptr (some (k.closure none)))

  unfoldable pub take : ℕ → Store T → Option (Option F × Store T)
  take ptr s = elim (s.boxes ptr) [ none ↦ none | some t ↦ taken ptr s (k.slot t) ]

-- A closure is the values that it has captured, and `body` is the code of the closures.
module _ {T S F : Type 0} (c : Consts) (x : Classes) (errinfo : Value)
    (body : F → World T S → Ran Value × World T S) (k : Closures T F) (r : TypedCalls T)
    (q : ThreadCalls T S) where
  -- `call`: `take().unwrap()`, then the closure.
  abbrev pub run_taken :
      Option (Option F × Store T) → Tasks S → Option (Result (Completion Value) × World T S)
  run_taken none tasks = none
  run_taken (some (none, s)) tasks = some (panic, (s, tasks))
  run_taken (some (some func, s)) tasks =
      let end = body func (s, tasks) in
      some (thread_call_handle_error c x errinfo (λ u. end.0), end.1)

  unfoldable pub call : ℕ → World T S → Option (Result (Completion Value) × World T S)
  call ptr (s, tasks) = run_taken (take k r ptr s) tasks

  -- `protect(..).unwrap()`
  abbrev pub unwrapped : {A : Type 0} → Result A → Result A
  unwrapped (ok a) = ok a
  unwrapped (err e) = panic
  unwrapped panic = panic

  unfoldable thread_create : ℕ → World T S → Result Value × World T S
  unfolding protect
  thread_create func w =
      let made = q.rb_thread_create (function func) w in
      (unwrapped (protect c made.0).result, made.1)

  -- `t.ivar_set("__rust_closure", keepalive).unwrap()`
  abbrev pub keep : Value → Result Value × World T S → Result Value × World T S
  keep keepalive (ok t, w) =
      let set = q.rb_ivar_set t keepalive w in
      (unwrapped (protect c set.0).result >>= λ v. ok t, set.1)
  keep keepalive (err e, w) = (err e, w)
  keep keepalive (panic, w) = (panic, w)

  unfoldable pub thread_create_from_fn : F → World T S → Result Value × World T S
  unfolding wrap_closure protect
  thread_create_from_fn func w =
      let wrapped = wrap_closure k r func w.0 in
      let made = q.rb_thread_create (closure_at wrapped.0.0) (wrapped.1, w.1) in
      keep wrapped.0.1 (unwrapped (protect c made.0).result, made.1)

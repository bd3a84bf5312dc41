-- ===== src/Api.antt =====
-- src/api.rs: whether this thread may call Ruby, as the interpreter says and as a thread-local
-- cell remembers.
pub mod Reach
use magnus.Prelude.{ℕ, Bool, true, false, Option, none, some, Outcome, ok, err, if◌then◌else◌}

-- `RubyGvlState`
pub data RubyGvlState : Type 0 where
  locked unlocked non_ruby_thread : RubyGvlState

pub data RubyUnavailableError : Type 0 where
  gvl_unlocked non_ruby_thread_error : RubyUnavailableError

-- What the interpreter answers on this thread: `ruby_thread_has_gvl_p` and `ruby_native_thread_p`.
pub record Thread : Type 0 where
  pub has_gvl : Bool
  pub is_native : Bool

-- `RUBY_GVL_STATE`
abbrev pub Cell : Type 0
Cell = Option RubyGvlState

-- The functions return their result and the new content of the cell.
unfoldable pub current : Thread → Cell → RubyGvlState × Cell
current thread cell =
    let state =
      if thread.has_gvl then locked else if thread.is_native then unlocked else non_ruby_thread in
    (state, some state)

unfoldable pub cached : Thread → Cell → RubyGvlState × Cell
unfolding current
cached thread (some locked) = (locked, some locked)
cached thread none = current thread none
cached thread (some unlocked) = current thread (some unlocked)
cached thread (some non_ruby_thread) = (non_ruby_thread, some non_ruby_thread)

-- `RubyGvlState::ok`
unfoldable pub ok_of : {A : Type 0} → RubyGvlState → A → Outcome RubyUnavailableError A
ok_of locked value = ok value
ok_of unlocked value = err gvl_unlocked
ok_of non_ruby_thread value = err non_ruby_thread_error

-- `Ruby::get`; the handle has no content.
unfoldable pub get : Thread → Cell → Outcome RubyUnavailableError (Unit {0}) × Cell
unfolding cached ok_of
get thread cell = (ok_of (cached thread cell).0 tt, (cached thread cell).1)

-- ===== src/Api/Reach.antt =====
-- The life of a thread as steps: calls of `Ruby::get`, and changes of the interpreter's lock.
use magnus.Prelude.{◌≡◌, refl, sym, Bool, true, false, none, some, Outcome, ok, err, if◌then◌else◌}
use magnus.Api.{
  locked, unlocked, non_ruby_thread, RubyUnavailableError, gvl_unlocked, non_ruby_thread_error,
  Thread, Cell, current, get,
}

pub record World : Type 0 where
  pub thread : Thread
  pub cell : Cell

abbrev pub of_thread : Bool → Bool → Thread
of_thread has_gvl is_native = record { has_gvl = has_gvl; is_native = is_native }

-- The steps that the cache allows for: a thread of Ruby that waits gets the lock, and keeps it. A
-- thread never becomes or ceases to be one of Ruby's.
pub data Step : World → World → Type 0 where
  call_get :
      {t : Thread} {c : Cell}
      → Step (record { thread = t; cell = c }) (record { thread = t; cell = (get t c).1 })
  acquire :
      {c : Cell}
      → Step
          (record { thread = of_thread false true; cell = c })
          (record { thread = of_thread true true; cell = c })

-- A thread starts with an empty cell.
pub data Reachable : World → Type 0 where
  start : {t : Thread} → Reachable (record { thread = t; cell = none })
  after : {w w' : World} → Reachable w → Step w w' → Reachable w'

-- What `Ruby::get` says of the thread as it is.
abbrev pub answer : Thread → Outcome RubyUnavailableError (Unit {0})
answer t =
    if t.has_gvl then ok tt else if t.is_native then err gvl_unlocked else err non_ruby_thread_error

-- What the cell may hold.
abbrev IsFaithful : World → Type 0
IsFaithful w = elim w.cell [
  | none ↦ Unit {0}
  | some locked ↦ w.thread.has_gvl ≡ true
  | some unlocked ↦ w.thread.is_native ≡ true
  | some non_ruby_thread ↦ (w.thread.has_gvl ≡ false) × (w.thread.is_native ≡ false)
]

current-IsFaithful :
    (g n : Bool) (c : Cell)
    → IsFaithful (record { thread = of_thread g n; cell = (current (of_thread g n) c).1 })
unfolding current
current-IsFaithful true n c = refl
current-IsFaithful false true c = refl
current-IsFaithful false false c = (refl, refl)

get-IsFaithful :
    (g n : Bool) (c : Cell)
    → IsFaithful (record { thread = of_thread g n; cell = c })
    → IsFaithful (record { thread = of_thread g n; cell = (get (of_thread g n) c).1 })
unfolding get
get-IsFaithful g n none f = current-IsFaithful g n none
get-IsFaithful g n (some locked) f = f
get-IsFaithful g n (some unlocked) f = current-IsFaithful g n (some unlocked)
get-IsFaithful g n (some non_ruby_thread) f = f

booleans_differ : true ≡ false → ⊥
booleans_differ e = cc e

acquire-IsFaithful :
    (c : Cell)
    → IsFaithful (record { thread = of_thread false true; cell = c })
    → IsFaithful (record { thread = of_thread true true; cell = c })
acquire-IsFaithful none f = tt
acquire-IsFaithful (some locked) f = refl
acquire-IsFaithful (some unlocked) f = refl
acquire-IsFaithful (some non_ruby_thread) f = absurd (booleans_differ f.1)

Reachable-IsFaithful : {w : World} → Reachable w → IsFaithful w
Reachable-IsFaithful start = tt
Reachable-IsFaithful (after reach (call_get {t = t} {c = c})) =
    get-IsFaithful t.has_gvl t.is_native c (Reachable-IsFaithful reach)
Reachable-IsFaithful (after reach (acquire {c = c})) =
    acquire-IsFaithful c (Reachable-IsFaithful reach)

get_of :
    (g n : Bool) (c : Cell)
    → IsFaithful (record { thread = of_thread g n; cell = c })
    → (get (of_thread g n) c).0 ≡ answer (of_thread g n)
unfolding get
get_of true n none f = refl
get_of false true none f = refl
get_of false false none f = refl
get_of true n (some locked) f = refl
get_of false n (some locked) f = absurd (booleans_differ (sym f))
get_of true n (some unlocked) f = refl
get_of false true (some unlocked) f = refl
get_of false false (some unlocked) f = refl
get_of true n (some non_ruby_thread) f = absurd (booleans_differ f.0)
get_of false true (some non_ruby_thread) f = absurd (booleans_differ f.1)
get_of false false (some non_ruby_thread) f = refl

-- Whenever a thread calls `Ruby::get`, the answer is what the interpreter would say at this moment:
-- `Ok` with the lock, and without it the error of a thread of Ruby's or of another. The thread
-- started with an empty cell, and has since called `Ruby::get` and taken the lock any number of
-- times, but never given it up.
pub get-answer : (w : World) → Reachable w → (get w.thread w.cell).0 ≡ answer w.thread
get-answer w reach = get_of w.thread.has_gvl w.thread.is_native w.cell (Reachable-IsFaithful reach)

-- ===== src/Tests/MutexTests.antt =====
-- The properties of mutexes, at a table of holders.
use magnus.Prelude.{ℕ, suc, ◌≡◌, ◌≢◌, refl, inl, ok, err}
use magnus.Ruby.{Value, modern}
use magnus.Error.{Result, Completion, returned, unwound, Tag}
use magnus.Method.{Ran, panicked, static_str}
use magnus.Block.{Ended}
use magnus.Mutex.{Holder, free, mine, other, Locks, MutexCalls, synchronize, trylock}
use magnus.Mutex.Held.{
  hold, locked_word, IsMutexCalls, Tries, trylock_lem, Results, synchronize-Results,
}
use magnus.Tests.MethodTests as Method

abbrev locking : Holder → Value → Locks → Completion Value × Locks
locking free m s = (returned m, hold s m mine)
locking mine m s = (unwound Tag.raise 0x77, s)
locking other m s = (unwound Tag.raise 0x77, s)

abbrev unlocking : Holder → Value → Locks → Completion Value × Locks
unlocking free m s = (unwound Tag.raise 0x77, s)
unlocking mine m s = (returned m, hold s m free)
unlocking other m s = (unwound Tag.raise 0x77, s)

abbrev trying : Holder → Value → Locks → Value × Locks
trying free m s = (modern.qtrue, hold s m mine)
trying mine m s = (modern.qfalse, s)
trying other m s = (modern.qfalse, s)

abbrev synchronizing :
    {W : Type 0}
    → Holder
    → Value
    → (Locks × W → Ended × (Locks × W))
    → Locks × W
    → Ended × (Locks × W)
synchronizing free m func (s, w) =
    let end = func (hold s m mine, w) in (end.0, ((unlocking (end.1.0 m) m end.1.0).1, end.1.1))
synchronizing mine m func (s, w) = (ok (unwound Tag.raise 0x77), (s, w))
synchronizing other m func (s, w) = (ok (unwound Tag.raise 0x77), (s, w))

abbrev calls : MutexCalls
calls = record {
  rb_mutex_new = λ s. (0x100, s);
  rb_mutex_locked_p = λ m s. locked_word modern (s m);
  rb_mutex_trylock = λ m s. trying (s m) m s;
  rb_mutex_lock = λ m s. locking (s m) m s;
  rb_mutex_unlock = λ m s. unlocking (s m) m s;
  rb_mutex_sleep = λ m timeout s. (returned m, s);
  rb_mutex_synchronize = λ m func p. synchronizing (p.0 m) m func p;
}

trying_held : (h : Holder) (m : Value) (s : Locks) → h ≢ free → trying h m s ≡ (modern.qfalse, s)
trying_held free m s ne = absurd (ne refl)
trying_held mine m s ne = refl
trying_held other m s ne = refl

unlocking_held :
    (h : Holder) (m : Value) (s : Locks) → h ≢ mine → unlocking h m s ≡ (unwound Tag.raise 0x77, s)
unlocking_held free m s ne = refl
unlocking_held mine m s ne = absurd (ne refl)
unlocking_held other m s ne = refl

calls-IsMutexCalls : IsMutexCalls modern calls
calls-IsMutexCalls = record {
  locked_law = λ m s. refl;
  trylock_law = λ m s h. rw h refl;
  trylock_held_law = λ m s ne. trying_held (s m) m s ne;
  lock_law = λ m s h. rw h refl;
  lock_mine_law = λ m s h. (0x77, rw h refl);
  unlock_law = λ m s h. rw h refl;
  unlock_other_law = λ m s ne. (0x77, unlocking_held (s m) m s ne);
  synchronize_law = λ m func s w h held. rw h (rw held refl);
  synchronize_mine_law = λ m func s w h. (0x77, rw h refl);
}

abbrev unlocked : Locks
unlocked m = free

trylock_lem_example :
    Tries modern calls
      (inl refl)
      calls-IsMutexCalls
      0x20
      unlocked
      (trylock modern calls 0x20 unlocked)
trylock_lem_example = trylock_lem modern calls (inl refl) calls-IsMutexCalls 0x20 unlocked

-- Counts its calls, and panics.
abbrev panicking : Locks × ℕ → Ran Value × (Locks × ℕ)
panicking (s, n) = (err (panicked (static_str "oops")), (s, suc n))

abbrev plain : Value → Result ℕ
plain v = ok v

synchronize-Results_example :
    let got = synchronize modern calls Method.classes 0 plain 0x20 panicking (unlocked, 0) in
    Results modern calls calls-IsMutexCalls Method.classes Method.classes-IsClasses 0 plain
      (err (panicked (static_str "oops")))
      got.0
    × (got.1 ≡ (hold (hold unlocked 0x20 mine) 0x20 free, 1))
    × (got.1.0 0x20 ≡ free)
synchronize-Results_example =
    synchronize-Results modern calls calls-IsMutexCalls Method.classes Method.classes-IsClasses 0
      plain 0x20 panicking unlocked 0 refl refl (λ e. cc e) (λ e. cc e)

-- ===== src/Mutex/Held.antt =====
-- src/mutex.rs: a mutex is held while its code runs, and then it is free again.
use magnus.Prelude.{
  ◌≡◌, ◌≢◌, refl, sym, ap, ◌∙◌, Bool, true, false, not, ok, err, panic, ◌>>=◌, if◌then◌else◌, ◌==◌,
  ==_iff, arith, inl, inr,
}
use magnus.Ruby.{Value, Consts, IsDocumented}
use magnus.Error.{
  Result, ErrorType, error, fatal, jump, exception, Completion, returned, unwound, Tag, protect,
}
use magnus.Method.{Ran, failed, panicked, Classes, synchronize_call_handle_error}
use magnus.Method.Raise.{IsClasses, Received}
use magnus.Method.Calls.{panic_message, Ends, handle_error-Ends}
use magnus.Value.{to_bool}
use magnus.Block.{Ended}
use magnus.Mutex.{
  Holder, free, mine, other, Locks, MutexCalls, call, synchronize, trylock, is_locked,
}

abbrev pub hold : Locks → Value → Holder → Locks
hold s m h v = if m == v then h else s v

abbrev pub locked_word : Consts → Holder → Value
locked_word c free = c.qfalse
locked_word c mine = c.qtrue
locked_word c other = c.qtrue

-- What Ruby documents of a mutex that no other thread takes meanwhile. A free mutex is locked, and
-- locking one's own raises a ThreadError; `rb_mutex_synchronize` locks, calls the function, and
-- unlocks the mutex however the function ends, if the thread still holds it.
pub record IsMutexCalls (c : Consts) (r : MutexCalls) : Type 1 where
  pub locked_law : (m : Value) (s : Locks) → r.rb_mutex_locked_p m s ≡ locked_word c (s m)
  pub trylock_law :
      (m : Value) (s : Locks) → s m ≡ free → r.rb_mutex_trylock m s ≡ (c.qtrue, hold s m mine)
  pub trylock_held_law :
      (m : Value) (s : Locks) → s m ≢ free → r.rb_mutex_trylock m s ≡ (c.qfalse, s)
  pub lock_law :
      (m : Value) (s : Locks) → s m ≡ free → r.rb_mutex_lock m s ≡ (returned m, hold s m mine)
  pub lock_mine_law :
      (m : Value) (s : Locks)
      → s m ≡ mine
      → (e : Value) × (r.rb_mutex_lock m s ≡ (unwound Tag.raise e, s))
  pub unlock_law :
      (m : Value) (s : Locks) → s m ≡ mine → r.rb_mutex_unlock m s ≡ (returned m, hold s m free)
  pub unlock_other_law :
      (m : Value) (s : Locks)
      → s m ≢ mine
      → (e : Value) × (r.rb_mutex_unlock m s ≡ (unwound Tag.raise e, s))
  pub synchronize_law :
      {W : Type 0} (m : Value) (func : Locks × W → Ended × (Locks × W)) (s : Locks) (w : W)
      → s m ≡ free
      → (func (hold s m mine, w)).1.0 m ≡ mine
      → r.rb_mutex_synchronize m func (s, w) ≡ (
        (func (hold s m mine, w)).0,
        (hold (func (hold s m mine, w)).1.0 m free, (func (hold s m mine, w)).1.1),
      )
  pub synchronize_mine_law :
      {W : Type 0} (m : Value) (func : Locks × W → Ended × (Locks × W)) (s : Locks) (w : W)
      → s m ≡ mine
      → (e : Value) × (r.rb_mutex_synchronize m func (s, w) ≡ (ok (unwound Tag.raise e), (s, w)))

module _ (c : Consts) (r : MutexCalls) (d : IsDocumented c) (l : IsMutexCalls c r) where
  to_bool-words : (to_bool c c.qtrue ≡ true) × (to_bool c c.qfalse ≡ false)
  unfolding to_bool
  to_bool-words = elim d [ inl e ↦ rw e (refl, refl) | inr e ↦ rw e (refl, refl) ]

  is_locked_lem :
      (m : Value) (s : Locks) (h : Holder)
      → s m ≡ h
      → is_locked c r m s ≡ to_bool c (locked_word c h)
  unfolding is_locked
  is_locked_lem m s h e = rw (l.locked_law m s) (rw e refl)

  abbrev pub Tries : Value → Locks → Bool × Locks → Type 0
  Tries m s got =
      (got.0 ≡ not (is_locked c r m s))
      × (is_locked c r m got.1 ≡ true)
      × ((v : Value) → v ≢ m → got.1 v ≡ s v)

  trylock_held :
      (m : Value) (s : Locks) (h : Holder)
      → s m ≡ h
      → h ≢ free
      → to_bool c (locked_word c h) ≡ true
      → Tries m s (trylock c r m s)
  unfolding trylock
  trylock_held m s h e ne locked = rw (l.trylock_held_law m s (λ f. ne (sym e ∙ f))) (
    to_bool-words.1 ∙ sym (ap not (is_locked_lem m s h e ∙ locked)),
    is_locked_lem m s h e ∙ locked,
    λ v _. refl,
  )

  trylock_at : (m : Value) (s : Locks) (h : Holder) → s m ≡ h → Tries m s (trylock c r m s)
  unfolding trylock
  trylock_at m s free e = rw (l.trylock_law m s e) (
    to_bool-words.0 ∙ sym (ap not (is_locked_lem m s free e ∙ to_bool-words.1)),
    is_locked_lem m (hold s m mine) mine (rw ((==_iff m m).1 refl) refl) ∙ to_bool-words.0,
    λ v ne. ground (arith, ==_iff m v),
  )
  trylock_at m s mine e = trylock_held m s mine e (λ x. cc x) to_bool-words.0
  trylock_at m s other e = trylock_held m s other e (λ x. cc x) to_bool-words.0

  -- `trylock` takes a mutex exactly when `is_locked` says that it is free; then the mutex is locked,
  -- and the other mutexes are as they were.
  pub trylock_lem : (m : Value) (s : Locks) → Tries m s (trylock c r m s)
  trylock_lem m s = trylock_at m s (s m) refl

module _ (c : Consts) (r : MutexCalls) (l : IsMutexCalls c r) (k : Classes) (n : IsClasses k)
    (errinfo : Value) {T : Type 0} (try_convert : Value → Result T) where
  -- What the caller gets for how the closure has ended.
  abbrev pub Results : Ran Value → Result T → Type 0
  Results (ok v) o = o ≡ try_convert v
  Results (err (failed e)) o = (e' : ErrorType) × (o ≡ err e') × Received k e e'
  Results (err (panicked p)) o =
      (e' : ErrorType) × (o ≡ err e') × Received k (error fatal (panic_message p)) e'
  Results panic o = ⊥

  Ends-Results :
      (ran : Ran Value) (completion : Completion Value)
      → Ends c k (λ v. v) ran completion
      → Results ran ((protect c completion).result >>= try_convert)
  unfolding protect
  Ends-Results (ok v) completion h = rw h refl
  Ends-Results (err (failed e)) completion h =
      let (e', got, received) = h in (e', rw got refl, received)
  Ends-Results (err (panicked p)) completion h =
      let (e', got, received) = h in (e', rw got refl, received)
  Ends-Results panic completion h = h

  -- `synchronize` on a free mutex calls the closure once, with the mutex held, and afterwards the
  -- mutex is free, whether the closure returns, fails or panics; what it returns is converted, and
  -- its error, or the exception made from its panic, is the result. The closure leaves the mutex held,
  -- and its error is not a bare tag of a raised exception, nor is it an abort.
  pub synchronize-Results :
      {S : Type 0} (m : Value) (func : Locks × S → Ran Value × (Locks × S)) (s : Locks) (w : S)
      → s m ≡ free
      → (func (hold s m mine, w)).1.0 m ≡ mine
      → (func (hold s m mine, w)).0 ≢ err (failed (jump Tag.raise))
      → (func (hold s m mine, w)).0 ≢ panic
      → let end = func (hold s m mine, w) in
        let got = synchronize c r k errinfo try_convert m func (s, w) in
        Results end.0 got.0 × (got.1 ≡ (hold end.1.0 m free, end.1.1)) × (got.1.0 m ≡ free)
  unfolding synchronize synchronize_call_handle_error call
  synchronize-Results m func s w h held nj np =
      let end = func (hold s m mine, w) in
      let (completion, raised, ends) = handle_error-Ends c k n errinfo end.0 (λ v. v) nj np in
      rw
        (l.synchronize_law m (call c r k errinfo func) s (record { some_func = true; shared = w }) h
          held)
        (rw raised (Ends-Results end.0 completion ends, refl, rw ((==_iff m m).1 refl) refl))

  -- `synchronize` on a mutex that the thread holds already is an exception: the closure does not run, and the
  -- locks are as they were.
  synchronize_mine :
      {S : Type 0} (m : Value) (func : Locks × S → Ran Value × (Locks × S)) (s : Locks) (w : S)
      → s m ≡ mine
      → (e : Value) × (synchronize c r k errinfo try_convert m func (s, w)
          ≡ (err (exception e), (s, w)))
  unfolding synchronize protect
  synchronize_mine m func s w h =
      let (e, raised) =
        l.synchronize_mine_law m (call c r k errinfo func) s
          (record { some_func = true; shared = w }) h in
      (e, rw raised refl)

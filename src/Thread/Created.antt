-- ===== src/Thread/Created.antt =====
-- src/thread.rs: the closure of a thread is there when the thread runs it, and runs once.
use magnus.Prelude.{
  err, panic, ℕ, ◌≡◌, ◌≢◌, refl, sym, ap, ◌∙◌, Bool, true, Option, none, some, ok, ◌==◌,
  if◌then◌else◌, ==_iff,
}
use magnus.Ruby.{Value, Consts}
use magnus.Error.{jump, Tag, Completion, Result, returned, protect}
use magnus.Error.Returned.{protect-returned}
use magnus.Method.{Ran, Classes, failed, thread_call_handle_error}
use magnus.Method.Raise.{IsClasses}
use magnus.Method.Calls.{Ends, handle_error-Ends}
use magnus.TypedData.{Wrapped, Store, set_box, TypedCalls}
use magnus.TypedData.Lifetime.{IsTypedCalls, IsSound}
use magnus.Thread.{
  Closures, Entry, closure_at, Tasks, World, ThreadCalls, wrap_closure, call, run_taken, unwrapped,
  keep, thread_create_from_fn,
}
use magnus.Thread.Closure.{IsClosures, take_lem, wrapped_closure}

-- A new thread is none of those there are; it has not run yet, and while this thread goes on it does not.
-- Setting an instance variable of it does not fail.
pub record IsThreadCalls {T S : Type 0} (q : ThreadCalls T S) : Type 0 where
  pub create_law :
      (e : Entry) (w u : World T S) (v : Value)
      → q.rb_thread_create e w ≡ (returned v, u)
      → (w.1.entry v ≡ none)
        × (u ≡ (w.0, record w.1 { entry = λ t. if v == t then some e else w.1.entry t }))
  pub ivar_law :
      (t v : Value) (w : World T S)
      → q.rb_ivar_set t v w
        ≡ (returned v, (w.0, record w.1 { kept = λ t'. if t == t' then some v else w.1.kept t' }))

module _ {T S F : Type 0} (type_of : T → ℕ) (is_ours : ℕ → Bool) (c : Consts) (x : Classes)
    (errinfo : Value) (body : F → World T S → Ran Value × World T S) (k : Closures T F)
    (i : IsClosures type_of k) (ours : is_ours k.data_type ≡ true) (r : TypedCalls T)
    (l : IsTypedCalls r) (q : ThreadCalls T S) (m : IsThreadCalls q) where
  -- What the run of a thread's function gives: with the closure taken it is a panic, and nothing has
  -- run; otherwise it is what the closure's code makes of the world with the closure taken out, and
  -- the closure's result is what Ruby gets.
  abbrev pub Gives : Option F → World T S → Option (Result (Completion Value) × World T S) → Type 0
  Gives none w got = got ≡ some (panic, w)
  Gives (some func) w got =
      (completion : Completion Value) × (got ≡ some (ok completion, (body func w).1))
      × Ends c x (λ v. v) (body func w).0 completion

  gives_lem :
      IsClasses x
      → ((func : F) (u : World T S) → (body func u).0 ≢ err (failed (jump Tag.raise)))
      → ((func : F) (u : World T S) → (body func u).0 ≢ panic)
      → (o : Option F) (s : Store T) (tasks : Tasks S)
      → Gives o (s, tasks) (run_taken c x errinfo body k r q (some (o, s)) tasks)
  unfolding thread_call_handle_error
  gives_lem n nj np none s tasks = refl
  gives_lem n nj np (some func) s tasks =
      let (completion, e, ends) =
        handle_error-Ends c x n errinfo (body func (s, tasks)).0 (λ v. v) (nj func (s, tasks))
          (np func (s, tasks)) in
      (completion, rw e refl, ends)

  -- While the object of a closure is there, running the thread's function reads a box that is there:
  -- it takes the closure out and runs its code once, whose value, error or panic is what Ruby gets;
  -- or, where the closure has been taken before, it panics and runs nothing. The box has no closure
  -- when the code runs, so that none runs twice. No closure ends in a bare tag of a raised
  -- exception, nor in an abort.
  pub call_lem :
      (s : Store T) (tasks : Tasks S) (v : Value) (w : Wrapped)
      → IsClasses x
      → ((func : F) (u : World T S) → (body func u).0 ≢ err (failed (jump Tag.raise)))
      → ((func : F) (u : World T S) → (body func u).0 ≢ panic)
      → IsSound type_of is_ours s
      → s.objects v ≡ some w
      → w.data_type ≡ k.data_type
      → (o : Option F) × (s.boxes w.ptr ≡ some (k.closure o))
        × Gives o
            (set_box s w.ptr (some (k.closure none)), tasks)
            (call c x errinfo body k r q w.ptr (s, tasks))
  unfolding call
  call_lem s tasks v w n nj np sound h e =
      let (t, a, b) = sound.boxed v w h (ap is_ours e ∙ ours) in
      let (o, p) = i.closure_law t (b ∙ e) in
      (
        o,
        a ∙ ap some p,
        rw (take_lem type_of is_ours k i ours r l s w.ptr o (a ∙ ap some p))
            (gives_lem n nj np o (set_box s w.ptr (some (k.closure none))) tasks),
      )

  unwrapped_ok :
      (o : Result Value) (t : Value) → unwrapped c x errinfo body k r q o ≡ ok t → o ≡ ok t
  unwrapped_ok (ok t') t h = h
  unwrapped_ok (err e) t h = absurd cc
  unwrapped_ok panic t h = absurd cc

  kept_lem :
      (v t : Value) (o : Result Value) (w u : World T S)
      → keep c x errinfo body k r q v (o, w) ≡ (ok t, u)
      → (o ≡ ok t)
        × (u ≡ (w.0, record w.1 { kept = λ t'. if t == t' then some v else w.1.kept t' }))
  unfolding protect
  kept_lem v t (ok t') w u h =
      let set_at : Value → World T S =
        λ z. (w.0, record w.1 { kept = λ t''. if z == t'' then some v else w.1.kept t'' }) in
      let h' : ◌≡◌ {A = Result Value × World T S} (ok t', set_at t') (ok t, u) =
        rw (m.ivar_law t' v w) at h in
      let same : t' ≡ t = cc h' in (ap ok same, sym (cc h') ∙ ap set_at same)
  kept_lem v t (err e) w u h = absurd cc
  kept_lem v t panic w u h = absurd cc

  -- In a sound store, which stays so, a thread that is made of a closure is a new one; it is to run
  -- that closure, and it keeps the object with the closure's box, which is there with the closure in it.
  pub thread_create_from_fn_lem :
      (func : F) (w u : World T S) (t : Value)
      → IsSound type_of is_ours w.0
      → thread_create_from_fn c x errinfo body k r q func w ≡ (ok t, u)
      → (v : Value) × (ptr : ℕ) × (w.1.entry t ≡ none)
        × (u.1.entry t ≡ some (closure_at ptr))
        × (u.1.kept t ≡ some v)
        × (u.0.objects v ≡ some (record { class = 0; ptr = ptr; data_type = k.data_type }))
        × (u.0.boxes ptr ≡ some (k.closure (some func)))
        × IsSound type_of is_ours u.0
  unfolding thread_create_from_fn
  thread_create_from_fn_lem func w u t sound h =
      let made = wrap_closure k r func w.0 in
      let (safe, object, box) = wrapped_closure type_of is_ours k i ours r l func w.0 sound in
      let w1 : World T S = (made.1, w.1) in
      let created = q.rb_thread_create (closure_at made.0.0) w1 in
      let (ended, last) =
        kept_lem made.0.1 t (unwrapped c x errinfo body k r q (protect c created.0).result)
          created.1 u h in
      let came : created.0 ≡ returned t =
        protect-returned c created.0 t (unwrapped_ok (protect c created.0).result t ended) in
      let (fresh, new) =
        m.create_law (closure_at made.0.0) w1 created.1 t (ap (λ z. (z, created.1)) came) in
      (
        made.0.1,
        made.0.0,
        fresh,
        rw last (rw new (rw ((==_iff t t).1 refl) refl)),
        rw last (rw ((==_iff t t).1 refl) refl),
        rw last (rw new object),
        rw last (rw new box),
        rw last (rw new safe),
      )

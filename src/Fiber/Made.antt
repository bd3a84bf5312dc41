-- ===== src/Fiber/Made.antt =====
-- src/fiber.rs: the closure of a fiber is there when the fiber runs it.
use magnus.Prelude.{
  ℕ, ◌≡◌, refl, sym, ap, ◌∙◌, Bool, true, Option, none, some, List, ok, ◌==◌, if◌then◌else◌, ==_iff,
  inl, inr, Bool-cases,
}
use magnus.Ruby.{Value, Consts}
use magnus.Error.{Result, Completion, returned, unwound, protect}
use magnus.Error.Returned.{protect-returned}
use magnus.Method.{Ran, Classes}
use magnus.TypedData.{TypedCalls}
use magnus.TypedData.Lifetime.{IsTypedCalls, IsSound}
use magnus.Thread.{Closures, Entry, closure_at, World}
use magnus.Thread.Closure.{IsClosures, wrapped_closure}
use magnus.Fiber.{
  Storage, storage_as_rb_value, FiberCalls, wrap_closure, make, keep, fiber_new_from_fn,
}

-- A new fiber is none of those there are, and it runs only when it is resumed. Setting an instance
-- variable of it does not fail.
pub record IsFiberCalls {T S : Type 0} (q : FiberCalls T S) : Type 0 where
  pub new_storage_law :
      (e : Entry) (storage : Value) (w u : World T S) (v : Value)
      → q.rb_fiber_new_storage e storage w ≡ (returned v, u)
      → (w.1.entry v ≡ none)
        × (u ≡ (w.0, record w.1 { entry = λ t. if v == t then some e else w.1.entry t }))
  pub new_law :
      (e : Entry) (w u : World T S) (v : Value)
      → q.rb_fiber_new e w ≡ (returned v, u)
      → (w.1.entry v ≡ none)
        × (u ≡ (w.0, record w.1 { entry = λ t. if v == t then some e else w.1.entry t }))
  pub ivar_law :
      (t v : Value) (w : World T S)
      → q.rb_ivar_set t v w
        ≡ (returned v, (w.0, record w.1 { kept = λ t'. if t == t' then some v else w.1.kept t' }))

module _ {T S F : Type 0} (type_of : T → ℕ) (is_ours : ℕ → Bool) (c : Consts) (x : Classes)
    (errinfo : Value) (ruby_gte_3_2 : Bool) (proc_from_value : Value → Option Value)
    (body : F → List Value → Option Value → World T S → Ran Value × World T S) (k : Closures T F)
    (i : IsClosures type_of k) (ours : is_ours k.data_type ≡ true) (r : TypedCalls T)
    (l : IsTypedCalls r) (q : FiberCalls T S) (m : IsFiberCalls q) where
  make_lem :
      (storage : Storage) (e : Entry) (w u : World T S) (v : Value)
      → make c x errinfo ruby_gte_3_2 proc_from_value body k r q storage e w ≡ (returned v, u)
      → (w.1.entry v ≡ none)
        × (u ≡ (w.0, record w.1 { entry = λ t. if v == t then some e else w.1.entry t }))
  make_lem storage e w u v h = elim (Bool-cases ruby_gte_3_2) [
    | inl new ↦ m.new_storage_law e (storage_as_rb_value c storage) w u v (rw new at h)
    | inr old ↦ m.new_law e w u v (rw old at h)
  ]

  kept_lem :
      (v t : Value) (completion : Completion Value) (w u : World T S)
      → keep c x errinfo ruby_gte_3_2 proc_from_value body k r q v (completion, w) ≡ (ok t, u)
      → (completion ≡ returned t)
        × (u ≡ (w.0, record w.1 { kept = λ t'. if t == t' then some v else w.1.kept t' }))
  unfolding protect
  kept_lem v t (returned t') w u h =
      let set_at : Value → World T S =
        λ z. (w.0, record w.1 { kept = λ t''. if z == t'' then some v else w.1.kept t'' }) in
      let h' : ◌≡◌ {A = Result Value × World T S} (ok t', set_at t') (ok t, u) =
        rw (m.ivar_law t' v w) at h in
      let same : t' ≡ t = cc h' in (ap returned same, sym (cc h') ∙ ap set_at same)
  kept_lem v t (unwound tag e) w u h =
      absurd (cc (protect-returned c (unwound tag e) t (ap (λ z. z.0) h)))

  -- A fiber made of a closure, with any storage and on any version of Ruby, is a new one; it is to
  -- run that closure, and it keeps the object with the closure's box, which is there with the
  -- closure in it, in a sound store.
  pub fiber_new_from_fn_lem :
      (storage : Storage) (func : F) (w u : World T S) (t : Value)
      → IsSound type_of is_ours w.0
      → fiber_new_from_fn c x errinfo ruby_gte_3_2 proc_from_value body k r q storage func w
        ≡ (ok t, u)
      → (v : Value) × (ptr : ℕ) × (w.1.entry t ≡ none)
        × (u.1.entry t ≡ some (closure_at ptr))
        × (u.1.kept t ≡ some v)
        × (u.0.objects v ≡ some (record { class = 0; ptr = ptr; data_type = k.data_type }))
        × (u.0.boxes ptr ≡ some (k.closure (some func)))
        × IsSound type_of is_ours u.0
  unfolding fiber_new_from_fn wrap_closure
  fiber_new_from_fn_lem storage func w u t sound h =
      let made = wrap_closure k r func w.0 in
      let (safe, object, box) = wrapped_closure type_of is_ours k i ours r l func w.0 sound in
      let w1 : World T S = (made.1, w.1) in
      let created =
        make c x errinfo ruby_gte_3_2 proc_from_value body k r q storage (closure_at made.0.0) w1 in
      let (ended, last) = kept_lem made.0.1 t created.0 created.1 u h in
      let (fresh, new) =
        make_lem storage (closure_at made.0.0) w1 created.1 t (ap (λ z. (z, created.1)) ended) in
      (
        made.0.1,
        made.0.0,
        fresh,
        rw last (rw new (rw ((==_iff t t).1 refl) refl)),
        rw last (rw ((==_iff t t).1 refl) refl),
        rw last (rw new object),
        rw last (rw new box),
        rw last (rw new safe),
      )

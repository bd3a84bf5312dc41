-- ===== src/Thread/Closure.antt =====
-- src/thread.rs and src/fiber.rs: the box of a closure.
use magnus.Prelude.{ℕ, ◌≡◌, refl, Bool, true, Option, none, some, ==_iff}
use magnus.TypedData.{Wrapped, Store, set_box, TypedCalls}
use magnus.TypedData.Lifetime.{IsTypedCalls, IsSound}
use magnus.TypedData.Reached.{set_box-IsBounded}
use magnus.TypedData.Soundness.{added-IsSound}
use magnus.Thread.{Closures, wrap_closure, take}

-- The boxes' values of the data type of closures are the closures.
pub record IsClosures {T F : Type 0} (type_of : T → ℕ) (k : Closures T F) : Type 0 where
  pub slot_law : (o : Option F) → k.slot (k.closure o) ≡ some o
  pub type_law : (o : Option F) → type_of (k.closure o) ≡ k.data_type
  pub closure_law : (t : T) → type_of t ≡ k.data_type → (o : Option F) × (t ≡ k.closure o)

module _ {T F : Type 0} (type_of : T → ℕ) (is_ours : ℕ → Bool) (k : Closures T F)
    (i : IsClosures type_of k) (ours : is_ours k.data_type ≡ true) (r : TypedCalls T)
    (l : IsTypedCalls r) where
  pub take_lem :
      (s : Store T) (ptr : ℕ) (o : Option F)
      → s.boxes ptr ≡ some (k.closure o)
      → take k r ptr s ≡ some (o, set_box s ptr (some (k.closure none)))
  unfolding take
  take_lem s ptr o a = rw (a, take) (rw (i.slot_law o) refl)

  -- A closure is wrapped in a new box, and the store stays sound.
  pub wrapped_closure :
      (func : F) (s : Store T)
      → IsSound type_of is_ours s
      → let made = wrap_closure k r func s in
        IsSound type_of is_ours made.1
        × (made.1.objects made.0.1
            ≡ some (record { class = 0; ptr = made.0.0; data_type = k.data_type }))
        × (made.1.boxes made.0.0 ≡ some (k.closure (some func)))
  unfolding wrap_closure
  wrapped_closure func s sound =
      let p = r.box_new s in
      let s1 = set_box s p (some (k.closure (some func))) in
      let v = (r.rb_data_typed_object_wrap 0 p k.data_type s1).0 in
      let w : Wrapped = record { class = 0; ptr = p; data_type = k.data_type } in
      rw (l.wrap_law 0 p k.data_type s1) (
        added-IsSound type_of is_ours s sound v w (k.closure (some func))
            (l.box_new_law s sound.bounded) (l.box_new_not_null s)
            (l.wrap_fresh_law 0 p k.data_type s1
              (set_box-IsBounded s p (some (k.closure (some func))) sound.bounded))
            (i.type_law (some func)) ours,
        rw ((==_iff v v).1 refl) refl,
        rw ((==_iff p p).1 refl) refl,
      )

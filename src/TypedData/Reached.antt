-- ===== src/TypedData/Reached.antt =====
-- src/r_typed_data.rs: what holds of the store whatever is wrapped and collected.
use magnus.Prelude.{
  ℕ, ◌≡◌, ◌≢◌, refl, sym, ap, ◌∙◌, Bool, true, not, ◌&&◌, Option, none, some, ok, err, panic, ◌==◌,
  arith, ==_iff, inl, inr, ◌⊎◌, Bool-cases,
}
use magnus.Ruby.{Value, Consts}
use magnus.Error.{Result, error, type_error, returned, unwound, Tag, protect}
use magnus.Error.Returned.{protect-unwound}
use magnus.TypedData.{
  Wrapped, Store, set_box, set_object, TypedCalls, TypedData, Ending, DataTypeFunctions,
  extern_free, wrap_as, get, caught, checked, as_ref,
}
use magnus.TypedData.Lifetime.{
  IsBounded, IsTypedCalls, IsSound, Step, wraps, makes, changes, collects, collects_other, Reach,
  here, next,
}
use magnus.TypedData.Soundness.{added-IsSound, removed-IsSound, replaced-IsSound, changed-IsSound}

pub set_box-IsBounded :
    {T : Type 0} (s : Store T) (p : ℕ) (b : Option T) → IsBounded s → IsBounded (set_box s p b)
set_box-IsBounded s p b n q h = let old = n q (omega arith) in ground (arith, ==_iff p q)

-- `get` of an object of the type that is asked for.
pub get_same :
    {T : Type 0} (c : Consts) (r : TypedCalls T) (l : IsTypedCalls r) (t : TypedData T) (v : Value)
    (w : Wrapped) (x : T) (s : Store T)
    → s.objects v ≡ some w
    → w.data_type ≡ t.data_type
    → w.ptr ≢ 0
    → s.boxes w.ptr ≡ some x
    → get c r t v s ≡ some (ok x)
unfolding get protect
get_same c r l t v w x s h e nz b =
    let found : r.rb_check_typeddata v t.data_type s ≡ returned w.ptr =
      ap (λ d. r.rb_check_typeddata v d s) (sym e) ∙ l.check_law v w s h in
    let read : as_ref c r s w.ptr ≡ some (some x) = ground (arith, ==_iff w.ptr 0) in
    rw found (rw read refl)

module _ {T G : Type 0} (type_of : T → ℕ) (is_ours : ℕ → Bool) (c : Consts) (r : TypedCalls T)
    (l : IsTypedCalls r) (f : DataTypeFunctions T G) (debug : Bool)
    (is_inherited : Value → Value → Bool) where
  -- What `wrap_as` returns is a new object with the value in a new box, and the rest of the store is
  -- as it was.
  wrap_as_lem :
      (t : TypedData T) (value : T) (class v : Value) (s u : Store T)
      → IsBounded s
      → wrap_as c r debug is_inherited t value class s ≡ (ok v, u)
      → (p : ℕ) × (s.boxes p ≡ none)
        × (p ≢ 0)
        × (s.objects v ≡ none)
        × (u
            ≡ set_object
                (set_box s p (some value))
                v
                (some (record { class = class; ptr = p; data_type = t.data_type })))
  unfolding wrap_as
  wrap_as_lem t value class v s u n h =
      let p = r.box_new s in
      let s1 = set_box s p (some value) in
      let made = r.rb_data_typed_object_wrap class p t.data_type s1 in
      elim (Bool-cases (debug && not (is_inherited class t.type_class))) [
        | inl asserted ↦
            let h' : ◌≡◌ {A = Result Value × Store T} (panic, s) (ok v, u) = rw asserted at h in
            absurd cc
        | inr fine ↦
            let h' : ◌≡◌ {A = Result Value × Store T} (ok made.0, made.1) (ok v, u) =
              rw fine at h in
            let same : made.0 ≡ v = cc h' in
            let last : made.1 ≡ u = cc h' in
            (
              p,
              l.box_new_law s n,
              l.box_new_not_null s,
              ap s.objects (sym same)
                  ∙ l.wrap_fresh_law class p t.data_type s1 (set_box-IsBounded s p (some value) n),
              sym last
                  ∙ l.wrap_law class p t.data_type s1
                  ∙ ap
                      (λ x.
                        set_object s1 x
                          (some (record { class = class; ptr = p; data_type = t.data_type })))
                      same,
            )
      ]

  extern_free_lem :
      (ptr : ℕ) (s s' : Store T)
      → extern_free f ptr s ≡ some (Ending.done tt, s')
      → s' ≡ set_box s ptr none
  unfolding extern_free
  extern_free_lem ptr s s' h = ground arith

  Step-IsSound :
      (s u : Store T)
      → Step type_of is_ours c r f debug is_inherited s u
      → IsSound type_of is_ours s
      → IsSound type_of is_ours u
  Step-IsSound s u (wraps t value class v o ty h) i =
      let (p, a, b, d, e) = wrap_as_lem t value class v s u i.bounded h in
      rw e (
        added-IsSound type_of is_ours s i v
          (record { class = class; ptr = p; data_type = t.data_type }) value a b d ty o)
  Step-IsSound s u (makes v w h o e) i = rw e (
      replaced-IsSound type_of is_ours s i v (some w) (λ w' h'. cc (h, h'))
        (λ w' h'.
          let same : w ≡ w' = cc h' in ap (λ (x : Wrapped). is_ours x.data_type) (sym same) ∙ o))
  Step-IsSound s u (changes p t t' h ty e) i =
      rw e (changed-IsSound type_of is_ours s i p t t' h ty)
  Step-IsSound s u (collects v w s' h o g e) i =
      rw (e, extern_free_lem w.ptr s s' g) (removed-IsSound type_of is_ours s i v w h o)
  Step-IsSound s u (collects_other v w h o e) i = rw e (
      replaced-IsSound type_of is_ours s i v none
        (λ w' h'.
          let both : some w ≡ some w' = sym h ∙ h' in
          let same : w ≡ w' = cc both in ap (λ (x : Wrapped). is_ours x.data_type) (sym same) ∙ o)
        (λ w' h'. cc h'))

  -- Whatever is wrapped, changed through a reference and collected, in any order: each object of a
  -- Rust type has a box of its own with a value of its type, each box belongs to such an object, so
  -- that none is leaked and none is freed twice, and the null pointer is no box.
  pub Reach-IsSound :
      (s u : Store T)
      → IsSound type_of is_ours s
      → Reach type_of is_ours c r f debug is_inherited s u
      → IsSound type_of is_ours u
  Reach-IsSound s u i here = i
  Reach-IsSound s u i (next {t} path step) = Step-IsSound t u step (Reach-IsSound s t i path)

  -- In a sound store, when the collector frees an object of a Rust type, `extern_free` finds its box
  -- there, so the call is defined, and nothing but that box is given back.
  pub extern_free-IsSound :
      (s : Store T) (v : Value) (w : Wrapped)
      → IsSound type_of is_ours s
      → s.objects v ≡ some w
      → is_ours w.data_type ≡ true
      → (e : Ending (Unit {0})) × (extern_free f w.ptr s ≡ some (e, set_box s w.ptr none))
  unfolding extern_free
  extern_free-IsSound s v w i h o =
      let (t, a, b) = i.boxed v w h o in
      (caught (f.free t) "panic in DataTypeFunctions::free", rw (a, extern_free) refl)

  checked_unwound :
      (s : Store T) (x : Tag) (e : Value)
      → checked c r s (protect c (unwound x e)).result ≡ some none
  checked_unwound s x e = rw (protect-unwound c x e).1 refl

  -- In a sound store, `get` of an object gives the value in its box if the object is of the type
  -- that is asked for, a value of that type, and otherwise a TypeError; it never reads a
  -- pointer that is no box, nor one to a value of another type.
  pub get_lem :
      (s : Store T) (t : TypedData T) (v : Value) (w : Wrapped)
      → IsSound type_of is_ours s
      → is_ours t.data_type ≡ true
      → s.objects v ≡ some w
      → ((w.data_type ≡ t.data_type)
          × ((x : T) × (s.boxes w.ptr ≡ some x)
              × (type_of x ≡ t.data_type)
              × (get c r t v s ≡ some (ok x))))
        ⊎ ((w.data_type ≢ t.data_type)
            × (get c r t v s ≡ some (err (error type_error "no implicit conversion"))))
  unfolding get protect
  get_lem s t v w i o h = elim (Bool-cases (w.data_type == t.data_type)) [
    | inl same ↦
        let e : w.data_type ≡ t.data_type = (==_iff w.data_type t.data_type).0 same in
        let (x, a, b) = i.boxed v w h (ap is_ours e ∙ o) in
        let nonzero : w.ptr ≢ 0 = λ z. i.not_null x (ap s.boxes (sym z) ∙ a) in
        inl (e, (x, a, b ∙ e, get_same c r l t v w x s h e nonzero a))
    | inr other ↦
        let ne : w.data_type ≢ t.data_type =
          λ e. cc (other, (==_iff w.data_type t.data_type).1 e) in
        let (x, e, raised) = l.check_other_law v w t.data_type s h ne in
        inr (ne, rw raised (rw (checked_unwound s x e) refl))
  ]

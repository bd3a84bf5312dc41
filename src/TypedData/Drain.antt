-- ===== src/TypedData/Drain.antt =====
-- src/typed_data.rs: no box is kept for ever.
use magnus.Prelude.{
  ℕ, zero, suc, ◌≤◌, ◌≡◌, ◌≢◌, refl, sym, ap, ◌∙◌, Bool, true, false, Option, none, some, ok, ◌==◌,
  if◌then◌else◌, arith, ==_iff, inl, inr, ◌⊎◌, Bool-cases,
}
use magnus.Ruby.{Value, Consts}
use magnus.TypedData.{
  Wrapped, Store, set_box, set_object, TypedCalls, Ending, DataTypeFunctions, extern_free,
}
use magnus.TypedData.Lifetime.{IsTypedCalls, IsSound, collects, Reach, here, next}
use magnus.TypedData.Reached.{Reach-IsSound}

Option-cases {ℓ} : {A : Type ℓ} (o : Option A) → (o ≡ none) ⊎ ((a : A) × (o ≡ some a))
Option-cases none = inl refl
Option-cases (some a) = inr (a, refl)

module _ {T G : Type 0} (type_of : T → ℕ) (is_ours : ℕ → Bool) (c : Consts) (r : TypedCalls T)
    (l : IsTypedCalls r) (f : DataTypeFunctions T G) (debug : Bool)
    (is_inherited : Value → Value → Bool) (frees : (t : T) → f.free t ≡ ok tt) where
  -- The objects of `u` were there in `s`, and those of Rust types are not below `n`.
  Drained : Store T → ℕ → Store T → Type 0
  Drained s n u =
      Reach type_of is_ours c r f debug is_inherited s u
      × ((v : Value) (w : Wrapped) → u.objects v ≡ some w → s.objects v ≡ some w)
      × ((v : Value) (w : Wrapped) → u.objects v ≡ some w → is_ours w.data_type ≡ true → n ≤ v)

  freed :
      (s : Store T) (w : Wrapped) (t : T)
      → s.boxes w.ptr ≡ some t
      → extern_free f w.ptr s ≡ some (Ending.done tt, set_box s w.ptr none)
  unfolding extern_free
  freed s w t e = rw (e, extern_free) (rw (frees t) refl)

  collected :
      (s u : Store T) (n : ℕ) (w : Wrapped)
      → IsSound type_of is_ours u
      → Drained s n u
      → u.objects n ≡ some w
      → is_ours w.data_type ≡ true
      → Drained s (suc n) (set_object (set_box u w.ptr none) n none)
  unfolding Drained
  collected s u n w i d e o =
      let (t, a, b) = i.boxed n w e o in
      (
        next d.0 (collects n w (set_box u w.ptr none) e o (freed u w t a) refl),
        λ v w' h. d.1 v w' (other v w' h).1,
        λ v w' h o'. let (ne, h') = other v w' h in let le = d.2 v w' h' o' in omega (arith, ne),
      )
    where
      other :
          (v : Value) (w' : Wrapped)
          → (if n == v then none else u.objects v) ≡ some w'
          → (n ≢ v) × (u.objects v ≡ some w')
      other v w' h = elim (Bool-cases (n == v)) [
        | inl same ↦ absurd (go (rw same at h))
        | inr differ ↦ ((λ x. cc (differ, (==_iff n v).1 x)), rw differ at h)
      ]
        where
          go : ◌≡◌ {A = Option Wrapped} none (some w') → ⊥
          go x = cc

  -- What is at `n` is no object of a Rust type.
  passed :
      (s u : Store T) (n : ℕ)
      → Drained s n u
      → ((w : Wrapped) → u.objects n ≡ some w → is_ours w.data_type ≡ false)
      → Drained s (suc n) u
  unfolding Drained
  passed s u n d h = (
    d.0,
    d.1,
    λ v w e o.
        let le = d.2 v w e o in
        let ne : n ≢ v = λ same. let no = h w (ap u.objects same ∙ e) in cc (no, o) in
        omega (arith, ne),
  )

  drain : (n : ℕ) (s : Store T) → IsSound type_of is_ours s → (u : Store T) × Drained s n u
  unfolding Drained
  drain zero s i = (s, (here, (λ v w h. h), (λ v w h o. omega arith)))
  drain (suc n) s i =
      let (u, d) = drain n s i in
      let sound = Reach-IsSound type_of is_ours c r l f debug is_inherited s u i d.0 in
      elim (Option-cases (u.objects n)) [
        | inl gone ↦
            (u, passed s u n d (λ w e. absurd (let x : none ≡ some w = sym gone ∙ e in cc x)))
        | inr (w, e) ↦ elim (Bool-cases (is_ours w.data_type)) [
          | inl o ↦ (_, collected s u n w sound d e o)
          | inr foreign ↦ (
            u,
            passed s u n d (λ w' e'.
                let x : some w ≡ some w' = sym e ∙ e' in
                let y : w ≡ w' = cc x in
                ap (λ (z : Wrapped). is_ours z.data_type) (sym y) ∙ foreign),
          )
        ]
      ]

  -- If no `free` panics, the collector can give back every box: from a sound store it reaches one
  -- in which no box is left and every object was there before.
  pub drain_lem :
      (s : Store T)
      → IsSound type_of is_ours s
      → (u : Store T) × Reach type_of is_ours c r f debug is_inherited s u
        × ((p : ℕ) → u.boxes p ≡ none)
        × ((v : Value) (w : Wrapped) → u.objects v ≡ some w → s.objects v ≡ some w)
  unfolding Drained
  drain_lem s i =
      let (u, d) = drain s.limit s i in
      let sound = Reach-IsSound type_of is_ours c r l f debug is_inherited s u i d.0 in
      (
        u,
        d.0,
        λ p. elim (Option-cases (u.boxes p)) [
          | inl gone ↦ gone
          | inr (t, e) ↦
              let (v, w, h, o, q) = sound.owned p t e in
              let x : none ≡ some w = sym (i.bounded v (d.2 v w h o)).1 ∙ d.1 v w h in absurd (cc x)
        ],
        d.1,
      )

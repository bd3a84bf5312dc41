-- ===== src/TypedData/Soundness.antt =====
-- src/r_typed_data.rs: the invariant of objects and boxes, and what `get` reads.
use magnus.Prelude.{
  ℕ, ◌≡◌, ◌≢◌, refl, sym, ap, ◌∙◌, Bool, true, false, Option, none, some, ◌==◌, if◌then◌else◌,
  arith, ==_iff, ◌⊎◌, inl, inr, Bool-cases,
}
use mathlib.Core.Path.{subst}
use magnus.Ruby.{Value}
use magnus.TypedData.{Wrapped, Store, set_box, set_object}
use magnus.TypedData.Lifetime.{IsSound}

-- The entry of an updated map.
update_cases {ℓ} :
    {A : Type ℓ} (a b : ℕ) (x : A) (f : ℕ → A) (y : A)
    → (if a == b then x else f b) ≡ y
    → ((a ≡ b) × (x ≡ y)) ⊎ ((a ≢ b) × (f b ≡ y))
update_cases a b x f y e = elim (Bool-cases (a == b)) [
  | inl same ↦ inl ((==_iff a b).0 same, rw same at e)
  | inr other ↦ inr ((λ h. cc (other, (==_iff a b).1 h)), rw other at e)
]

module _ {T : Type 0} (type_of : T → ℕ) (is_ours : ℕ → Bool) (s : Store T)
    (i : IsSound type_of is_ours s) where
  -- A box at a new address and a new object for it.
  module _ (v : Value) (w : Wrapped) (t : T) (free_box : s.boxes w.ptr ≡ none) (nonzero : w.ptr ≢ 0)
      (free_object : s.objects v ≡ none) (typed : type_of t ≡ w.data_type)
      (ours : is_ours w.data_type ≡ true) where
    abbrev added : Store T
    added = set_object (set_box s w.ptr (some t)) v (some w)

    added-boxed :
        (v' : Value) (w' : Wrapped)
        → added.objects v' ≡ some w'
        → is_ours w'.data_type ≡ true
        → (t' : T) × (added.boxes w'.ptr ≡ some t') × (type_of t' ≡ w'.data_type)
    added-boxed v' w' e o = elim (update_cases v v' (some w) s.objects (some w') e) [
      | inl (a, b) ↦
          let same : w ≡ w' = cc b in
          subst (λ x. (t' : T) × (added.boxes x.ptr ≡ some t') × (type_of t' ≡ x.data_type)) same
            (t, rw ((==_iff w.ptr w.ptr).1 refl) refl, typed)
      | inr (a, b) ↦
          let (t', c, d) = i.boxed v' w' b o in (t', ground (arith, ==_iff w.ptr w'.ptr), d)
    ]

    added-alone :
        (v' v'' : Value) (w' w'' : Wrapped)
        → added.objects v' ≡ some w'
        → added.objects v'' ≡ some w''
        → is_ours w'.data_type ≡ true
        → is_ours w''.data_type ≡ true
        → w'.ptr ≡ w''.ptr
        → v' ≡ v''
    added-alone v' v'' w' w'' e e' o o' p =
        elim (update_cases v v' (some w) s.objects (some w') e) [
          | inl (a, b) ↦ elim (update_cases v v'' (some w) s.objects (some w'') e') [
            | inl (a', b') ↦ sym a ∙ a'
            | inr (a', b') ↦
                let (t', c, d) = i.boxed v'' w'' b' o' in let same : w ≡ w' = cc b in absurd cc
          ]
          | inr (a, b) ↦ elim (update_cases v v'' (some w) s.objects (some w'') e') [
            | inl (a', b') ↦
                let (t', c, d) = i.boxed v' w' b o in let same : w ≡ w'' = cc b' in absurd cc
            | inr (a', b') ↦ i.alone v' v'' w' w'' b b' o o' p
          ]
        ]

    added-owned :
        (p : ℕ) (t' : T)
        → added.boxes p ≡ some t'
        → (v' : Value) × (w' : Wrapped) × (added.objects v' ≡ some w')
          × (is_ours w'.data_type ≡ true)
          × (w'.ptr ≡ p)
    added-owned p t' e = elim (update_cases w.ptr p (some t) s.boxes (some t') e) [
      | inl (a, b) ↦ (v, w, rw ((==_iff v v).1 refl) refl, ours, a)
      | inr (a, b) ↦
          let (v', w', c, d, g) = i.owned p t' b in (v', w', ground (arith, ==_iff v v'), d, g)
    ]

    pub added-IsSound : IsSound type_of is_ours (set_object (set_box s w.ptr (some t)) v (some w))
    added-IsSound = record {
      boxed = added-boxed;
      alone = added-alone;
      owned = added-owned;
      bounded =
          λ q h. let old = i.bounded q (omega arith) in ground (arith, ==_iff v q, ==_iff w.ptr q);
      not_null = λ t' e. elim (update_cases w.ptr 0 (some t) s.boxes (some t') e) [
        | inl (a, b) ↦ nonzero a
        | inr (a, b) ↦ i.not_null t' b
      ];
    }

  -- An object and its box are gone.
  module _ (v : Value) (w : Wrapped) (there : s.objects v ≡ some w)
      (ours : is_ours w.data_type ≡ true) where
    abbrev removed : Store T
    removed = set_object (set_box s w.ptr none) v none

    removed-objects :
        (v' : Value) (w' : Wrapped)
        → removed.objects v' ≡ some w'
        → (v ≢ v') × (s.objects v' ≡ some w')
    removed-objects v' w' e = elim (update_cases v v' none s.objects (some w') e) [
      | inl (a, b) ↦ absurd cc
      | inr (a, b) ↦ (a, b)
    ]

    removed-boxes : (p : ℕ) (t : T) → removed.boxes p ≡ some t → (w.ptr ≢ p) × (s.boxes p ≡ some t)
    removed-boxes p t e = elim (update_cases w.ptr p none s.boxes (some t) e) [
      | inl (a, b) ↦ absurd cc
      | inr (a, b) ↦ (a, b)
    ]

    pub removed-IsSound : IsSound type_of is_ours (set_object (set_box s w.ptr none) v none)
    removed-IsSound = record {
      boxed = λ v' w' e o.
          let (a, b) = removed-objects v' w' e in
          let (t, c, d) = i.boxed v' w' b o in
          let apart : w.ptr ≢ w'.ptr = λ same. a (i.alone v v' w w' there b ours o same) in
          (t, ground (arith, ==_iff w.ptr w'.ptr), d);
      alone = λ v' v'' w' w'' e e' o o' p.
          i.alone v' v'' w' w'' (removed-objects v' w' e).1 (removed-objects v'' w'' e').1 o o' p;
      owned = λ p t e.
          let (a, b) = removed-boxes p t e in
          let (v', w', c, d, g) = i.owned p t b in
          let apart : v ≢ v' = λ same.
            let h : some w ≡ some w' = sym there ∙ ap s.objects same ∙ c in
            let k : w ≡ w' = cc h in a (ap (λ (x : Wrapped). x.ptr) k ∙ g) in
          (v', w', ground (arith, ==_iff v v'), d, g);
      not_null = λ t e. i.not_null t (removed-boxes 0 t e).1;
      bounded =
          λ q h. let old = i.bounded q (omega arith) in ground (arith, ==_iff v q, ==_iff w.ptr q);
    }

  -- Ruby's own objects come and go: `b` is what becomes of `v`.
  module _ (v : Value) (b : Option Wrapped)
      (before : (w : Wrapped) → s.objects v ≡ some w → is_ours w.data_type ≡ false)
      (now : (w : Wrapped) → b ≡ some w → is_ours w.data_type ≡ false) where
    abbrev replaced : Store T
    replaced = set_object s v b

    replaced-objects :
        (v' : Value) (w' : Wrapped)
        → replaced.objects v' ≡ some w'
        → is_ours w'.data_type ≡ true
        → s.objects v' ≡ some w'
    replaced-objects v' w' e o = elim (update_cases v v' b s.objects (some w') e) [
      | inl (x, y) ↦ let no_more = now w' y in absurd cc
      | inr (x, y) ↦ y
    ]

    pub replaced-IsSound : IsSound type_of is_ours (set_object s v b)
    replaced-IsSound = record {
      boxed = λ v' w' e o. i.boxed v' w' (replaced-objects v' w' e o) o;
      alone = λ v' v'' w' w'' e e' o o' p.
          i.alone v' v'' w' w'' (replaced-objects v' w' e o) (replaced-objects v'' w'' e' o') o o'
            p;
      owned = λ p t e.
          let (v', w', x, d, g) = i.owned p t e in
          let apart : v ≢ v' =
            λ same. let no_more = before w' (ap s.objects same ∙ x) in cc (no_more, d) in
          (v', w', ground (arith, ==_iff v v'), d, g);
      not_null = i.not_null;
      bounded = λ q h. let old = i.bounded q (omega arith) in ground (arith, ==_iff v q);
    }

  -- A box holds another value of the same type.
  module _ (p : ℕ) (t t' : T) (there : s.boxes p ≡ some t) (typed : type_of t' ≡ type_of t) where
    abbrev changed : Store T
    changed = set_box s p (some t')

    changed-boxes : (q : ℕ) (x : T) → changed.boxes q ≡ some x → (y : T) × (s.boxes q ≡ some y)
    changed-boxes q x e = elim (update_cases p q (some t') s.boxes (some x) e) [
      | inl (a, b) ↦ (t, ap s.boxes (sym a) ∙ there)
      | inr (a, b) ↦ (x, b)
    ]

    changed-boxed :
        (q : ℕ) (x : T)
        → s.boxes q ≡ some x
        → (y : T) × (changed.boxes q ≡ some y) × (type_of y ≡ type_of x)
    changed-boxed q x e = elim (Bool-cases (p == q)) [
      | inl same ↦
          let a : p ≡ q = (==_iff p q).0 same in
          let b : some t ≡ some x = sym there ∙ ap s.boxes a ∙ e in
          (t', rw same refl, typed ∙ ap type_of (cc b))
      | inr other ↦ (x, rw other e, refl)
    ]

    pub changed-IsSound : IsSound type_of is_ours (set_box s p (some t'))
    changed-IsSound = record {
      boxed = λ v' w' e o.
          let (x, a, b) = i.boxed v' w' e o in
          let (y, a', b') = changed-boxed w'.ptr x a in (y, a', b' ∙ b);
      alone = i.alone;
      owned = λ q x e. i.owned q (changed-boxes q x e).0 (changed-boxes q x e).1;
      not_null = λ x e. i.not_null (changed-boxes 0 x e).0 (changed-boxes 0 x e).1;
      bounded = λ q h. let old = i.bounded q (omega arith) in ground (arith, ==_iff p q);
    }

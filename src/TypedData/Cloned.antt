-- ===== src/TypedData/Cloned.antt =====
-- src/typed_data.rs: what Ruby's `clone` of a wrapped value makes.
use magnus.Prelude.{
  ℕ, suc, ◌+◌, ◌≡◌, ◌≢◌, refl, ap, Bool, true, false, not, ◌&&◌, Option, none, some, List, [], ◌∷◌,
  ◌∙◌, ok, ◌==◌, if◌then◌else◌, arith, ==_iff, Bool-cases, inl, inr,
}
use mathlib.Core.Path.{fun_ext}
use magnus.Ruby.{Value, Consts, IsDocumented}
use magnus.ScanArgs.Calls.{ScanCalls}
use magnus.ScanArgs.Convert.{Conversion}
use magnus.ScanArgs.Scan.{Documented, IsScanArgs}
use magnus.ScanArgs.Keywords.{IsGetKwargs}
use magnus.ScanArgs.Parts.{ConvertsKeywords}
use magnus.TypedData.Freeze.{freeze_keyword, IsGiven, parse_freeze_lem}
use magnus.TypedData.{
  Wrapped, Store, set_box, set_object, put_object, TypedCalls, TypedData, deref, wrap, wrap_as,
}
use magnus.TypedData.Lifetime.{IsBounded, IsTypedCalls}
use magnus.TypedData.Reached.{get_same, set_box-IsBounded}
use magnus.TypedData.Dup.{CloneCalls, clone, finish, freeze_clone}

-- The store in which `class` is the singleton class of `v`.
abbrev pub set_attached : {T : Type 0} → Store T → Value → Value → Store T
set_attached s class v = record s { attached = λ x. if class == x then some v else s.attached x }

-- What Ruby documents: `rb_singleton_class_clone` gives the object's class, or a copy of it if it is
-- a singleton class, `rb_obj_reveal` sets the class, a singleton class has the object it is attached
-- to, and `rb_obj_freeze` freezes; nothing else changes.
pub record IsCloneCalls {T : Type 0} (k : CloneCalls T) (class_copy : Value → Value → Value)
    (is_singleton : Value → Bool) : Type 0 where
  pub singleton_law :
      (v : Value) (w : Wrapped) (s : Store T)
      → s.objects v ≡ some w
      → k.rb_singleton_class_clone v s ≡ (class_copy v w.class, s)
  pub reveal_law :
      (v class : Value) (w : Wrapped) (s : Store T)
      → s.objects v ≡ some w
      → k.rb_obj_reveal v class s ≡ put_object s v (some (record w { class = class }))
  pub attached_law :
      (class v : Value) (s : Store T)
      → k.rb_singleton_class_attached class v s
        ≡ (if is_singleton class then set_attached s class v else s)
  pub freeze_law :
      (v : Value) (s : Store T)
      → k.rb_obj_freeze v s ≡ record s { frozen = λ u. if v == u then true else s.frozen u }

put_object-set_object :
    {T : Type 0} (s : Store T) (v : Value) (w w' : Option Wrapped)
    → put_object (set_object s v w) v w' ≡ set_object s v w'
put_object-set_object s v w w' =
    ap (λ f. record s { objects = f; limit = s.limit + suc v }) (fun_ext λ u. ground arith)

-- Whether a clone is frozen, by the keyword and the original.
abbrev is_frozen_clone : Option Bool → Bool → Bool
is_frozen_clone none original = original
is_frozen_clone (some b) original = b

module _ {T : Type 0} (c : Consts) (r : TypedCalls T) (l : IsTypedCalls r) (k : CloneCalls T)
    (class_copy : Value → Value → Value) (is_singleton : Value → Bool)
    (m : IsCloneCalls k class_copy is_singleton) (a : ScanCalls) (to_hash : Conversion Value)
    (hash_new : Value) (freeze_id : ℕ) where
  abbrev frozen_by : Option Bool → Value → Value → Store T → Store T
  frozen_by = freeze_clone c r k a to_hash hash_new freeze_id

  freeze-frozen : (v : Value) (s : Store T) → (k.rb_obj_freeze v s).frozen v ≡ true
  freeze-frozen v s = rw (m.freeze_law v s) (rw ((==_iff v v).1 refl) refl)

  freeze_clone-frozen :
      (freeze : Option Bool) (v rbself : Value) (s : Store T)
      → s.frozen v ≡ false
      → (frozen_by freeze v rbself s).frozen v ≡ is_frozen_clone freeze (s.frozen rbself)
  freeze_clone-frozen (some true) v rbself s h = freeze-frozen v s
  freeze_clone-frozen (some false) v rbself s h = h
  freeze_clone-frozen none v rbself s h = elim (Bool-cases (s.frozen rbself)) [
    | inl e ↦ rw e (freeze-frozen v s)
    | inr e ↦ rw e h
  ]

  freeze_clone-rest :
      (freeze : Option Bool) (v rbself : Value) (s : Store T)
      → ((frozen_by freeze v rbself s).objects ≡ s.objects)
        × ((frozen_by freeze v rbself s).boxes ≡ s.boxes)
        × ((frozen_by freeze v rbself s).attached ≡ s.attached)
  freeze_clone-rest (some true) v rbself s = rw (m.freeze_law v s) (refl, refl, refl)
  freeze_clone-rest (some false) v rbself s = (refl, refl, refl)
  freeze_clone-rest none v rbself s = elim (Bool-cases (s.frozen rbself)) [
    | inl e ↦ rw e (rw (m.freeze_law v s) (refl, refl, refl))
    | inr e ↦ rw e (refl, refl, refl)
  ]

  module _ (debug : Bool) (is_inherited : Value → Value → Bool) (t : TypedData T) (dup : T → T)
      (d : IsDocumented c) (e : Documented) (sl : IsScanArgs c a e)
      (lookup : Value → ℕ → Option Value) (others : Value → List ℕ → Bool)
      (g : IsGetKwargs c a lookup others) where
    deref_lem :
        (v : Value) (w : Wrapped) (x : T) (s : Store T)
        → s.objects v ≡ some w
        → w.data_type ≡ t.data_type
        → w.ptr ≢ 0
        → s.boxes w.ptr ≡ some x
        → deref c r t v s ≡ some (ok x)
    unfolding deref
    deref_lem v w x s h e nz b = rw (get_same c r l t v w x s h e nz b, deref) refl

    -- The store after the copy has been wrapped and has its class.
    abbrev copied : Store T → Value → Value → ℕ → T → Store T
    copied s v class p x =
        set_object (set_box s p (some x)) v
          (some (record { class = class; ptr = p; data_type = t.data_type }))

    -- The store after the singleton class has been attached.
    abbrev finished : Store T → Value → Value → ℕ → T → Store T
    finished s v class p x =
        if is_singleton class
        then set_attached (copied s v class p x) class v
        else copied s v class p x

    finished-rest :
        (s : Store T) (v class : Value) (p : ℕ) (x : T)
        → ((finished s v class p x).objects ≡ (copied s v class p x).objects)
          × ((finished s v class p x).boxes ≡ (copied s v class p x).boxes)
          × ((finished s v class p x).frozen ≡ s.frozen)
          × ((finished s v class p x).attached
              ≡ (if is_singleton class then (set_attached s class v).attached else s.attached))
    finished-rest s v class p x = elim (Bool-cases (is_singleton class)) [
      | inl b ↦ rw b (refl, refl, refl, refl)
      | inr b ↦ rw b (refl, refl, refl, refl)
    ]

    finish_lem :
        (freeze : Option Bool) (rbself v class : Value) (w : Wrapped) (p : ℕ) (x : T) (s : Store T)
        → (copied s v class p x).objects rbself ≡ some w
        → finish c r k a to_hash hash_new freeze_id freeze rbself (ok v, copied s v class p x)
          ≡ (ok v, frozen_by freeze v rbself (finished s v (class_copy rbself w.class) p x))
    finish_lem freeze rbself v class w p x s old =
        let class' = class_copy rbself w.class in
        let w1 : Wrapped = record { class = class; ptr = p; data_type = t.data_type } in
        let there : (copied s v class p x).objects v ≡ some w1 = rw ((==_iff v v).1 refl) refl in
        rw
          (
            m.singleton_law rbself w (copied s v class p x) old,
            m.reveal_law v class' w1 (copied s v class p x) there,
            put_object-set_object (set_box s p (some x)) v (some w1)
                (some (record w1 { class = class' })),
            m.attached_law class' v (copied s v class' p x),
          )
          refl

    wrap_lem :
        (y : T) (s : Store T)
        → IsBounded s
        → (debug && not (is_inherited (t.class_for y) t.type_class)) ≡ false
        → (v : Value) × (p : ℕ) × (wrap c r debug is_inherited t y s
            ≡ (ok v, copied s v (t.class_for y) p y))
          × (s.objects v ≡ none)
          × (s.boxes p ≡ none)
          × (s.frozen v ≡ false)
    unfolding wrap wrap_as
    wrap_lem y s n fine =
        let class = t.class_for y in
        let p = r.box_new s in
        let s1 = set_box s p (some y) in
        let made = r.rb_data_typed_object_wrap class p t.data_type s1 in
        let n' = set_box-IsBounded s p (some y) n in
        (
          made.0,
          p,
          rw fine (ap (λ u. (ok made.0, u)) (l.wrap_law class p t.data_type s1)),
          l.wrap_fresh_law class p t.data_type s1 n',
          l.box_new_law s n,
          l.wrap_unfrozen_law class p t.data_type s1 n',
        )

    -- `clone` makes a new object with the copy of the value in a new box. Its class is the copy of
    -- the original's class, which is attached to the new object if it is a singleton class. It is
    -- frozen if the keyword `freeze` is true, or not given or nil and the original is frozen, and
    -- not if the keyword is false. The original keeps its object and its value. The arguments are
    -- keywords alone, no other than `freeze`, and the value is wrapped with the type asked for.
    pub clone_lem :
        (rbself : Value) (w : Wrapped) (x : T) (args : List Value) (kw : Value) (s : Store T)
        → IsBounded s
        → s.objects rbself ≡ some w
        → w.data_type ≡ t.data_type
        → w.ptr ≢ 0
        → s.boxes w.ptr ≡ some x
        → (debug && not (is_inherited (t.class_for (dup x)) t.type_class)) ≡ false
        → e.positional true args ≡ []
        → ConvertsKeywords c hash_new (some to_hash) (some (e.keywords_of args)) (some kw)
        → others kw (freeze_id ∷ []) ≡ false
        → IsGiven c (lookup kw freeze_id)
        → (v : Value) × (p : ℕ) × (u : Store T) × (clone c r k a to_hash hash_new freeze_id debug
              is_inherited t dup rbself args s
            ≡ some (ok v, u))
          × (s.objects v ≡ none)
          × (s.boxes p ≡ none)
          × (u.objects v
              ≡ some
                  (record { class = class_copy rbself w.class; ptr = p; data_type = t.data_type }))
          × (u.boxes p ≡ some (dup x))
          × (u.attached ≡ (
              if is_singleton (class_copy rbself w.class)
              then (set_attached s (class_copy rbself w.class) v).attached
              else s.attached))
          × (u.frozen v
              ≡ is_frozen_clone (freeze_keyword c (lookup kw freeze_id)) (s.frozen rbself))
          × (u.objects rbself ≡ some w)
          × (u.boxes w.ptr ≡ some x)
    unfolding clone
    clone_lem rbself w x args kw s n h same nz b fine alone keywords others_none given =
        let (v, p, wrapped, new, empty, unfrozen) = wrap_lem (dup x) s n fine in
        let freeze = freeze_keyword c (lookup kw freeze_id) in
        let parsed =
          parse_freeze_lem c d r k a e sl lookup others g to_hash hash_new freeze_id args kw alone
            keywords others_none given in
        let class = class_copy rbself w.class in
        let old : (copied s v (t.class_for (dup x)) p (dup x)).objects rbself ≡ some w =
          ground (arith, ==_iff v rbself) in
        let s2 = finished s v class p (dup x) in
        let (fo, fb, fa) = freeze_clone-rest freeze v rbself s2 in
        let (go, gb, gf, ga) = finished-rest s v class p (dup x) in
        (
          v,
          p,
          frozen_by freeze v rbself s2,
          rw (parsed, deref_lem rbself w x s h same nz b, wrapped)
              (ap some (finish_lem freeze rbself v (t.class_for (dup x)) w p (dup x) s old)),
          new,
          empty,
          rw (fo, go, (==_iff v v).1 refl) refl,
          rw (fb, gb, (==_iff p p).1 refl) refl,
          fa ∙ ga,
          freeze_clone-frozen freeze v rbself s2 (ap (λ f. f v) gf ∙ unfrozen)
              ∙ ap (λ f. is_frozen_clone freeze (f rbself)) gf,
          rw (fo, go) (ground (arith, ==_iff v rbself)),
          rw (fb, gb) (ground (arith, ==_iff p w.ptr)),
        )

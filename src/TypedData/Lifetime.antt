-- ===== src/TypedData/Lifetime.antt =====
-- src/r_typed_data.rs and src/typed_data.rs: a Rust value lives as long as the object that wraps it.
use magnus.Prelude.{ℕ, ◌≤◌, ◌≡◌, ◌≢◌, Bool, true, false, none, some, ok}
use magnus.Ruby.{Value, Consts}
use magnus.Error.{returned, unwound, Tag}
use magnus.TypedData.{
  Wrapped, Store, set_box, set_object, TypedCalls, TypedData, Ending, DataTypeFunctions,
  extern_free, wrap_as,
}

-- Nothing is at the limit or above.
abbrev pub IsBounded : {T : Type 0} → Store T → Type 0
IsBounded s =
    (p : ℕ) → s.limit ≤ p → (s.boxes p ≡ none) × (s.objects p ≡ none) × (s.frozen p ≡ false)

-- What Rust and Ruby document: a new box is at an address that is not null and not in use, a new
-- object is none of those there are and not frozen, and the check of an object's type compares it with the one
-- that is asked for.
pub record IsTypedCalls {T : Type 0} (r : TypedCalls T) : Type 0 where
  pub box_new_law : (s : Store T) → IsBounded s → s.boxes (r.box_new s) ≡ none
  pub box_new_not_null : (s : Store T) → r.box_new s ≢ 0
  pub wrap_fresh_law :
      (class : Value) (ptr data_type : ℕ) (s : Store T)
      → IsBounded s
      → s.objects (r.rb_data_typed_object_wrap class ptr data_type s).0 ≡ none
  pub wrap_law :
      (class : Value) (ptr data_type : ℕ) (s : Store T)
      → (r.rb_data_typed_object_wrap class ptr data_type s).1
        ≡ set_object s
            (r.rb_data_typed_object_wrap class ptr data_type s).0
            (some (record { class = class; ptr = ptr; data_type = data_type }))
  pub wrap_unfrozen_law :
      (class : Value) (ptr data_type : ℕ) (s : Store T)
      → IsBounded s
      → s.frozen (r.rb_data_typed_object_wrap class ptr data_type s).0 ≡ false
  pub check_law :
      (v : Value) (w : Wrapped) (s : Store T)
      → s.objects v ≡ some w
      → r.rb_check_typeddata v w.data_type s ≡ returned w.ptr
  pub check_other_law :
      (v : Value) (w : Wrapped) (data_type : ℕ) (s : Store T)
      → s.objects v ≡ some w
      → w.data_type ≢ data_type
      → (x : Tag) × (e : Value) × (r.rb_check_typeddata v data_type s ≡ unwound x e)

module _ {T : Type 0} (type_of : T → ℕ) (is_ours : ℕ → Bool) where
  -- The objects of the Rust types and the boxes belong together, one to one and of the same type.
  -- Ruby has other objects of typed data, and these are of other types.
  pub record IsSound (s : Store T) : Type 0 where
    pub boxed :
        (v : Value) (w : Wrapped)
        → s.objects v ≡ some w
        → is_ours w.data_type ≡ true
        → (t : T) × (s.boxes w.ptr ≡ some t) × (type_of t ≡ w.data_type)
    pub alone :
        (v v' : Value) (w w' : Wrapped)
        → s.objects v ≡ some w
        → s.objects v' ≡ some w'
        → is_ours w.data_type ≡ true
        → is_ours w'.data_type ≡ true
        → w.ptr ≡ w'.ptr
        → v ≡ v'
    pub owned :
        (p : ℕ) (t : T)
        → s.boxes p ≡ some t
        → (v : Value) × (w : Wrapped) × (s.objects v ≡ some w)
          × (is_ours w.data_type ≡ true)
          × (w.ptr ≡ p)
    pub not_null : (t : T) → s.boxes 0 ≢ some t
    pub bounded : IsBounded s

  module _ {G : Type 0} (c : Consts) (r : TypedCalls T) (f : DataTypeFunctions T G) (debug : Bool)
      (is_inherited : Value → Value → Bool) where
    -- What can happen to the store: a value is wrapped; Ruby makes an object of its own types; a
    -- value is changed through a reference; the collector frees an object, by calling `extern_free`
    -- if it is of a Rust type, and the crash of a bug is the end.
    pub data Step (s : Store T) (u : Store T) : Type 0 where
      wraps :
          (t : TypedData T) (value : T) (class v : Value)
          → is_ours t.data_type ≡ true
          → type_of value ≡ t.data_type
          → wrap_as c r debug is_inherited t value class s ≡ (ok v, u)
          → Step s u
      makes :
          (v : Value) (w : Wrapped)
          → s.objects v ≡ none
          → is_ours w.data_type ≡ false
          → u ≡ set_object s v (some w)
          → Step s u
      changes :
          (p : ℕ) (t t' : T)
          → s.boxes p ≡ some t
          → type_of t' ≡ type_of t
          → u ≡ set_box s p (some t')
          → Step s u
      collects :
          (v : Value) (w : Wrapped) (s' : Store T)
          → s.objects v ≡ some w
          → is_ours w.data_type ≡ true
          → extern_free f w.ptr s ≡ some (Ending.done tt, s')
          → u ≡ set_object s' v none
          → Step s u
      collects_other :
          (v : Value) (w : Wrapped)
          → s.objects v ≡ some w
          → is_ours w.data_type ≡ false
          → u ≡ set_object s v none
          → Step s u

    pub data Reach (s : Store T) : Store T → Type 0 where
      here : Reach s s
      next : {t u : Store T} → Reach s t → Step t u → Reach s u

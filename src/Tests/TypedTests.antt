-- ===== src/Tests/TypedTests.antt =====
-- Typed data at a store of numbers of two types, the even and the odd ones, and the properties there.
use magnus.Prelude.{
  ℕ, ◌+◌, ◌%◌, ◌≡◌, ◌≢◌, refl, Bool, true, Option, none, some, List, [], ◌∷◌, ok, err, ◌==◌, ltb,
  if◌then◌else◌, ◌⊎◌, inl, inr, arith,
}
use magnus.Ruby.{Value, modern}
use magnus.Error.{error, type_error}
use magnus.ScanArgs.Convert.{Conversion}
use magnus.Tests.SampleScan as Scan
use magnus.Tests.SampleTyped.{calls, calls-IsTypedCalls, start, start-IsSound}
use magnus.TypedData.{
  Wrapped, Store, set_box, set_object, put_object, TypedData, Ending, DataTypeFunctions,
  extern_free, wrap_as, get,
}
use magnus.TypedData.Lifetime.{IsSound, wraps, collects, Reach, here, next}
use magnus.TypedData.Reached.{Reach-IsSound, extern_free-IsSound, get_lem}
use magnus.TypedData.Drain.{drain_lem}
use magnus.TypedData.Dup.{CloneCalls, clone}
use magnus.TypedData.Cloned.{set_attached, IsCloneCalls, clone_lem}

abbrev type_of : ℕ → ℕ
type_of n = n % 2

abbrev is_ours : ℕ → Bool
is_ours d = ltb d 2

abbrev odd : TypedData ℕ
odd = record { type_class = 0x8; class_for = λ n. 0x8; data_type = 1 }

abbrev functions : DataTypeFunctions ℕ (List ℕ)
functions = record {
  free = λ n. ok tt;
  mark = λ n g. (ok tt, n ∷ g);
  size = λ n. ok 8;
  compact = λ n g. (ok tt, g);
}

abbrev seven : Wrapped
seven = record { class = 0x8; ptr = 0x101; data_type = 1 }

abbrev wrapped : Store ℕ
wrapped = set_object (set_box start 0x101 (some 7)) 0x203 (some seven)

abbrev freed : Store ℕ
freed = set_object (set_box wrapped 0x101 none) 0x203 none

wrapped-reached : Reach type_of is_ours modern calls functions true (λ a b. true) start wrapped
unfolding wrap_as
wrapped-reached = next here (wraps odd 7 0x8 0x203 refl refl refl)

freed-reached : Reach type_of is_ours modern calls functions true (λ a b. true) start freed
unfolding extern_free
freed-reached =
    next wrapped-reached (collects 0x203 seven (set_box wrapped 0x101 none) refl refl refl refl)

wrapped-IsSound : IsSound type_of is_ours wrapped
wrapped-IsSound =
    Reach-IsSound type_of is_ours modern calls calls-IsTypedCalls functions true (λ a b. true) start
      wrapped (start-IsSound type_of is_ours) wrapped-reached

Reach-IsSound_example : IsSound type_of is_ours freed
Reach-IsSound_example =
    Reach-IsSound type_of is_ours modern calls calls-IsTypedCalls functions true (λ a b. true) start
      freed (start-IsSound type_of is_ours) freed-reached

extern_free-IsSound_example :
    (e : Ending (Unit {0})) × (extern_free functions 0x101 wrapped
      ≡ some (e, set_box wrapped 0x101 none))
extern_free-IsSound_example =
    extern_free-IsSound type_of is_ours modern calls calls-IsTypedCalls functions true (λ a b. true)
      wrapped 0x203 seven wrapped-IsSound refl refl

get_lem_example :
    ((seven.data_type ≡ odd.data_type)
      × ((x : ℕ) × (wrapped.boxes seven.ptr ≡ some x)
          × (type_of x ≡ odd.data_type)
          × (get modern calls odd 0x203 wrapped ≡ some (ok x))))
    ⊎ ((seven.data_type ≢ odd.data_type)
        × (get modern calls odd 0x203 wrapped
            ≡ some (err (error type_error "no implicit conversion"))))
get_lem_example =
    get_lem type_of is_ours modern calls calls-IsTypedCalls functions true (λ a b. true) wrapped odd
      0x203 seven wrapped-IsSound refl refl

abbrev revealed : Value → Option Wrapped → Option Wrapped
revealed class none = none
revealed class (some w) = some (record w { class = class })

abbrev class_copy : Value → Value → Value
class_copy v class = class + 0x9000

abbrev is_singleton : Value → Bool
is_singleton class = ltb 0x9000 class

abbrev copy_class : Value → Option Wrapped → Value
copy_class v none = 0
copy_class v (some w) = class_copy v w.class

abbrev clone_calls : CloneCalls ℕ
clone_calls = record {
  rb_singleton_class_clone = λ v s. (copy_class v (s.objects v), s);
  rb_obj_reveal = λ v class s. put_object s v (revealed class (s.objects v));
  rb_singleton_class_attached =
      λ class v s. if is_singleton class then set_attached s class v else s;
  rb_obj_freeze = λ v s. record s { frozen = λ u. if v == u then true else s.frozen u };
}

clone_calls-IsCloneCalls : IsCloneCalls clone_calls class_copy is_singleton
clone_calls-IsCloneCalls = record {
  singleton_law = λ v w s h. rw h refl;
  reveal_law = λ v class w s h. rw h refl;
  attached_law = λ class v s. refl;
  freeze_law = λ v s. refl;
}

abbrev to_hash : Conversion Value
to_hash v = ok v

clone_lem_example :
    (v : Value) × (p : ℕ) × (u : Store ℕ) × (clone modern calls clone_calls Scan.calls to_hash
        0x7000 2 true
        (λ a b. true)
        odd
        (λ n. n + 2)
        0x203
        (0x2000 ∷ [])
        wrapped
      ≡ some (ok v, u))
    × (wrapped.objects v ≡ none)
    × (wrapped.boxes p ≡ none)
    × (u.objects v ≡ some (record { class = 0x9008; ptr = p; data_type = 1 }))
    × (u.boxes p ≡ some 9)
    × (u.attached ≡ (set_attached wrapped 0x9008 v).attached)
    × (u.frozen v ≡ true)
    × (u.objects 0x203 ≡ some seven)
    × (u.boxes 0x101 ≡ some 7)
clone_lem_example =
    clone_lem modern calls calls-IsTypedCalls clone_calls class_copy is_singleton
      clone_calls-IsCloneCalls Scan.calls to_hash 0x7000 2 true (λ a b. true) odd (λ n. n + 2)
      (inl refl) Scan.documented Scan.calls-IsScanArgs Scan.lookup Scan.others
      Scan.calls-IsGetKwargs 0x203 seven 7 (0x2000 ∷ []) 0x2000 wrapped wrapped-IsSound.bounded refl
      refl (λ e. cc e) refl refl refl (inr ((λ e. cc e), (0x2000, refl, refl))) refl
      ((λ e. cc e), omega arith)

drain_lem_example :
    (u : Store ℕ) × Reach type_of is_ours modern calls functions true (λ a b. true) wrapped u
    × ((p : ℕ) → u.boxes p ≡ none)
    × ((v : Value) (w : Wrapped) → u.objects v ≡ some w → wrapped.objects v ≡ some w)
drain_lem_example =
    drain_lem type_of is_ours modern calls calls-IsTypedCalls functions true (λ a b. true)
      (λ t. refl) wrapped wrapped-IsSound

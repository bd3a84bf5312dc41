-- ===== src/Tests/SampleTyped.antt =====
-- Concrete forms of the allocator and of the C functions on typed data: addresses above the limit.
use magnus.Prelude.{
  ℕ, suc, ◌≡◌, ◌≢◌, refl, Bool, false, Option, none, some, ◌==◌, if◌then◌else◌, arith, ==_iff,
}
use magnus.Error.{Completion, returned, unwound, Tag}
use magnus.TypedData.{Wrapped, Store, set_object, TypedCalls}
use magnus.TypedData.Lifetime.{IsTypedCalls, IsSound}

abbrev pub check : Option Wrapped → ℕ → Completion ℕ
check none data_type = unwound Tag.raise 0x99
check (some w) data_type =
    if w.data_type == data_type then returned w.ptr else unwound Tag.raise 0x99

abbrev pub calls : {T : Type 0} → TypedCalls T
calls = record {
  box_new = λ s. suc s.limit;
  rb_data_typed_object_wrap = λ class ptr data_type s.
      let v = suc s.limit in
      (v, set_object s v (some (record { class = class; ptr = ptr; data_type = data_type })));
  rb_check_typeddata = λ v data_type s. check (s.objects v) data_type;
}

check_other :
    (w : Wrapped) (data_type : ℕ)
    → w.data_type ≢ data_type
    → check (some w) data_type ≡ unwound Tag.raise 0x99
check_other w data_type ne = ground (arith, ==_iff w.data_type data_type)

pub calls-IsTypedCalls : {T : Type 0} → IsTypedCalls {T = T} calls
calls-IsTypedCalls = record {
  box_new_law = λ s n. (n (suc s.limit) (omega arith)).0;
  box_new_not_null = λ s e. cc e;
  wrap_fresh_law = λ class ptr data_type s n. (n (suc s.limit) (omega arith)).1;
  wrap_law = λ class ptr data_type s. refl;
  wrap_unfrozen_law = λ class ptr data_type s n. (n (suc s.limit) (omega arith)).2;
  check_law = λ v w s h. rw h (rw ((==_iff w.data_type w.data_type).1 refl) refl);
  check_other_law = λ v w data_type s h ne. (Tag.raise, 0x99, rw h (check_other w data_type ne));
}

abbrev pub start : {T : Type 0} → Store T
start = record {
  boxes = λ p. none;
  objects = λ v. none;
  frozen = λ v. false;
  attached = λ v. none;
  limit = 0x100;
}

pub start-IsSound :
    {T : Type 0} (type_of : T → ℕ) (is_ours : ℕ → Bool) → IsSound type_of is_ours start
start-IsSound type_of is_ours = record {
  boxed = λ v w e o. absurd cc;
  alone = λ v v' w w' e e' o o' p. absurd cc;
  owned = λ p t e. absurd cc;
  not_null = λ t e. cc e;
  bounded = λ p h. (refl, refl, refl);
}

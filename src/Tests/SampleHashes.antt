-- ===== src/Tests/SampleHashes.antt =====
-- A concrete form of the C functions on hashes: association lists.
use magnus.Prelude.{
  ◌+◌, ◌≡◌, refl, false, Option, none, some, List, [], ◌∷◌, if◌then◌else◌, ◌==◌, ==_iff, length,
  Bool-cases, inl, inr,
}
use magnus.Ruby.{Value}
use magnus.Error.{Completion, returned, unwound, raise}
use magnus.Space.{Space, write_pairs}
use magnus.RHash.Calls.{HashCalls, IsHashCalls, IsNewHash, walk, put_all}
use magnus.Tests.SampleArrays.{alloc, alloc-IsNew}

abbrev put : Value → Value → List (Value × Value) → List (Value × Value)
put k v [] = (k, v) ∷ []
put k v (p ∷ ps) = if p.0 == k then (k, v) ∷ ps else p ∷ put k v ps

abbrev find : Value → List (Value × Value) → Option Value
find k [] = none
find k (p ∷ ps) = if p.0 == k then some p.1 else find k ps

find-put : (k v : Value) (ps : List (Value × Value)) → find k (put k v ps) ≡ some v
find-put k v [] = rw ((==_iff k k).1 refl) refl
find-put k v (p ∷ ps) = elim (Bool-cases (p.0 == k)) [
  | inl e ↦ rw e (rw ((==_iff k k).1 refl) refl)
  | inr e ↦ rw e (rw e (find-put k v ps))
]

abbrev or_default : Option Value → Value → Value
or_default none default = default
or_default (some v) default = v

abbrev alloc_hash : Space → Value × Space
alloc_hash s = ((alloc [] false s).0, write_pairs (alloc [] false s).1 (alloc [] false s).0 [])

alloc_hash-IsNewHash : (s : Space) → IsNewHash s (alloc_hash s)
alloc_hash-IsNewHash s =
    let n = alloc-IsNew [] false s in
    record {
      fresh_law = n.fresh_law;
      live_law = n.live_law;
      pairs_law = λ b. refl;
      frozen_law = n.frozen_law;
    }

abbrev changing :
    {A : Type 0}
    → Value
    → (List (Value × Value) → List (Value × Value))
    → A
    → Space
    → Completion A × Space
changing h f v s =
    if s.frozen h then (unwound raise 0x7000, s) else (returned v, write_pairs s h (f (s.pairs h)))

changing_lem :
    {A : Type 0} (h : Value) (f : List (Value × Value) → List (Value × Value)) (v : A) (s : Space)
    → s.frozen h ≡ false
    → changing h f v s ≡ (returned v, write_pairs s h (f (s.pairs h)))
changing_lem h f v s e = rw e refl

abbrev pub calls : HashCalls
calls = record {
  rb_hash_new = alloc_hash;
  rb_hash_new_capa = λ n. alloc_hash;
  rb_hash_aset = λ h k v. changing h (put k v) v;
  rb_hash_bulk_insert = λ vs h. changing h (put_all put vs) tt;
  rb_hash_update_by = λ h o. changing h (λ ps. ps) h;
  rb_hash_aref = λ h k s. (returned (or_default (find k (s.pairs h)) 4), s);
  rb_hash_lookup = λ h k s. (returned (or_default (find k (s.pairs h)) 4), s);
  rb_hash_lookup2 = λ h k default s. (returned (or_default (find k (s.pairs h)) default), s);
  rb_hash_fetch = λ h k s. (returned (or_default (find k (s.pairs h)) 4), s);
  rb_hash_delete = λ h k. changing h (λ ps. ps) 4;
  rb_hash_clear = λ h. changing h (λ ps. []) h;
  rb_hash_size = λ h s. length (s.pairs h) + length (s.pairs h) + 1;
  rb_hash_size_num = λ h s. length (s.pairs h);
  rb_check_hash_type = λ v s. (returned v, s);
  rb_hash_foreach =
      λ f h st s. ((walk f (s.pairs h) st).0, write_pairs s h (walk f (s.pairs h) st).1);
}

pub calls-IsHashCalls : IsHashCalls calls
calls-IsHashCalls = record {
  put = put;
  find = find;
  find-put_law = find-put;
  new_law = alloc_hash-IsNewHash;
  new_capa_law = λ n. alloc_hash-IsNewHash;
  aset_law = λ h k v s. changing_lem h (put k v) v s;
  bulk_insert_law = λ h vs s. changing_lem h (put_all put vs) tt s;
  lookup2_some_law = λ h k v default s e. rw e refl;
  lookup2_none_law = λ h k default s e. rw e refl;
  size_num_law = λ h s. refl;
  foreach_law = λ f h st s. refl;
}

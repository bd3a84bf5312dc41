-- ===== src/RHash/Calls.antt =====
-- The functions of Ruby's C API on hashes that src/r_hash.rs calls, as a parameter, with what Ruby
-- documents of them. `put` and `find` are Ruby's own, by the `hash` and `eql?` of the keys.
use magnus.Prelude.{
  ℕ, ◌≡◌, false, Option, none, some, List, [], ◌∷◌, ok, err, panic, ◌==◌, if◌then◌else◌, length,
}
use magnus.Ruby.{Value}
use magnus.Error.{Result, Completion, returned, unwound}
use magnus.Space.{Space, write_pairs, is_live}

-- A callback of `rb_hash_foreach` with a state of its own: it gives the code of a `ForEach`, unwinds,
-- or aborts by a panic.
abbrev pub Callback : Type 0 → Type 0
Callback S = Value → Value → S → Result (Completion Value) × S

pub record HashCalls : Type 1 where
  pub rb_hash_new : Space → Value × Space
  pub rb_hash_new_capa : ℕ → Space → Value × Space
  pub rb_hash_aset : Value → Value → Value → Space → Completion Value × Space
  pub rb_hash_bulk_insert : List Value → Value → Space → Completion (Unit {0}) × Space
  pub rb_hash_update_by : Value → Value → Space → Completion Value × Space
  pub rb_hash_aref : Value → Value → Space → Completion Value × Space
  pub rb_hash_lookup : Value → Value → Space → Completion Value × Space
  pub rb_hash_lookup2 : Value → Value → Value → Space → Completion Value × Space
  pub rb_hash_fetch : Value → Value → Space → Completion Value × Space
  pub rb_hash_delete : Value → Value → Space → Completion Value × Space
  pub rb_hash_clear : Value → Space → Completion Value × Space
  pub rb_hash_size : Value → Space → Value
  pub rb_hash_size_num : Value → Space → ℕ
  pub rb_check_hash_type : Value → Space → Completion Value × Space
  pub rb_hash_foreach :
      {S : Type 0} → Callback S → Value → S → Space → (Result (Completion (Unit {0})) × S) × Space

-- What a loop of Ruby over pairs does: it goes on after 0, stops after 1, and removes the pair and
-- goes on after 2. What is left of the pairs comes last.
abbrev pub Walked : Type 0 → Type 0
Walked S = (Result (Completion (Unit {0})) × S) × List (Value × Value)

abbrev pub keeping : {S : Type 0} → Value × Value → Walked S → Walked S
keeping p w = (w.0, p ∷ w.1)

abbrev pub walk_step :
    {S : Type 0}
    → Value × Value
    → List (Value × Value)
    → Result (Completion Value) × S
    → (S → Walked S)
    → Walked S
walk_step p ps (ok (returned code), st) rest =
    if code == 0
    then keeping p (rest st)
    else if code == 2
    then rest st
    else ((ok (returned tt), st), p ∷ ps)
walk_step p ps (ok (unwound tag v), st) rest = ((ok (unwound tag v), st), p ∷ ps)
walk_step p ps (err e, st) rest = ((err e, st), p ∷ ps)
walk_step p ps (panic, st) rest = ((panic, st), p ∷ ps)

abbrev pub walk : {S : Type 0} → Callback S → List (Value × Value) → S → Walked S
walk f [] st = ((ok (returned tt), st), [])
walk f (p ∷ ps) st = walk_step p ps (f p.0 p.1 st) (walk f ps)

-- The keys and the values by turns, put in one after the other.
abbrev pub put_all :
    (Value → Value → List (Value × Value) → List (Value × Value))
    → List Value
    → List (Value × Value)
    → List (Value × Value)
put_all put [] ps = ps
put_all put (k ∷ []) ps = ps
put_all put (k ∷ v ∷ vs) ps = put_all put vs (put k v ps)

-- A new empty hash; the rest of the space is as it was.
pub record IsNewHash (s : Space) (made : Value × Space) : Type 0 where
  pub fresh_law : is_live s made.0 ≡ false
  pub live_law : made.1.objects ≡ made.0 ∷ s.objects
  pub pairs_law : (b : Value) → made.1.pairs b ≡ (if made.0 == b then [] else s.pairs b)
  pub frozen_law : (b : Value) → made.1.frozen b ≡ (if made.0 == b then false else s.frozen b)

pub record IsHashCalls (r : HashCalls) : Type 1 where
  pub put : Value → Value → List (Value × Value) → List (Value × Value)
  pub find : Value → List (Value × Value) → Option Value
  pub find-put_law : (k v : Value) (ps : List (Value × Value)) → find k (put k v ps) ≡ some v
  pub new_law : (s : Space) → IsNewHash s (r.rb_hash_new s)
  pub new_capa_law : (n : ℕ) (s : Space) → IsNewHash s (r.rb_hash_new_capa n s)
  pub aset_law :
      (h k v : Value) (s : Space)
      → s.frozen h ≡ false
      → r.rb_hash_aset h k v s ≡ (returned v, write_pairs s h (put k v (s.pairs h)))
  pub bulk_insert_law :
      (h : Value) (vs : List Value) (s : Space)
      → s.frozen h ≡ false
      → r.rb_hash_bulk_insert vs h s ≡ (returned tt, write_pairs s h (put_all put vs (s.pairs h)))
  pub lookup2_some_law :
      (h k v default : Value) (s : Space)
      → find k (s.pairs h) ≡ some v
      → r.rb_hash_lookup2 h k default s ≡ (returned v, s)
  pub lookup2_none_law :
      (h k default : Value) (s : Space)
      → find k (s.pairs h) ≡ none
      → r.rb_hash_lookup2 h k default s ≡ (returned default, s)
  pub size_num_law : (h : Value) (s : Space) → r.rb_hash_size_num h s ≡ length (s.pairs h)
  pub foreach_law :
      {S : Type 0} (f : Callback S) (h : Value) (st : S) (s : Space)
      → r.rb_hash_foreach f h st s
        ≡ ((walk f (s.pairs h) st).0, write_pairs s h (walk f (s.pairs h) st).1)

-- ===== src/RHash/Buffer.antt =====
-- src/r_hash.rs: the buffer of pairs that `hash_try_from_iter` fills and inserts into the hash.
use mathlib.Core.Path.{fun_ext}
use magnus.Prelude.{
  ℕ, suc, zero, ◌+◌, ◌*◌, ◌<◌, true, false, List, [], ◌∷◌, ◌++◌, ok, leb, ◌⊎◌, if◌then◌else◌,
  length, take, ◌==◌, ◌≡◌, refl, ap, ◌∙◌, inl, inr, arith, ==_iff, Bool-cases, append_assoc,
  length-take,
}
use magnus.Ruby.{Value, Consts}
use magnus.Space.{Space, write_pairs}
use magnus.RArray.Build.{set}
use magnus.RArray.Buffer.{length-set, take-set}
use magnus.RHash.Calls.{HashCalls, IsHashCalls, put_all}
use magnus.RHash.{bulk_insert}

pub write_pairs-write_pairs :
    (s : Space) (h : Value) (ps qs : List (Value × Value))
    → write_pairs (write_pairs s h ps) h qs ≡ write_pairs s h qs
write_pairs-write_pairs s h ps qs = ap (λ f. record s { pairs = f }) (fun_ext λ b. ground arith)

pub pairs-write_pairs :
    (s : Space) (h : Value) (ps : List (Value × Value)) → (write_pairs s h ps).pairs h ≡ ps
pairs-write_pairs s h ps = rw ((==_iff h h).1 refl) refl

put_all-append :
    (put : Value → Value → List (Value × Value) → List (Value × Value)) (xs : List Value) (j : ℕ)
    (k v : Value) (ps : List (Value × Value))
    → length xs ≡ 2 * j
    → put_all put (xs ++ k ∷ v ∷ []) ps ≡ put k v (put_all put xs ps)
put_all-append put [] j k v ps e = refl
put_all-append put (x ∷ []) j k v ps e = absurd (omega arith)
put_all-append put (x ∷ y ∷ xs) zero k v ps e = absurd (omega arith)
put_all-append put (x ∷ y ∷ xs) (suc j) k v ps e =
    put_all-append put xs j k v (put x y ps) (omega arith)

-- The buffer after a pair has been put at `i`.
abbrev pub set_pair : List Value → ℕ → Value → Value → List Value
set_pair buffer i k v = set (set buffer i k) (i + 1) v

pub length-set_pair :
    (buffer : List Value) (i : ℕ) (k v : Value) → length (set_pair buffer i k v) ≡ length buffer
length-set_pair buffer i k v = length-set (set buffer i k) (i + 1) v ∙ length-set buffer i k

take-set_pair :
    (buffer : List Value) (i : ℕ) (k v : Value)
    → i + 1 < length buffer
    → take (i + 2) (set_pair buffer i k v) ≡ take i buffer ++ k ∷ v ∷ []
take-set_pair buffer i k v h =
    rw
      (
        take-set (set buffer i k) (i + 1) (i + 2) v (rw (length-set buffer i k) h) (omega arith),
        take-set buffer i (i + 1) k (omega (arith, h)) refl,
        append_assoc (take i buffer) (k ∷ []) (v ∷ []),
      )
      refl

pub room :
    (i j n : ℕ) (buffer : List Value)
    → i ≡ 2 * j
    → length buffer ≡ 2 * n
    → i < length buffer
    → (i + 2 < length buffer) ⊎ (i + 2 ≡ length buffer)
room i j n buffer e l h = ground arith

pub not_full :
    (buffer : List Value) (i : ℕ) → i + 2 < length buffer → leb (length buffer) (i + 2) ≡ false
not_full buffer i h = ground arith

pub full :
    (buffer : List Value) (i : ℕ) → i + 2 ≡ length buffer → leb (length buffer) (i + 2) ≡ true
full buffer i h = ground arith

module _ (c : Consts) (r : HashCalls) (d : IsHashCalls r) where
  pub bulk_insert_lem :
      (h : Value) (vs : List Value) (s : Space)
      → s.frozen h ≡ false
      → bulk_insert c r h vs s ≡ (ok tt, write_pairs s h (put_all d.put vs (s.pairs h)))
  unfolding bulk_insert
  bulk_insert_lem h vs s f = rw (d.bulk_insert_law h vs s f) refl

  pub put_pair :
      (buffer : List Value) (i j : ℕ) (k v : Value) (ps : List (Value × Value))
      → i ≡ 2 * j
      → i + 1 < length buffer
      → put_all d.put (take (i + 2) (set_pair buffer i k v)) ps
        ≡ d.put k v (put_all d.put (take i buffer) ps)
  put_pair buffer i j k v ps e h =
      rw (take-set_pair buffer i k v h)
        (put_all-append d.put (take i buffer) j k v ps (omega (arith, length-take i buffer)))

pub new_pairs :
    (s : Space) (made : Value × Space) (ps : List (Value × Value)) (b : Value)
    → made.1.pairs b ≡ (if made.0 == b then [] else s.pairs b)
    → (write_pairs made.1 made.0 ps).pairs b ≡ (if made.0 == b then ps else s.pairs b)
new_pairs s made ps b h = elim (Bool-cases (made.0 == b)) [
  | inl e ↦ rw e refl
  | inr e ↦ rw e (h ∙ rw e refl)
]

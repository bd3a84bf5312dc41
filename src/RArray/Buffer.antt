-- ===== src/RArray/Buffer.antt =====
-- src/r_array.rs: the buffer that `ary_try_from_iter` fills and appends to the array.
use magnus.Prelude.{
  ℕ, suc, zero, ◌+◌, ◌*◌, ◌<◌, ◌≤◌, true, false, List, [], ◌∷◌, ◌++◌, Outcome, ok, err, panic, leb,
  length, take, ◌≡◌, ◌⊎◌, refl, ap, sym, ◌∙◌, arith, append_assoc, append_nil, lt→ltb,
}
use magnus.Ruby.{Value, Consts}
use magnus.Space.{Space, write, items-write}
use magnus.RArray.Calls.{ArrayCalls, IsArrayCalls}
use magnus.RArray.{cat}
use magnus.RArray.Build.{set, set_checked, empty_buffer}

pub length-set : (xs : List Value) (i : ℕ) (v : Value) → length (set xs i v) ≡ length xs
length-set [] i v = refl
length-set (x ∷ xs) zero v = refl
length-set (x ∷ xs) (suc i) v = ap suc (length-set xs i v)

pub take-set :
    (xs : List Value) (i k : ℕ) (v : Value)
    → i < length xs
    → k ≡ i + 1
    → take k (set xs i v) ≡ take i xs ++ v ∷ []
take-set [] i k v h e = absurd (omega arith)
take-set (x ∷ xs) i zero v h e = absurd (omega arith)
take-set (x ∷ xs) zero (suc k) v h e = let e' : k ≡ 0 = omega arith in rw e' refl
take-set (x ∷ xs) (suc i) (suc k) v h e =
    ap (λ t. x ∷ t) (take-set xs i k v (omega arith) (omega arith))

pub take_all : (n : ℕ) (xs : List Value) → length xs ≤ n → take n xs ≡ xs
take_all zero [] h = refl
take_all zero (x ∷ xs) h = absurd (omega arith)
take_all (suc n) [] h = refl
take_all (suc n) (x ∷ xs) h = ap (λ t. x ∷ t) (take_all n xs (omega arith))

pub set_checked_lem :
    {E : Type 0} (buffer : List Value) (i : ℕ) (v : Value)
    → i < length buffer
    → set_checked {E = E} buffer i v ≡ ok (set buffer i v)
set_checked_lem buffer i v h = rw (lt→ltb i (length buffer) h) refl

pub room :
    (i : ℕ) (buffer : List Value)
    → i < length buffer
    → (i + 1 < length buffer) ⊎ (i + 1 ≡ length buffer)
room i buffer h = ground arith

pub front_set :
    (buffer : List Value) (i : ℕ) (v : Value) (xs : List Value)
    → i < length buffer
    → xs ++ take (i + 1) (set buffer i v) ≡ (xs ++ take i buffer) ++ v ∷ []
front_set buffer i v xs h =
    rw (take-set buffer i (i + 1) v h refl, append_assoc xs (take i buffer) (v ∷ [])) refl

pub flushed :
    (s : Space) (ary : Value) (buffer : List Value) (i : ℕ) (v : Value)
    → i + 1 ≡ length buffer
    → (write s ary (s.items ary ++ set buffer i v)).items ary ++ []
      ≡ (s.items ary ++ take i buffer) ++ v ∷ []
flushed s ary buffer i v h =
    append_nil _
    ∙ items-write s ary (s.items ary ++ set buffer i v)
    ∙ ap (λ xs. s.items ary ++ xs)
        (sym (take_all (i + 1) (set buffer i v) (rw (length-set buffer i v) (omega (arith, h)))))
    ∙ front_set buffer i v (s.items ary) (omega (arith, h))

pub not_full :
    (buffer : List Value) (i : ℕ) → i + 1 < length buffer → leb (length buffer) (i + 1) ≡ false
not_full buffer i h = ground arith

pub full :
    (buffer : List Value) (i : ℕ) → i + 1 ≡ length buffer → leb (length buffer) (i + 1) ≡ true
full buffer i h = ground arith

abbrev pub prepended : {E T : Type 0} → T → Outcome E (List T) → Outcome E (List T)
prepended t (ok ts) = ok (t ∷ ts)
prepended t (err e) = err e
prepended t panic = panic

pub empty_buffer_even : (c : Consts) → length (empty_buffer c) ≡ 2 * 64
unfolding empty_buffer
empty_buffer_even c = omega arith

pub empty_buffer_lem : (c : Consts) → 0 < length (empty_buffer c)
unfolding empty_buffer
empty_buffer_lem c = omega arith

-- What the iterator yields before its first error.
abbrev pub sequence : {E T : Type 0} → List (Outcome E T) → Outcome E (List T)
sequence [] = ok []
sequence (ok t ∷ iter) = prepended t (sequence iter)
sequence (err e ∷ iter) = err e
sequence (panic ∷ iter) = panic

module _ (c : Consts) (r : ArrayCalls) (d : IsArrayCalls c r) where
  pub cat_lem :
      (a : Value) (xs : List Value) (s : Space)
      → s.frozen a ≡ false
      → cat c r a xs s ≡ (ok tt, write s a (s.items a ++ xs))
  unfolding cat
  cat_lem a xs s h = rw (d.cat_law a xs s h)

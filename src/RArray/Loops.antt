-- ===== src/RArray/Loops.antt =====
-- src/r_array.rs: what a loop over an array does.
use native.Mathlib.Nat.{mod-eq_of_lt}
use magnus.Prelude.{
  ◌≡◌, ◌<◌, ◌≤◌, ◌++◌, List, [], map, append_assoc, ◌∷◌, length, refl, sym, ◌∙◌, arith, ltb, ◌%◌,
  ◌^◌, lt→ltb, length-append, get_elem?-append, ℕ, suc, zero, ◌+◌, Bool, true, false, ◌||◌, Option,
  none, some, ok, err, panic, leb, Bool-cases, inl, inr, ==_iff,
}
use magnus.Prelude.Int.{pos}
use magnus.Bits.Word.{as_signed}
use magnus.Ruby.{Value, Consts}
use magnus.Error.{Result}
use magnus.Space.{Space, after-cong, Effect, pure, lift, after, hide, ◌>>=◌, ◌>>◌}
use magnus.RArray.Calls.{ArrayCalls, IsArrayCalls, IsNew-items, place, entry_or}
use magnus.RArray.{Conversion, len, dup, entry}
use magnus.RArray.Iterate.{Iter, result_ok, iter_new, next, into_iter, for_each}

-- What the loop does, on the results of converting the items.
abbrev pub each :
    {E T : Type 0} → (T → Effect E (Unit {0})) → List (Result T) → Effect E (Option (Unit {0}))
each body [] = pure (some tt)
each body (ok t ∷ rest) = body t >> each body rest
each body (err e ∷ rest) = pure (some tt)
each body (panic ∷ rest) = lift panic

-- Ruby code does not change what is hidden or frozen.
abbrev pub is_safe : Space → Value → Bool
is_safe s a = s.hidden a || s.frozen a

-- The conversions of `len` and of an index into `c_long` and `isize`.
abbrev pub long_max : ℕ
long_max = 0x7fffffffffffffff

pub as_signed_small : (n : ℕ) → n ≤ long_max → as_signed 64 (pos n) ≡ pos n
as_signed_small n h = let q : n % 2 ^ 64 ≡ n = mod-eq_of_lt (omega arith) in ground arith

entry_at :
    (nil v : Value) (front rest : List Value)
    → entry_or nil (front ++ v ∷ rest) (pos (length front)) ≡ v
entry_at nil v front rest =
    let l : ltb (length front) (length (front ++ v ∷ rest)) ≡ true =
      lt→ltb (length front) (length (front ++ v ∷ rest))
        (omega (arith, length-append front (v ∷ rest))) in
    rw (l, place, entry_or, get_elem?-append (length front) front (v ∷ rest) refl) refl

module _ (c : Consts) (r : ArrayCalls) (d : IsArrayCalls c r) {T : Type 0}
    (convert : Conversion T) where
  entry_lem :
      (a v : Value) (front rest : List Value) (s : Space)
      → s.items a ≡ front ++ v ∷ rest
      → length front ≤ long_max
      → entry c r convert a (as_signed 64 (pos (length front))) s ≡ (convert v, s)
  unfolding entry
  entry_lem a v front rest s e h =
      rw
        (
          as_signed_small (length front) h,
          d.entry_law a (pos (length front)) s,
          e,
          entry_at c.qnil v front rest,
        )
        refl

  next-some :
      {E : Type 0} (it : Iter) (v : Value) (front rest : List Value) (s : Space)
      → s.items it.array ≡ front ++ v ∷ rest
      → length front ≤ long_max
      → it.idx ≡ length front
      → it.idx < it.len
      → next c r {E = E} convert it s
        ≡ after (result_ok (convert v, s)) (λ value. pure (value, record it { idx = it.idx + 1 }))
  unfolding next
  next-some it v front rest s e h i l =
      let l' : leb it.len it.idx ≡ false = ground arith in
      rw (l', i, entry_lem it.array v front rest s e h) refl

  next-none :
      {E : Type 0} (it : Iter) (s : Space)
      → it.len ≤ it.idx
      → next c r {E = E} convert it s ≡ (ok (none, it), s)
  unfolding next
  next-none it s h = let l' : leb it.len it.idx ≡ true = ground arith in rw l' refl

  module _ {E : Type 0} (body : T → Effect E (Unit {0})) where
    for_each_end :
        (fuel : ℕ) (it : Iter) (s : Space)
        → it.len ≤ it.idx
        → for_each c r convert body (suc fuel) it s ≡ (ok (some tt), s)
    unfolding for_each
    for_each_end fuel it s h = rw (next-none {E = E} it s h) refl

    -- What one round of the loop does.
    abbrev round : ℕ → Iter → Result T → Effect E (Option (Unit {0}))
    round fuel it (ok t) = body t >> for_each c r convert body fuel (record it { idx = it.idx + 1 })
    round fuel it (err e) = pure (some tt)
    round fuel it panic = lift panic

    round_lem :
        (fuel : ℕ) (it : Iter) (o : Result T) (s : Space)
        → after {E = E} {A = Option T × Iter}
            (after {E = E} {A = Option T}
              (result_ok (o, s))
              (λ value. pure (value, record it { idx = it.idx + 1 })))
            (λ step. elim step.0 [
              | none ↦ pure (some tt)
              | some t ↦ body t >> for_each c r convert body fuel step.1
            ])
          ≡ round fuel it o s
    round_lem fuel it (ok t) s = refl
    round_lem fuel it (err e) s = refl
    round_lem fuel it panic s = refl

    for_each-round :
        (fuel : ℕ) (it : Iter) (v : Value) (front rest : List Value) (s : Space)
        → s.items it.array ≡ front ++ v ∷ rest
        → length front ≤ long_max
        → it.idx ≡ length front
        → it.idx < it.len
        → for_each c r convert body (suc fuel) it s ≡ round fuel it (convert v) s
    unfolding for_each
    for_each-round fuel it v front rest s e h i l =
        rw (next-some {E = E} it v front rest s e h i l) (round_lem fuel it (convert v) s)

    -- The body leaves the array alone when it is hidden or frozen.
    Keeps : Value → Type 0
    Keeps a =
        (t : T) (s : Space)
        → is_safe s a ≡ true
        → ((body t s).1.items a ≡ s.items a) × (is_safe (body t s).1 a ≡ true)

    -- A loop of enough rounds ends.
    for_each_lem :
        (rest : List Value) (front : List Value) (fuel : ℕ) (it : Iter) (s : Space)
        → s.items it.array ≡ front ++ rest
        → it.idx ≡ length front
        → it.len ≡ length front + length rest
        → it.len ≤ long_max
        → length rest < fuel
        → is_safe s it.array ≡ true
        → Keeps it.array
        → for_each c r convert body fuel it s ≡ each body (map convert rest) s
    unfolding Keeps
    for_each_lem rest front zero it s e i l m f safe keep = absurd (omega arith)
    for_each_lem [] front (suc fuel) it s e i l m f safe keep =
        for_each_end fuel it s (omega (arith, l, i))
    for_each_lem (v ∷ rest) front (suc fuel) it s e i l m f safe keep =
        for_each-round fuel it v front rest s e (omega arith) i (omega arith)
        ∙ (elim (convert v) as (λ o. round fuel it o s ≡ each body (o ∷ map convert rest) s) [
          | err x ↦ refl
          | panic ↦ refl
          | ok t ↦
              let (kept, safe') = keep t s safe in
              after-cong (body t s)
                (λ _. for_each c r convert body fuel (record it { idx = it.idx + 1 }))
                (λ _. each body (map convert rest))
                (λ _.
                  for_each_lem rest (front ++ v ∷ []) fuel (record it { idx = it.idx + 1 })
                    (body t s).1 (kept ∙ e ∙ sym (append_assoc front (v ∷ []) rest))
                    (omega (arith, i, length-append front (v ∷ [])))
                    (omega (arith, l, length-append front (v ∷ []))) m (omega (arith, f)) safe'
                    keep)
        ])

    loop_lem :
        (ary : Value) (xs : List Value) (fuel : ℕ) (s : Space)
        → s.items ary ≡ xs
        → length xs ≤ long_max
        → length xs < fuel
        → is_safe s ary ≡ true
        → Keeps ary
        → after (iter_new c r {E = E} ary s) (for_each c r convert body fuel)
          ≡ each body (map convert xs) s
    unfolding iter_new len
    loop_lem ary xs fuel s e m f safe keep =
        for_each_lem xs [] fuel (record { array = ary; len = length (s.items ary); idx = 0 }) s e
          refl (rw e (omega arith)) (rw e m) f safe keep

    -- A loop over an array goes through the items that the array has when the loop begins, in their
    -- order and up to the first that does not convert, whatever its body does to the array, if the
    -- body leaves hidden and frozen arrays alone and the length is at most that of `c_long`; and it
    -- ends within one call of `next` more than the array has items.
    pub into_iter-for_each :
        (self : Value) (fuel : ℕ) (s : Space)
        → length (s.items self) ≤ long_max
        → length (s.items self) < fuel
        → ((a : Value) (t : T) (s' : Space)
            → is_safe s' a ≡ true
            → ((body t s').1.items a ≡ s'.items a) × (is_safe (body t s').1 a ≡ true))
        → (into_iter c r self >>= for_each c r convert body fuel) s
          ≡ each body (map convert (s.items self)) (into_iter c r {E = E} self s).1
    unfolding into_iter iter_new dup Keeps
    into_iter-for_each self fuel s m f keep = elim (Bool-cases (s.frozen self)) [
      | inl e ↦ rw e (loop_lem self (s.items self) fuel s refl m f (ground arith) (keep self))
      | inr e ↦
          let (tmp, s') = r.rb_ary_subseq self (pos 0) (pos long_max) s in
          rw (e, d.hide_law tmp s')
            (loop_lem tmp (s.items self) fuel (hide s' tmp)
              (IsNew-items s (s.items self) false (tmp, s') (d.dup_law self s)) m f
              (rw ((==_iff tmp tmp).1 refl) refl) (keep tmp))
    ]

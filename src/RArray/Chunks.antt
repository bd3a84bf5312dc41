-- ===== src/RArray/Chunks.antt =====
-- src/r_array.rs: how `ary_try_from_iter` fills an array by chunks.
use mathlib.Core.Path.{subst}
use magnus.Prelude.{
  ℕ, ◌+◌, ◌<◌, false, List, [], ◌∷◌, ◌++◌, Outcome, ok, err, panic, ltb, length, take, map, ◌≡◌,
  refl, ap, sym, ◌∙◌, inl, inr, arith, Bool-cases, append_assoc, append_nil,
}
use magnus.Ruby.{Value, Consts}
use magnus.Space.{Space, write, write-write}
use magnus.RArray.Calls.{ArrayCalls, IsArrayCalls, IsNew, IsNew-items, IsNew-frozen, IsNew-write}
use magnus.RArray.{ary_new, ary_new_capa}
use magnus.RArray.Build.{set, empty_buffer, fill, ary_try_from_iter}
use magnus.RArray.Buffer.{
  length-set, set_checked_lem, room, front_set, flushed, not_full, full, prepended,
  empty_buffer_lem, sequence, cat_lem,
}

module _ (c : Consts) (r : ArrayCalls) (d : IsArrayCalls c r) {T E : Type 0}
    (into : T → Value) where
  -- What is made of an array `ary` that begins with `front` and takes in all that `ts` holds.
  Filled : Outcome E (List T) → Value → Space → List Value → Outcome E Value × Space → Type 0
  Filled (ok ts) ary s front end = end ≡ (ok ary, write s ary (front ++ map into ts))
  Filled (err e) ary s front end = end.0 ≡ err e
  Filled panic ary s front end = end.0 ≡ panic

  Filled-cons :
      (ts : Outcome E (List T)) (t : T) (ary : Value) (s : Space) (front : List Value)
      (end : Outcome E Value × Space)
      → Filled ts ary s (front ++ into t ∷ []) end
      → Filled (prepended t ts) ary s front end
  unfolding Filled
  Filled-cons (ok ts) t ary s front end h =
      h ∙ ap (λ xs. (ok ary, write s ary xs)) (append_assoc front (into t ∷ []) (map into ts))
  Filled-cons (err e) t ary s front end h = h
  Filled-cons panic t ary s front end h = h

  Filled-write :
      (ts : Outcome E (List T)) (ary : Value) (s : Space) (xs front : List Value)
      (end : Outcome E Value × Space)
      → Filled ts ary (write s ary xs) front end
      → Filled ts ary s front end
  unfolding Filled
  Filled-write (ok ts) ary s xs front end h =
      h ∙ ap (λ s'. (ok ary, s')) (write-write s ary xs (front ++ map into ts))
  Filled-write (err e) ary s xs front end h = h
  Filled-write panic ary s xs front end h = h

  fill_end :
      (buffer : List Value) (i : ℕ) (ary : Value) (s : Space)
      → s.frozen ary ≡ false
      → fill c r {E = E} into [] buffer i ary s
        ≡ (ok ary, write s ary (s.items ary ++ take i buffer))
  unfolding fill
  fill_end buffer i ary s h = rw (cat_lem c r d ary (take i buffer) s h)

  fill_keep :
      (iter : List (Outcome E T)) (t : T) (buffer : List Value) (i : ℕ) (ary : Value) (s : Space)
      → i + 1 < length buffer
      → fill c r into (ok t ∷ iter) buffer i ary s
        ≡ fill c r into iter (set buffer i (into t)) (i + 1) ary s
  unfolding fill
  fill_keep iter t buffer i ary s h =
      rw
        (
          set_checked_lem {E = E} buffer i (into t) (omega (arith, h)),
          length-set buffer i (into t),
          not_full buffer i h,
        )
        refl

  fill_flush :
      (iter : List (Outcome E T)) (t : T) (buffer : List Value) (i : ℕ) (ary : Value) (s : Space)
      → i + 1 ≡ length buffer
      → s.frozen ary ≡ false
      → fill c r into (ok t ∷ iter) buffer i ary s
        ≡ fill c r into iter
            (set buffer i (into t))
            0
            ary
            (write s ary (s.items ary ++ set buffer i (into t)))
  unfolding fill
  fill_flush iter t buffer i ary s h f =
      rw
        (
          set_checked_lem {E = E} buffer i (into t) (omega (arith, h)),
          length-set buffer i (into t),
          full buffer i h,
          cat_lem c r d ary (set buffer i (into t)) s f,
        )
        refl

  fill_lem :
      (iter : List (Outcome E T)) (buffer : List Value) (i : ℕ) (ary : Value) (s : Space)
      → i < length buffer
      → s.frozen ary ≡ false
      → Filled
          (sequence iter)
          ary
          s
          (s.items ary ++ take i buffer)
          (fill c r into iter buffer i ary s)
  unfolding fill Filled
  fill_lem [] buffer i ary s h f =
      fill_end buffer i ary s f
      ∙ ap (λ t. (ok ary, write s ary t)) (sym (append_nil (s.items ary ++ take i buffer)))
  fill_lem (err e ∷ iter) buffer i ary s h f = refl
  fill_lem (panic ∷ iter) buffer i ary s h f = refl
  fill_lem (ok t ∷ iter) buffer i ary s h f =
      let front = s.items ary ++ take i buffer in
      let buffer' = set buffer i (into t) in
      Filled-cons (sequence iter) t ary s front (fill c r into (ok t ∷ iter) buffer i ary s)
        (elim (room i buffer h) [
          | inl h' ↦
              rw
                (
                  fill_keep iter t buffer i ary s h',
                  ← (front_set buffer i (into t) (s.items ary) h),
                )
                (fill_lem iter buffer' (i + 1) ary s (rw (length-set buffer i (into t)) h') f)
          | inr h' ↦
              let s' = write s ary (s.items ary ++ buffer') in
              rw (fill_flush iter t buffer i ary s h' f) (
                Filled-write (sequence iter) ary s (s.items ary ++ buffer') (front ++ into t ∷ [])
                  (fill c r into iter buffer' 0 ary s')
                  (subst
                    (λ xs. Filled (sequence iter) ary s' xs (fill c r into iter buffer' 0 ary s'))
                    (flushed s ary buffer i (into t) h')
                    (fill_lem iter buffer' 0 ary s'
                      (rw (length-set buffer i (into t)) (omega (arith, h))) f)))
        ])

  -- What is made in `s` is a new array of all that `ts` holds, or what `ts` ends with.
  abbrev pub Makes : Outcome E (List T) → Space → Outcome E Value × Space → Type 0
  Makes (ok ts) s end = (ary : Value) × (end.0 ≡ ok ary) × IsNew s (map into ts) false (ary, end.1)
  Makes (err e) s end = end.0 ≡ err e
  Makes panic s end = end.0 ≡ panic

  Filled-Makes :
      (ts : Outcome E (List T)) (made : Value × Space) (s : Space) (end : Outcome E Value × Space)
      → IsNew s [] false made
      → Filled ts made.0 made.1 [] end
      → Makes ts s end
  unfolding Filled
  Filled-Makes (ok ts) made s end n h = (
    made.0,
    ap (λ p. p.0) h,
    subst (λ s'. IsNew s (map into ts) false (made.0, s')) (sym (ap (λ p. p.1) h))
        (IsNew-write s false [] (map into ts) made n),
  )
  Filled-Makes (err e) made s end n h = h
  Filled-Makes panic made s end n h = h

  fill_empty :
      (iter : List (Outcome E T)) (made : Value × Space) (s : Space)
      → IsNew s [] false made
      → Makes (sequence iter) s (fill c r into iter (empty_buffer c) 0 made.0 made.1)
  fill_empty iter made s n = Filled-Makes (sequence iter) made s _ n (
      subst
        (λ xs.
          Filled (sequence iter) made.0 made.1 xs
            (fill c r into iter (empty_buffer c) 0 made.0 made.1))
        (append_nil _ ∙ IsNew-items s [] false made n)
        (fill_lem iter (empty_buffer c) 0 made.0 made.1 (empty_buffer_lem c)
          (IsNew-frozen s [] false made n)))

  -- `ary_try_from_iter` makes a new array, other than all that are live, that holds the converted
  -- items of the iterator in their order, however many there are, and leaves every other array as
  -- it was; if the iterator yields an error, the first one is returned. It never panics by itself.
  pub ary_try_from_iter-Makes :
      (lower : ℕ) (iter : List (Outcome E T)) (s : Space)
      → Makes (sequence iter) s (ary_try_from_iter c r into lower iter s)
  unfolding ary_try_from_iter ary_new ary_new_capa
  ary_try_from_iter-Makes lower iter s = elim (Bool-cases (ltb 0 lower)) [
    | inl e ↦ rw e (fill_empty iter (r.rb_ary_new_capa lower s) s (d.new_capa_law lower s))
    | inr e ↦ rw e (fill_empty iter (r.rb_ary_new s) s (d.new_law s))
  ]

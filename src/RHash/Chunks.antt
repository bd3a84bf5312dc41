-- ===== src/RHash/Chunks.antt =====
-- src/r_hash.rs: how `hash_try_from_iter` fills a hash by chunks.
use mathlib.Core.Path.{subst}
use magnus.Prelude.{
  ℕ, suc, ◌+◌, ◌*◌, ◌<◌, Bool, false, List, [], ◌∷◌, Outcome, ok, err, panic, ltb, if◌then◌else◌,
  length, take, ◌==◌, ◌≡◌, refl, ap, sym, ◌∙◌, inl, inr, arith, ==_iff, Bool-cases,
}
use magnus.Ruby.{Value, Consts}
use magnus.Space.{Space, write_pairs, is_live}
use magnus.RArray.Build.{set, empty_buffer}
use magnus.RArray.Buffer.{
  sequence, prepended, length-set, take_all, set_checked_lem, empty_buffer_lem, empty_buffer_even,
}
use magnus.RHash.Calls.{HashCalls, IsHashCalls, IsNewHash, put_all}
use magnus.RHash.{hash_new, hash_new_capa, hash_maybe_capa}
use magnus.RHash.Build.{fill, hash_try_from_iter}
use magnus.RHash.Buffer.{
  write_pairs-write_pairs, pairs-write_pairs, set_pair, length-set_pair, room, not_full, full,
  bulk_insert_lem, put_pair, new_pairs,
}

-- The pairs by turns, converted.
abbrev pub flat : {K V : Type 0} → (K → Value) → (V → Value) → List (K × V) → List Value
flat into_key into_val [] = []
flat into_key into_val (p ∷ ps) = into_key p.0 ∷ into_val p.1 ∷ flat into_key into_val ps

module _ (c : Consts) (r : HashCalls) (d : IsHashCalls r) {K V E : Type 0} (into_key : K → Value)
    (into_val : V → Value) where
  -- What is made of a hash that holds `ps` so far and takes in all that `ts` holds.
  Filled :
      Outcome E (List (K × V))
      → Value
      → Space
      → List (Value × Value)
      → Outcome E Value × Space
      → Type 0
  Filled (ok ts) h s ps end =
      end ≡ (ok h, write_pairs s h (put_all d.put (flat into_key into_val ts) ps))
  Filled (err e) h s ps end = end.0 ≡ err e
  Filled panic h s ps end = end.0 ≡ panic

  Filled-cons :
      (ts : Outcome E (List (K × V))) (p : K × V) (h : Value) (s : Space)
      (ps : List (Value × Value)) (end : Outcome E Value × Space)
      → Filled ts h s (d.put (into_key p.0) (into_val p.1) ps) end
      → Filled (prepended p ts) h s ps end
  unfolding Filled
  Filled-cons (ok ts) p h s ps end f = f
  Filled-cons (err e) p h s ps end f = f
  Filled-cons panic p h s ps end f = f

  Filled-write :
      (ts : Outcome E (List (K × V))) (h : Value) (s : Space) (qs ps : List (Value × Value))
      (end : Outcome E Value × Space)
      → Filled ts h (write_pairs s h qs) ps end
      → Filled ts h s ps end
  unfolding Filled
  Filled-write (ok ts) h s qs ps end f =
      f
      ∙ ap (λ s'. (ok h, s'))
          (write_pairs-write_pairs s h qs (put_all d.put (flat into_key into_val ts) ps))
  Filled-write (err e) h s qs ps end f = f
  Filled-write panic h s qs ps end f = f

  fill_end :
      (buffer : List Value) (i : ℕ) (h : Value) (s : Space)
      → s.frozen h ≡ false
      → fill c r {E = E} into_key into_val [] buffer i h s
        ≡ (ok h, write_pairs s h (put_all d.put (take i buffer) (s.pairs h)))
  unfolding fill
  fill_end buffer i h s f = rw (bulk_insert_lem c r d h (take i buffer) s f) refl

  fill_keep :
      (iter : List (Outcome E (K × V))) (p : K × V) (buffer : List Value) (i : ℕ) (h : Value)
      (s : Space)
      → i + 2 < length buffer
      → fill c r into_key into_val (ok p ∷ iter) buffer i h s
        ≡ fill c r into_key into_val iter
            (set_pair buffer i (into_key p.0) (into_val p.1))
            (i + 2)
            h
            s
  unfolding fill
  fill_keep iter p buffer i h s l =
      rw (set_checked_lem {E = E} buffer i (into_key p.0) (omega (arith, l))) (
        rw
          (set_checked_lem {E = E} (set buffer i (into_key p.0)) (i + 1) (into_val p.1)
            (rw (length-set buffer i (into_key p.0)) (omega (arith, l))))
          (rw (length-set_pair buffer i (into_key p.0) (into_val p.1), not_full buffer i l) refl))

  fill_flush :
      (iter : List (Outcome E (K × V))) (p : K × V) (buffer : List Value) (i : ℕ) (h : Value)
      (s : Space)
      → i + 2 ≡ length buffer
      → s.frozen h ≡ false
      → let buffer' = set_pair buffer i (into_key p.0) (into_val p.1) in
        fill c r into_key into_val (ok p ∷ iter) buffer i h s
        ≡ fill c r into_key into_val iter buffer' 0 h
            (write_pairs s h (put_all d.put buffer' (s.pairs h)))
  unfolding fill
  fill_flush iter p buffer i h s l f =
      rw (set_checked_lem {E = E} buffer i (into_key p.0) (omega (arith, l))) (
        rw
          (set_checked_lem {E = E} (set buffer i (into_key p.0)) (i + 1) (into_val p.1)
            (rw (length-set buffer i (into_key p.0)) (omega (arith, l))))
          (rw (length-set_pair buffer i (into_key p.0) (into_val p.1), full buffer i l)
            (rw (bulk_insert_lem c r d h (set_pair buffer i (into_key p.0) (into_val p.1)) s f)
              refl)))

  fill_lem :
      (iter : List (Outcome E (K × V))) (buffer : List Value) (i j n : ℕ) (h : Value) (s : Space)
      → i < length buffer
      → i ≡ 2 * j
      → length buffer ≡ 2 * n
      → s.frozen h ≡ false
      → Filled
          (sequence iter)
          h
          s
          (put_all d.put (take i buffer) (s.pairs h))
          (fill c r into_key into_val iter buffer i h s)
  unfolding fill Filled
  fill_lem [] buffer i j n h s l e m f = fill_end buffer i h s f
  fill_lem (err x ∷ iter) buffer i j n h s l e m f = refl
  fill_lem (panic ∷ iter) buffer i j n h s l e m f = refl
  fill_lem (ok p ∷ iter) buffer i j n h s l e m f =
      let k = into_key p.0 in
      let v = into_val p.1 in
      let ps = put_all d.put (take i buffer) (s.pairs h) in
      let buffer' = set_pair buffer i k v in
      let same : length buffer' ≡ length buffer = length-set_pair buffer i k v in
      Filled-cons (sequence iter) p h s ps (fill c r into_key into_val (ok p ∷ iter) buffer i h s)
        (elim (room i j n buffer e m l) [
          | inl l' ↦
              rw
                (
                  fill_keep iter p buffer i h s l',
                  ← (put_pair c r d buffer i j k v (s.pairs h) e (omega (arith, l'))),
                )
                (fill_lem iter buffer' (i + 2) (suc j) n h s (rw same l') (omega (arith, e))
                  (same ∙ m) f)
          | inr l' ↦
              let s' = write_pairs s h (put_all d.put buffer' (s.pairs h)) in
              let whole : put_all d.put buffer' (s.pairs h) ≡ d.put k v ps =
                ap (λ xs. put_all d.put xs (s.pairs h))
                  (sym (take_all (i + 2) buffer' (rw same (omega (arith, l')))))
                ∙ put_pair c r d buffer i j k v (s.pairs h) e (omega (arith, l')) in
              rw (fill_flush iter p buffer i h s l' f) (
                Filled-write (sequence iter) h s (put_all d.put buffer' (s.pairs h)) (d.put k v ps)
                  (fill c r into_key into_val iter buffer' 0 h s')
                  (subst
                    (λ qs.
                      Filled (sequence iter) h s' qs
                        (fill c r into_key into_val iter buffer' 0 h s'))
                    (pairs-write_pairs s h (put_all d.put buffer' (s.pairs h)) ∙ whole)
                    (fill_lem iter buffer' 0 0 n h s' (rw same (omega (arith, l))) refl (same ∙ m)
                      f)))
        ])

  -- What is made in `s` is a new hash, of the pairs that `ts` holds put in one after the other, and
  -- the other hashes are as they were; or what `ts` ends with is returned.
  abbrev pub Makes : Outcome E (List (K × V)) → Space → Outcome E Value × Space → Type 0
  Makes (ok ts) s end =
      (h : Value) × (end.0 ≡ ok h)
      × (is_live s h ≡ false)
      × ((b : Value)
          → end.1.pairs b
            ≡ (if h == b then put_all d.put (flat into_key into_val ts) [] else s.pairs b))
  Makes (err e) s end = end.0 ≡ err e
  Makes panic s end = end.0 ≡ panic

  Filled-Makes :
      (ts : Outcome E (List (K × V))) (made : Value × Space) (s : Space)
      (end : Outcome E Value × Space)
      → IsNewHash s made
      → Filled ts made.0 made.1 [] end
      → Makes ts s end
  unfolding Filled
  Filled-Makes (ok ts) made s end n f = (
    made.0,
    ap (λ p. p.0) f,
    n.fresh_law,
    λ b. ap (λ p. p.1.pairs b) f ∙ new_pairs s made _ b (n.pairs_law b),
  )
  Filled-Makes (err e) made s end n f = f
  Filled-Makes panic made s end n f = f

  fill_empty :
      (iter : List (Outcome E (K × V))) (made : Value × Space) (s : Space)
      → IsNewHash s made
      → Makes (sequence iter) s (fill c r into_key into_val iter (empty_buffer c) 0 made.0 made.1)
  fill_empty iter made s n = Filled-Makes (sequence iter) made s _ n (
      subst
        (λ ps.
          Filled (sequence iter) made.0 made.1 ps
            (fill c r into_key into_val iter (empty_buffer c) 0 made.0 made.1))
        (n.pairs_law made.0 ∙ rw ((==_iff made.0 made.0).1 refl) refl)
        (fill_lem iter (empty_buffer c) 0 0 64 made.0 made.1 (empty_buffer_lem c) refl
          (empty_buffer_even c) (n.frozen_law made.0 ∙ rw ((==_iff made.0 made.0).1 refl) refl)))

  -- `hash_try_from_iter` makes a new hash, other than the objects there are, and puts the converted
  -- pairs of the iterator into it in their order, however many there are and whatever the version
  -- of Ruby; it leaves the pairs of every other hash as they were; if the iterator yields an
  -- error, the first one is returned. It never panics by itself.
  hash_try_from_iter-Makes :
      (ruby_gte_3_2 : Bool) (lower : ℕ) (iter : List (Outcome E (K × V))) (s : Space)
      → Makes (sequence iter) s (hash_try_from_iter c r into_key into_val ruby_gte_3_2 lower iter s)
  unfolding hash_try_from_iter hash_maybe_capa hash_new hash_new_capa
  hash_try_from_iter-Makes ruby_gte_3_2 lower iter s = elim (Bool-cases (ltb 0 lower)) [
    | inr e ↦ rw e (fill_empty iter (r.rb_hash_new s) s (d.new_law s))
    | inl e ↦ elim (Bool-cases ruby_gte_3_2) [
      | inl g ↦ rw (e, g) (fill_empty iter (r.rb_hash_new_capa lower s) s (d.new_capa_law lower s))
      | inr g ↦ rw (e, g) (fill_empty iter (r.rb_hash_new s) s (d.new_law s))
    ]
  ]

-- ===== src/RArray/Typecheck.antt =====
-- src/r_array.rs: what `typecheck` makes of an array.
use magnus.Prelude.{
  suc, ◌≡◌, ◌≢◌, ◌≤◌, true, false, Option, some, List, [], ◌∷◌, map, length, ok, err, panic, refl,
  ap, ◌∙◌, arith, Bool-cases, inl, inr, ==_iff,
}
use magnus.Prelude.Int.{pos}
use magnus.Ruby.{Value, Consts}
use magnus.Error.{Result, ErrorType}
use magnus.Space.{
  Space, is_live, Effect, pure, lift, after, ◌>>=◌, ◌>>◌, items-write, items-write_other, calling,
}
use magnus.RArray.Calls.{ArrayCalls, IsArrayCalls, IsNew-frozen, IsNew-old, IsNew-other}
use magnus.RArray.{Conversion, collect, collected, len, dup}
use magnus.RArray.Iterate.{into_iter, iter_new}
use magnus.RArray.Loops.{each, into_iter-for_each, is_safe, long_max}
use magnus.RArray.TypedArray.{check_items, typecheck, unprotected}

module _ {T : Type 0} (convert : Conversion T) where
  abbrev body : Value → Effect ErrorType (Unit {0})
  body v = lift (convert v) >> pure tt

  body_space : (o : Result T) (s : Space) → ((lift o >> pure tt) s).1 ≡ s
  body_space (ok t) s = refl
  body_space (err e) s = refl
  body_space panic s = refl

  body-keeps :
      (a v : Value) (s : Space)
      → is_safe s a ≡ true
      → ((body v s).1.items a ≡ s.items a) × (is_safe (body v s).1 a ≡ true)
  body-keeps a v s h = rw (body_space (convert v) s) (refl, h)

  abbrev checked : Result (List T) → Result (Option (Unit {0}))
  checked (ok ts) = ok (some tt)
  checked (err e) = err e
  checked panic = panic

  each_lem :
      (vs : List Value) (s : Space)
      → each body (map (λ v. ok v) vs) s ≡ (checked (collect convert vs), s)
  each_lem [] s = refl
  each_lem (v ∷ vs) s = go (convert v) (each_lem vs s)
    where
      go :
          (o : Result T)
          → each body (map (λ v. ok v) vs) s ≡ (checked (collect convert vs), s)
          → after ((lift o >> pure tt) s) (λ _. each body (map (λ v. ok v) vs))
            ≡ (checked (collected o (collect convert vs)), s)
      go (ok t) h = h ∙ ap (λ o. (o, s)) (kept t (collect convert vs))
        where
          kept : (t : T) (os : Result (List T)) → checked os ≡ checked (collected (ok t) os)
          kept t (ok ts) = refl
          kept t (err e) = refl
          kept t panic = refl
      go (err e) h = refl
      go panic h = refl

  module _ (c : Consts) (r : ArrayCalls) (d : IsArrayCalls c r) where
    into_iter-old :
        (self b : Value) (s : Space)
        → is_live s b ≡ true
        → ((into_iter c r {E = ErrorType} self s).1.items b ≡ s.items b)
          × (is_live (into_iter c r {E = ErrorType} self s).1 b ≡ true)
    unfolding into_iter iter_new dup
    into_iter-old self b s l = elim (Bool-cases (s.frozen self)) [
      | inl e ↦ rw e (refl, l)
      | inr e ↦
          let made = r.rb_ary_subseq self (pos 0) (pos long_max) s in
          rw (e, d.hide_law made.0 made.1)
            (IsNew-old s (s.items self) false made b (d.dup_law self s) l)
    ]

    check_items_lem :
        (self : Value) (s : Space)
        → length (s.items self) ≤ long_max
        → check_items c r convert self s
          ≡ (checked (collect convert (s.items self)), (into_iter c r {E = ErrorType} self s).1)
    unfolding check_items len
    check_items_lem self s m =
        into_iter-for_each c r d (λ v. ok v) body self (suc (length (s.items self))) s m
          (omega arith) body-keeps
        ∙ each_lem (s.items self) (into_iter c r {E = ErrorType} self s).1

    -- The array made is another one, is hidden and holds the items of `self`.
    abbrev pub Checks : Result (List T) → Value → Space → Result Value × Space → Type 0
    Checks (ok ts) self s end =
        (ary : Value) × (end.0 ≡ ok ary)
        × (ary ≢ self)
        × (end.1.items ary ≡ s.items self)
        × (end.1.items self ≡ s.items self)
        × (end.1.hidden ary ≡ true)
    Checks (err e) self s end = end.0 ≡ err e
    Checks panic self s end = end.0 ≡ panic

    rest_lem :
        (o : Result (List T)) (self : Value) (s s' : Space)
        → (s'.items self ≡ s.items self)
        → (is_live s' self ≡ true)
        → Checks o self s (
            after
              (checked o, s')
              (λ _. calling (r.rb_ary_hidden_new 0) >>= λ ary.
                unprotected (r.rb_ary_replace ary self) >> pure ary))
    rest_lem (err e) self s s' h l = refl
    rest_lem panic self s s' h l = refl
    rest_lem (ok ts) self s s' h l =
        let made = r.rb_ary_hidden_new 0 s' in
        let n = d.hidden_new_law s' in
        let (kept, live) = IsNew-old s' [] true made self n l in
        let ne = IsNew-other s' [] true made self n l in
        rw (d.replace_law made.0 self made.1 (IsNew-frozen s' [] true made n)) (
          made.0,
          refl,
          ne,
          items-write made.1 made.0 (made.1.items self) ∙ kept ∙ h,
          items-write_other made.1 made.0 self (made.1.items self) ne ∙ kept ∙ h,
          n.hidden_law made.0 ∙ rw ((==_iff made.0 made.0).1 refl) refl,
        )

    -- `typecheck` of a live array whose length is at most that of `c_long` makes a new hidden array
    -- with the same items if they all convert, and keeps the array as it was; or else it returns the
    -- first error of a conversion. It ends, and panics only if a conversion does.
    typecheck-Checks :
        (self : Value) (s : Space)
        → is_live s self ≡ true
        → length (s.items self) ≤ long_max
        → Checks (collect convert (s.items self)) self s (typecheck c r convert self s)
    unfolding typecheck
    typecheck-Checks self s l m =
        let (kept, live) = into_iter-old self self s l in
        rw (check_items_lem self s m) (
          rest_lem (collect convert (s.items self)) self s (into_iter c r {E = ErrorType} self s).1
            kept live)

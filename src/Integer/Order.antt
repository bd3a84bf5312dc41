-- ===== src/Integer/Order.antt =====
-- `==`, `partial_cmp` and `norm` of integers follow the numbers.
use mathlib.Core.Path.{subst}
use magnus.Prelude.{◌≡◌, refl, ◌↔◌, inl, inr, true, sym, ap, ◌∙◌, some, ok, arith, ◌==◌, ==_iff}
use magnus.Prelude.Int.{ℤ, pos}
use magnus.Ruby.{Value, Consts, IsDocumented}
use magnus.Ruby.Numbers.{Numbers, IsNumbers, Represents, IsInteger, IsBignum, denote, sign_of}
use magnus.Fixnum.{to_isize, to_i64}
use magnus.Fixnum.Encoding.{
  IsFixnumRange, fixnum_word, fixnum_word-to_isize, to_isize-IsFixnumRange,
  fixnum_word-IsFixnumWord, to_isize-fixnum_word,
}
use magnus.Integer.Construct.{
  integer_type_fixnum, integer_type_bignum, denote-fixnum, denote-bignum, Represents-fixnum_word,
}
use magnus.Integer.Visit.{raw, raw_of, visit_bignum, visit_mixed, visit_fixnum, IsFixnumRange-IsI64}
use magnus.Integer.Casts as Casts
use magnus.Integer.{norm, eq, compare_signed}
use magnus.Integer.Compare.{partial_cmp, rust_compare, ruby_compare}

compare_signed-raw : (x y : ℤ) → compare_signed (raw x) (raw y) ≡ compare_signed x y
compare_signed-raw x y = ground arith

compare_signed-sign_of :
    (r : Numbers) (x y : ℤ) → compare_signed (sign_of r x y) (pos 0) ≡ compare_signed x y
compare_signed-sign_of r x y = ground arith

sign_of-IsFixnumRange : (r : Numbers) (x y : ℤ) → IsFixnumRange (sign_of r x y)
sign_of-IsFixnumRange r x y = ground arith

module _ (c : Consts) (r : Numbers) (d : IsDocumented c) (l : IsNumbers c r) where
  -- `norm` keeps the number of an integer and gives it Ruby's form.
  pub norm-Represents : (w : Value) → IsInteger r w → Represents r (denote r w) (norm c r w)
  norm-Represents w (inl h) = rw (norm_fixnum) (inl h, refl)
    where
      norm_fixnum : norm c r w ≡ w
      norm_fixnum = unfold norm in rw (integer_type_fixnum c r d w h, norm)
  norm-Represents w (inr h) = rw (norm_bignum, denote-bignum r w h) (l.norm_law w h)
    where
      norm_bignum : norm c r w ≡ r.rb_big_norm w
      norm_bignum = unfold norm in rw (integer_type_bignum c r d w h, norm)

  -- `==` of two integers holds exactly when their numbers are equal.
  pub eq_iff :
      (a b : Value)
      → IsInteger r a
      → IsInteger r b
      → (eq c r a b ≡ true) ↔ (denote r a ≡ denote r b)
  unfolding eq
  eq_iff a b (inr h) hb =
      rw (integer_type_bignum c r d a h, eq, denote-bignum r a h)
        (
          (λ e. (l.eq_law a b h hb).0 ((==_iff _ _).0 e)),
          (λ e. (==_iff _ _).1 ((l.eq_law a b h hb).1 e)),
        )
  eq_iff a b (inl h) hb = rw (integer_type_fixnum c r d a h, eq) (forth, back)
    where
      forth : (a == norm c r b) ≡ true → denote r a ≡ denote r b
      forth e = ap (denote r) ((==_iff _ _).0 e) ∙ (norm-Represents b hb).1

      back : denote r a ≡ denote r b → (a == norm c r b) ≡ true
      back e =
          let z : to_isize a ≡ denote r b = sym (denote-fixnum r a h) ∙ e in
          let word =
            Represents-fixnum_word r (denote r b) (norm c r b) (norm-Represents b hb)
              (rw (← z) (to_isize-IsFixnumRange a h)) in
          (==_iff _ _).1 (sym (fixnum_word-to_isize a h) ∙ ap fixnum_word z ∙ sym word)

  cmp_result :
      (a b : Value)
      → IsBignum r a
      → IsInteger r b
      → Casts.to_i64 c r (r.rb_big_cmp a b) ≡ ok (sign_of r (r.big a) (denote r b))
  cmp_result a b h hb =
      let sign = sign_of r (r.big a) (denote r b) in
      let range = sign_of-IsFixnumRange r (r.big a) (denote r b) in
      rw (l.cmp_law a b h hb) (
        unfold Casts.to_i64 to_i64 in
        rw
          (
            integer_type_fixnum c r d (fixnum_word sign) (fixnum_word-IsFixnumWord sign range),
            Casts.to_i64,
          )
          (ap ok (to_isize-fixnum_word sign range)))

  ruby_cmp :
      (a b : Value)
      → IsBignum r a
      → IsInteger r b
      → ruby_compare c r a b ≡ ok (some (compare_signed (r.big a) (denote r b)))
  unfolding ruby_compare
  ruby_cmp a b h hb =
      rw (cmp_result a b h hb, ruby_compare)
        (ap (λ o. ok (some o)) (compare_signed-sign_of r (r.big a) (denote r b)))

  -- `partial_cmp` of two integers never panics, and orders them as their numbers.
  partial_cmp_lem :
      (a b : Value)
      → IsInteger r a
      → IsInteger r b
      → partial_cmp c r a b ≡ ok (some (compare_signed (denote r a) (denote r b)))
  unfolding partial_cmp
  partial_cmp_lem a b (inr h) hb =
      rw (visit_bignum c r d a b (rust_compare c r) (ruby_compare c r) h, denote-bignum r a h)
        (ruby_cmp a b h hb)
  partial_cmp_lem a b (inl h) (inr k) =
      let made = l.int2big_law (to_isize a) (IsFixnumRange-IsI64 _ (to_isize-IsFixnumRange a h)) in
      rw (visit_mixed c r d a b (rust_compare c r) (ruby_compare c r) h k, denote-fixnum r a h)
        (subst
          (λ z.
            ruby_compare c r (r.rb_int2big (to_isize a)) b
            ≡ ok (some (compare_signed z (denote r b))))
          made.1 (ruby_cmp (r.rb_int2big (to_isize a)) b made.0 (inr k)))
  partial_cmp_lem a b (inl h) (inl k) =
      rw
        (
          visit_fixnum c r d a b (rust_compare c r) (ruby_compare c r) h k,
          denote-fixnum r a h,
          denote-fixnum r b k,
        )
        (unfold rust_compare in
          rw (raw_of c r d l a h, raw_of c r d l b k)
            (ap (λ o. ok (some o)) (compare_signed-raw (to_isize a) (to_isize b))))

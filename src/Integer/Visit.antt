-- ===== src/Integer/Visit.antt =====
-- How `binary_operation_visit` chooses between the fixnum operation and Ruby's, and the raw form
-- in which fixnums are added.
use mathlib.Core.Path.{subst}
use magnus.Prelude.{◌+◌, ◌*◌, ◌≡◌, ◌⊎◌, inl, inr, sym, ◌∙◌, some, none, arith}
use magnus.Prelude.Int.{ℤ, pos, negsuc, ◌+ℤ◌, ◌-ℤ◌}
use magnus.Bits.Word.{IsI64, to_word, to_signed}
use magnus.Ruby.{Value, Consts, IsDocumented}
use magnus.Ruby.Numbers.{Numbers, IsNumbers, Represents, IsInteger, IsBignum, denote}
use magnus.Fixnum.{to_isize}
use magnus.Fixnum.Encoding.{
  IsFixnumRange, IsFixnumWord, fixnum_word, fixnum_word-to_isize, to_isize-IsFixnumRange,
}
use magnus.Integer.Construct.{
  integer_type_fixnum, integer_type_bignum, denote-fixnum, denote-bignum, fixnum_word-Represents,
}
use magnus.Integer.{checked, binary_operation_visit}

-- A fixnum's word read as an `i64`: twice the number plus one.
abbrev pub raw : ℤ → ℤ
raw (pos n) = pos (n * 2 + 1)
raw (negsuc n) = negsuc (n * 2)

pub to_signed-fixnum_word : (z : ℤ) → IsFixnumRange z → to_signed (fixnum_word z) ≡ raw z
unfolding to_signed
to_signed-fixnum_word (pos n) h = ground arith
to_signed-fixnum_word (negsuc n) h = ground arith

pub to_word-raw : (z : ℤ) → IsI64 (raw z) → IsFixnumRange z × (to_word (raw z) ≡ fixnum_word z)
unfolding to_word
to_word-raw (pos n) h = ground arith
to_word-raw (negsuc n) h = ground arith

pub raw-add : (x y : ℤ) → raw x +ℤ raw y -ℤ pos 1 ≡ raw (x +ℤ y)
unfolding ◌+ℤ◌ ◌-ℤ◌
raw-add x y = ground arith

pub raw-sub : (x y : ℤ) → raw x -ℤ raw y +ℤ pos 1 ≡ raw (x -ℤ y)
unfolding ◌+ℤ◌ ◌-ℤ◌
raw-sub x y = ground arith

pub checked_cases : (z : ℤ) → (checked z ≡ none) ⊎ (IsI64 z × (checked z ≡ some z))
checked_cases z = ground arith

pub IsFixnumRange-IsI64 : (z : ℤ) → IsFixnumRange z → IsI64 z
IsFixnumRange-IsI64 z h = omega arith

module _ (c : Consts) (r : Numbers) (d : IsDocumented c) {T : Type 0} (a b : Value)
    (f g : Value → Value → T) where
  pub visit_bignum : IsBignum r a → binary_operation_visit c r a b f g ≡ g a b
  unfolding binary_operation_visit
  visit_bignum h = rw (integer_type_bignum c r d a h, binary_operation_visit)

  pub visit_mixed :
      IsFixnumWord a
      → IsBignum r b
      → binary_operation_visit c r a b f g ≡ g (r.rb_int2big (to_isize a)) b
  unfolding binary_operation_visit
  visit_mixed h k =
      rw (integer_type_fixnum c r d a h, integer_type_bignum c r d b k, binary_operation_visit)

  pub visit_fixnum : IsFixnumWord a → IsFixnumWord b → binary_operation_visit c r a b f g ≡ f a b
  unfolding binary_operation_visit
  visit_fixnum h k =
      rw (integer_type_fixnum c r d a h, integer_type_fixnum c r d b k, binary_operation_visit)

module _ (c : Consts) (r : Numbers) (d : IsDocumented c) (l : IsNumbers c r) where
  -- The path over Ruby's integers, which the fixnum operations take on overflow.
  pub big_path :
      (op : ℤ → ℤ → ℤ) (ruby_op : Value → Value → Value)
      → ((x y : Value)
          → IsBignum r x
          → IsInteger r y
          → Represents r (op (r.big x) (denote r y)) (ruby_op x y))
      → (a b : Value) → IsFixnumWord a
      → IsInteger r b
      → Represents r (op (denote r a) (denote r b)) (ruby_op (r.rb_int2big (to_isize a)) b)
  big_path op ruby_op ruby a b ha hb =
      let made =
        l.int2big_law (to_isize a)
          (IsFixnumRange-IsI64 (to_isize a) (to_isize-IsFixnumRange a ha)) in
      subst (λ z. Represents r (op z (denote r b)) (ruby_op (r.rb_int2big (to_isize a)) b))
        (made.1 ∙ sym (denote-fixnum r a ha)) (ruby (r.rb_int2big (to_isize a)) b made.0 hb)

  -- The closures' results carry over to every pair of integers.
  pub visit-Represents :
      (op : ℤ → ℤ → ℤ) (rust_op ruby_op : Value → Value → Value) (a b : Value)
      → IsInteger r a
      → IsInteger r b
      → ((x y : Value)
          → IsFixnumWord x
          → IsFixnumWord y
          → Represents r (op (to_isize x) (to_isize y)) (rust_op x y))
      → ((x y : Value)
          → IsBignum r x
          → IsInteger r y
          → Represents r (op (r.big x) (denote r y)) (ruby_op x y))
      → Represents r (op (denote r a) (denote r b)) (binary_operation_visit c r a b rust_op ruby_op)
  visit-Represents op f g a b (inr big) hb rust ruby =
      rw (visit_bignum c r d a b f g big, denote-bignum r a big) (ruby a b big hb)
  visit-Represents op f g a b (inl fix) (inr big) rust ruby =
      rw (visit_mixed c r d a b f g fix big) (big_path op g ruby a b fix (inr big))
  visit-Represents op f g a b (inl fix) (inl fix') rust ruby =
      rw (visit_fixnum c r d a b f g fix fix', denote-fixnum r a fix, denote-fixnum r b fix')
        (rust a b fix fix')

  -- A result that fits an `i64` in the raw form is the fixnum of the number.
  pub raw-Represents : (z i : ℤ) → i ≡ raw z → IsI64 i → Represents r z (to_word i)
  raw-Represents z i e h =
      let (range, word) = to_word-raw z (rw e at h) in
      rw (e, word) (fixnum_word-Represents r z range)

  pub raw_of : (w : Value) → IsFixnumWord w → to_signed w ≡ raw (to_isize w)
  raw_of w h =
      rw (fixnum_word-to_isize w h) at
        (to_signed-fixnum_word (to_isize w) (to_isize-IsFixnumRange w h))

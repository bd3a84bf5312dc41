-- ===== src/Symbol/Identity.antt =====
-- src/symbol.rs: which symbols are the same.
use magnus.Prelude.{
  ℕ, ◌≡◌, refl, sym, ◌∙◌, true, false, not, none, some, ok, err, panic, ◌==◌, if◌then◌else◌,
  Bool-cases, inl, inr,
}
use magnus.Ruby.{Value, Consts, Heap}
use magnus.Error.{Result}
use magnus.Value.{rb_type, is_static_symbol}
use magnus.Symbol.{
  SymbolCalls, typed, permanent, then_some, from_value, is_static, as_static,
  is_static_or_permanent_symbol, static_from_value, into_id_with, to_static,
}

-- What Ruby documents: `rb_id2sym` gives the symbol of a number, and `rb_intern_str` of a symbol's
-- name is the symbol's number.
pub record IsSymbolCalls (c : Consts) (r : SymbolCalls) : Type 0 where
  pub intern_law :
      (v : Value) → is_static_symbol c v ≡ false → r.rb_intern_str (r.rb_sym2str v) ≡ r.rb_sym2id v
  pub static_law : (id : ℕ) → is_static c r (r.rb_id2sym id) ≡ true
  pub number_law : (id : ℕ) → into_id_with c r (r.rb_id2sym id) ≡ id

module _ (c : Consts) (r : SymbolCalls) (h : Heap) where
  permanent_lem :
      (val : Value) (o : Result ℕ)
      → typed c r val o ≡ ok (some val)
      → then_some c r val (permanent c r val o)
        ≡ ok (if not (r.rb_check_id val == 0) then some val else none)
  permanent_lem val (ok t) e = elim (Bool-cases (t == c.t_symbol)) [
    | inl s ↦ rw s refl
    | inr s ↦ absurd (let e' : ok none ≡ ok (some val) = sym (rw s refl) ∙ e in cc e')
  ]
  permanent_lem val (err x) e = absurd cc
  permanent_lem val panic e = absurd cc

  -- For a symbol, `Symbol::as_static` and `StaticSymbol::from_value` say the same.
  pub static_from_value-as_static :
      (val : Value)
      → from_value c r h val ≡ ok (some val)
      → static_from_value c r h val ≡ ok (as_static c r val)
  unfolding from_value static_from_value as_static is_static is_static_or_permanent_symbol
  static_from_value-as_static val e = elim (Bool-cases (is_static_symbol c val)) [
    | inl s ↦ rw s refl
    | inr s ↦ rw s (permanent_lem val (rb_type c h val) (rw s at e))
  ]

  interned_number :
      (d : IsSymbolCalls c r) (val : Value)
      → is_static c r val ≡ false
      → r.rb_intern_str (r.rb_sym2str val) ≡ into_id_with c r val
  unfolding is_static into_id_with
  interned_number d val s = elim (Bool-cases (is_static_symbol c val)) [
    | inl t ↦ absurd (let e : true ≡ false = sym (rw t refl) ∙ s in cc e)
    | inr t ↦ rw t (d.intern_law val t)
  ]

  -- `to_static` of a symbol does not fail and is a static symbol with the symbol's own number.
  to_static_lem :
      (d : IsSymbolCalls c r) (val : Value)
      → from_value c r h val ≡ ok (some val)
      → (s : Value) × (to_static c r h val ≡ ok s)
        × (is_static c r s ≡ true)
        × (into_id_with c r s ≡ into_id_with c r val)
  unfolding to_static as_static
  to_static_lem d val e = elim (Bool-cases (is_static c r val)) [
    | inl s ↦ (val, rw (static_from_value-as_static val e) (rw s refl), s, refl)
    | inr s ↦ (
      r.rb_id2sym (r.rb_intern_str (r.rb_sym2str val)),
      rw (static_from_value-as_static val e) (rw s refl),
      d.static_law _,
      d.number_law _ ∙ interned_number d val s,
    )
  ]

-- ===== src/Symbol.antt =====
-- src/symbol.rs and src/value.rs: symbols, static ones, and the numbers (`Id`) behind them.
pub mod Identity
use magnus.Prelude.{
  ℕ, ◌/◌, ◌^◌, Bool, true, false, not, ◌||◌, Option, none, some, Outcome, ok, err, panic, ◌==◌,
  if◌then◌else◌,
}
use magnus.Ruby.{Value, Consts, Heap}
use magnus.Error.{Result, error, type_error}
use magnus.Value.{rb_type, is_static_symbol}

-- The functions of Ruby's C API on symbols; `rb_check_id` is 0 for a symbol with no number.
pub record SymbolCalls : Type 0 where
  pub rb_check_id : Value → ℕ
  pub rb_sym2id : Value → ℕ
  pub rb_sym2str : Value → Value
  pub rb_intern_str : Value → ℕ
  pub rb_id2sym : ℕ → Value

module _ (c : Consts) (r : SymbolCalls) where
  abbrev pub typed : Value → Result ℕ → Result (Option Value)
  typed val (ok t) = ok (if t == c.t_symbol then some val else none)
  typed val (err e) = err e
  typed val panic = panic

  unfoldable pub from_value : Heap → Value → Result (Option Value)
  from_value h val = if is_static_symbol c val then ok (some val) else typed val (rb_type c h val)

  abbrev converted : Result (Option Value) → Result Value
  converted (ok (some v)) = ok v
  converted (ok none) = err (error type_error "no implicit conversion into Symbol")
  converted (err e) = err e
  converted panic = panic

  unfoldable pub try_convert : Heap → Value → Result Value
  unfolding from_value
  try_convert h val = converted (from_value h val)

  unfoldable pub is_static : Value → Bool
  is_static self = if is_static_symbol c self then true else not (r.rb_check_id self == 0)

  unfoldable pub as_static : Value → Option Value
  unfolding is_static
  as_static self = if is_static self then some self else none

  -- `StaticSymbol::from_value`, with its `is_static_or_permanent_symbol`.
  abbrev pub permanent : Value → Result ℕ → Result Bool
  permanent val (ok t) = ok (if not (t == c.t_symbol) then false else not (r.rb_check_id val == 0))
  permanent val (err e) = err e
  permanent val panic = panic

  unfoldable pub is_static_or_permanent_symbol : Heap → Value → Result Bool
  is_static_or_permanent_symbol h val =
      if is_static_symbol c val then ok true else permanent val (rb_type c h val)

  abbrev pub then_some : Value → Result Bool → Result (Option Value)
  then_some val (ok b) = ok (if b then some val else none)
  then_some val (err e) = err e
  then_some val panic = panic

  unfoldable pub static_from_value : Heap → Value → Result (Option Value)
  unfolding is_static_or_permanent_symbol
  static_from_value h val = then_some val (is_static_or_permanent_symbol h val)

  -- `Symbol::into_id_with`
  unfoldable pub into_id_with : Value → ℕ
  into_id_with self =
      if is_static_symbol c self then self / 2 ^ c.special_shift else r.rb_sym2id self

  abbrev or_interned : Value → Result (Option Value) → Result Value
  or_interned self (ok (some s)) = ok s
  or_interned self (ok none) = ok (r.rb_id2sym (r.rb_intern_str (r.rb_sym2str self)))
  or_interned self (err e) = err e
  or_interned self panic = panic

  unfoldable pub to_static : Heap → Value → Result Value
  to_static h self = or_interned self (static_from_value h self)

  -- `Id == StaticSymbol` and `Id == Symbol`
  unfoldable pub id_eq_static : ℕ → Value → Bool
  id_eq_static self other = self == into_id_with other

  unfoldable pub id_eq_symbol : ℕ → Value → Bool
  unfolding id_eq_static
  id_eq_symbol self other = elim (as_static other) [ some o ↦ id_eq_static self o | none ↦ false ]

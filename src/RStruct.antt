-- ===== src/RStruct.antt =====
-- src/r_struct.rs: Ruby's structs. The members of a struct are read out of Ruby's memory by a layout
-- that the file declares again in `mod sys`.
pub mod Layout
use magnus.Prelude.{
  ℕ, suc, zero, ◌+◌, ◌*◌, ◌/◌, ◌^◌, Bool, true, false, not, Option, none, some, List, [], ◌∷◌, ok,
  err, panic, ◌>>=◌, ◌==◌, if◌then◌else◌, get_elem?, bit_and,
}
use magnus.Ruby.{Value, Consts, Heap}
use magnus.Error.{Result, error, type_error, index_error, Completion, protect}
use magnus.Value.{rb_type}
use magnus.Symbol as Symbol
use magnus.Symbol.{SymbolCalls}
use magnus.RArray.{collected}

-- `FL_USER2 | FL_USER1` and `FL_USHIFT + 1`
abbrev pub embed_len_mask : ℕ
embed_len_mask = 0x6000

abbrev embed_len_shift : ℕ
embed_len_shift = 13

-- Ruby's memory, by words of eight bytes.
abbrev pub Memory : Type 0
Memory = ℕ → ℕ

-- `slice::from_raw_parts`
abbrev pub words : Memory → ℕ → ℕ → List Value
words mem p zero = []
words mem p (suc n) = mem p ∷ words mem (p + 8) n

-- The words of `RStruct` behind its two of `RBasic`: the members, or their number and a pointer.
abbrev as_offset : ℕ
as_offset = 16

-- The functions of Ruby's C API on structs. A name is its bytes, and a list of names ends the
-- arguments of the variadic functions.
pub record StructCalls (S : Type 0) : Type 0 where
  pub rb_struct_aref : Value → Value → S → Completion Value × S
  pub rb_struct_aset : Value → Value → Value → S → Completion Value × S
  pub rb_struct_size : Value → S → Value
  pub rb_struct_members : Value → S → List Value
  pub rb_struct_getmember : Value → ℕ → S → Completion Value × S
  pub rb_struct_define : Option (List ℕ) → List (List ℕ) → S → Completion Value × S
  pub rb_data_define : Value → List (List ℕ) → S → Completion Value × S

-- `CString::new(s).unwrap()`: a name with a zero byte is an error.
abbrev c_string : List ℕ → Result (List ℕ)
c_string [] = ok []
c_string (b ∷ bs) = let rest = c_string bs in if b == 0 then panic else (rest >>= λ cs. ok (b ∷ cs))

abbrev c_strings : List (List ℕ) → Result (List (List ℕ))
c_strings [] = ok []
c_strings (s ∷ ss) = c_string s >>= λ t. c_strings ss >>= λ ts. ok (t ∷ ts)

abbrev c_name : Option (List ℕ) → Result (Option (List ℕ))
c_name none = ok none
c_name (some s) = c_string s >>= λ t. ok (some t)

module _ (c : Consts) where
  unfoldable pub from_value : Heap → Value → Result (Option Value)
  unfolding rb_type
  from_value h val = rb_type c h val >>= λ t. ok (if t == c.t_struct then some val else none)

  unfoldable try_convert : Heap → Value → Result Value
  unfolding from_value
  try_convert h val = from_value h val >>= λ handle. elim handle [
    | some v ↦ ok v
    | none ↦ err (error type_error "no implicit conversion into Struct")
  ]

  -- `as_slice` and `as_slice_unconstrained`
  unfoldable pub as_slice : Heap → Memory → Value → List Value
  as_slice h mem self =
      let len = bit_and (h.flags self) embed_len_mask in
      if not (len == 0)
      then words mem (self + as_offset) (len / 2 ^ embed_len_shift)
      else words mem (mem (self + as_offset + 8)) (mem (self + as_offset))

  abbrev got : {T : Type 0} → (Value → Result T) → Option Value → Result T
  got convert none = err (error index_error "offset too large for struct")
  got convert (some v) = convert v

  unfoldable pub get : {T : Type 0} → Heap → Memory → (Value → Result T) → Value → ℕ → Result T
  unfolding as_slice
  get h mem convert self index = got convert (get_elem? (as_slice h mem self) index)

module _ {S : Type 0} (c : Consts) (r : StructCalls S) where
  abbrev ended : {T : Type 0} → (Value → Result T) → Completion Value × S → Result T × S
  ended convert (completion, s) = ((protect c completion).result >>= convert, s)

  unfoldable aref : {T U : Type 0} → (T → Value) → (Value → Result U) → Value → T → S → Result U × S
  unfolding protect
  aref into convert self index s = ended convert (r.rb_struct_aref self (into index) s)

  unfoldable aset :
      {T U : Type 0} → (T → Value) → (U → Value) → Value → T → U → S → Result (Unit {0}) × S
  unfolding protect
  aset into into_val self index val s =
      ended (λ v. ok tt) (r.rb_struct_aset self (into index) (into_val val) s)

  -- `usize::try_convert(..).unwrap()`
  abbrev unwrapped : {A : Type 0} → Result A → Result A
  unwrapped (ok a) = ok a
  unwrapped (err e) = panic
  unwrapped panic = panic

  unfoldable size : (Value → Result ℕ) → Value → S → Result ℕ
  size usize_try_convert self s = unwrapped (usize_try_convert (r.rb_struct_size self s))

  abbrev named : {N : Type 0} → (Value → Result N) → Result (Option Value) → Result N
  named name (ok (some v)) = name v
  named name (ok none) = panic
  named name (err e) = err e
  named name panic = panic

  -- `map(|v| Symbol::from_value(*v).unwrap().name()).collect()`
  abbrev names :
      {N : Type 0} → SymbolCalls → Heap → (Value → Result N) → List Value → Result (List N)
  names q h name [] = ok []
  names q h name (v ∷ vs) = collected (named name (Symbol.from_value c q h v)) (names q h name vs)

  unfoldable members :
      {N : Type 0} → SymbolCalls → Heap → (Value → Result N) → Value → S → Result (List N)
  members q h name self s = names q h name (r.rb_struct_members self s)

  unfoldable getmember :
      {I U : Type 0} → (I → ℕ) → (Value → Result U) → Value → I → S → Result U × S
  unfolding protect
  getmember into_id convert self id s = ended convert (r.rb_struct_getmember self (into_id id) s)

  -- `define` and `define_data` of a tuple of names.
  abbrev then_call : {A : Type 0} → Result A → (A → S → Completion Value × S) → S → Result Value × S
  then_call (ok a) call s = ended (λ v. ok v) (call a s)
  then_call (err e) call s = (err e, s)
  then_call panic call s = (panic, s)

  unfoldable define : Option (List ℕ) → List (List ℕ) → S → Result Value × S
  unfolding protect
  define name member_names s =
      then_call {A = Option (List ℕ) × List (List ℕ)}
        (c_name name >>= λ n. c_strings member_names >>= λ ms. ok (n, ms))
        (λ p s'. r.rb_struct_define p.0 p.1 s') s

  abbrev class_or_zero : Option Value → Value
  class_or_zero none = 0
  class_or_zero (some v) = v

  unfoldable define_data : Option Value → List (List ℕ) → S → Result Value × S
  unfolding protect
  define_data super_class member_names s =
      then_call (c_strings member_names)
        (λ ms s'. r.rb_data_define (class_or_zero super_class) ms s') s

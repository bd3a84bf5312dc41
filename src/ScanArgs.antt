-- ===== src/ScanArgs.antt =====
-- src/scan_args.rs: `scan_args`, `get_kwargs` and `check_arity`.
pub mod Calls
pub mod Format
pub mod Scan
pub mod Accessors
pub mod Untyped
pub mod Typed
pub mod Parts
pub mod Arity
pub mod Whole
pub mod Keywords
pub mod Limit
pub mod Convert
use magnus.Prelude.{
  ℕ, ◌+◌, ◌-◌, ◌*◌, ◌≤◌, ◌%◌, ◌/◌, suc, zero, Bool, true, false, not, ◌&&◌, ◌||◌, Option, none,
  some, List, [], ◌∷◌, ◌++◌, ok, err, panic, ◌>>=◌, ◌>>◌, ltb, ◌==◌, if◌then◌else◌, take, drop,
  replicate, length, get_elem?, map, min,
}
use magnus.Prelude.Int.{ℤ, pos, negsuc}
use magnus.Ruby.{Value, Consts}
use magnus.Error.{Result, Completion, protect, ErrorType, error, arg_error}
use magnus.Value.{is_nil, is_undef}
use magnus.ScanArgs.Calls.{ScanCalls, Char, digit, star, colon, ampersand}

pub record ArgSpec : Type 0 where
  pub required : ℕ
  pub optional : ℕ
  pub splat : Bool
  pub trailing : ℕ
  pub keywords : Bool
  pub block : Bool

abbrev pub count : Bool → ℕ
count true = 1
count false = 0

-- `ArgSpec::new`
unfoldable pub new : ℕ → ℕ → Bool → ℕ → Bool → Bool → Result ArgSpec
new required optional splat trailing keywords block =
    if ltb 9 required
    then panic
    else if ltb 9 optional
    then panic
    else if ltb 9 trailing
    then panic
    else ok (record {
      required = required;
      optional = optional;
      splat = splat;
      trailing = trailing;
      keywords = keywords;
      block = block;
    })

-- `ArgSpec::len`
unfoldable pub len : ArgSpec → ℕ
len spec =
    spec.required
    + spec.optional
    + count spec.splat
    + spec.trailing
    + count spec.keywords
    + count spec.block

abbrev pub written : Bool → List Char → List Char
written true cs = cs
written false cs = []

-- The decimal digits of a number.
abbrev decimal_fuel : ℕ → ℕ → List Char
decimal_fuel zero n = []
decimal_fuel (suc fuel) n =
    let rest = decimal_fuel fuel (n / 10) in
    if ltb n 10 then digit n ∷ [] else rest ++ (digit (n % 10) ∷ [])

abbrev pub decimal : ℕ → List Char
decimal n = decimal_fuel (suc n) n

-- `ArgSpec`'s `Display`.
unfoldable pub to_string : ArgSpec → List Char
to_string spec =
    written (ltb 0 spec.required || (ltb 0 spec.optional || ltb 0 spec.trailing))
      (decimal spec.required)
    ++ (written (ltb 0 spec.optional || (not spec.splat && ltb 0 spec.trailing))
          (decimal spec.optional)
        ++ (written spec.splat (star ∷ [])
            ++ (written (ltb 0 spec.trailing) (decimal spec.trailing)
                ++ (written spec.keywords (colon ∷ []) ++ written spec.block (ampersand ∷ [])))))

-- `&xs[start..end]`, which panics out of range.
abbrev pub slice : {A : Type 0} → ℕ → ℕ → List A → Result (List A)
slice start end xs =
    if ltb end start
    then panic
    else if ltb (length xs) end
    then panic
    else ok (take (end - start) (drop start xs))

-- `xs[i]`, which panics out of range.
abbrev pub index : ℕ → List Value → Result Value
index i xs = elim (get_elem? xs i) [ some v ↦ ok v | none ↦ panic ]

-- `a - b` on `usize`, with overflow checks.
abbrev pub checked_sub : ℕ → ℕ → Result ℕ
checked_sub a b = if ltb a b then panic else ok (a - b)

-- `flag.then(f)`
abbrev pub then_call : {A : Type 0} → Bool → Result A → Result (Option A)
then_call true call = call >>= λ a. ok (some a)
then_call false call = ok none

pub record ScannedArgs : Type 0 where
  pub arg_spec : ArgSpec
  pub args : List Value
  pub parsed : ℕ

unfoldable pub required : ScannedArgs → Result (List Value)
required self = slice 0 self.arg_spec.required self.args

unfoldable pub optional : ScannedArgs → Result (List Value)
optional self = do
  let start = self.arg_spec.required
  rest ← checked_sub self.parsed start
  rest ← checked_sub rest self.arg_spec.trailing
  let end = start + min self.arg_spec.optional rest
  slice start end self.args

unfoldable pub splat : ScannedArgs → Result (Option Value)
splat self =
    then_call self.arg_spec.splat
      (index (self.arg_spec.required + self.arg_spec.optional) self.args)

unfoldable pub trailing : ScannedArgs → Result (List Value)
trailing self =
    let start = self.arg_spec.required + self.arg_spec.optional + count self.arg_spec.splat in
    let end = start + self.arg_spec.trailing in slice start end self.args

unfoldable pub keywords : ScannedArgs → Result (Option Value)
keywords self = then_call self.arg_spec.keywords (
    index
      (self.arg_spec.required
        + self.arg_spec.optional
        + count self.arg_spec.splat
        + self.arg_spec.trailing)
      self.args)

unfoldable pub block : ScannedArgs → Result (Option Value)
block self = then_call self.arg_spec.block (
    index
      (self.arg_spec.required
        + self.arg_spec.optional
        + count self.arg_spec.splat
        + self.arg_spec.trailing
        + count self.arg_spec.keywords)
      self.args)

-- `[qnil; 30]`
unfoldable pub nils : Consts → List Value
nils c = replicate 30 c.qnil

module _ (c : Consts) (r : ScanCalls) where
  -- The variables at `out` are overwritten in order by what `rb_scan_args` stores.
  unfoldable pub scan_args_impl : List Value → List Char → List Value → Result (List Value × ℕ)
  scan_args_impl args fmt out =
      if ltb (length out) 30
      then (do
        done ← (protect c (r.rb_scan_args args fmt)).result
        ok (done.1 ++ drop (length done.1) out, done.0))
      else panic

  unfoldable pub scan_args_untyped : List Value → ArgSpec → Result ScannedArgs
  scan_args_untyped args arg_spec = do
    let out = nils c
    done ← scan_args_impl args (to_string arg_spec) (take (len arg_spec) out)
    ok (record { arg_spec = arg_spec; args = done.0 ++ drop (len arg_spec) out; parsed = done.1 })

-- ===== src/ScanArgs/Convert.antt =====
-- src/scan_args.rs: the traits behind the type parameters of `scan_args` and `get_kwargs`, these
-- two functions, and `check_arity`. A tuple of types is the list of their `TryConvert`
-- conversions, into the sum `T` of the types.
use magnus.Prelude.{
  ℕ, ◌+◌, ◌-◌, Bool, true, false, not, ◌&&◌, Option, none, some, List, [], ◌∷◌, ◌++◌, ok, err,
  panic, ◌>>=◌, ltb, leb, ◌==◌, if◌then◌else◌, length, replicate, drop,
}
use magnus.Prelude.Int.{ℤ, pos, negsuc, ◌-ℤ◌, ◌+ℤ◌}
use magnus.Bits.Word.{as_signed}
use magnus.Ruby.{Value, Consts}
use magnus.Error.{Result, protect, error, arg_error}
use magnus.Value.{is_nil, is_undef}
use magnus.ScanArgs.Calls.{ScanCalls}
use magnus.ScanArgs.{
  new, count, slice, then_call, required, optional, splat, trailing, keywords, block,
  scan_args_untyped,
}

abbrev pub Conversion : Type 0 → Type 0
Conversion T = Value → Result T

module _ {T : Type 0} where
  -- `(TryConvert::try_convert(vals[0])?, ...)`
  abbrev pub convert_all : List (Conversion T) → List Value → Result (List T)
  convert_all (conv ∷ convs) (v ∷ vals) = do t ← conv v; ts ← convert_all convs vals; ok (t ∷ ts)
  convert_all [] vals = ok []
  convert_all (conv ∷ convs) [] = panic

  -- `ScanArgsRequired::from_slice`
  unfoldable pub required_from_slice : List (Conversion T) → List Value → Result (List T)
  required_from_slice types vals =
      if length vals == length types then convert_all types vals else panic

  -- `.filter(|v| !v.is_undef()).map(TryConvert::try_convert).transpose()`
  abbrev pub convert_given : Consts → Conversion T → Value → Result (Option T)
  convert_given c conv v = if is_undef c v then ok none else (do t ← conv v; ok (some t))

  abbrev pub convert_options : Consts → List (Conversion T) → List Value → Result (List (Option T))
  convert_options c [] vals = ok []
  convert_options c (conv ∷ convs) [] = do ts ← convert_options c convs []; ok (none ∷ ts)
  convert_options c (conv ∷ convs) (v ∷ vals) = do
    t ← convert_given c conv v
    ts ← convert_options c convs vals
    ok (t ∷ ts)

  -- `ScanArgsOpt::from_slice`
  unfoldable pub optional_from_slice :
      Consts → List (Conversion T) → List Value → Result (List (Option T))
  optional_from_slice c types vals =
      if leb (length vals) (length types) then convert_options c types vals else panic

  -- `ScanArgsSplat`: `()`, or `RArray` and `Vec<T>`.
  unfoldable pub splat_from_opt : Option (Conversion T) → Option Value → Result (Option T)
  splat_from_opt none none = ok none
  splat_from_opt none (some val) = panic
  splat_from_opt (some conv) none = panic
  splat_from_opt (some conv) (some val) = conv val >>= λ t. ok (some t)

  -- `ScanArgsKw`: `()`, or `RHash`, which is a new hash where `nil` stands for no keywords.
  unfoldable pub keywords_from_opt :
      Consts → T → Option (Conversion T) → Option Value → Result (Option T)
  keywords_from_opt c hash_new none none = ok none
  keywords_from_opt c hash_new none (some val) = panic
  keywords_from_opt c hash_new (some conv) none = panic
  keywords_from_opt c hash_new (some conv) (some val) =
      if is_nil c val then ok (some hash_new) else (conv val >>= λ t. ok (some t))

-- The types that implement `ScanArgsBlock`: `()`, `Proc` and `Option<Proc>`.
pub data BlockType (T : Type 0) : Type 0 where
  no_block : BlockType T
  proc : Conversion T → BlockType T
  option_proc : Conversion T → BlockType T

abbrev pub is_required : {T : Type 0} → Option T → Bool
is_required none = false
is_required (some t) = true

abbrev pub is_block : {T : Type 0} → BlockType T → Bool
is_block no_block = false
is_block (proc conv) = true
is_block (option_proc conv) = true

unfoldable pub block_from_opt :
    {T : Type 0} → Consts → BlockType T → Option Value → Result (Option T)
block_from_opt c no_block none = ok none
block_from_opt c no_block (some val) = panic
block_from_opt c (proc conv) none = panic
block_from_opt c (proc conv) (some val) =
    if is_nil c val then err (error arg_error "no block given") else (conv val >>= λ t. ok (some t))
block_from_opt c (option_proc conv) none = panic
block_from_opt c (option_proc conv) (some val) = conv val >>= λ t. ok (some t)

-- The type parameters of `scan_args`.
pub record Types (T : Type 0) : Type 0 where
  pub req : List (Conversion T)
  pub opt : List (Conversion T)
  pub rest : Option (Conversion T)
  pub trail : List (Conversion T)
  pub kw : Option (Conversion T)
  pub blk : BlockType T
  pub hash_new : T

pub record Args (T : Type 0) : Type 0 where
  pub required : List T
  pub optional : List (Option T)
  pub splat : Option T
  pub trailing : List T
  pub keywords : Option T
  pub block : Option T

unfoldable pub scan_args :
    {T : Type 0} → Consts → ScanCalls → Types T → List Value → Result (Args T)
scan_args c r types args = do
  arg_spec ←
      new (length types.req) (length types.opt) (is_required types.rest) (length types.trail)
        (is_required types.kw) (is_block types.blk)
  scanned_args ← scan_args_untyped c r args arg_spec
  v ← required scanned_args
  req ← required_from_slice types.req v
  v ← optional scanned_args
  opt ← optional_from_slice c types.opt v
  v ← splat scanned_args
  rest ← splat_from_opt types.rest v
  v ← trailing scanned_args
  trail ← required_from_slice types.trail v
  v ← keywords scanned_args
  kw ← keywords_from_opt c types.hash_new types.kw v
  v ← block scanned_args
  blk ← block_from_opt c types.blk v
  ok (record {
    required = req;
    optional = opt;
    splat = rest;
    trailing = trail;
    keywords = kw;
    block = blk;
  })

pub record KwArgs (T : Type 0) : Type 0 where
  pub required : List T
  pub optional : List (Option T)
  pub splat : Option T

-- The number of optional names, negated and less one where other names are allowed.
unfoldable pub optional_len : Bool → ℕ → ℤ
optional_len rest n = if rest then pos 0 -ℤ (as_signed 8 (pos n) +ℤ pos 1) else as_signed 8 (pos n)

-- `[qnil; 19]`
unfoldable pub kwarg_nils : Consts → List Value
kwarg_nils c = replicate 19 c.qnil

-- `get_kwargs`; `ids` are the names, converted by `into_id_with`.
unfoldable pub get_kwargs :
    {T : Type 0} → Consts → ScanCalls → Types T → Value → List ℕ → List ℕ → Result (KwArgs T)
get_kwargs c r types kw req_ids opt_ids =
    if not (length req_ids == length types.req)
    then panic
    else if not (length opt_ids == length types.opt)
    then panic
    else (do
      let rest = is_required types.kw
      let ids = req_ids ++ opt_ids
      let out = kwarg_nils c
      let total = length types.req + length types.opt + count rest
      vars ← slice 0 total out
      parsed ←
          (protect c
            (r.rb_get_kwargs kw ids (length req_ids) (optional_len rest (length opt_ids)))).result
      let stored = parsed.1 ++ drop (length parsed.1) out
      let opt_end = length types.req + length types.opt
      v ← slice 0 (length types.req) stored
      req ← required_from_slice types.req v
      v ← slice (length types.req) opt_end stored
      opt ← optional_from_slice c types.opt v
      v ← then_call rest (ok kw)
      sp ← keywords_from_opt c types.hash_new types.kw v
      ok (record { required = req; optional = opt; splat = sp }))

pub data Bound : Type 0 where
  included : ℕ → Bound
  excluded : ℕ → Bound
  unbounded : Bound

-- `RangeBounds::contains`
abbrev pub above_start : Bound → ℕ → Bool
above_start (included s) n = leb s n
above_start (excluded s) n = ltb s n
above_start unbounded n = true

abbrev pub below_end : Bound → ℕ → Bool
below_end (included e) n = leb n e
below_end (excluded e) n = ltb n e
below_end unbounded n = true

abbrev pub contains : Bound → Bound → ℕ → Bool
contains start end n = above_start start n && below_end end n

-- The bounds that `rb_error_arity` is told, as C integers.
unfoldable pub min_arity : Bound → Result ℤ
min_arity (included v) = ok (as_signed 32 (pos v))
min_arity (excluded v) = panic
min_arity unbounded = ok (pos 0)

unfoldable pub max_arity : Bound → ℤ
max_arity (included v) = as_signed 32 (pos v)
max_arity (excluded v) = if v == 0 then pos 0 else as_signed 32 (pos (v - 1))
max_arity unbounded = negsuc 0

unfoldable pub check_arity : Consts → ScanCalls → ℕ → Bound → Bound → Result Unit
check_arity c r len start end =
    if not (contains start end len)
    then (do
      least ← min_arity start
      raised ← (protect c (r.rb_error_arity (as_signed 32 (pos len)) least (max_arity end))).result
      ok tt)
    else ok tt

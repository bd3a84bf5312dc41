-- ===== src/Tests/ScanTests.antt =====
-- The properties of `scan_args`, `get_kwargs` and `check_arity` at concrete arguments.
use magnus.Prelude.{
  ℕ, ◌+◌, ◌≡◌, ◌↔◌, refl, true, false, none, some, List, [], ◌∷◌, ◌++◌, replicate, ok, err, panic,
  arith, if◌then◌else◌, ltb,
}
use magnus.Ruby.{Value, modern}
use magnus.Error.{error, range_error}
use magnus.ScanArgs.{
  ArgSpec, ScannedArgs, len, to_string, scan_args_untyped, required, optional, splat, trailing,
}
use magnus.ScanArgs.Format.{read_format, read_format-to_string}
use magnus.ScanArgs.Untyped.{scan_args_untyped-append}
use magnus.ScanArgs.Convert.{
  Conversion, Types, Args, KwArgs, no_block, option_proc, scan_args, get_kwargs,
}
use magnus.ScanArgs.Whole.{scan_args_iff, IsConverted}
use magnus.ScanArgs.Keywords.{get_kwargs_iff, IsKwConverted}
use magnus.ScanArgs.Limit.{full_spec, scan_args_untyped_panics}
use magnus.Tests.SampleScan.{documented, calls, calls-IsScanArgs, calls-IsGetKwargs, lookup, others}

-- Odd values are integers, and 9 is no argument.
abbrev convert : Conversion ℕ
convert v = if ltb v 0x1000 then ok (v + 1) else err (error range_error "too large")

abbrev keep : Conversion ℕ
keep v = ok v

abbrev spec : ArgSpec
spec = record {
  required = 1;
  optional = 2;
  splat = true;
  trailing = 1;
  keywords = false;
  block = true;
}

abbrev no_splat : ArgSpec
no_splat = record {
  required = 1;
  optional = 1;
  splat = false;
  trailing = 1;
  keywords = false;
  block = false;
}

abbrev types : Types ℕ
types = record {
  req = convert ∷ [];
  opt = convert ∷ (convert ∷ []);
  rest = some keep;
  trail = convert ∷ [];
  kw = none;
  blk = option_proc keep;
  hash_new = 0;
}

abbrev args : List Value
args = 1 ∷ (3 ∷ (5 ∷ (7 ∷ (11 ∷ (13 ∷ [])))))

abbrev scanned_args : Args ℕ
scanned_args = record {
  required = 2 ∷ [];
  optional = some 4 ∷ (some 6 ∷ []);
  splat = some 0x1010;
  trailing = 14 ∷ [];
  keywords = none;
  block = some 0x3000;
}

abbrev kw_types : Types ℕ
kw_types = record {
  req = convert ∷ [];
  opt = convert ∷ (convert ∷ []);
  rest = none;
  trail = [];
  kw = some keep;
  blk = no_block;
  hash_new = 0;
}

abbrev kw_args : KwArgs ℕ
kw_args = record { required = 4 ∷ []; optional = some 6 ∷ (none ∷ []); splat = some 0x7000 }

scan_args_iff_example :
    (scan_args modern calls types args ≡ ok scanned_args)
    ↔ IsConverted modern calls documented calls-IsScanArgs types
        (1 ∷ [])
        (3 ∷ (5 ∷ []))
        (some 0x1010)
        (13 ∷ [])
        none
        (some 0x3000)
        scanned_args
scan_args_iff_example =
    scan_args_iff modern calls documented calls-IsScanArgs types args scanned_args
      (omega arith, omega arith, omega arith) (unfold len in omega arith)
      (omega arith, λ e. absurd cc)

scan_args_untyped-append_example :
    (out : ScannedArgs) × (a b rest d : List Value) × (scan_args_untyped modern calls args spec
      ≡ ok out)
    × (required out ≡ ok a)
    × (optional out ≡ ok b)
    × (splat out ≡ ok (some (documented.array rest)))
    × (trailing out ≡ ok d)
    × (a ++ (b ++ (rest ++ d)) ≡ args)
    × (rest ≡ rest)
scan_args_untyped-append_example =
    scan_args_untyped-append modern calls documented calls-IsScanArgs spec args
      (omega arith, omega arith, omega arith) (unfold len in omega arith)
      (omega arith, λ e. absurd cc)

abbrev many_args : List Value
many_args = replicate 29 1

scan_args_untyped_panics_example :
    (scan_args_untyped modern calls many_args full_spec ≡ panic) ↔ (full_spec ≡ full_spec)
scan_args_untyped_panics_example =
    scan_args_untyped_panics modern calls documented calls-IsScanArgs full_spec many_args
      (omega arith, omega arith, omega arith) (omega arith, λ e. absurd cc)

get_kwargs_iff_example :
    (get_kwargs modern calls kw_types 0x7000 (1 ∷ []) (2 ∷ (200 ∷ [])) ≡ ok kw_args)
    ↔ IsKwConverted modern calls lookup others calls-IsGetKwargs kw_types 0x7000
        (3 ∷ [])
        (5 ∷ (0x24 ∷ []))
        (some 0x7000)
        kw_args
get_kwargs_iff_example =
    get_kwargs_iff modern calls lookup others calls-IsGetKwargs kw_types 0x7000 (1 ∷ [])
      (2 ∷ (200 ∷ [])) kw_args refl refl (omega arith) (omega arith) refl (λ e. absurd cc)

read_format-to_string_example : read_format (to_string spec) ≡ some spec
read_format-to_string_example = read_format-to_string spec (omega arith, omega arith, omega arith)

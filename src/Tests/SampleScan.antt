-- ===== src/Tests/SampleScan.antt =====
-- Concrete forms of `rb_scan_args`, `rb_get_kwargs` and `rb_error_arity`. An array's value is made
-- of its length, and the last argument is the keywords.
use mathlib.Core.List.{map-append}
use magnus.Prelude.{
  ℕ, ◌+◌, ◌-◌, ◌*◌, ◌≡◌, ◌≤◌, refl, Bool, true, false, ◌&&◌, ◌||◌, Option, none, some, List, ◌++◌,
  map, ltb, leb, if◌then◌else◌, arith, length, take, ap, Bool-cases, ◌⊎◌, inl, inr,
}
use magnus.Prelude.Int.{ℤ}
use magnus.Ruby.{Value, modern}
use magnus.Error.{Completion, returned, unwound, raise}
use magnus.ScanArgs.Calls.{ScanCalls}
use magnus.ScanArgs.{ArgSpec}
use magnus.ScanArgs.Format.{read_format}
use magnus.ScanArgs.Scan.{Documented, IsScanArgs, IsArity, stored}
use magnus.ScanArgs.Keywords.{IsGetKwargs, found}

abbrev pub documented : Documented
documented = record {
  array = λ vs. 0x1000 + length vs * 8;
  positional = λ keywords args. if keywords then take (length args - 1) args else args;
  keywords_of = λ args. 0x2000;
  block_of = 0x3000;
}

abbrev arity_test : ArgSpec → List Value → Bool
arity_test s p =
    leb (s.required + s.trailing) (length p)
    && (s.splat || leb (length p) (s.required + s.trailing + s.optional))

abbrev scan_as : Option ArgSpec → List Value → Completion (ℕ × List Value)
scan_as none args = unwound raise 0x4000
scan_as (some s) args =
    if arity_test s (documented.positional s.keywords args)
    then returned (length (documented.positional s.keywords args), stored modern documented s args)
    else unwound raise 0x5000

abbrev pub lookup : Value → ℕ → Option Value
lookup kw id = if ltb id 100 then some (id * 2 + 1) else none

abbrev pub others : Value → List ℕ → Bool
others kw ids = false

abbrev pub error_of : ℤ → ℤ → ℤ → Value
error_of n least most = 0x6000

abbrev pub calls : ScanCalls
calls = record {
  rb_scan_args = λ args fmt. scan_as (read_format fmt) args;
  rb_get_kwargs =
      λ kw ids required optional. returned (length ids, map (found modern lookup kw) ids);
  rb_error_arity = λ n least most. unwound raise (error_of n least most);
}

arity_test-IsArity : (s : ArgSpec) (p : List Value) → IsArity s p → arity_test s p ≡ true
arity_test-IsArity s p h = go s.splat h.1
  where
    go :
        (b : Bool)
        → ((b ≡ false) → length p ≤ s.required + s.trailing + s.optional)
        → (leb (s.required + s.trailing) (length p)
            && (b || leb (length p) (s.required + s.trailing + s.optional)))
          ≡ true
    go true f = ground (arith, h.0)
    go false f = ground (arith, h.0, f refl)

IsArity-arity_test : (s : ArgSpec) (p : List Value) → arity_test s p ≡ true → IsArity s p
IsArity-arity_test s p h = (ground arith, λ b. few (rw b at h))
  where
    few :
        (leb (s.required + s.trailing) (length p)
            && leb (length p) (s.required + s.trailing + s.optional))
          ≡ true
        → length p ≤ s.required + s.trailing + s.optional
    few e = ground arith

pub calls-IsScanArgs : IsScanArgs modern calls documented
calls-IsScanArgs = record {
  scan_law =
      λ fmt s args e h. rw (e, arity_test-IsArity s (documented.positional s.keywords args) h) refl;
  arity_law = λ fmt s args e h. (0x5000, rw e (refused s args h));
}
  where
    refused :
        (s : ArgSpec) (args : List Value)
        → ¬ IsArity s (documented.positional s.keywords args)
        → scan_as (some s) args ≡ unwound raise 0x5000
    refused s args h = go (Bool-cases (arity_test s (documented.positional s.keywords args)))
      where
        go :
            (arity_test s (documented.positional s.keywords args) ≡ true)
              ⊎ (arity_test s (documented.positional s.keywords args) ≡ false)
            → scan_as (some s) args ≡ unwound raise 0x5000
        go (inl e) = absurd (h (IsArity-arity_test s (documented.positional s.keywords args) e))
        go (inr e) = rw e refl

pub calls-IsGetKwargs : IsGetKwargs modern calls lookup others
calls-IsGetKwargs = record {
  kwargs_law = λ kw req opt rest present known. (
    length (req ++ opt),
    ap (λ xs. returned (length (req ++ opt), xs)) (map-append (found modern lookup kw) req opt),
  );
}

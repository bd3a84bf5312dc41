-- ===== src/ScanArgs/Format.antt =====
-- The format string of `rb_scan_args`, read by the grammar that Ruby documents for it.
use magnus.Prelude.{
  ℕ, ◌≡◌, ◌≤◌, ◌↔◌, Bool, true, false, Option, none, some, List, [], ◌∷◌, ok, arith,
}
use magnus.ScanArgs.Calls.{Char, digit, star, colon, ampersand}
use magnus.ScanArgs.{ArgSpec, new, to_string, decimal}

-- What follows the numbers of arguments: ":" and "&", each at most once, in this order.
abbrev pub read_flags : ℕ → ℕ → Bool → ℕ → List Char → Option ArgSpec
read_flags lead opt rest trail cs = elim cs [
  | [] ↦ some (record {
    required = lead;
    optional = opt;
    splat = rest;
    trailing = trail;
    keywords = false;
    block = false;
  })
  | (colon ∷ []) ↦ some (record {
    required = lead;
    optional = opt;
    splat = rest;
    trailing = trail;
    keywords = true;
    block = false;
  })
  | (ampersand ∷ []) ↦ some (record {
    required = lead;
    optional = opt;
    splat = rest;
    trailing = trail;
    keywords = false;
    block = true;
  })
  | (colon ∷ (ampersand ∷ [])) ↦ some (record {
    required = lead;
    optional = opt;
    splat = rest;
    trailing = trail;
    keywords = true;
    block = true;
  })
  | _ ↦ none
]

-- The number of trailing mandatory arguments, which stands only behind "*" or behind two digits.
abbrev pub read_trailing : ℕ → ℕ → Bool → List Char → Option ArgSpec
read_trailing lead opt rest (digit n ∷ cs) = read_flags lead opt rest n cs
read_trailing lead opt rest cs = read_flags lead opt rest 0 cs

abbrev pub read_optional : ℕ → List Char → Option ArgSpec
read_optional lead (digit n ∷ (star ∷ cs)) = read_trailing lead n true cs
read_optional lead (digit n ∷ cs) = read_trailing lead n false cs
read_optional lead (star ∷ cs) = read_trailing lead 0 true cs
read_optional lead cs = read_flags lead 0 false 0 cs

-- The documented grammar:
--   scan-arg-spec := [lead [optional]] ["*"] [trailing] [":"] ["&"]
-- where a trailing number without "*" stands behind a leading and an optional one.
unfoldable pub read_format : List Char → Option ArgSpec
read_format (digit n ∷ cs) = read_optional n cs
read_format (star ∷ cs) = read_trailing 0 0 true cs
read_format cs = read_flags 0 0 false 0 cs

-- The fields fit one digit each.
abbrev pub IsSpec : ArgSpec → Type 0
IsSpec s = (s.required ≤ 9) × (s.optional ≤ 9) × (s.trailing ≤ 9)

decimal-digit : (n : ℕ) → n ≤ 9 → decimal n ≡ digit n ∷ []
decimal-digit n h = ground arith

digits_lem :
    (r o : ℕ) (sp : Bool) (t : ℕ) (k b : Bool)
    → r ≤ 9
    → o ≤ 9
    → t ≤ 9
    → read_format (
        to_string (record {
          required = r;
          optional = o;
          splat = sp;
          trailing = t;
          keywords = k;
          block = b;
        }))
      ≡ some
          (record { required = r; optional = o; splat = sp; trailing = t; keywords = k; block = b })
unfolding read_format to_string
digits_lem r o true t k b hr ho ht =
    rw (decimal-digit r hr, decimal-digit o ho, decimal-digit t ht) (ground arith)
digits_lem r o false t k b hr ho ht =
    rw (decimal-digit r hr, decimal-digit o ho, decimal-digit t ht) (ground arith)

-- `new` gives a specification exactly when the three numbers of arguments are at most nine, and it
-- is then the one with these fields.
pub new-IsSpec :
    (r o : ℕ) (sp : Bool) (t : ℕ) (k b : Bool) (s : ArgSpec)
    → (new r o sp t k b ≡ ok s) ↔ (
        IsSpec s
        × (s ≡ record {
          required = r;
          optional = o;
          splat = sp;
          trailing = t;
          keywords = k;
          block = b;
        }))
unfolding new
new-IsSpec r o sp t k b s = (
  λ e. ground arith,
  λ (h, e). let g : (r ≤ 9) × (o ≤ 9) × (t ≤ 9) = rw e at h in rw e (ground arith),
)

-- The format that is written for a specification is read as this specification by the grammar
-- that Ruby documents. Each number of arguments is at most nine.
pub read_format-to_string : (s : ArgSpec) → IsSpec s → read_format (to_string s) ≡ some s
read_format-to_string s h =
    digits_lem s.required s.optional s.splat s.trailing s.keywords s.block h.0 h.1 h.2

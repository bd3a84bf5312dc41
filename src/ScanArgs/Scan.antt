-- ===== src/ScanArgs/Scan.antt =====
-- What `scan_args_untyped` and the accessors of `ScannedArgs` read, against the documented
-- assignment of arguments.
use magnus.Prelude.{
  ℕ, ◌≡◌, ◌≢◌, ◌≤◌, ◌<◌, ◌+◌, ◌-◌, suc, zero, refl, ◌↔◌, ◌⊎◌, inl, inr, Bool, true, false, not,
  ◌&&◌, ◌||◌, Option, none, some, List, [], ◌∷◌, ◌++◌, ok, err, panic, ltb, leb, if◌then◌else◌,
  arith, ap, sym, ◌∙◌, min, length, take, drop, replicate, get_elem?, ltb→lt, Bool-cases,
  length-append, length-take, append_nil, drop_all, lt→ltb, drop-append, take-append, drop-drop,
  take-drop_append, append_assoc, get_elem?-append, length-drop, length-pad, take-length_append,
  drop-length_append, pad,
}
use magnus.Ruby.{Value, Consts}
use magnus.Error.{returned, unwound, protect, exception, raise}
use magnus.ScanArgs.Calls.{Char, ScanCalls}
use magnus.ScanArgs.Format.{read_format, IsSpec, read_format-to_string}
use magnus.ScanArgs.{
  ArgSpec, ScannedArgs, len, to_string, scan_args_impl, scan_args_untyped, nils, count,
}

-- The parts into which Ruby documents that positional arguments are split.
module _ (s : ArgSpec) (positional : List Value) where
  abbrev pub IsArity : Type 0
  IsArity =
      (s.required + s.trailing ≤ length positional)
      × ((s.splat ≡ false) → length positional ≤ s.required + s.trailing + s.optional)

  abbrev pub leading_part : List Value
  leading_part = take s.required positional

  abbrev pub optional_part : List Value
  optional_part =
      take (min s.optional (length positional - s.required - s.trailing))
        (drop s.required positional)

  -- Between the optional and the trailing arguments.
  abbrev pub splat_part : List Value
  splat_part =
      take (length positional - s.required - s.trailing - s.optional)
        (drop (s.required + s.optional) positional)

  abbrev pub trailing_part : List Value
  trailing_part = drop (length positional - s.trailing) positional

-- What Ruby documents of `rb_scan_args`, with the functions that make an array, take the keywords
-- off the arguments, and find the block.
pub record Documented : Type 0 where
  pub array : List Value → Value
  pub positional : Bool → List Value → List Value
  pub keywords_of : List Value → Value
  pub block_of : Value

abbrev pub values : Bool → Value → List Value
values true v = v ∷ []
values false v = []

abbrev pub stored : Consts → Documented → ArgSpec → List Value → List Value
stored c e s args =
    let p = e.positional s.keywords args in
    leading_part s p
    ++ (pad s.optional c.qnil (optional_part s p)
        ++ (values s.splat (e.array (splat_part s p))
            ++ (trailing_part s p
                ++ (values s.keywords (e.keywords_of args) ++ values s.block e.block_of))))

pub record IsScanArgs (c : Consts) (r : ScanCalls) (e : Documented) : Type 0 where
  pub scan_law :
      (fmt : List Char) (s : ArgSpec) (args : List Value)
      → read_format fmt ≡ some s
      → IsArity s (e.positional s.keywords args)
      → r.rb_scan_args args fmt
        ≡ returned (length (e.positional s.keywords args), stored c e s args)
  pub arity_law :
      (fmt : List Char) (s : ArgSpec) (args : List Value)
      → read_format fmt ≡ some s
      → ¬ IsArity s (e.positional s.keywords args)
      → (error : Value) × (r.rb_scan_args args fmt ≡ unwound raise error)

pub length-nils : (c : Consts) → length (nils c) ≡ 30
unfolding nils
length-nils c = refl

pub length-values : (b : Bool) (v : Value) → length (values b v) ≡ count b
length-values true v = refl
length-values false v = refl

-- A call of `rb_scan_args` that returns is handed on, up to 29 variables.
scan_args_impl-returned :
    (c : Consts) (r : ScanCalls) (args : List Value) (fmt : List Char) (out : List Value) (n : ℕ)
    (vs : List Value)
    → length out < 30
    → length vs ≡ length out
    → r.rb_scan_args args fmt ≡ returned (n, vs)
    → scan_args_impl c r args fmt out ≡ ok (vs, n)
unfolding scan_args_impl protect
scan_args_impl-returned c r args fmt out n vs small fit done =
    rw (lt→ltb (length out) 30 small, done, drop_all (length vs) out (omega arith), append_nil vs)
      refl

scan_args_impl-unwound :
    (c : Consts) (r : ScanCalls) (args : List Value) (fmt : List Char) (out : List Value)
    (error : Value)
    → length out < 30
    → r.rb_scan_args args fmt ≡ unwound raise error
    → scan_args_impl c r args fmt out ≡ err (exception error)
unfolding scan_args_impl protect
scan_args_impl-unwound c r args fmt out error small done =
    rw (lt→ltb (length out) 30 small, done) refl

pub ruleset length_rules = (length-append, length-take, length-drop, length-pad)

length-out : (c : Consts) (n : ℕ) → n ≤ 30 → length (take n (nils c)) ≡ n
length-out c n h = omega (arith, length-take n (nils c), length-nils c)

module _ (c : Consts) (r : ScanCalls) (e : Documented) (l : IsScanArgs c r e) where
  -- The `ScannedArgs` of a call.
  abbrev pub scanned : ArgSpec → List Value → ScannedArgs
  scanned s args = record {
    arg_spec = s;
    args = stored c e s args ++ drop (len s) (nils c);
    parsed = length (e.positional s.keywords args);
  }

  pub length-stored :
      (s : ArgSpec) (args : List Value)
      → IsArity s (e.positional s.keywords args)
      → length (stored c e s args) ≡ len s
  unfolding len
  length-stored s args h = simp length_rules (
      omega (
        arith,
        length-values s.splat (e.array (splat_part s (e.positional s.keywords args))),
        length-values s.keywords (e.keywords_of args),
        length-values s.block e.block_of,
      ))

  pub scan_args_untyped-scanned :
      (s : ArgSpec) (args : List Value)
      → IsSpec s
      → len s < 30
      → IsArity s (e.positional s.keywords args)
      → scan_args_untyped c r args s ≡ ok (scanned s args)
  unfolding scan_args_untyped
  scan_args_untyped-scanned s args hs small arity =
      let out = length-out c (len s) (omega arith) in
      rw
        (scan_args_impl-returned c r args (to_string s) (take (len s) (nils c)) _
          (stored c e s args) (omega arith) (length-stored s args arity ∙ sym out)
          (l.scan_law (to_string s) s args (read_format-to_string s hs) arity))
        refl

  -- With a number of arguments that the specification does not allow, `scan_args_untyped` gives an
  -- exception as its error. The specification asks for fewer than 30 values.
  pub scan_args_untyped-arity :
      (s : ArgSpec) (args : List Value)
      → IsSpec s
      → len s < 30
      → ¬ IsArity s (e.positional s.keywords args)
      → (error : Value) × (scan_args_untyped c r args s ≡ err (exception error))
  unfolding scan_args_untyped
  scan_args_untyped-arity s args hs small bad =
      let out = length-out c (len s) (omega arith) in
      let (error, raised) = l.arity_law (to_string s) s args (read_format-to_string s hs) bad in
      (
        error,
        rw
            (scan_args_impl-unwound c r args (to_string s) (take (len s) (nils c)) error
              (omega arith) raised)
            refl,
      )

-- ===== src/ScanArgs/Limit.antt =====
-- The specification that `scan_args_untyped` cannot serve.
use native.Mathlib.Decide.{dec_lt}
use magnus.Prelude.{
  ℕ, ◌≡◌, ◌≤◌, refl, ◌↔◌, Bool, true, false, List, ok, panic, arith, length, length-take, take, ap,
  sym, ◌∙◌,
}
use magnus.Ruby.{Value, Consts}
use magnus.Error.{Result}
use magnus.ScanArgs.Calls.{ScanCalls}
use magnus.ScanArgs.{count, len, ArgSpec, ScannedArgs, scan_args_untyped, nils, scan_args_impl}
use magnus.ScanArgs.Format.{IsSpec}
use magnus.ScanArgs.Scan.{IsArity, Documented, IsScanArgs, length-nils}
use magnus.ScanArgs.Accessors.{not_less}
use magnus.ScanArgs.Keywords.{count-le}
use magnus.ScanArgs.Untyped.{scan_args_untyped-Reads}

-- All that a specification can ask for.
abbrev pub full_spec : ArgSpec
full_spec = record {
  required = 9;
  optional = 9;
  splat = true;
  trailing = 9;
  keywords = true;
  block = true;
}

fields_lem :
    (r o : ℕ) (sp : Bool) (t : ℕ) (k b : Bool)
    → r ≡ 9
    → o ≡ 9
    → sp ≡ true
    → t ≡ 9
    → k ≡ true
    → b ≡ true
    → ◌≡◌ {A = ArgSpec}
        (record { required = r; optional = o; splat = sp; trailing = t; keywords = k; block = b })
        full_spec
fields_lem r o sp t k b er eo es et ek eb = rw (er, eo, es, et, ek, eb) refl

counted : (b : Bool) → 1 ≤ count b → b ≡ true
counted true h = refl
counted false h = absurd (omega arith)

only_full : (s : ArgSpec) → IsSpec s → 30 ≤ len s → s ≡ full_spec
unfolding len
only_full s hs h =
    let sp = count-le s.splat in
    let kw = count-le s.keywords in
    let bl = count-le s.block in
    fields_lem s.required s.optional s.splat s.trailing s.keywords s.block (omega arith)
      (omega arith) (counted s.splat (omega arith)) (omega arith) (counted s.keywords (omega arith))
      (counted s.block (omega arith))

full_panics :
    (c : Consts) (r : ScanCalls) (args : List Value) → scan_args_untyped c r args full_spec ≡ panic
unfolding scan_args_untyped scan_args_impl len
full_panics c r args = rw (not_less (length (take 30 (nils c))) 30 full) refl
  where
    full : 30 ≤ length (take 30 (nils c))
    full = omega (arith, length-take 30 (nils c), length-nils c)

module _ (c : Consts) (r : ScanCalls) (e : Documented) (l : IsScanArgs c r e) where
  -- Among the specifications within the documented limits, at most nine arguments of each kind,
  -- `scan_args_untyped` panics on exactly one, that of nine required, nine optional and nine
  -- trailing arguments, a splat, keywords and a block; the number of arguments is allowed.
  pub scan_args_untyped_panics :
      (s : ArgSpec) (args : List Value)
      → IsSpec s
      → IsArity s (e.positional s.keywords args)
      → (scan_args_untyped c r args s ≡ panic) ↔ (s ≡ full_spec)
  scan_args_untyped_panics s args hs arity = (
    (λ h. elim (dec_lt (len s) 30) [
      | yes small ↦
          let (out, done, reads) = scan_args_untyped-Reads c r e l s args hs small arity in
          let both : ◌≡◌ {A = Result ScannedArgs} panic (ok out) = sym h ∙ done in absurd cc
      | no large ↦ only_full s hs (omega (arith, large))
    ]),
    λ same. ap (scan_args_untyped c r args) same ∙ full_panics c r args,
  )

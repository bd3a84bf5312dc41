-- ===== src/ScanArgs/Untyped.antt =====
-- `scan_args_untyped` as a whole: what it reads, that it reads each argument once, and its errors.
use native.Mathlib.Decide.{dec_le}
use magnus.Prelude.{
  ℕ, ◌≡◌, ◌≤◌, ◌<◌, ◌+◌, ◌-◌, refl, inl, inr, List, [], ◌++◌, ok, if◌then◌else◌, arith, ap, sym,
  ◌∙◌, min, length, take, drop, Bool-cases, drop-drop, take-drop_append,
}
use magnus.Ruby.{Value, Consts}
use magnus.ScanArgs.Calls.{ScanCalls}
use magnus.ScanArgs.Format.{IsSpec}
use magnus.ScanArgs.{
  ArgSpec, ScannedArgs, len, required, optional, splat, trailing, scan_args_untyped,
}
use magnus.ScanArgs.Scan.{
  IsArity, leading_part, optional_part, splat_part, trailing_part, Documented, IsScanArgs, scanned,
  scan_args_untyped-scanned,
}
use magnus.ScanArgs.Accessors.{Reads, scanned-Reads, stored-layout, when}

module _ (c : Consts) (r : ScanCalls) (e : Documented) (l : IsScanArgs c r e) where
  -- With a number of arguments that the specification allows, `scan_args_untyped` succeeds, and
  -- the accessors give the leading arguments, those of the optional ones that are given, the
  -- array of what is left, the trailing ones, the keywords and the block. The specification asks
  -- for fewer than 30 values.
  pub scan_args_untyped-Reads :
      (s : ArgSpec) (args : List Value)
      → IsSpec s
      → len s < 30
      → IsArity s (e.positional s.keywords args)
      → (out : ScannedArgs) × (scan_args_untyped c r args s ≡ ok out) × Reads c e s args out
  scan_args_untyped-Reads s args hs small arity = (
    scanned c r e l s args,
    scan_args_untyped-scanned c r e l s args hs small arity,
    scanned-Reads c e s args _ (stored-layout c e s args arity) arity,
  )

take_none : (n : ℕ) (xs : List Value) → n ≡ 0 → take n xs ≡ []
take_none n xs h = rw h refl

parts_append :
    (s : ArgSpec) (p : List Value)
    → IsArity s p
    → leading_part s p ++ (optional_part s p ++ (splat_part s p ++ trailing_part s p)) ≡ p
parts_append s p h = ap (λ t. leading_part s p ++ t) from_optional ∙ take-drop_append s.required p
  where
    given : ℕ
    given = min s.optional (length p - s.required - s.trailing)

    none_left : ¬ s.optional ≤ length p - s.required - s.trailing → splat_part s p ≡ []
    none_left few = take_none _ (drop (s.required + s.optional) p) (omega arith)

    from_splat : splat_part s p ++ trailing_part s p ≡ drop given (drop s.required p)
    from_splat = elim (dec_le s.optional (length p - s.required - s.trailing)) [
      | yes all ↦
          ap (λ t. splat_part s p ++ t)
            (sym (
              drop-drop (s.required + s.optional) (length p - s.required - s.trailing - s.optional)
                (length p - s.trailing) p (omega arith)))
          ∙ take-drop_append _ (drop (s.required + s.optional) p)
          ∙ sym (drop-drop s.required given (s.required + s.optional) p (omega arith))
      | no few ↦
          rw (none_left few)
            (sym (drop-drop s.required given (length p - s.trailing) p (omega arith)))
    ]

    from_optional : optional_part s p ++ (splat_part s p ++ trailing_part s p) ≡ drop s.required p
    from_optional = rw from_splat (take-drop_append given (drop s.required p))

module _ (c : Consts) (r : ScanCalls) (e : Documented) (l : IsScanArgs c r e) where
  -- With a number of arguments that the specification allows, and fewer than 30 values asked for,
  -- no argument is lost, read twice or moved: the required and the optional arguments, those of the
  -- splat's array and the trailing ones are, one after the other, the positional arguments. Without
  -- a splat, no argument stands where its array would.
  pub scan_args_untyped-append :
      (s : ArgSpec) (args : List Value)
      → IsSpec s
      → len s < 30
      → IsArity s (e.positional s.keywords args)
      → (out : ScannedArgs) × (a b rest d : List Value) × (scan_args_untyped c r args s ≡ ok out)
        × (required out ≡ ok a)
        × (optional out ≡ ok b)
        × (splat out ≡ ok (when s.splat (e.array rest)))
        × (trailing out ≡ ok d)
        × (a ++ (b ++ (rest ++ d)) ≡ e.positional s.keywords args)
        × (rest ≡ (if s.splat then rest else []))
  scan_args_untyped-append s args hs small arity =
      let p = e.positional s.keywords args in
      let (out, done, (ra, rb, rs, rd, rk, rbl)) =
        scan_args_untyped-Reads c r e l s args hs small arity in
      (
        out,
        leading_part s p,
        optional_part s p,
        splat_part s p,
        trailing_part s p,
        done,
        ra,
        rb,
        rs,
        rd,
        parts_append s p arity,
        elim (Bool-cases s.splat) [
          | inl t ↦ rw t refl
          | inr b ↦ rw b (take_none _ (drop (s.required + s.optional) p) (omega (arith, arity.1 b)))
        ],
      )

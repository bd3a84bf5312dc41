-- ===== src/ScanArgs/Whole.antt =====
-- `scan_args` from the call of `rb_scan_args` to the converted fields.
use mathlib.Core.Path.{subst}
use magnus.Prelude.{◌≡◌, ◌<◌, refl, ◌↔◌, Option, List, ok, ◌>>=◌, length}
use magnus.Ruby.{Value, Consts}
use magnus.Error.{Result}
use magnus.ScanArgs.Calls.{ScanCalls}
use magnus.ScanArgs.Format.{IsSpec, new-IsSpec}
use magnus.ScanArgs.{
  ArgSpec, ScannedArgs, len, required, optional, splat, trailing, keywords, block,
  scan_args_untyped,
}
use magnus.ScanArgs.Scan.{
  IsArity, leading_part, optional_part, splat_part, trailing_part, Documented, IsScanArgs,
}
use magnus.ScanArgs.Accessors.{when}
use magnus.ScanArgs.Untyped.{scan_args_untyped-Reads}
use magnus.ScanArgs.Convert.{
  required_from_slice, optional_from_slice, splat_from_opt, keywords_from_opt, block_from_opt,
  Types, Args, scan_args, is_required, is_block,
}
use magnus.ScanArgs.Parts.{
  ConvertsSplat, ConvertsKeywords, ConvertsBlock, splat_from_opt_iff, keywords_from_opt_iff,
  block_from_opt_iff,
}
use magnus.ScanArgs.Typed.{
  Converts, ConvertsGiven, required_from_slice_iff, optional_from_slice_iff, bind_ok, ok_injective,
}

-- The specification that the type parameters give.
abbrev pub spec_of : {T : Type 0} → Types T → ArgSpec
spec_of types = record {
  required = length types.req;
  optional = length types.opt;
  splat = is_required types.rest;
  trailing = length types.trail;
  keywords = is_required types.kw;
  block = is_block types.blk;
}

module _ {T : Type 0} (c : Consts) (r : ScanCalls) (e : Documented) (l : IsScanArgs c r e)
    (types : Types T) where
  -- The conversions of six values read.
  abbrev converted :
      List Value
      → List Value
      → Option Value
      → List Value
      → Option Value
      → Option Value
      → Result (Args T)
  converted va vb vs vd vk vl = do
    req ← required_from_slice types.req va
    opt ← optional_from_slice c types.opt vb
    rest ← splat_from_opt types.rest vs
    trail ← required_from_slice types.trail vd
    kw ← keywords_from_opt c types.hash_new types.kw vk
    blk ← block_from_opt c types.blk vl
    ok (record {
      required = req;
      optional = opt;
      splat = rest;
      trailing = trail;
      keywords = kw;
      block = blk;
    })

  -- `a` holds the conversions of six values, field by field.
  abbrev pub IsConverted :
      List Value
      → List Value
      → Option Value
      → List Value
      → Option Value
      → Option Value
      → Args T
      → Type 0
  IsConverted va vb vs vd vk vl a =
      Converts types.req va a.required
      × ConvertsGiven c types.opt vb a.optional
      × ConvertsSplat types.rest vs a.splat
      × Converts types.trail vd a.trailing
      × ConvertsKeywords c types.hash_new types.kw vk a.keywords
      × ConvertsBlock c types.blk vl a.block

  converted_iff :
      (va vb : List Value) (vs : Option Value) (vd : List Value) (vk vl : Option Value) (a : Args T)
      → (converted va vb vs vd vk vl ≡ ok a) ↔ IsConverted va vb vs vd vk vl a
  converted_iff va vb vs vd vk vl a = (forth, back)
    where
      forth : converted va vb vs vd vk vl ≡ ok a → IsConverted va vb vs vd vk vl a
      forth h =
          let (req, e1, h1) = bind_ok (required_from_slice types.req va) _ a h in
          let (opt, e2, h2) = bind_ok (optional_from_slice c types.opt vb) _ a h1 in
          let (rest, e3, h3) = bind_ok (splat_from_opt types.rest vs) _ a h2 in
          let (trail, e4, h4) = bind_ok (required_from_slice types.trail vd) _ a h3 in
          let (kw, e5, h5) = bind_ok (keywords_from_opt c types.hash_new types.kw vk) _ a h4 in
          let (blk, e6, h6) = bind_ok (block_from_opt c types.blk vl) _ a h5 in
          subst (IsConverted va vb vs vd vk vl) (ok_injective h6) (
            (required_from_slice_iff types.req va req).0 e1,
            (optional_from_slice_iff c types.opt vb opt).0 e2,
            (splat_from_opt_iff types.rest vs rest).0 e3,
            (required_from_slice_iff types.trail vd trail).0 e4,
            (keywords_from_opt_iff c types.hash_new types.kw vk kw).0 e5,
            (block_from_opt_iff c types.blk vl blk).0 e6,
          )

      back : IsConverted va vb vs vd vk vl a → converted va vb vs vd vk vl ≡ ok a
      back (h1, h2, h3, h4, h5, h6) =
          rw
            (
              (required_from_slice_iff types.req va a.required).1 h1,
              (optional_from_slice_iff c types.opt vb a.optional).1 h2,
              (splat_from_opt_iff types.rest vs a.splat).1 h3,
              (required_from_slice_iff types.trail vd a.trailing).1 h4,
              (keywords_from_opt_iff c types.hash_new types.kw vk a.keywords).1 h5,
              (block_from_opt_iff c types.blk vl a.block).1 h6,
            )
            refl

  scan_args-converted :
      (args va vb : List Value) (vs : Option Value) (vd : List Value) (vk vl : Option Value)
      (out : ScannedArgs)
      → IsSpec (spec_of types)
      → scan_args_untyped c r args (spec_of types) ≡ ok out
      → required out ≡ ok va
      → optional out ≡ ok vb
      → splat out ≡ ok vs
      → trailing out ≡ ok vd
      → keywords out ≡ ok vk
      → block out ≡ ok vl
      → scan_args c r types args ≡ converted va vb vs vd vk vl
  unfolding scan_args
  scan_args-converted args va vb vs vd vk vl out hs done ea eb es ed ek el =
      rw ((new-IsSpec _ _ _ _ _ _ (spec_of types)).1 (hs, refl), done, ea, eb, es, ed, ek, el) refl

  -- `scan_args` succeeds exactly when the documented parts of the arguments convert, and gives
  -- their conversions: the leading and trailing arguments and the optional ones that are given,
  -- one by one, the array of the others, the keywords, which are a new hash where Ruby has none, and
  -- the block, which a `Proc` needs and which may be nil for an `Option<Proc>`; a part that the types
  -- do not ask for is left out. At most nine types are in a tuple, fewer than 30 values in all, and the number of arguments is allowed.
  pub scan_args_iff :
      (args : List Value) (a : Args T)
      → IsSpec (spec_of types)
      → len (spec_of types) < 30
      → IsArity (spec_of types) (e.positional (is_required types.kw) args)
      → (scan_args c r types args ≡ ok a)
        ↔ IsConverted
            (leading_part (spec_of types) (e.positional (is_required types.kw) args))
            (optional_part (spec_of types) (e.positional (is_required types.kw) args))
            (when
              (is_required types.rest)
              (e.array (splat_part (spec_of types) (e.positional (is_required types.kw) args))))
            (trailing_part (spec_of types) (e.positional (is_required types.kw) args))
            (when (is_required types.kw) (e.keywords_of args))
            (when (is_block types.blk) e.block_of)
            a
  scan_args_iff args a hs small arity =
      let (out, done, (ea, eb, es, ed, ek, el)) =
        scan_args_untyped-Reads c r e l (spec_of types) args hs small arity in
      rw (scan_args-converted args _ _ _ _ _ _ out hs done ea eb es ed ek el)
        (converted_iff _ _ _ _ _ _ a)

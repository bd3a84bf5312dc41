-- ===== src/ScanArgs/Accessors.antt =====
-- The accessors of `ScannedArgs` read the parts that Ruby documents.
use mathlib.Core.Path.{Path}
use magnus.Prelude.{
  ℕ, ◌≡◌, ◌≤◌, ◌+◌, ◌-◌, suc, zero, refl, Bool, true, false, Option, none, some, List, [], ◌∷◌,
  ◌++◌, ok, panic, ltb, if◌then◌else◌, arith, ap, sym, min, length, drop, replicate, length-append,
  pad-append, drop-append, take-append, append_assoc, get_elem?-append,
}
use magnus.Ruby.{Value, Consts}
use magnus.Error.{Result}
use magnus.ScanArgs.{
  ArgSpec, ScannedArgs, len, required, optional, splat, trailing, keywords, block, nils, count,
  slice, index, then_call,
}
use magnus.ScanArgs.Scan.{
  IsArity, leading_part, optional_part, splat_part, trailing_part, values, stored, Documented,
  length_rules, length-values,
}

pub slice_lem :
    (start end : ℕ) (whole xs ys zs : List Value)
    → whole ≡ xs ++ (ys ++ zs)
    → length xs ≡ start
    → start + length ys ≡ end
    → slice start end whole ≡ ok ys
slice_lem start end whole xs ys zs e hx hy =
    rw (e, drop-append start xs (ys ++ zs) hx, take-append (end - start) ys zs (omega arith))
      in_range
  where
    in_range :
        Path
          (Result (List Value))
          (if ltb end start
            then panic
            else if ltb (length (xs ++ (ys ++ zs))) end
            then panic
            else ok ys)
          (ok ys)
    in_range = ground (arith, length-append xs (ys ++ zs), length-append ys zs)

index_lem :
    (i : ℕ) (whole xs : List Value) (v : Value) (zs : List Value)
    → whole ≡ xs ++ (v ∷ zs)
    → length xs ≡ i
    → index i whole ≡ ok v
index_lem i whole xs v zs e h = rw (e, index, get_elem?-append i xs (v ∷ zs) h) refl

-- `Some` of the value where the flag is set.
abbrev pub when : Bool → Value → Option Value
when true v = some v
when false v = none

pub then_call_lem :
    (b : Bool) (v : Value) (call : Result Value)
    → ((b ≡ true) → call ≡ ok v)
    → then_call b call ≡ ok (when b v)
then_call_lem true v call h = rw (h refl) refl
then_call_lem false v call h = refl

module _ (a given unused splat trail kw block tail : List Value) where
  -- The order in which the values are stored.
  abbrev pub whole : List Value
  whole = (a ++ ((given ++ unused) ++ (splat ++ (trail ++ (kw ++ block))))) ++ tail

  at_required : (n : ℕ) → n ≡ length a → slice 0 n whole ≡ ok a
  at_required n h =
      slice_lem 0 n whole [] a (((given ++ unused) ++ (splat ++ (trail ++ (kw ++ block)))) ++ tail)
        (append_assoc a _ tail) refl (omega arith)

  at_optional : (m n : ℕ) → m ≡ length a → n ≡ m + length given → slice m n whole ≡ ok given
  at_optional m n hm hn =
      slice_lem m n whole a given (unused ++ (splat ++ (trail ++ (kw ++ (block ++ tail)))))
        (simp append_assoc refl) (omega arith) (omega arith)

  at_trailing :
      (m n : ℕ)
      → m ≡ length a + length given + length unused + length splat
      → n ≡ m + length trail
      → slice m n whole ≡ ok trail
  at_trailing m n hm hn =
      slice_lem m n whole (a ++ (given ++ (unused ++ splat))) trail (kw ++ (block ++ tail))
        (simp append_assoc refl) (simp length-append (omega arith)) (omega arith)

  at_splat :
      (n : ℕ) (v : Value) (rest : List Value)
      → n ≡ length a + length given + length unused
      → splat ≡ v ∷ rest
      → index n whole ≡ ok v
  at_splat n v rest h e =
      index_lem n whole (a ++ (given ++ unused)) v (rest ++ (trail ++ (kw ++ (block ++ tail))))
        (rw e (simp append_assoc refl)) (simp length-append (omega arith))

  at_keywords :
      (n : ℕ) (v : Value) (rest : List Value)
      → n ≡ length a + length given + length unused + length splat + length trail
      → kw ≡ v ∷ rest
      → index n whole ≡ ok v
  at_keywords n v rest h e =
      index_lem n whole (a ++ (given ++ (unused ++ (splat ++ trail)))) v (rest ++ (block ++ tail))
        (rw e (simp append_assoc refl)) (simp length-append (omega arith))

  at_block :
      (n : ℕ) (v : Value) (rest : List Value)
      → n ≡ length a + length given + length unused + length splat + length trail + length kw
      → block ≡ v ∷ rest
      → index n whole ≡ ok v
  at_block n v rest h e =
      index_lem n whole (a ++ (given ++ (unused ++ (splat ++ (trail ++ kw))))) v (rest ++ tail)
        (rw e (simp append_assoc refl)) (simp length-append (omega arith))

pub not_less : (a b : ℕ) → b ≤ a → ltb a b ≡ false
not_less a b h = ground arith

optional_of :
    (s : ArgSpec) (xs v : List Value) (n : ℕ)
    → s.required + s.trailing ≤ n
    → slice s.required (s.required + min s.optional (n - s.required - s.trailing)) xs ≡ ok v
    → optional (record { arg_spec = s; args = xs; parsed = n }) ≡ ok v
unfolding optional
optional_of s xs v n h e =
    rw (not_less n s.required (omega arith), not_less (n - s.required) s.trailing (omega arith)) e

values_when : (b : Bool) (v : Value) → b ≡ true → values b v ≡ v ∷ []
values_when true v h = refl
values_when false v h = absurd cc

module _ (c : Consts) (e : Documented) (s : ArgSpec) (args : List Value) where
  abbrev pub p : List Value
  p = e.positional s.keywords args

  -- The optional variables that get no argument.
  abbrev pub unused_count : ℕ
  unused_count = s.optional - min s.optional (length p - s.required - s.trailing)

  abbrev pub layout : List Value
  layout =
      whole (leading_part s p) (optional_part s p) (replicate unused_count c.qnil)
        (values s.splat (e.array (splat_part s p))) (trailing_part s p)
        (values s.keywords (e.keywords_of args)) (values s.block e.block_of) (drop (len s) (nils c))

  pub stored-layout : IsArity s p → stored c e s args ++ drop (len s) (nils c) ≡ layout
  stored-layout h =
      rw
        (pad-append s.optional unused_count c.qnil (optional_part s p)
          (simp length_rules (omega arith)))
        refl

  -- What the accessors read.
  abbrev pub Reads : ScannedArgs → Type 0
  Reads out =
      (required out ≡ ok (leading_part s p))
      × (optional out ≡ ok (optional_part s p))
      × (splat out ≡ ok (when s.splat (e.array (splat_part s p))))
      × (trailing out ≡ ok (trailing_part s p))
      × (keywords out ≡ ok (when s.keywords (e.keywords_of args)))
      × (block out ≡ ok (when s.block e.block_of))

  abbrev unused : List Value
  unused = replicate unused_count c.qnil

  abbrev kw : List Value
  kw = values s.keywords (e.keywords_of args)

  abbrev blk : List Value
  blk = values s.block e.block_of

  abbrev rest_array : List Value
  rest_array = values s.splat (e.array (splat_part s p))

  abbrev tail : List Value
  tail = drop (len s) (nils c)

  length-replicate_nil : (n : ℕ) → length (replicate n c.qnil) ≡ n
  length-replicate_nil zero = refl
  length-replicate_nil (suc n) = ap suc (length-replicate_nil n)

  -- How long the parts of the layout are.
  lengths :
      IsArity s p
      → (length (leading_part s p) ≡ s.required)
        × (length (optional_part s p) ≡ min s.optional (length p - s.required - s.trailing))
        × (length (optional_part s p) + length unused ≡ s.optional)
        × (length rest_array ≡ count s.splat)
        × (length (trailing_part s p) ≡ s.trailing)
        × (length kw ≡ count s.keywords)
  lengths h = (
    simp length_rules (omega arith),
    simp length_rules (omega arith),
    simp length_rules (omega (arith, length-replicate_nil unused_count)),
    length-values s.splat _,
    simp length_rules (omega arith),
    length-values s.keywords _,
  )

  pub scanned-Reads :
      (xs : List Value)
      → xs ≡ layout
      → IsArity s p
      → Reads (record { arg_spec = s; args = xs; parsed = length p })
  unfolding required splat trailing keywords block
  scanned-Reads xs ea h =
      let (la, lg, lu, ls, lt, lk) = lengths h in
      let lead = leading_part s p in
      let given = optional_part s p in
      let trail = trailing_part s p in
      rw ea (
        at_required lead given unused rest_array trail kw blk tail s.required (sym la),
        optional_of s layout given (length p) h.0 (
            at_optional lead given unused rest_array trail kw blk tail s.required _ (sym la)
              (omega (arith, lg))),
        then_call_lem s.splat _ _ (λ b.
            at_splat lead given unused rest_array trail kw blk tail _ _ [] (omega (arith, la, lu))
              (values_when s.splat _ b)),
        at_trailing lead given unused rest_array trail kw blk tail _ _ (omega (arith, la, lu, ls))
            (omega (arith, lt)),
        then_call_lem s.keywords _ _ (λ b.
            at_keywords lead given unused rest_array trail kw blk tail _ _ []
              (omega (arith, la, lu, ls, lt)) (values_when s.keywords _ b)),
        then_call_lem s.block _ _ (λ b.
            at_block lead given unused rest_array trail kw blk tail _ _ []
              (omega (arith, la, lu, ls, lt, lk)) (values_when s.block _ b)),
      )

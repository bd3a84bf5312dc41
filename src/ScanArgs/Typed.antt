-- ===== src/ScanArgs/Typed.antt =====
-- `scan_args` and `get_kwargs` with their conversions.
use mathlib.Core.Path.{Path, subst}
use magnus.Prelude.{
  ◌≡◌, ◌≤◌, suc, refl, ◌↔◌, ◌⊎◌, inl, inr, true, false, Option, none, some, List, [], ◌∷◌, Outcome,
  ok, err, panic, ◌>>=◌, leb, ◌==◌, arith, ap, length, Bool-cases, ==_iff, leb→le,
}
use magnus.Ruby.{Value, Consts}
use magnus.Value.{is_undef}
use magnus.ScanArgs.Convert.{
  Conversion, convert_all, required_from_slice, convert_given, convert_options, optional_from_slice,
}

-- The values are converted one by one.
pub data Converts {T : Type 0} : List (Conversion T) → List Value → List T → Type 0 where
  done : Converts [] [] []
  next :
      {conv : Conversion T} {v : Value} {t : T} {convs : List (Conversion T)} {vs : List Value}
      {ts : List T}
      → conv v ≡ ok t
      → Converts convs vs ts
      → Converts (conv ∷ convs) (v ∷ vs) (t ∷ ts)

pub bind_ok :
    {E A B : Type 0} (m : Outcome E A) (f : A → Outcome E B) (b : B)
    → (m >>= f) ≡ ok b
    → (a : A) × (m ≡ ok a) × (f a ≡ ok b)
bind_ok (ok a) f b h = (a, refl, h)
bind_ok (err e) f b h = absurd cc
bind_ok panic f b h = absurd cc

pub Converts-length :
    {T : Type 0} {types : List (Conversion T)} {vals : List Value} {ts : List T}
    → Converts types vals ts
    → length vals ≡ length types
Converts-length done = refl
Converts-length (next e rest) = ap suc (Converts-length rest)

pub convert_all-Converts :
    {T : Type 0} {types : List (Conversion T)} {vals : List Value} {ts : List T}
    → Converts types vals ts
    → convert_all types vals ≡ ok ts
convert_all-Converts done = refl
convert_all-Converts (next e rest) = rw (e, convert_all-Converts rest) refl

pub not_ok : {E A : Type 0} {a : A} → Path (Outcome E A) panic (ok a) → ⊥
not_ok h = cc

pub ok_injective : {E A : Type 0} {a b : A} → Path (Outcome E A) (ok a) (ok b) → a ≡ b
ok_injective h = cc

Converts-convert_all :
    {T : Type 0} (types : List (Conversion T)) (vals : List Value) (ts : List T)
    → length vals ≡ length types
    → convert_all types vals ≡ ok ts
    → Converts types vals ts
Converts-convert_all [] [] ts l h = subst (Converts [] []) (ok_injective h) done
Converts-convert_all [] (v ∷ vals) ts l h = absurd (omega arith)
Converts-convert_all (conv ∷ types) [] ts l h = absurd (omega arith)
Converts-convert_all (conv ∷ types) (v ∷ vals) ts l h =
    let (t, et, h') = bind_ok (conv v) _ ts h in
    let (rest, er, h'') = bind_ok (convert_all types vals) _ ts h' in
    subst (Converts (conv ∷ types) (v ∷ vals)) (ok_injective h'')
      (next et (Converts-convert_all types vals rest (omega arith) er))

-- `from_slice` of a tuple succeeds with exactly the tuple of the converted values.
pub required_from_slice_iff :
    {T : Type 0} (types : List (Conversion T)) (vals : List Value) (ts : List T)
    → (required_from_slice types vals ≡ ok ts) ↔ Converts types vals ts
unfolding required_from_slice
required_from_slice_iff {T = T} types vals ts =
    (forth (Bool-cases (length vals == length types)), back)
  where
    forth :
        ((length vals == length types) ≡ true) ⊎ ((length vals == length types) ≡ false)
        → required_from_slice types vals ≡ ok ts
        → Converts types vals ts
    forth (inl e) h = Converts-convert_all types vals ts ((==_iff _ _).0 e) (rw e at h)
    forth (inr e) h = absurd (not_ok (rw e at h))

    back : Converts types vals ts → required_from_slice types vals ≡ ok ts
    back h =
        rw ((==_iff (length vals) (length types)).1 (Converts-length h)) (convert_all-Converts h)

-- The values that are there, less `undef`, are converted one by one; the other results are empty.
pub data ConvertsGiven {T : Type 0} (c : Consts)
    : List (Conversion T) → List Value → List (Option T) → Type 0 where
  done : ConvertsGiven c [] [] []
  missing :
      {conv : Conversion T} {convs : List (Conversion T)} {ts : List (Option T)}
      → ConvertsGiven c convs [] ts
      → ConvertsGiven c (conv ∷ convs) [] (none ∷ ts)
  undefined :
      {conv : Conversion T} {v : Value} {convs : List (Conversion T)} {vs : List Value}
      {ts : List (Option T)}
      → is_undef c v ≡ true
      → ConvertsGiven c convs vs ts
      → ConvertsGiven c (conv ∷ convs) (v ∷ vs) (none ∷ ts)
  given :
      {conv : Conversion T} {v : Value} {t : T} {convs : List (Conversion T)} {vs : List Value}
      {ts : List (Option T)}
      → is_undef c v ≡ false
      → conv v ≡ ok t
      → ConvertsGiven c convs vs ts
      → ConvertsGiven c (conv ∷ convs) (v ∷ vs) (some t ∷ ts)

module _ {T : Type 0} (c : Consts) where
  ConvertsGiven-length :
      {types : List (Conversion T)} {vals : List Value} {ts : List (Option T)}
      → ConvertsGiven c types vals ts
      → length vals ≤ length types
  ConvertsGiven-length done = omega arith
  ConvertsGiven-length (missing rest) = omega arith
  ConvertsGiven-length (undefined e rest) = omega (arith, ConvertsGiven-length rest)
  ConvertsGiven-length (given u e rest) = omega (arith, ConvertsGiven-length rest)

  convert_options-ConvertsGiven :
      {types : List (Conversion T)} {vals : List Value} {ts : List (Option T)}
      → ConvertsGiven c types vals ts
      → convert_options c types vals ≡ ok ts
  convert_options-ConvertsGiven done = refl
  convert_options-ConvertsGiven (missing rest) = rw (convert_options-ConvertsGiven rest) refl
  convert_options-ConvertsGiven (undefined e rest) = rw (e, convert_options-ConvertsGiven rest) refl
  convert_options-ConvertsGiven (given u e rest) =
      rw (u, e, convert_options-ConvertsGiven rest) refl

  ConvertsGiven-convert_options :
      (types : List (Conversion T)) (vals : List Value) (ts : List (Option T))
      → length vals ≤ length types
      → convert_options c types vals ≡ ok ts
      → ConvertsGiven c types vals ts
  ConvertsGiven-convert_options [] [] ts l h = subst (ConvertsGiven c [] []) (ok_injective h) done
  ConvertsGiven-convert_options [] (v ∷ vals) ts l h = absurd (omega arith)
  ConvertsGiven-convert_options (conv ∷ types) [] ts l h =
      let (rest, er, h') = bind_ok (convert_options c types []) _ ts h in
      subst (ConvertsGiven c (conv ∷ types) []) (ok_injective h')
        (missing (ConvertsGiven-convert_options types [] rest (omega arith) er))
  ConvertsGiven-convert_options (conv ∷ types) (v ∷ vals) ts l h =
      let (t, et, h') = bind_ok (convert_given c conv v) _ ts h in
      let (rest, er, h'') = bind_ok (convert_options c types vals) _ ts h' in
      let more = ConvertsGiven-convert_options types vals rest (omega arith) er in
      subst (ConvertsGiven c (conv ∷ types) (v ∷ vals)) (ok_injective h'')
        (first (Bool-cases (is_undef c v)) t et rest more)
    where
      first :
          ((is_undef c v ≡ true) ⊎ (is_undef c v ≡ false))
          → (t : Option T) → convert_given c conv v ≡ ok t
          → (rest : List (Option T)) → ConvertsGiven c types vals rest
          → ConvertsGiven c (conv ∷ types) (v ∷ vals) (t ∷ rest)
      first (inl u) t et rest more =
          subst (λ x. ConvertsGiven c (conv ∷ types) (v ∷ vals) (x ∷ rest))
            (ok_injective (rw u at et)) (undefined u more)
      first (inr u) t et rest more =
          let (x, ex, hx) = bind_ok (conv v) _ t (rw u at et) in
          subst (λ x. ConvertsGiven c (conv ∷ types) (v ∷ vals) (x ∷ rest)) (ok_injective hx)
            (given u ex more)

  -- `from_slice` of a tuple of options succeeds with exactly the values that are given and not
  -- `undef`, converted, and `None` for the others.
  pub optional_from_slice_iff :
      (types : List (Conversion T)) (vals : List Value) (ts : List (Option T))
      → (optional_from_slice c types vals ≡ ok ts) ↔ ConvertsGiven c types vals ts
  unfolding optional_from_slice
  optional_from_slice_iff types vals ts =
      (forth (Bool-cases (leb (length vals) (length types))), back)
    where
      forth :
          ((leb (length vals) (length types)) ≡ true) ⊎ ((leb (length vals) (length types)) ≡ false)
          → optional_from_slice c types vals ≡ ok ts
          → ConvertsGiven c types vals ts
      forth (inl e) h = ConvertsGiven-convert_options types vals ts (leb→le _ _ e) (rw e at h)
      forth (inr e) h = absurd (not_ok (rw e at h))

      back : ConvertsGiven c types vals ts → optional_from_slice c types vals ≡ ok ts
      back h = rw (within (ConvertsGiven-length h)) (convert_options-ConvertsGiven h)
        where
          within : length vals ≤ length types → leb (length vals) (length types) ≡ true
          within l = ground arith

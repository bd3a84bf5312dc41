-- ===== src/ScanArgs/Keywords.antt =====
-- `get_kwargs`, which reads the values of names out of a hash.
use mathlib.Core.Path.{subst}
use magnus.Prelude.{
  ℕ, ◌≡◌, ◌≤◌, ◌+◌, refl, ◌↔◌, Bool, true, false, Option, none, some, List, [], ◌∷◌, ◌++◌, ok,
  ◌>>=◌, arith, ap, ◌∙◌, length, map, drop, append_assoc, ==_iff, take,
}
use magnus.Prelude.Int.{ℤ, pos, negsuc, ◌+ℤ◌, ◌-ℤ◌}
use magnus.Ruby.{Value, Consts}
use magnus.Error.{Result, returned, protect}
use magnus.ScanArgs.{count, slice, then_call}
use magnus.ScanArgs.Accessors.{slice_lem, not_less, when}
use magnus.ScanArgs.Convert.{
  required_from_slice, optional_from_slice, keywords_from_opt, Types, KwArgs, get_kwargs,
  is_required, optional_len, kwarg_nils,
}
use magnus.ScanArgs.Calls.{ScanCalls}
use magnus.ScanArgs.Parts.{ConvertsKeywords, keywords_from_opt_iff}
use magnus.ScanArgs.Typed.{
  Converts, ConvertsGiven, required_from_slice_iff, optional_from_slice_iff, bind_ok, ok_injective,
}

-- The value of a name in a hash, `undef` without one.
abbrev pub found : Consts → (Value → ℕ → Option Value) → Value → ℕ → Value
found c lookup kw id = elim (lookup kw id) [ some v ↦ v | none ↦ c.qundef ]

-- Every required name has a value.
abbrev pub IsPresent : (Value → ℕ → Option Value) → Value → List ℕ → Type 0
IsPresent lookup kw ids = map (λ id. is_required (lookup kw id)) ids ≡ map (λ id. true) ids

-- The number of optional names as `rb_get_kwargs` reads it: negative where others are allowed.
abbrev pub optional_number : Bool → ℕ → ℤ
optional_number true n = negsuc n
optional_number false n = pos n

-- What Ruby documents of `rb_get_kwargs` on a hash that has the required names, and no others
-- than the given ones unless the rest is allowed.
pub record IsGetKwargs (c : Consts) (r : ScanCalls) (lookup : Value → ℕ → Option Value)
    (others : Value → List ℕ → Bool) : Type 0 where
  pub kwargs_law :
      (kw : Value) (req opt : List ℕ) (rest : Bool)
      → IsPresent lookup kw req
      → ((rest ≡ false) → others kw (req ++ opt) ≡ false)
      → (n : ℕ) × (r.rb_get_kwargs kw (req ++ opt) (length req) (optional_number rest (length opt))
          ≡ returned (n, map (found c lookup kw) req ++ map (found c lookup kw) opt))

length-map : {A B : Type 0} (f : A → B) (xs : List A) → length (map f xs) ≡ length xs
length-map f [] = refl
length-map f (x ∷ xs) = omega (arith, length-map f xs)

optional_number_lem : (rest : Bool) (n : ℕ) → n ≤ 9 → optional_len rest n ≡ optional_number rest n
unfolding optional_len ◌-ℤ◌ ◌+ℤ◌
optional_number_lem true n h = ground arith
optional_number_lem false n h = ground arith

length-kwarg_nils : (c : Consts) → length (kwarg_nils c) ≡ 19
unfolding kwarg_nils
length-kwarg_nils c = refl

pub count-le : (b : Bool) → count b ≤ 1
count-le true = omega arith
count-le false = omega arith

then_ok : (b : Bool) (v : Value) → then_call b (ok v) ≡ ok (when b v)
then_ok true v = refl
then_ok false v = refl

slice_any : (n : ℕ) (xs : List Value) → n ≤ length xs → slice 0 n xs ≡ ok (take n xs)
slice_any n xs h =
    rw (not_less (length xs) n h, not_less n 0 (omega arith))
      (ap (λ k. ok (take k xs)) (omega arith))

module _ {T : Type 0} (c : Consts) (r : ScanCalls) (lookup : Value → ℕ → Option Value)
    (others : Value → List ℕ → Bool) (l : IsGetKwargs c r lookup others) (types : Types T)
    (kw : Value) where
  -- The conversions of the values that are found.
  abbrev converted : List Value → List Value → Option Value → Result (KwArgs T)
  converted va vb vs = do
    req ← required_from_slice types.req va
    opt ← optional_from_slice c types.opt vb
    sp ← keywords_from_opt c types.hash_new types.kw vs
    ok (record { required = req; optional = opt; splat = sp })

  abbrev pub IsKwConverted : List Value → List Value → Option Value → KwArgs T → Type 0
  IsKwConverted va vb vs a =
      Converts types.req va a.required
      × ConvertsGiven c types.opt vb a.optional
      × ConvertsKeywords c types.hash_new types.kw vs a.splat

  converted_iff :
      (va vb : List Value) (vs : Option Value) (a : KwArgs T)
      → (converted va vb vs ≡ ok a) ↔ IsKwConverted va vb vs a
  converted_iff va vb vs a = (forth, back)
    where
      forth : converted va vb vs ≡ ok a → IsKwConverted va vb vs a
      forth h =
          let (req, e1, h1) = bind_ok (required_from_slice types.req va) _ a h in
          let (opt, e2, h2) = bind_ok (optional_from_slice c types.opt vb) _ a h1 in
          let (sp, e3, h3) = bind_ok (keywords_from_opt c types.hash_new types.kw vs) _ a h2 in
          subst (IsKwConverted va vb vs) (ok_injective h3) (
            (required_from_slice_iff types.req va req).0 e1,
            (optional_from_slice_iff c types.opt vb opt).0 e2,
            (keywords_from_opt_iff c types.hash_new types.kw vs sp).0 e3,
          )

      back : IsKwConverted va vb vs a → converted va vb vs ≡ ok a
      back (h1, h2, h3) =
          rw
            (
              (required_from_slice_iff types.req va a.required).1 h1,
              (optional_from_slice_iff c types.opt vb a.optional).1 h2,
              (keywords_from_opt_iff c types.hash_new types.kw vs a.splat).1 h3,
            )
            refl

  get_kwargs-converted :
      (req opt : List ℕ)
      → length req ≡ length types.req
      → length opt ≡ length types.opt
      → length req ≤ 9
      → length opt ≤ 9
      → IsPresent lookup kw req
      → ((is_required types.kw ≡ false) → others kw (req ++ opt) ≡ false)
      → get_kwargs c r types kw req opt
        ≡ converted
            (map (found c lookup kw) req)
            (map (found c lookup kw) opt)
            (when (is_required types.kw) kw)
  unfolding get_kwargs protect
  get_kwargs-converted req opt er eo hr ho present known =
      let (n, done) = l.kwargs_law kw req opt (is_required types.kw) present known in
      let va = map (found c lookup kw) req in
      let vb = map (found c lookup kw) opt in
      let la : length va ≡ length types.req = length-map (found c lookup kw) req ∙ er in
      let lb : length vb ≡ length types.opt = length-map (found c lookup kw) opt ∙ eo in
      let tail = drop (length (va ++ vb)) (kwarg_nils c) in
      rw
        (
          (==_iff (length req) (length types.req)).1 er,
          (==_iff (length opt) (length types.opt)).1 eo,
          slice_any (length types.req + length types.opt + count (is_required types.kw))
              (kwarg_nils c) (omega (arith, length-kwarg_nils c, count-le (is_required types.kw))),
          optional_number_lem (is_required types.kw) (length opt) ho,
          done,
          slice_lem 0 (length types.req) ((va ++ vb) ++ tail) [] va (vb ++ tail)
              (append_assoc va vb tail) refl (omega arith),
          slice_lem (length types.req) (length types.req + length types.opt) ((va ++ vb) ++ tail) va
              vb tail (append_assoc va vb tail) la (omega arith),
          then_ok (is_required types.kw) kw,
        )
        refl

  -- `get_kwargs` succeeds exactly when the values of the names convert, and gives their
  -- conversions in the order of the names: all the required ones, `None` for an optional one that
  -- is not in the hash, and the hash itself for the rest, or a new hash if it is nil. The names are as many as the types, up
  -- to nine of a kind, the required ones are in the hash, and others only if the rest is allowed.
  pub get_kwargs_iff :
      (req opt : List ℕ) (a : KwArgs T)
      → length req ≡ length types.req
      → length opt ≡ length types.opt
      → length req ≤ 9
      → length opt ≤ 9
      → IsPresent lookup kw req
      → ((is_required types.kw ≡ false) → others kw (req ++ opt) ≡ false)
      → (get_kwargs c r types kw req opt ≡ ok a)
        ↔ IsKwConverted
            (map (found c lookup kw) req)
            (map (found c lookup kw) opt)
            (when (is_required types.kw) kw)
            a
  get_kwargs_iff req opt a er eo hr ho present known =
      rw (get_kwargs-converted req opt er eo hr ho present known) (converted_iff _ _ _ a)

-- ===== src/TypedData/Freeze.antt =====
-- src/typed_data.rs: what `clone` reads out of its arguments, the keyword `freeze`.
use magnus.Prelude.{
  ℕ, ◌≡◌, ◌≢◌, ◌<◌, refl, ap, Bool, true, false, not, ◌⊎◌, Option, none, some, List, [], ◌∷◌, ok,
  ◌==◌, if◌then◌else◌, arith, ==_iff, Bool-cases, inl, inr,
}
use magnus.Ruby.{Value, Consts, IsDocumented}
use magnus.Value.{is_nil, is_undef, to_bool}
use magnus.Value.Tags.{to_bool_word}
use magnus.Bits.Word.{word_mod}
use magnus.Convert.{option_try_convert, bool_try_convert}
use magnus.ScanArgs.Calls.{ScanCalls}
use magnus.ScanArgs.{len}
use magnus.TypedData.{TypedCalls}
use magnus.ScanArgs.Convert.{Conversion, scan_args, get_kwargs}
use magnus.ScanArgs.Scan.{Documented, IsScanArgs}
use magnus.ScanArgs.Keywords.{IsGetKwargs, get_kwargs_iff}
use magnus.ScanArgs.Parts.{ConvertsKeywords}
use magnus.ScanArgs.Typed.{Converts, ConvertsGiven}
use magnus.ScanArgs.Whole.{scan_args_iff}
use magnus.TypedData.Dup.{CloneCalls, to_freeze, parse_freeze, only_keywords, only_freeze, flatten}

-- What the keyword asks for: nothing where it is not given or nil, else whether it is true.
abbrev pub freeze_keyword : Consts → Option Value → Option Bool
freeze_keyword c none = none
freeze_keyword c (some v) = if v == c.qnil then none else some (not (v == c.qfalse))

-- A value that a hash gives: a word that is not `undef`.
abbrev pub IsGiven : Consts → Option Value → Type 0
IsGiven c none = Unit
IsGiven c (some v) = (v ≢ c.qundef) × (v < word_mod)

-- The optional keyword as `get_kwargs` gives it.
abbrev asked : Consts → Option Value → Option (Option Bool)
asked c none = none
asked c (some v) = some (freeze_keyword c (some v))

module _ {T : Type 0} (c : Consts) (d : IsDocumented c) (r : TypedCalls T) (k : CloneCalls T)
    (a : ScanCalls) (e : Documented) (l : IsScanArgs c a e) (lookup : Value → ℕ → Option Value)
    (others : Value → List ℕ → Bool) (g : IsGetKwargs c a lookup others)
    (to_hash : Conversion Value) (hash_new : Value) (freeze_id : ℕ) where
  to_freeze_lem :
      (v : Value)
      → v < word_mod
      → to_freeze c r k a to_hash hash_new freeze_id v ≡ ok (freeze_keyword c (some v))
  unfolding to_freeze option_try_convert bool_try_convert is_nil
  to_freeze_lem v h = elim (Bool-cases (v == c.qnil)) [
    | inl nil ↦ rw nil refl
    | inr not_nil ↦ rw not_nil (elim (Bool-cases (v == c.qfalse)) [
      | inl is_false ↦
          rw (is_false, (to_bool_word c d v h).1 (inl ((==_iff v c.qfalse).0 is_false))) refl
      | inr not_false ↦ rw (not_false, truthy (Bool-cases (to_bool c v)) not_nil not_false) refl
    ])
  ]
    where
      truthy :
          ((to_bool c v ≡ true) ⊎ (to_bool c v ≡ false))
          → (v == c.qnil) ≡ false
          → (v == c.qfalse) ≡ false
          → to_bool c v ≡ true
      truthy (inl t) n f = t
      truthy (inr t) n f = elim ((to_bool_word c d v h).0 t) [
        | inl e ↦ absurd cc ((==_iff v c.qfalse).1 e, f)
        | inr e ↦ absurd cc ((==_iff v c.qnil).1 e, n)
      ]

  scanned :
      (args : List Value) (kw : Value)
      → e.positional true args ≡ []
      → ConvertsKeywords c hash_new (some to_hash) (some (e.keywords_of args)) (some kw)
      → scan_args c a (only_keywords c r k a to_hash hash_new freeze_id) args
        ≡ ok (record {
          required = [];
          optional = [];
          splat = none;
          trailing = [];
          keywords = some kw;
          block = none;
        })
  scanned args kw p h =
      (scan_args_iff c a e l (only_keywords c r k a to_hash hash_new freeze_id) args _
          (omega arith, omega arith, omega arith) (unfold len in omega arith)
          (rw p (omega arith, λ n. omega arith))).1
        (rw p (Converts.done, ConvertsGiven.done, refl, Converts.done, h, refl))

  converted :
      (o : Option Value)
      → IsGiven c o
      → ConvertsGiven c
          (to_freeze c r k a to_hash hash_new freeze_id ∷ [])
          (elim o [ some v ↦ v | none ↦ c.qundef ] ∷ [])
          (asked c o ∷ [])
  unfolding is_undef
  converted none h = ConvertsGiven.undefined ((==_iff c.qundef c.qundef).1 refl) ConvertsGiven.done
  converted (some v) (ne, small) =
      ConvertsGiven.given (ground (arith, ==_iff v c.qundef)) (to_freeze_lem v small)
        ConvertsGiven.done

  read :
      (kw : Value)
      → others kw (freeze_id ∷ []) ≡ false
      → IsGiven c (lookup kw freeze_id)
      → get_kwargs c a (only_freeze c r k a to_hash hash_new freeze_id) kw [] (freeze_id ∷ [])
        ≡ ok (record { required = []; optional = asked c (lookup kw freeze_id) ∷ []; splat = none })
  read kw none_else h =
      (get_kwargs_iff c a lookup others g (only_freeze c r k a to_hash hash_new freeze_id) kw []
          (freeze_id ∷ []) _ refl refl (omega arith) (omega arith) refl (λ n. none_else)).1
        (Converts.done, converted (lookup kw freeze_id) h, refl)

  flatten-asked : (o : Option Value) → flatten (asked c o ∷ []) ≡ freeze_keyword c o
  flatten-asked none = refl
  flatten-asked (some v) = refl

  -- With no positional argument and no other keyword, `clone` reads the keyword `freeze`.
  pub parse_freeze_lem :
      (args : List Value) (kw : Value)
      → e.positional true args ≡ []
      → ConvertsKeywords c hash_new (some to_hash) (some (e.keywords_of args)) (some kw)
      → others kw (freeze_id ∷ []) ≡ false
      → IsGiven c (lookup kw freeze_id)
      → parse_freeze c r k a to_hash hash_new freeze_id args
        ≡ ok (freeze_keyword c (lookup kw freeze_id))
  unfolding parse_freeze
  parse_freeze_lem args kw p h none_else given =
      rw (scanned args kw p h, read kw none_else given)
        (ap ok (flatten-asked (lookup kw freeze_id)))

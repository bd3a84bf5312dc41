-- ===== src/ScanArgs/Parts.antt =====
-- What the splat, the keywords and the block of `scan_args` and `get_kwargs` are converted to.
use magnus.Prelude.{
  ◌≡◌, ◌≢◌, refl, sym, ap, ◌↔◌, ◌⊎◌, inl, inr, Option, none, some, ok, ◌>>=◌, ◌==◌, ==_iff,
  Bool-cases,
}
use magnus.Ruby.{Value, Consts}
use magnus.Value.{is_nil}
use magnus.ScanArgs.Convert.{
  Conversion, splat_from_opt, keywords_from_opt, block_from_opt, BlockType, no_block, proc,
  option_proc,
}
use magnus.ScanArgs.Typed.{bind_ok, ok_injective}

-- A value converts, and the result is there.
abbrev pub Given : {T : Type 0} → Conversion T → Value → Option T → Type 0
Given {T} conv v out = (t : T) × (conv v ≡ ok t) × (out ≡ some t)

-- The splat is there exactly when its type asks for it, and its array converts.
abbrev pub ConvertsSplat : {T : Type 0} → Option (Conversion T) → Option Value → Option T → Type 0
ConvertsSplat none none out = out ≡ none
ConvertsSplat none (some v) out = ⊥
ConvertsSplat (some conv) none out = ⊥
ConvertsSplat (some conv) (some v) out = Given conv v out

-- The keywords are those of the hash, and a new hash where Ruby has nil for none.
abbrev pub ConvertsKeywords :
    {T : Type 0} → Consts → T → Option (Conversion T) → Option Value → Option T → Type 0
ConvertsKeywords c hash_new none none out = out ≡ none
ConvertsKeywords c hash_new none (some v) out = ⊥
ConvertsKeywords c hash_new (some conv) none out = ⊥
ConvertsKeywords c hash_new (some conv) (some v) out =
    ((v ≡ c.qnil) × (out ≡ some hash_new)) ⊎ ((v ≢ c.qnil) × Given conv v out)

-- A `Proc` has to be given, and an `Option<Proc>` may be nil.
abbrev pub ConvertsBlock : {T : Type 0} → Consts → BlockType T → Option Value → Option T → Type 0
ConvertsBlock c no_block none out = out ≡ none
ConvertsBlock c no_block (some v) out = ⊥
ConvertsBlock c (proc conv) none out = ⊥
ConvertsBlock c (proc conv) (some v) out = (v ≢ c.qnil) × Given conv v out
ConvertsBlock c (option_proc conv) none out = ⊥
ConvertsBlock c (option_proc conv) (some v) out = Given conv v out

module _ {T : Type 0} where
  some-Given :
      (conv : Conversion T) (v : Value) (out : Option T)
      → ((conv v >>= λ t. ok (some t)) ≡ ok out) ↔ Given conv v out
  some-Given conv v out = (
    (λ h. let (t, e, h') = bind_ok (conv v) _ out h in (t, e, sym (ok_injective h'))),
    λ (t, e, o). rw (e, o) refl,
  )

  pub splat_from_opt_iff :
      (type : Option (Conversion T)) (v : Option Value) (out : Option T)
      → (splat_from_opt type v ≡ ok out) ↔ ConvertsSplat type v out
  unfolding splat_from_opt
  splat_from_opt_iff none none out = ((λ h. sym (ok_injective h)), λ h. ap ok (sym h))
  splat_from_opt_iff none (some v) out = ((λ h. cc h), λ h. absurd h)
  splat_from_opt_iff (some conv) none out = ((λ h. cc h), λ h. absurd h)
  splat_from_opt_iff (some conv) (some v) out = some-Given conv v out

  pub keywords_from_opt_iff :
      (c : Consts) (hash_new : T) (type : Option (Conversion T)) (v : Option Value) (out : Option T)
      → (keywords_from_opt c hash_new type v ≡ ok out) ↔ ConvertsKeywords c hash_new type v out
  unfolding keywords_from_opt is_nil
  keywords_from_opt_iff c hash_new none none out = ((λ h. sym (ok_injective h)), λ h. ap ok (sym h))
  keywords_from_opt_iff c hash_new none (some v) out = ((λ h. cc h), λ h. absurd h)
  keywords_from_opt_iff c hash_new (some conv) none out = ((λ h. cc h), λ h. absurd h)
  keywords_from_opt_iff c hash_new (some conv) (some v) out = elim (Bool-cases (v == c.qnil)) [
    | inl nil ↦ rw nil (
      (λ h. inl ((==_iff v c.qnil).0 nil, sym (ok_injective h))),
      λ h. elim h [
        | inl (e, o) ↦ ap ok (sym o)
        | inr (ne, g) ↦ absurd (ne ((==_iff v c.qnil).0 nil))
      ],
    )
    | inr not_nil ↦
        let ne : v ≢ c.qnil = λ e. cc (not_nil, (==_iff v c.qnil).1 e) in
        rw not_nil (
          (λ h. inr (ne, (some-Given conv v out).0 h)),
          λ h. elim h [ inl (e, o) ↦ absurd (ne e) | inr (ne', g) ↦ (some-Given conv v out).1 g ],
        )
  ]

  pub block_from_opt_iff :
      (c : Consts) (type : BlockType T) (v : Option Value) (out : Option T)
      → (block_from_opt c type v ≡ ok out) ↔ ConvertsBlock c type v out
  unfolding block_from_opt is_nil
  block_from_opt_iff c no_block none out = ((λ h. sym (ok_injective h)), λ h. ap ok (sym h))
  block_from_opt_iff c no_block (some v) out = ((λ h. cc h), λ h. absurd h)
  block_from_opt_iff c (proc conv) none out = ((λ h. cc h), λ h. absurd h)
  block_from_opt_iff c (proc conv) (some v) out = elim (Bool-cases (v == c.qnil)) [
    | inl nil ↦ rw nil ((λ h. cc h), λ (ne, g). absurd (ne ((==_iff v c.qnil).0 nil)))
    | inr not_nil ↦
        let ne : v ≢ c.qnil = λ e. cc (not_nil, (==_iff v c.qnil).1 e) in
        rw not_nil
          ((λ h. (ne, (some-Given conv v out).0 h)), λ (ne', g). (some-Given conv v out).1 g)
  ]
  block_from_opt_iff c (option_proc conv) none out = ((λ h. cc h), λ h. absurd h)
  block_from_opt_iff c (option_proc conv) (some v) out = some-Given conv v out

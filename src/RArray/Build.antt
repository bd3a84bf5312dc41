-- ===== src/RArray/Build.antt =====
-- src/r_array.rs: arrays from iterators. An iterator is the list of what it yields, with the lower
-- bound of its `size_hint`.
use magnus.Prelude.{
  ℕ, suc, zero, ◌+◌, List, [], ◌∷◌, Outcome, ok, panic, ltb, leb, if◌then◌else◌, length, take,
  replicate, map,
}
use magnus.Ruby.{Value, Consts}
use magnus.Space.{Effect, pure, lift, unwrap, ◌>>=◌, ◌>>◌}
use magnus.RArray.Calls.{ArrayCalls}
use magnus.RArray.{ary_new, ary_new_capa, cat}

-- `buffer[i] = v`; a write out of range panics.
abbrev pub set : List Value → ℕ → Value → List Value
set [] i v = []
set (x ∷ xs) zero v = v ∷ xs
set (x ∷ xs) (suc i) v = x ∷ set xs i v

abbrev pub set_checked : {E : Type 0} → List Value → ℕ → Value → Outcome E (List Value)
set_checked buffer i v = if ltb i (length buffer) then ok (set buffer i v) else panic

-- `[self.qnil().as_value(); 128]`
unfoldable pub empty_buffer : Consts → List Value
empty_buffer c = replicate 128 c.qnil

module _ (c : Consts) (r : ArrayCalls) {T E : Type 0} (into : T → Value) where
  -- The loop of `ary_try_from_iter` and the `cat` behind it.
  unfoldable pub fill : List (Outcome E T) → List Value → ℕ → Value → Effect E Value
  fill [] buffer i ary = do unwrap (cat c r ary (take i buffer)); pure ary
  fill (v ∷ rest) buffer i ary = do
    t ← lift v
    buffer' ← lift (set_checked buffer i (into t))
    if leb (length buffer') (i + 1)
        then (do unwrap (cat c r ary buffer'); fill rest buffer' 0 ary)
        else fill rest buffer' (i + 1) ary

  unfoldable pub ary_try_from_iter : ℕ → List (Outcome E T) → Effect E Value
  unfolding fill
  ary_try_from_iter lower iter = do
    ary ← (if ltb 0 lower then ary_new_capa c r lower else ary_new c r)
    fill iter (empty_buffer c) 0 ary

module _ (c : Consts) (r : ArrayCalls) {T F : Type 0} (into : T → Value) where
  -- The error type is `Infallible`.
  unfoldable pub ary_from_iter : ℕ → List T → Effect F Value
  unfolding ary_try_from_iter
  ary_from_iter lower iter =
      unwrap (ary_try_from_iter c r {E = ⊥} into lower (map (λ t. ok t) iter))

  -- The `size_hint` of a `Vec`'s iterator is its length.
  unfoldable pub ary_from_vec : List T → Effect F Value
  unfolding ary_from_iter
  ary_from_vec vec = ary_from_iter (length vec) vec

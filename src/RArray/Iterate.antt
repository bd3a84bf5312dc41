-- ===== src/RArray/Iterate.antt =====
-- src/r_array.rs: `Iter` and `RArray::into_iter`.
use magnus.Prelude.{
  ℕ, suc, zero, ◌+◌, ◌-◌, Option, none, some, Outcome, ok, err, panic, leb, if◌then◌else◌,
}
use magnus.Prelude.Int.{pos}
use magnus.Bits.Word.{as_signed}
use magnus.Ruby.{Value, Consts}
use magnus.Space.{Space, Effect, pure, after, ◌>>=◌, ◌>>◌}
use magnus.RArray.Calls.{ArrayCalls}
use magnus.RArray.{Conversion, len, dup, entry}

pub record Iter : Type 0 where
  pub array : Value
  pub len : ℕ
  pub idx : ℕ

-- `.ok()`
abbrev pub result_ok : {E F A : Type 0} → Outcome E A × Space → Outcome F (Option A) × Space
result_ok (ok a, s) = (ok (some a), s)
result_ok (err e, s) = (ok none, s)
result_ok (panic, s) = (panic, s)

module _ (c : Consts) (r : ArrayCalls) where
  unfoldable pub iter_new : {E : Type 0} → Value → Effect E Iter
  iter_new ary s = (ok (record { array = ary; len = len c r ary s; idx = 0 }), s)

  -- Gives the item, or none, and the iterator behind it.
  unfoldable pub next : {E T : Type 0} → Conversion T → Iter → Effect E (Option T × Iter)
  next convert self s =
      if leb self.len self.idx
      then (ok (none, self), s)
      else after (result_ok (entry c r convert self.array (as_signed 64 (pos self.idx)) s))
          (λ value. pure (value, record self { idx = self.idx + 1 }))

  -- The subtraction panics below 0.
  unfoldable pub size_hint : {E : Type 0} → Iter → Outcome E (ℕ × Option ℕ)
  size_hint self =
      if leb self.idx self.len then ok (self.len - self.idx, some (self.len - self.idx)) else panic

  unfoldable pub into_iter : {E : Type 0} → Value → Effect E Iter
  unfolding dup
  into_iter self s =
      if s.frozen self
      then iter_new self s
      else after (dup c r {E = _} self s) (λ tmp s'. iter_new tmp (r.rb_obj_hide tmp s'))

  -- `for t in self { body(t)? }`, for `fuel` calls of `next`; `none` when they do not end it.
  unfoldable pub for_each :
      {E T : Type 0}
      → Conversion T
      → (T → Effect E (Unit {0}))
      → ℕ
      → Iter
      → Effect E (Option (Unit {0}))
  for_each convert body zero self = pure none
  for_each convert body (suc fuel) self = do
    step ← next convert self
    elim step.0 [ none ↦ pure (some tt) | some t ↦ body t >> for_each convert body fuel step.1 ]

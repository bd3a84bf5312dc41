-- ===== src/TypedData/Compare.antt =====
-- src/typed_data.rs: `IsEql`, `Cmp` and `Hash` of wrapped values.
use magnus.Prelude.{ℕ, Bool, false, Option, none, some, ok, err, panic}
use magnus.Ruby.{Value, Consts, Heap}
use magnus.Error.{Result}
use magnus.Prelude.Int.{ℤ}
use magnus.Bits.Word.{to_signed}
use magnus.TypedData.{Store, TypedCalls, TypedData, ref_try_convert}

module _ {T : Type 0} (c : Consts) (r : TypedCalls T) where
  -- `IsEql` of a type with `Eq`.
  unfoldable is_eql :
      Heap → (ℕ → ℕ) → TypedData T → (T → T → Bool) → T → Value → Store T → Option (Result Bool)
  unfolding ref_try_convert
  is_eql h typed_flag t equal self other s = elim (ref_try_convert c r h typed_flag t other s) [
    | none ↦ none
    | some (ok o) ↦ some (ok (equal self o))
    | some (err e) ↦ some (ok false)
    | some panic ↦ some panic
  ]

  -- `Cmp` of a type with `PartialOrd`, whose `Ordering` is -1, 0 or 1.
  unfoldable cmp :
      Heap
      → (ℕ → ℕ)
      → TypedData T
      → (T → T → Option ℤ)
      → T
      → Value
      → Store T
      → Option (Result (Option ℤ))
  unfolding ref_try_convert
  cmp h typed_flag t partial_cmp self other s = elim (ref_try_convert c r h typed_flag t other s) [
    | none ↦ none
    | some (ok o) ↦ some (ok (partial_cmp self o))
    | some (err e) ↦ some (ok none)
    | some panic ↦ some panic
  ]

-- `Hash` of a type with Rust's `Hash`: the hasher's word as an `i64`.
unfoldable hash : {T : Type 0} → (T → ℕ) → T → ℤ
hash finish self = to_signed (finish self)

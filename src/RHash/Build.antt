-- ===== src/RHash/Build.antt =====
-- src/r_hash.rs: hashes from iterators. An iterator is the list of what it yields, with the lower
-- bound of its `size_hint`.
use magnus.Prelude.{
  ℕ, ◌+◌, Bool, List, [], ◌∷◌, Outcome, ok, if◌then◌else◌, leb, ltb, length, take, map,
}
use magnus.Ruby.{Value, Consts}
use magnus.Space.{Effect, pure, lift, unwrap, ◌>>=◌, ◌>>◌}
use magnus.RArray.Build.{set_checked, empty_buffer}
use magnus.RHash.Calls.{HashCalls}
use magnus.RHash.{hash_new, hash_maybe_capa, bulk_insert}

module _ (c : Consts) (r : HashCalls) {K V E : Type 0} (into_key : K → Value)
    (into_val : V → Value) where
  -- The loop of `hash_try_from_iter` and the `bulk_insert` behind it.
  unfoldable pub fill : List (Outcome E (K × V)) → List Value → ℕ → Value → Effect E Value
  fill [] buffer i hash = do unwrap (bulk_insert c r hash (take i buffer)); pure hash
  fill (p ∷ rest) buffer i hash = do
    kv ← lift p
    buffer' ← lift (set_checked buffer i (into_key kv.0))
    buffer'' ← lift (set_checked buffer' (i + 1) (into_val kv.1))
    if leb (length buffer'') (i + 2)
        then (do unwrap (bulk_insert c r hash buffer''); fill rest buffer'' 0 hash)
        else fill rest buffer'' (i + 2) hash

  unfoldable pub hash_try_from_iter : Bool → ℕ → List (Outcome E (K × V)) → Effect E Value
  unfolding fill
  hash_try_from_iter ruby_gte_3_2 lower iter = do
    hash ← (if ltb 0 lower then hash_maybe_capa c r ruby_gte_3_2 lower else hash_new c r)
    fill iter (empty_buffer c) 0 hash

module _ (c : Consts) (r : HashCalls) {K V F : Type 0} (into_key : K → Value)
    (into_val : V → Value) where
  -- The error type is `Infallible`.
  unfoldable pub hash_from_iter : Bool → ℕ → List (K × V) → Effect F Value
  unfolding hash_try_from_iter
  hash_from_iter ruby_gte_3_2 lower iter =
      unwrap
        (hash_try_from_iter c r {E = ⊥} into_key into_val ruby_gte_3_2 lower (map (λ p. ok p) iter))

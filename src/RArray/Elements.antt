-- ===== src/RArray/Elements.antt =====
-- src/r_array.rs: between a Rust `Vec` and a Ruby array.
use mathlib.Core.Path.{subst}
use magnus.Prelude.{false, List, [], ◌∷◌, Outcome, ok, err, panic, length, map, ◌≡◌, refl, ap}
use magnus.Ruby.{Value, Consts}
use magnus.Error.{ErrorType}
use magnus.Space.{Space, unwrap_all, ◌>>=◌}
use magnus.RArray.Calls.{ArrayCalls, IsArrayCalls, IsNew, IsNew-items}
use magnus.RArray.{Conversion, collect, to_vec, as_slice}
use magnus.RArray.Build.{ary_from_iter, ary_from_vec}
use magnus.RArray.Buffer.{sequence}
use magnus.RArray.Chunks.{Makes, ary_try_from_iter-Makes}

sequence-map : {E T : Type 0} (ts : List T) → sequence {E = E} (map (λ t. ok t) ts) ≡ ok ts
sequence-map {E = E} [] = refl
sequence-map {E = E} (t ∷ ts) = rw (sequence-map {E = E} ts) refl

pub collect-map :
    {T : Type 0} (convert : Conversion T) (into : T → Value)
    → ((t : T) → convert (into t) ≡ ok t)
    → (ts : List T) → collect convert (map into ts) ≡ ok ts
collect-map convert into h [] = refl
collect-map convert into h (t ∷ ts) = rw (h t, collect-map convert into h ts) refl

module _ (c : Consts) (r : ArrayCalls) (d : IsArrayCalls c r) {T : Type 0} (into : T → Value) where
  made :
      (ts : List T) (s : Space) (end : Outcome ⊥ Value × Space) (from : Outcome ⊥ (List T))
      → from ≡ ok ts
      → Makes c r d into from s end
      → (ary : Value) × (end ≡ (ok ary, end.1)) × IsNew s (map into ts) false (ary, end.1)
  made ts s end (ok ts') e m =
      let (ary, f, n) = m in
      let e' : ts' ≡ ts = cc e in
      (ary, ap (λ o. (o, end.1)) f, subst (λ xs. IsNew s (map into xs) false (ary, end.1)) e' n)
  made ts s end (err x) e m = absurd x
  made ts s end panic e m = absurd cc

  -- The array made of a vector is a new one that holds the converted items in their order.
  pub ary_from_vec-IsNew :
      (ts : List T) (s : Space)
      → let end = ary_from_vec c r {F = ErrorType} into ts s in
        (ary : Value) × (end ≡ (ok ary, end.1)) × IsNew s (map into ts) false (ary, end.1)
  unfolding ary_from_vec ary_from_iter
  ary_from_vec-IsNew ts s =
      let iter : List (Outcome ⊥ T) = map (λ t. ok t) ts in
      let (ary, e, n) =
        made ts s _ (sequence iter) (sequence-map {E = ⊥} ts)
          (ary_try_from_iter-Makes c r d into (length ts) iter s) in
      (ary, ap unwrap_all e, n)

  -- A vector made into an array and read back is the vector, if the conversions of its items are
  -- inverse.
  to_vec-ary_from_vec :
      (convert : Conversion T) (ts : List T) (s : Space)
      → ((t : T) → convert (into t) ≡ ok t)
      → ((ary_from_vec c r into ts >>= to_vec c r convert) s).0 ≡ ok ts
  unfolding to_vec as_slice
  to_vec-ary_from_vec convert ts s h =
      let (ary, e, n) = ary_from_vec-IsNew ts s in
      rw e (rw (IsNew-items s (map into ts) false _ n) (collect-map convert into h ts))

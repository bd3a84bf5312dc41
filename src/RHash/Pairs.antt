-- ===== src/RHash/Pairs.antt =====
-- src/r_hash.rs: the vector that `to_vec` makes of a hash, and what `get` finds.
use mathlib.Core.Path.{subst}
use magnus.Prelude.{
  ◌≡◌, refl, ap, sym, ◌∙◌, false, some, List, [], ◌∷◌, ◌++◌, append_nil, append_assoc, ok,
}
use magnus.Ruby.{Value, Consts}
use magnus.Value.{is_undef}
use magnus.Method.{Ran, Classes}
use magnus.Method.Raise.{IsClasses}
use magnus.Space.{Space, write_pairs, ◌>>◌}
use magnus.RHash.Calls.{HashCalls, IsHashCalls}
use magnus.RHash.Buffer.{pairs-write_pairs}
use magnus.RHash.{ForEach, continue, call_convert_value, foreach, aset, get, to_vec}
use magnus.RHash.Foreach.{Results, runs, foreach-Results}

module _ (c : Consts) (r : HashCalls) (d : IsHashCalls r) (k : Classes) (l : IsClasses k)
    (errinfo : Value) {K V : Type 0} (convert_key : Value → Ran K) (convert_value : Value → Ran V)
    (into_key : K → Value) (into_val : V → Value) where
  abbrev values : List (K × V) → List (Value × Value)
  values [] = []
  values (p ∷ ps) = (into_key p.0, into_val p.1) ∷ values ps

  abbrev pushing : K → V → List (K × V) → Ran ForEach × List (K × V)
  pushing key value vec = (ok continue, vec ++ (key, value) ∷ [])

  runs-push :
      (ps st : List (K × V))
      → ((key : K) → convert_key (into_key key) ≡ ok key)
      → ((val : V) → convert_value (into_val val) ≡ ok val)
      → runs convert_key convert_value pushing (values ps) st ≡ (ok (st ++ ps), values ps)
  unfolding call_convert_value
  runs-push [] st hk hv = ap (λ x. (ok x, [])) (sym (append_nil st))
  runs-push (p ∷ ps) st hk hv =
      rw (hk p.0, hv p.1, runs-push ps (st ++ p ∷ []) hk hv, append_assoc st (p ∷ []) ps) refl

  -- `to_vec` of a hash that holds the values of some pairs gives these pairs in their order and
  -- leaves the hash as it is, if the conversions of keys and values are inverse.
  pub to_vec-pairs :
      (ps : List (K × V)) (self : Value) (s : Space)
      → s.pairs self ≡ values ps
      → ((key : K) → convert_key (into_key key) ≡ ok key)
      → ((val : V) → convert_value (into_val val) ≡ ok val)
      → (to_vec c r k errinfo convert_key convert_value self s).0 ≡ ok ps
        × ((to_vec c r k errinfo convert_key convert_value self s).1.pairs self ≡ s.pairs self)
  unfolding to_vec
  to_vec-pairs ps self s e hk hv =
      let run = runs convert_key convert_value pushing (s.pairs self) [] in
      let e' : run ≡ (ok ps, s.pairs self) = rw e (runs-push ps [] hk hv) in
      let end = foreach c r k errinfo convert_key convert_value pushing [] self s in
      let both =
        foreach-Results convert_key convert_value pushing c k l errinfo r d [] self s
          (rw e' (λ x. cc)) (rw e' (λ x. cc)) in
      let (a, b) =
        subst
          (λ w.
            Results convert_key convert_value pushing c k l errinfo w.0 end.0
            × (end.1 ≡ write_pairs s self w.1))
          e' both in
      (a, ap (λ s'. s'.pairs self) b ∙ pairs-write_pairs s self (s.pairs self))

module _ (c : Consts) (r : HashCalls) (d : IsHashCalls r) {K V : Type 0} (into_key : K → Value)
    (into_val : V → Value) where
  -- `get` after `aset` of a key gives the value that was set, if that is not `undef` and the hash is
  -- not frozen.
  get-aset :
      (self : Value) (key : K) (val : V) (s : Space)
      → s.frozen self ≡ false
      → is_undef c (into_val val) ≡ false
      → ((aset c r into_key into_val self key val >> get c r into_key self key) s).0
        ≡ ok (some (into_val val))
  unfolding aset get
  get-aset self key val s f u =
      let s' = write_pairs s self (d.put (into_key key) (into_val val) (s.pairs self)) in
      rw (d.aset_law self (into_key key) (into_val val) s f) (
        rw
          (
            d.lookup2_some_law self (into_key key) (into_val val) c.qundef s' (
                rw (pairs-write_pairs s self (d.put (into_key key) (into_val val) (s.pairs self)))
                  (d.find-put_law (into_key key) (into_val val) (s.pairs self))),
            u,
          )
          refl)

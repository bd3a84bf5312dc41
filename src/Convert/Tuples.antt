-- ===== src/Convert/Tuples.antt =====
-- Tuples as Ruby arrays.
use magnus.Prelude.{◌≡◌, refl, false, some, List, ok, length, ==_iff}
use magnus.Ruby.{Value, Consts, Heap}
use magnus.Value.{rb_type}
use magnus.Space.{Space, ◌>>=◌}
use magnus.ScanArgs.Typed.{Converts, Converts-length, convert_all-Converts}
use magnus.RArray.{Conversion}
use magnus.RArray as RArray
use magnus.RArray.Calls.{ArrayCalls, IsArrayCalls, IsNew-items}
use magnus.Convert.{tuple_into_value, tuple_try_convert}

module _ (c : Consts) (r : ArrayCalls) (d : IsArrayCalls c r) (h : Heap) where
  try_convert_array :
      (val : Value) (s : Space)
      → rb_type c h val ≡ ok c.t_array
      → RArray.try_convert c r h val s ≡ (ok val, s)
  unfolding RArray.try_convert RArray.from_value
  try_convert_array val s e =
      let found : RArray.from_value c r h val ≡ ok (some val) =
        rw (e, RArray.from_value) (rw ((==_iff c.t_array c.t_array).1 refl) refl) in
      rw (found, RArray.try_convert) refl

  -- A tuple that has become a Ruby array is converted back to the items that its values convert to,
  -- one by one, by the types in their order, if the array's header says that it is one.
  tuple_try_convert-tuple_into_value :
      {T : Type 0} (types : List (Conversion T)) (vs : List Value) (ts : List T) (s : Space)
      → Converts types vs ts
      → rb_type c h (r.rb_ary_new_from_values vs s).0 ≡ ok c.t_array
      → ((tuple_into_value c r vs >>= tuple_try_convert c r h types) s).0 ≡ ok ts
  unfolding tuple_into_value tuple_try_convert RArray.ary_new_from_values RArray.as_slice
  tuple_try_convert-tuple_into_value types vs ts s conv e =
      let made = r.rb_ary_new_from_values vs s in
      rw (try_convert_array made.0 made.1 e) (
        rw (IsNew-items s vs false made (d.new_from_values_law vs s)) (
          rw
            (
              (==_iff (length vs) (length types)).1 (Converts-length conv),
              convert_all-Converts conv,
            )
            refl))

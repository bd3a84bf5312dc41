-- ===== src/Tests/ConvertTests.antt =====
-- The properties of conversions, at numbers that are Bignums and at a pair.
use magnus.Prelude.{ℕ, ◌^◌, ◌≡◌, refl, inl, false, [], ok, arith, bit_and}
use magnus.Prelude.Int.{negsuc}
use magnus.Ruby.{Value, Heap, modern}
use magnus.Error.{Completion, returned}
use magnus.Value.{is_immediate}
use magnus.Space.{Space}
use magnus.RArray.{Conversion}
use magnus.Fixnum.{from_i64_impl}
use magnus.Integer.{integer_from_i64}
use magnus.Convert.{i64, signed_into_value, signed_try_convert}
use magnus.Convert.RoundTrip.{signed_try_convert-signed_into_value}
use magnus.Tests.SampleNumbers.{sample, sample-IsNumbers}

abbrev to_int : Value → Completion Value
to_int v = returned v

signed_try_convert-signed_into_value_example :
    signed_try_convert modern sample to_int i64
      (signed_into_value modern sample i64 (negsuc (2 ^ 62)))
    ≡ ok (negsuc (2 ^ 62))
unfolding is_immediate signed_into_value integer_from_i64 from_i64_impl
signed_try_convert-signed_into_value_example =
    signed_try_convert-signed_into_value modern sample (inl refl) sample-IsNumbers to_int i64
      (negsuc (2 ^ 62)) (omega arith) (λ _. refl)

abbrev start : Space
start = record {
  items = λ b. [];
  pairs = λ b. [];
  objects = [];
  frozen = λ b. false;
  hidden = λ b. false;
}

abbrev heap : Heap
heap = record { flags = λ w. 7; klass = λ w. 0 }

abbrev plain : Conversion ℕ
plain v = ok v

abbrev tagged : Conversion ℕ
tagged v = ok (bit_and v 0xff)

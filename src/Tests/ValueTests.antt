-- ===== src/Tests/ValueTests.antt =====
-- The properties of tagged values and of floats at concrete words.
use magnus.Prelude.{ℕ, ◌+◌, ◌*◌, ◌/◌, ◌≡◌, inl, refl, ok, arith}
use magnus.Ruby.{modern, Heap}
use magnus.Value.{rb_type}
use magnus.Value.Tags.{symbol_kind, bits, type_of, rb_type-bits}
use magnus.Flonum.{Floats, IsFloats, float_to_f64, float_from_f64}
use magnus.Flonum.Encoding.{float_to_f64-float_from_f64}
use magnus.Error.{returned}

abbrev heap : Heap
heap = record { flags = λ w. 0x0a; klass = λ w. w + 8 }

-- The heap keeps a float's bits behind an address that is made of them.
abbrev floats : Floats
floats = record {
  rb_float_new_in_heap = λ v. v * 8;
  rb_float_value = λ w. w / 8;
  rb_to_float = λ w. returned w;
}

floats-IsFloats : IsFloats floats
floats-IsFloats = record { aligned_law = λ v. omega arith; value_law = λ v. omega arith }

-- The bits of 1.0.
abbrev one : ℕ
one = 0x3ff0000000000000

rb_type-bits_example :
    rb_type modern heap (bits modern (symbol_kind 5)) ≡ ok (type_of modern heap (symbol_kind 5))
rb_type-bits_example = rb_type-bits modern heap (inl refl) (symbol_kind 5) (omega arith)

float_to_f64-float_from_f64_example :
    float_to_f64 modern floats (float_from_f64 modern floats 1) ≡ 1
float_to_f64-float_from_f64_example =
    float_to_f64-float_from_f64 modern floats (inl refl) floats-IsFloats 1 (omega arith)

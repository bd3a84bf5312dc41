-- ===== src/Tests/ArrayTests.antt =====
-- The properties of arrays, at an array of numbers whose values stand above 0x10.
use magnus.Prelude.{
  ℕ, ◌+◌, ◌-◌, ◌≡◌, ◌≢◌, refl, true, false, List, [], ◌∷◌, Outcome, ok, err, if◌then◌else◌, ltb,
  ◌==◌, arith, map, Bool-cases, inl, inr,
}
use magnus.Ruby.{Value, modern}
use magnus.Error.{ErrorType, error, type_error}
use magnus.Space.{Space, Effect, write, ◌>>=◌, ◌>>◌, items-write_other}
use magnus.RArray.{Conversion}
use magnus.RArray.Build.{ary_try_from_iter}
use magnus.RArray.Buffer.{sequence}
use magnus.RArray.Chunks.{Makes, ary_try_from_iter-Makes}
use magnus.RArray.Stack.{
  Op, pushing, unshifting, popping, shifting, reversing, steps, perform_all, perform_all_lem,
}
use magnus.RArray.Iterate.{into_iter, for_each}
use magnus.RArray.Loops.{each, is_safe, into_iter-for_each}
use magnus.RArray.TypedArray as TypedArray
use magnus.RArray.Typed as Typed
use magnus.RArray.Typed.{collect-Typed, change, change-Typed, to_vec-Typed, resize-to_vec}
use magnus.Tests.SampleArrays.{calls, calls-IsArrayCalls}

abbrev into : ℕ → Value
into t = t + 0x10

abbrev convert : Conversion ℕ
convert v = if ltb v 0x10 then err (error type_error "not a number") else ok (v - 0x10)

convert-into : (t : ℕ) → convert (into t) ≡ ok t
convert-into t =
    let l : ltb (t + 0x10) 0x10 ≡ false = ground arith in
    let e : t + 0x10 - 0x10 ≡ t = omega arith in rw (l, e) refl

abbrev numbers : Value
numbers = 0x100

abbrev start : Space
start = record {
  items = λ b. if b == numbers then 0x11 ∷ 0x12 ∷ 0x13 ∷ [] else [];
  pairs = λ b. [];
  objects = numbers ∷ [];
  frozen = λ b. false;
  hidden = λ b. false;
}

abbrev three : List (Outcome ErrorType ℕ)
three = ok 7 ∷ ok 8 ∷ ok 9 ∷ []

ary_try_from_iter-Makes_example :
    Makes modern calls calls-IsArrayCalls into
      (sequence three)
      start
      (ary_try_from_iter modern calls into 3 three start)
ary_try_from_iter-Makes_example =
    ary_try_from_iter-Makes modern calls calls-IsArrayCalls into 3 three start

abbrev ops : List (Op ℕ)
ops =
    pushing 4
    ∷ shifting
    ∷ reversing
    ∷ popping
    ∷ unshifting 6
    ∷ popping
    ∷ popping
    ∷ popping
    ∷ popping
    ∷ []

perform_all_lem_example : perform_all modern calls into convert numbers ops start ≡ (
  (steps (convert 4) ops (1 ∷ 2 ∷ 3 ∷ [])).0,
  write start numbers (map into (steps (convert 4) ops (1 ∷ 2 ∷ 3 ∷ [])).1),
)
perform_all_lem_example =
    perform_all_lem modern calls into convert numbers calls-IsArrayCalls convert-into ops
      (1 ∷ 2 ∷ 3 ∷ []) start refl refl

-- A body that changes the array of the loop.
abbrev body : ℕ → Effect ErrorType (Unit {0})
body t s = (ok tt, if is_safe s numbers then s else write s numbers (into t ∷ []))

body-keeps :
    (a : Value) (t : ℕ) (s : Space)
    → is_safe s a ≡ true
    → ((body t s).1.items a ≡ s.items a) × (is_safe (body t s).1 a ≡ true)
body-keeps a t s safe = elim (Bool-cases (is_safe s numbers)) [
  | inl e ↦ rw e (refl, safe)
  | inr e ↦
      let ne : numbers ≢ a =
        λ same. let e' : is_safe s a ≡ false = rw (← same) e in cc (e', safe) in
      rw e (items-write_other s numbers a (into t ∷ []) ne, safe)
]

into_iter-for_each_example :
    (into_iter modern calls numbers >>= for_each modern calls convert body 4) start
    ≡ each body
        (map convert (0x11 ∷ 0x12 ∷ 0x13 ∷ []))
        (into_iter modern calls {E = ErrorType} numbers start).1
into_iter-for_each_example =
    into_iter-for_each modern calls calls-IsArrayCalls convert body numbers 4 start (omega arith)
      (omega arith) body-keeps

numbers-Typed : Typed.Typed convert (start.items numbers)
numbers-Typed = collect-Typed convert (start.items numbers) (1 ∷ 2 ∷ 3 ∷ []) refl

change-Typed_example : Typed.Typed convert (
    (change modern calls into convert (Typed.Change.concatenating numbers) numbers start).1.items
      numbers)
change-Typed_example =
    change-Typed modern calls into convert calls-IsArrayCalls (Typed.Change.concatenating numbers)
      numbers start refl numbers-Typed numbers-Typed

resize-to_vec_example :
    ((TypedArray.resize modern calls numbers 5 >> TypedArray.to_vec modern calls convert numbers)
      start).0
    ≡ Outcome.panic
resize-to_vec_example =
    resize-to_vec modern calls convert calls-IsArrayCalls numbers 5
      (error type_error "not a number") start refl numbers-Typed refl (omega arith) (omega arith)

-- ===== src/Tests/HashTests.antt =====
-- The properties of hashes, at a hash of numbers.
use magnus.Prelude.{
  ℕ, ◌+◌, ◌-◌, ◌≡◌, refl, false, List, [], ◌∷◌, Outcome, ok, err, if◌then◌else◌, ltb, ◌==◌, arith,
  inl,
}
use magnus.Ruby.{Value, modern}
use magnus.Error.{ErrorType, error, type_error, returned}
use magnus.Space.{Space, write_pairs}
use magnus.Method.{Ran, Classes, failed}
use magnus.Method.Raise.{IsClasses}
use magnus.RHash.{ForEach, continue, stop, delete, foreach}
use magnus.RHash.Foreach.{runs, Results, foreach-Results}
use magnus.Tests.SampleHashes.{calls, calls-IsHashCalls}

abbrev into : ℕ → Value
into t = t + 0x100

abbrev convert : Value → Ran ℕ
convert v = if ltb v 0x100 then err (failed (error type_error "not a number")) else ok (v - 0x100)

convert-into : (t : ℕ) → convert (into t) ≡ ok t
convert-into t =
    let l : ltb (t + 0x100) 0x100 ≡ false = ground arith in
    let e : t + 0x100 - 0x100 ≡ t = omega arith in rw (l, e) refl

abbrev classes : Classes
classes = record {
  new_instance = λ class msg. returned 0x900;
  class_value = λ class. 0x800;
  is_inherited = λ class v. false;
  is_kind_of_class = λ e class. false;
}

classes-IsClasses : IsClasses classes
classes-IsClasses class msg = (0x900, inl refl)

abbrev table : Value
table = 0x200

abbrev start : Space
start = record {
  items = λ b. [];
  pairs = λ b. if b == table then (0x101, 0x10a) ∷ (0x102, 0x114) ∷ (0x103, 0x11e) ∷ [] else [];
  objects = table ∷ [];
  frozen = λ b. false;
  hidden = λ b. false;
}

abbrev two : List (Outcome ErrorType (ℕ × ℕ))
two = ok (1, 2) ∷ ok (3, 4) ∷ ok (1, 5) ∷ []

-- Removes the first pair, keeps the second, and stops at the third.
abbrev func : ℕ → ℕ → ℕ → Ran ForEach × ℕ
func key val sum =
    (ok (if key == 1 then delete else if key == 2 then continue else stop), sum + val)

ended : (runs convert convert func (start.pairs table) 0).0 ≡ ok 60
ended = refl

foreach-Results_example :
    Results convert convert func modern classes classes-IsClasses 0
      (runs convert convert func (start.pairs table) 0).0
      (foreach modern calls classes 0 convert convert func 0 table start).0
    × ((foreach modern calls classes 0 convert convert func 0 table start).1
        ≡ write_pairs start table (runs convert convert func (start.pairs table) 0).1)
foreach-Results_example =
    foreach-Results convert convert func modern classes classes-IsClasses 0 calls calls-IsHashCalls
      0 table start (λ e. cc (e, ended)) (λ e. cc (e, ended))

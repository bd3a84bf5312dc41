-- ===== src/Range/Members.antt =====
-- src/range.rs: what a range made of a Rust range holds.
use magnus.Prelude.{
  ℕ, ◌+◌, ◌*◌, ◌≡◌, refl, ap, ◌∙◌, Bool, true, false, ok, err, panic, if◌then◌else◌, inl, inr,
  arith,
}
use magnus.Ruby.{Value, Consts, Heap, IsDocumented}
use magnus.Error.{Result, returned, protect}
use magnus.Error.Returned.{protect-returned}
use magnus.Value.{to_bool}
use magnus.RStruct.{Memory}
use magnus.RStruct.Layout.{Holds, get-Holds}
use magnus.Range.{
  RangeCalls, StdRange, range, range_inclusive, range_from, range_to, range_to_inclusive,
  range_full, unwrapped, range_new, into_value_with, beg, end, excl,
}

-- A new range is a struct of three members: its ends, and whether the last is left out.
pub record IsRangeCalls (c : Consts) (h : Heap) (mem : Memory) (r : RangeCalls) : Type 0 where
  pub range_new_law :
      (b e : Value) (x : Bool) (v : Value)
      → r.rb_range_new b e x ≡ returned v
      → (at : ℕ) × Holds h mem v 3 at
        × (mem at ≡ b)
        × (mem (at + 8) ≡ e)
        × (mem (at + 16) ≡ (if x then c.qtrue else c.qfalse))

-- The ends of a Rust range as Ruby has them, and whether the last is left out.
abbrev pub first : {T : Type 0} → Consts → (T → Value) → StdRange T → Value
first c into (range start end) = into start
first c into (range_inclusive start end) = into start
first c into (range_from start) = into start
first c into (range_to end) = c.qnil
first c into (range_to_inclusive end) = c.qnil
first c into range_full = c.qnil

abbrev pub last : {T : Type 0} → Consts → (T → Value) → StdRange T → Value
last c into (range start end) = into end
last c into (range_inclusive start end) = into end
last c into (range_from start) = c.qnil
last c into (range_to end) = into end
last c into (range_to_inclusive end) = into end
last c into range_full = c.qnil

abbrev pub leaves_last : {T : Type 0} → StdRange T → Bool
leaves_last (range start end) = true
leaves_last (range_inclusive start end) = false
leaves_last (range_from start) = false
leaves_last (range_to end) = true
leaves_last (range_to_inclusive end) = false
leaves_last range_full = false

module _ (c : Consts) (d : IsDocumented c) (h : Heap) (mem : Memory) (r : RangeCalls)
    (l : IsRangeCalls c h mem r) where
  flag-to_bool : (x : Bool) → to_bool c (if x then c.qtrue else c.qfalse) ≡ x
  unfolding to_bool
  flag-to_bool true = elim d [ inl e ↦ rw e refl | inr e ↦ rw e refl ]
  flag-to_bool false = elim d [ inl e ↦ rw e refl | inr e ↦ rw e refl ]

  unwrapped_ok : {A : Type 0} (o : Result A) (a : A) → unwrapped c r o ≡ ok a → o ≡ ok a
  unwrapped_ok (ok b) a e = e
  unwrapped_ok (err b) a e = absurd cc
  unwrapped_ok panic a e = absurd cc

  made_lem :
      (b e : Value) (x : Bool) (v : Value)
      → unwrapped c r (range_new c r b e x) ≡ ok v
      → r.rb_range_new b e x ≡ returned v
  unfolding range_new
  made_lem b e x v h =
      protect-returned c (r.rb_range_new b e x) v
        (unwrapped_ok (protect c (r.rb_range_new b e x)).result v h)

  members_lem :
      {U : Type 0} (convert : Value → Result U) (b e : Value) (x : Bool) (v : Value)
      → unwrapped c r (range_new c r b e x) ≡ ok v
      → (beg c r h mem convert v ≡ convert b)
        × (end c r h mem convert v ≡ convert e)
        × (excl c r h mem v ≡ ok x)
  unfolding beg end excl
  members_lem convert b e x v made =
      let (at, hold, mb, me, mx) = l.range_new_law b e x v (made_lem b e x v made) in
      let first_at : at + 0 * 8 ≡ at = omega arith in
      (
        get-Holds c h mem v 3 at convert 0 hold ∙ ap convert (ap mem first_at ∙ mb),
        get-Holds c h mem v 3 at convert 1 hold ∙ ap convert me,
        rw (get-Holds c h mem v 3 at ok 2 hold) (rw mx (ap ok (flag-to_bool x))),
      )

  -- A range made of any of Rust's six range types reads back as its ends, nil for one that is not
  -- given, each as it converts, and as whether it leaves out the last.
  pub into_value_with-reads :
      {T U : Type 0} (into : T → Value) (convert : Value → Result U) (s : StdRange T) (v : Value)
      → into_value_with c r into s ≡ ok v
      → (beg c r h mem convert v ≡ convert (first c into s))
        × (end c r h mem convert v ≡ convert (last c into s))
        × (excl c r h mem v ≡ ok (leaves_last s))
  unfolding into_value_with
  into_value_with-reads into convert (range start end) v made =
      members_lem convert (into start) (into end) true v made
  into_value_with-reads into convert (range_inclusive start end) v made =
      members_lem convert (into start) (into end) false v made
  into_value_with-reads into convert (range_from start) v made =
      members_lem convert (into start) c.qnil false v made
  into_value_with-reads into convert (range_to end) v made =
      members_lem convert c.qnil (into end) true v made
  into_value_with-reads into convert (range_to_inclusive end) v made =
      members_lem convert c.qnil (into end) false v made
  into_value_with-reads into convert range_full v made =
      members_lem convert c.qnil c.qnil false v made

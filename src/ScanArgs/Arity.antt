-- ===== src/ScanArgs/Arity.antt =====
-- `check_arity` and the bounds that it reports.
use mathlib.Core.Path.{Path}
use magnus.Prelude.{
  Outcome, ℕ, ◌≡◌, ◌≢◌, ◌<◌, ◌^◌, refl, ◌↔◌, ◌⊎◌, inl, inr, Bool, true, false, ◌&&◌, ok, err, panic,
  arith, Bool-cases,
}
use magnus.Prelude.Int.{ℤ, pos, negsuc, ◌≤ℤ◌}
use magnus.Ruby.{Value, Consts}
use magnus.Error.{unwound, protect, exception, raise}
use magnus.ScanArgs.Calls.{ScanCalls}
use magnus.ScanArgs.Convert.{
  Bound, included, excluded, unbounded, contains, above_start, below_end, min_arity, max_arity,
  check_arity,
}
use magnus.Bits.Word.{as_signed}

-- The number fits a C `int`.
abbrev pub IsCInt : Bound → Type 0
IsCInt (included n) = n < 2 ^ 31
IsCInt (excluded n) = n < 2 ^ 31
IsCInt unbounded = Unit {0}

-- The numbers of arguments that Ruby allows for a minimum and a maximum; -1 is no maximum.
abbrev pub IsWithin : ℤ → ℤ → ℕ → Type 0
IsWithin least most n = (least ≤ℤ pos n) × ((most ≡ negsuc 0) ⊎ (pos n ≤ℤ most))

max_lem :
    (end : Bound) (n : ℕ)
    → IsCInt end
    → end ≢ excluded 0
    → (below_end end n ≡ true) ↔ ((max_arity end ≡ negsuc 0) ⊎ (pos n ≤ℤ max_arity end))
unfolding max_arity
max_lem (included e) n h ne = ground arith
max_lem (excluded e) n h ne = ground arith
max_lem unbounded n h ne = (λ t. inl refl, λ t. refl)

min_lem :
    (start : Bound)
    → ((s : ℕ) → start ≢ excluded s)
    → IsCInt start
    → (least : ℤ) × (min_arity start ≡ ok least)
      × ((n : ℕ) → (above_start start n ≡ true) ↔ (least ≤ℤ pos n))
unfolding min_arity
min_lem (included s) ns h = (as_signed 32 (pos s), refl, λ n. ground arith)
min_lem (excluded s) ns h = absurd (ns s refl)
min_lem unbounded ns h = (pos 0, refl, λ n. ground arith)

both_iff :
    (a b : Bool) (P Q : Type 0) → (a ≡ true) ↔ P → (b ≡ true) ↔ Q → ((a && b) ≡ true) ↔ (P × Q)
both_iff true b P Q p q = (λ e. (p.0 refl, q.0 e), λ (x, y). q.1 y)
both_iff false b P Q p q = (λ e. absurd cc, λ (x, y). p.1 x)

check_arity-inside :
    (c : Consts) (r : ScanCalls) (len : ℕ) (start end : Bound)
    → contains start end len ≡ true
    → check_arity c r len start end ≡ ok tt
unfolding check_arity
check_arity-inside c r len start end e = rw e refl

check_arity-outside :
    (c : Consts) (r : ScanCalls) (len : ℕ) (start end : Bound) (least : ℤ) (error : Value)
    → len < 2 ^ 31
    → contains start end len ≡ false
    → min_arity start ≡ ok least
    → r.rb_error_arity (pos len) least (max_arity end) ≡ unwound raise error
    → check_arity c r len start end ≡ err (exception error)
unfolding check_arity protect
check_arity-outside c r len start end least error small out em er =
    rw (out, em, signed_small, er) refl
  where
    signed_small : as_signed 32 (pos len) ≡ pos len
    signed_small = ground arith

-- For a number of arguments outside the range, `check_arity` gives the error that Ruby raises for
-- this number and for bounds that allow exactly the numbers of the range. The range has no
-- excluded start, does not end before 0, and fits C's `int`, as the number does.
check_arity_lem :
    (c : Consts) (r : ScanCalls) (error_of : ℤ → ℤ → ℤ → Value) (len : ℕ) (start end : Bound)
    → ((n least most : ℤ) → r.rb_error_arity n least most ≡ unwound raise (error_of n least most))
    → ((s : ℕ) → start ≢ excluded s)
    → end ≢ excluded 0
    → IsCInt start
    → IsCInt end
    → len < 2 ^ 31
    → contains start end len ≡ false
    → (least most : ℤ) × (check_arity c r len start end
        ≡ err (exception (error_of (pos len) least most)))
      × ((n : ℕ) → (contains start end n ≡ true) ↔ IsWithin least most n)
check_arity_lem c r error_of len start end law ns ne hs he small out =
    let (least, em, above) = min_lem start ns hs in
    (
      least,
      max_arity end,
      check_arity-outside c r len start end least _ small out em
          (law (pos len) least (max_arity end)),
      λ n. both_iff _ _ _ _ (above n) (max_lem end n he ne),
    )

not_ok : {E A : Type 0} {e : E} {a : A} → Path (Outcome E A) (err e) (ok a) → ⊥
not_ok h = cc

panic_not_ok : {E A : Type 0} {a : A} → Path (Outcome E A) panic (ok a) → ⊥
panic_not_ok h = cc

check_arity-refused :
    (c : Consts) (r : ScanCalls) (error_of : ℤ → ℤ → ℤ → Value) (len : ℕ) (start end : Bound)
    → ((n least most : ℤ) → r.rb_error_arity n least most ≡ unwound raise (error_of n least most))
    → contains start end len ≡ false
    → ¬ (check_arity c r len start end ≡ ok tt)
unfolding check_arity min_arity protect
check_arity-refused c r error_of len (included s) end law e h =
    not_ok (rw (e, law (as_signed 32 (pos len)) (as_signed 32 (pos s)) (max_arity end)) at h)
check_arity-refused c r error_of len (excluded s) end law e h = panic_not_ok (rw e at h)
check_arity-refused c r error_of len unbounded end law e h =
    not_ok (rw (e, law (as_signed 32 (pos len)) (pos 0) (max_arity end)) at h)

-- `check_arity` succeeds exactly on the numbers of arguments in the range, whatever range it is,
-- when `rb_error_arity` always raises.
pub check_arity_iff :
    (c : Consts) (r : ScanCalls) (error_of : ℤ → ℤ → ℤ → Value) (len : ℕ) (start end : Bound)
    → ((n least most : ℤ) → r.rb_error_arity n least most ≡ unwound raise (error_of n least most))
    → (check_arity c r len start end ≡ ok tt) ↔ (contains start end len ≡ true)
check_arity_iff c r error_of len start end law =
    (forth (Bool-cases (contains start end len)), check_arity-inside c r len start end)
  where
    forth :
        (contains start end len ≡ true) ⊎ (contains start end len ≡ false)
        → check_arity c r len start end ≡ ok tt
        → contains start end len ≡ true
    forth (inl e) h = e
    forth (inr e) h = absurd (check_arity-refused c r error_of len start end law e h)

-- ===== src/Time/RoundTrip.antt =====
-- src/time.rs: what is left of a `SystemTime` that goes to Ruby and comes back.
use magnus.Prelude.{
  ℕ, suc, zero, ◌+◌, ◌-◌, ◌*◌, ◌/◌, ◌^◌, ◌<◌, ◌≡◌, refl, ok, err, panic, ◌>>=◌, ltb, ◌==◌,
  if◌then◌else◌, arith, true, false, ◌∙◌, ◌⊎◌, inl, inr,
}
use magnus.Prelude.Int.{ℤ, pos, negsuc, ◌+ℤ◌, ◌*ℤ◌}
use magnus.Bits.Word.{IsI64}
use magnus.Ruby.{Value, Consts}
use magnus.Error.{Result, error, arg_error, returned, protect}
use magnus.Time.{
  TimeCalls, SystemTime, as_secs, subsec_micros, negated, system_into_value, system_try_convert,
  time_new, of_timeval,
}

-- Ruby's documentation of times: one is made of seconds and microseconds of any sign, and its
-- `timeval` has microseconds from 0 to 10 ^ 6, if its seconds fit.
pub record IsTimeCalls (r : TimeCalls) : Type 0 where
  pub time_law :
      (sec usec s : ℤ) (u : ℕ)
      → u < 10 ^ 6
      → IsI64 s
      → s *ℤ pos (10 ^ 6) +ℤ pos u ≡ sec *ℤ pos (10 ^ 6) +ℤ usec
      → (v : Value) × (r.rb_time_new sec usec ≡ returned v)
        × (r.rb_time_timeval v ≡ returned (s, pos u))

-- The number of seconds of a `SystemTime` is an `i64`.
abbrev pub IsSystemTime : SystemTime → Type 0
IsSystemTime (pos n) = n < 2 ^ 63 * 10 ^ 9
IsSystemTime (negsuc n) = n < 2 ^ 63 * 10 ^ 9

-- What comes back of a time.
abbrev pub comes_back : SystemTime → Result SystemTime
comes_back (pos n) = ok (pos (n / 1000 * 1000))
comes_back (negsuc n) =
    if ltb (suc n) 1000
    then ok (pos 0)
    else if suc n == 2 ^ 63 * 10 ^ 9
    then panic
    else err (error arg_error "time must not be negative")

parts : (n : ℕ) → as_secs n * 10 ^ 9 + subsec_micros n * 1000 ≡ n / 1000 * 1000
parts n = omega arith

-- The durations before the epoch: below a microsecond, more than an `i64` of seconds, and others.
split :
    (d : ℕ)
    → ((ltb d 1000 ≡ true) × (as_secs d ≡ 0) × (subsec_micros d ≡ 0))
      ⊎ (((ltb d 1000 ≡ false) × ((d == 2 ^ 63 * 10 ^ 9) ≡ true))
          ⊎ ((ltb d 1000 ≡ false) × ((d == 2 ^ 63 * 10 ^ 9) ≡ false)))
split d = ground arith

positive : (d : ℕ) → ltb d 1000 ≡ false → 0 < as_secs d + subsec_micros d
positive d h = ground arith

module _ (c : Consts) (r : TimeCalls) (l : IsTimeCalls r) where
  time_new_lem :
      (sec usec : ℤ) (v : Value)
      → r.rb_time_new sec usec ≡ returned v
      → time_new c r sec usec ≡ ok v
  unfolding time_new protect
  time_new_lem sec usec v e = rw (e, time_new) refl

  timeval_lem :
      (v : Value) (w : ℤ × ℤ)
      → r.rb_time_timeval v ≡ returned w
      → system_try_convert c r v ≡ of_timeval c r w
  unfolding system_try_convert protect
  timeval_lem v w e = rw e refl

  accepted :
      (s u : ℕ)
      → s < 2 ^ 63
      → u < 10 ^ 6
      → of_timeval c r (pos s, pos u) ≡ ok (pos (s * 10 ^ 9 + u * 1000))
  accepted s u h g = ground arith

  refused :
      (s : ℕ) (u : ℤ)
      → of_timeval c r (negsuc s, u) ≡ err (error arg_error "time must not be negative")
  refused s u = ground arith

  sum_negative :
      (sec usec : ℕ)
      → usec < 10 ^ 6
      → negsuc sec *ℤ pos (10 ^ 6) +ℤ pos (10 ^ 6 - suc usec)
        ≡ negated sec *ℤ pos (10 ^ 6) +ℤ negsuc usec
  unfolding ◌*ℤ◌ ◌+ℤ◌
  sum_negative zero usec g = ground arith
  sum_negative (suc sec) usec g = ground arith

  negative :
      (sec usec : ℕ)
      → sec < 2 ^ 63
      → usec < 10 ^ 6
      → 0 < sec + usec
      → (v : Value) × (time_new c r (negated sec) (negated usec) ≡ ok v)
        × (system_try_convert c r v ≡ err (error arg_error "time must not be negative"))
  negative zero zero h g p = absurd (omega arith)
  negative (suc sec) zero h g p =
      let (v, new, timeval) =
        l.time_law (negsuc sec) (pos 0) (negsuc sec) 0 (omega arith) (omega (arith, h)) refl in
      (
        v,
        time_new_lem (negsuc sec) (pos 0) v new,
        timeval_lem v (negsuc sec, pos 0) timeval ∙ refused sec (pos 0),
      )
  negative sec (suc usec) h g p =
      let rest = 10 ^ 6 - suc usec in
      let (v, new, timeval) =
        l.time_law (negated sec) (negsuc usec) (negsuc sec) rest (omega arith) (omega (arith, h))
          (sum_negative sec usec (omega arith)) in
      (
        v,
        time_new_lem (negated sec) (negsuc usec) v new,
        timeval_lem v (negsuc sec, pos rest) timeval ∙ refused sec (pos rest),
      )

  at_epoch :
      (v : Value) × (time_new c r (pos 0) (pos 0) ≡ ok v) × (system_try_convert c r v ≡ ok (pos 0))
  at_epoch =
      let (v, new, timeval) =
        l.time_law (pos 0) (pos 0) (pos 0) 0 (omega arith) (omega arith) refl in
      (v, time_new_lem (pos 0) (pos 0) v new, timeval_lem v (pos 0, pos 0) timeval)

  -- A `SystemTime` that goes to Ruby and comes back is cut down to whole microseconds, if it is not
  -- before the epoch. One from before the epoch comes back as the epoch if it is less than a
  -- microsecond before it, and otherwise as an ArgumentError; only the very first `SystemTime` ends
  -- in a panic.
  pub system_try_convert-system_into_value :
      (t : SystemTime)
      → IsSystemTime t
      → (system_into_value c r t >>= system_try_convert c r) ≡ comes_back t
  unfolding system_into_value
  system_try_convert-system_into_value (pos n) h =
      let sec = pos (as_secs n) in
      let usec = pos (subsec_micros n) in
      let (v, new, timeval) =
        l.time_law sec usec sec (subsec_micros n) (omega arith) (omega (arith, h)) refl in
      let small : ltb (as_secs n) (2 ^ 63) ≡ true = ground (arith, h) in
      rw small (
        rw (time_new_lem sec usec v new) (
          rw (timeval_lem v (sec, usec) timeval) (
            accepted (as_secs n) (subsec_micros n) (omega (arith, h)) (omega arith)
            ∙ rw (parts n) refl)))
  system_try_convert-system_into_value (negsuc n) h = elim (split (suc n)) [
    | inl few ↦ let (v, new, back) = at_epoch in rw (few.0, few.1, few.2) (rw new back)
    | inr (inl first) ↦
        let big : ltb (as_secs (suc n)) (2 ^ 63) ≡ false = ground (arith, first) in
        rw (first.0, first.1, big) refl
    | inr (inr other) ↦
        let d = suc n in
        let small : ltb (as_secs d) (2 ^ 63) ≡ true = ground (arith, h, other) in
        let (v, new, back) =
          negative (as_secs d) (subsec_micros d) (ground (arith, h, other)) (omega arith)
            (positive d other.0) in
        rw (other.0, other.1, small) (rw new back)
  ]

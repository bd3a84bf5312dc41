-- ===== src/Tests/TimeTests.antt =====
-- The property of times, at a clock that keeps the number of microseconds, and runs of it.
use magnus.Prelude.{
  ℕ, ◌+◌, ◌-◌, ◌*◌, ◌/◌, ◌%◌, ◌^◌, ◌<◌, ◌≡◌, refl, ap, ◌==◌, false, ok, err, ◌>>=◌, if◌then◌else◌,
  arith,
}
use magnus.Prelude.Int.{ℤ, pos, negsuc, ◌+ℤ◌, ◌*ℤ◌}
use magnus.Ruby.{Value, modern}
use magnus.Error.{returned, error, arg_error}
use magnus.Time.{TimeCalls, system_into_value, system_try_convert}
use magnus.Time.RoundTrip.{IsTimeCalls, system_try_convert-system_into_value}

-- A time is twice the microseconds, and one more before the epoch.
abbrev code : ℤ → Value
code (pos n) = n * 2
code (negsuc n) = n * 2 + 1

abbrev timeval : Value → ℤ × ℤ
timeval v =
    let n = v / 2 in
    if v % 2 == 0
    then (pos (n / 10 ^ 6), pos (n % 10 ^ 6))
    else (negsuc (n / 10 ^ 6), pos (10 ^ 6 - 1 - n % 10 ^ 6))

abbrev clock : TimeCalls
clock = record {
  rb_time_new = λ sec usec. returned (code (sec *ℤ pos (10 ^ 6) +ℤ usec));
  rb_time_timeval = λ v. returned (timeval v);
  rb_time_utc_offset = λ v. 1;
  is_time = λ v. false;
}

timeval-code :
    (s : ℤ) (u : ℕ) → u < 10 ^ 6 → timeval (code (s *ℤ pos (10 ^ 6) +ℤ pos u)) ≡ (s, pos u)
unfolding ◌*ℤ◌ ◌+ℤ◌
timeval-code (pos s) u h = ground arith
timeval-code (negsuc s) u h = ground arith

clock-IsTimeCalls : IsTimeCalls clock
clock-IsTimeCalls = record {
  time_law = λ sec usec s u h i e.
      (code (sec *ℤ pos (10 ^ 6) +ℤ usec), refl, rw (← e) (ap returned (timeval-code s u h)));
}

system_try_convert-system_into_value_example :
    (system_into_value modern clock (pos 1234567) >>= system_try_convert modern clock)
    ≡ ok (pos 1234000)
system_try_convert-system_into_value_example =
    system_try_convert-system_into_value modern clock clock-IsTimeCalls (pos 1234567) (omega arith)

before_epoch :
    (system_into_value modern clock (negsuc 1500) >>= system_try_convert modern clock)
    ≡ err (error arg_error "time must not be negative")
before_epoch =
    system_try_convert-system_into_value modern clock clock-IsTimeCalls (negsuc 1500) (omega arith)

-- ===== src/Time.antt =====
-- src/time.rs: Ruby's times, and the conversions of Rust's `SystemTime` to them and back. A
-- `SystemTime` is the number of nanoseconds since `UNIX_EPOCH`, a `Duration` one that is not
-- negative; the seconds of a `SystemTime` are an `i64`. `time_t` and `c_long` are `i64`.
pub mod RoundTrip
use magnus.Prelude.{
  ℕ, suc, zero, ◌+◌, ◌*◌, ◌/◌, ◌%◌, ◌^◌, ◌&&◌, Bool, Option, none, some, ok, err, panic, ◌>>=◌, ltb,
  if◌then◌else◌,
}
use magnus.Prelude.Int.{ℤ, pos, negsuc, pos_part, leb_ℤ}
use magnus.Ruby.{Value, Consts, Heap}
use magnus.Error.{Result, error, type_error, arg_error, Completion, protect}
use magnus.Fixnum
use magnus.TypedData as TypedData

-- The functions of Ruby's C API, and of src/r_typed_data.rs and src/value.rs the handle of typed
-- data and the test for Ruby's class Time. What `rb_time_timeval` stores is a pair.
pub record TimeCalls : Type 0 where
  pub rb_time_new : ℤ → ℤ → Completion Value
  pub rb_time_timeval : Value → Completion (ℤ × ℤ)
  pub rb_time_utc_offset : Value → Value
  pub is_time : Value → Bool

-- `SystemTime`
abbrev pub SystemTime : Type 0
SystemTime = ℤ

-- `Duration::as_secs` and `Duration::subsec_micros`.
abbrev pub as_secs : ℕ → ℕ
as_secs duration = duration / 10 ^ 9

abbrev pub subsec_micros : ℕ → ℕ
subsec_micros duration = duration % 10 ^ 9 / 1000

-- `i64::try_from(n).unwrap()` of a `u64`.
abbrev pub i64_from : ℕ → Result ℤ
i64_from n = if ltb n (2 ^ 63) then ok (pos n) else panic

-- `-n` of an `i64` that is not negative.
abbrev pub negated : ℕ → ℤ
negated zero = pos 0
negated (suc n) = negsuc n

-- `UNIX_EPOCH + duration`, which panics when the seconds are no `i64`.
abbrev pub after_epoch : ℕ → Result SystemTime
after_epoch duration = if ltb (as_secs duration) (2 ^ 63) then ok (pos duration) else panic

-- `.unwrap()`
abbrev unwrapped : {A : Type 0} → Result A → Result A
unwrapped (ok a) = ok a
unwrapped (err e) = panic
unwrapped panic = panic

module _ (c : Consts) (r : TimeCalls) where
  unfoldable pub time_new : ℤ → ℤ → Result Value
  unfolding protect
  time_new seconds microseconds = (protect c (r.rb_time_new seconds microseconds)).result

  abbrev filtered : Value → Option Value → Option Value
  filtered val none = none
  filtered val (some d) = if r.is_time val then some d else none

  -- `typed_flag` reads the word of that name behind a pointer.
  unfoldable pub from_value : Heap → (ℕ → ℕ) → Value → Result (Option Value)
  unfolding TypedData.from_value
  from_value h typed_flag val = TypedData.from_value c h typed_flag val >>= λ d. ok (filtered val d)

  unfoldable pub utc_offset : Value → ℤ
  utc_offset self = Fixnum.to_i64 (r.rb_time_utc_offset self)

  unfoldable pub try_convert : Heap → (ℕ → ℕ) → Value → Result Value
  unfolding from_value
  try_convert h typed_flag val = from_value h typed_flag val >>= λ handle. elim handle [
    | some v ↦ ok v
    | none ↦ err (error type_error "no implicit conversion into Time")
  ]

  -- The `IntoValue` of `SystemTime`.
  unfoldable pub system_into_value : SystemTime → Result Value
  unfolding time_new
  system_into_value (pos duration) = i64_from (as_secs duration) >>= λ seconds.
      unwrapped (time_new seconds (pos (subsec_micros duration)))
  system_into_value (negsuc n) =
      let duration = suc n in
      i64_from (as_secs duration) >>= λ seconds.
      unwrapped (time_new (negated (pos_part seconds)) (negated (subsec_micros duration)))

  -- `Duration::from_secs` and `from_micros` of the parts, added to `UNIX_EPOCH`. The sum of the two
  -- is below 2 ^ 64 seconds, so it is a `Duration`.
  abbrev pub of_timeval : ℤ × ℤ → Result SystemTime
  of_timeval (tv_sec, tv_usec) =
      if leb_ℤ (pos 0) tv_sec && leb_ℤ (pos 0) tv_usec
      then after_epoch (pos_part tv_sec * 10 ^ 9 + pos_part tv_usec * 1000)
      else err (error arg_error "time must not be negative")

  -- The `TryConvert` of `SystemTime`.
  unfoldable pub system_try_convert : Value → Result SystemTime
  unfolding protect
  system_try_convert val = (protect c (r.rb_time_timeval val)).result >>= of_timeval

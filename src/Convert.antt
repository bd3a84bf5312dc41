-- ===== src/Convert.antt =====
-- src/try_convert.rs, and the `IntoValue` of src/value.rs, src/r_array.rs and src/into_value.rs: the
-- conversions between Ruby's values and Rust's own types.
pub mod RoundTrip
pub mod Tuples
use magnus.Prelude.{
  ℕ, Bool, true, false, not, Option, none, some, List, [], ◌∷◌, ◌++◌, Outcome, ok, err, panic, ◌==◌,
  if◌then◌else◌, length,
}
use magnus.Prelude.Int.{ℤ, pos}
use magnus.Ruby.{Value, Consts, Heap}
use magnus.Ruby.Numbers.{Numbers}
use magnus.Error.{Result, ErrorType, error, type_error, Completion, protect}
use magnus.Value.{to_bool, is_nil}
use magnus.Fixnum as Fixnum
use magnus.Integer as Integer
use magnus.Integer.Casts as Casts
use magnus.Flonum as Flonum
use magnus.Space.{Space, Effect, pure, lift, ◌>>=◌}
use magnus.ScanArgs.Convert.{convert_all}
use magnus.RArray.{Conversion}
use magnus.RArray as RArray
use magnus.RArray.Calls.{ArrayCalls}

abbrev pub and_then : {A B : Type 0} → Result A → (A → Result B) → Result B
and_then (ok a) f = f a
and_then (err e) f = err e
and_then panic f = panic

-- Rust's integer types.
pub data Signed : Type 0 where
  i8 i16 i32 i64 isize : Signed

pub data Unsigned : Type 0 where
  u8 u16 u32 u64 usize : Unsigned

-- `IntoValue`: every integer goes by `i64` or `u64`, which hold it.
module _ (c : Consts) (r : Numbers) where
  unfoldable pub signed_into_value : Signed → ℤ → Value
  signed_into_value i8 self = Integer.integer_from_i64 c r self
  signed_into_value i16 self = Integer.integer_from_i64 c r self
  signed_into_value i32 self = Integer.integer_from_i64 c r self
  signed_into_value i64 self = Integer.integer_from_i64 c r self
  signed_into_value isize self = Integer.integer_from_i64 c r self

  unfoldable pub unsigned_into_value : Unsigned → ℕ → Value
  unsigned_into_value u8 self = Integer.integer_from_u64 c r self
  unsigned_into_value u16 self = Integer.integer_from_u64 c r self
  unsigned_into_value u32 self = Integer.integer_from_u64 c r self
  unsigned_into_value u64 self = Integer.integer_from_u64 c r self
  unsigned_into_value usize self = Integer.integer_from_u64 c r self

  module _ (rb_to_int : Value → Completion Value) where
    abbrev or_to_int : Value → Option Value → Result Value
    or_to_int val (some i) = ok i
    or_to_int val none = (protect c (rb_to_int val)).result

    -- `Integer::try_convert`
    unfoldable pub integer_try_convert : Conversion Value
    integer_try_convert val = and_then (Integer.from_value c r val) (or_to_int val)

    unfoldable pub signed_try_convert : Signed → Conversion ℤ
    signed_try_convert i8 val = and_then (integer_try_convert val) (Casts.to_i8 c r)
    signed_try_convert i16 val = and_then (integer_try_convert val) (Casts.to_i16 c r)
    signed_try_convert i32 val = and_then (integer_try_convert val) (Casts.to_i32 c r)
    signed_try_convert i64 val = and_then (integer_try_convert val) (Casts.to_i64 c r)
    signed_try_convert isize val = and_then (integer_try_convert val) (Casts.to_isize c r)

    unfoldable pub unsigned_try_convert : Unsigned → Conversion ℕ
    unsigned_try_convert u8 val = and_then (integer_try_convert val) (Casts.to_u8 c r)
    unsigned_try_convert u16 val = and_then (integer_try_convert val) (Casts.to_u16 c r)
    unsigned_try_convert u32 val = and_then (integer_try_convert val) (Casts.to_u32 c r)
    unsigned_try_convert u64 val = and_then (integer_try_convert val) (Casts.to_u64 c r)
    unsigned_try_convert usize val = and_then (integer_try_convert val) (Casts.to_usize c r)

module _ (c : Consts) where
  abbrev transpose : {T : Type 0} → Result T → Result (Option T)
  transpose (ok t) = ok (some t)
  transpose (err e) = err e
  transpose panic = panic

  unfoldable pub option_try_convert : {T : Type 0} → Conversion T → Conversion (Option T)
  option_try_convert convert val = if not (is_nil c val) then transpose (convert val) else ok none

  unfoldable pub option_into_value : {T : Type 0} → (T → Value) → Option T → Value
  option_into_value into (some t) = into t
  option_into_value into none = c.qnil

  unfoldable pub bool_try_convert : Conversion Bool
  bool_try_convert val = ok (to_bool c val)

  unfoldable pub bool_into_value : Bool → Value
  bool_into_value self = if self then c.qtrue else c.qfalse

  module _ (r : ArrayCalls) (h : Heap) where
    unfoldable pub vec_try_convert : {T : Type 0} → Conversion T → Value → Effect ErrorType (List T)
    vec_try_convert convert val = do
      array ← RArray.try_convert c r h val
      RArray.to_vec c r convert array

    -- `[T; N]`
    unfoldable pub array_try_convert :
        {T : Type 0} → Conversion T → ℕ → Value → Effect ErrorType (List T)
    array_try_convert convert n val = do
      array ← RArray.try_convert c r h val
      RArray.to_array c r convert n array

    -- The tuples; the types are the list of their conversions.
    unfoldable pub tuple_try_convert :
        {T : Type 0} → List (Conversion T) → Value → Effect ErrorType (List T)
    tuple_try_convert types val = do
      array ← RArray.try_convert c r h val
      λ s.
          let slice = RArray.as_slice c r array s in
          if not (length slice == length types)
          then (err (error type_error "expected Array of length N"), s)
          else (convert_all types slice, s)

  -- The tuples, of the converted items.
  unfoldable pub tuple_into_value : {E : Type 0} → ArrayCalls → List Value → Effect E Value
  tuple_into_value r ary = RArray.ary_new_from_values c r ary

-- `ArgList`: a tuple, with `KwArgs` last or without.
pub record ArgTuple (T : Type 0) : Type 0 where
  pub items : List T
  pub kw_args : Option Value

module _ {T : Type 0} (into : T → Value) where
  abbrev into_all : List T → List Value
  into_all [] = []
  into_all (t ∷ ts) = into t ∷ into_all ts

  abbrev with_kw : List Value → Option Value → List Value
  with_kw vs none = vs
  with_kw vs (some kw) = vs ++ kw ∷ []

  unfoldable pub into_arg_list_with : ArgTuple T → List Value
  into_arg_list_with self = with_kw (into_all self.items) self.kw_args

unfoldable pub contains_kw_args : {T : Type 0} → ArgTuple T → Bool
contains_kw_args self = elim self.kw_args [ none ↦ false | some kw ↦ true ]

-- `RB_PASS_KEYWORDS` and `RB_NO_KEYWORDS` are arguments.
unfoldable pub kw_splat : {T : Type 0} → ℕ → ℕ → ArgTuple T → ℕ
unfolding contains_kw_args
kw_splat pass_keywords no_keywords args =
    if contains_kw_args args then pass_keywords else no_keywords

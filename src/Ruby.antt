-- ===== src/Ruby.antt =====
-- What magnus takes from `rb_sys`, the bindings to Ruby's C headers: the tag constants of
-- `ruby_special_consts`, the type codes of `ruby_value_type` and the flag bits of
-- `ruby_fl_type`. They are a parameter of the model; the two builds that Ruby documents for
-- 64-bit platforms with flonums are given as its values.
pub mod Numbers
use magnus.Prelude.{ℕ, ◌≡◌, ◌⊎◌}

-- A `VALUE`.
abbrev pub Value : Type 0
Value = ℕ

pub record Consts : Type 0 where
  pub qfalse : ℕ
  pub qnil : ℕ
  pub qtrue : ℕ
  pub qundef : ℕ
  pub immediate_mask : ℕ
  pub fixnum_flag : ℕ
  pub flonum_mask : ℕ
  pub flonum_flag : ℕ
  pub symbol_flag : ℕ
  pub special_shift : ℕ
  pub t_mask : ℕ
  pub t_float : ℕ
  pub t_bignum : ℕ
  pub t_nil : ℕ
  pub t_true : ℕ
  pub t_false : ℕ
  pub t_symbol : ℕ
  pub t_fixnum : ℕ
  pub t_undef : ℕ
  pub t_string : ℕ
  pub t_array : ℕ
  pub t_hash : ℕ
  pub t_struct : ℕ
  pub t_data : ℕ
  pub fl_freeze : ℕ
  pub fl_user1 : ℕ

-- Ruby 3.2 and later.
abbrev pub modern : Consts
modern = record {
  qfalse = 0;
  qnil = 0x04;
  qtrue = 0x14;
  qundef = 0x24;
  immediate_mask = 0x07;
  fixnum_flag = 0x01;
  flonum_mask = 0x03;
  flonum_flag = 0x02;
  symbol_flag = 0x0c;
  special_shift = 8;
  t_mask = 0x1f;
  t_float = 0x04;
  t_bignum = 0x0a;
  t_nil = 0x11;
  t_true = 0x12;
  t_false = 0x13;
  t_symbol = 0x14;
  t_fixnum = 0x15;
  t_undef = 0x16;
  t_string = 0x05;
  t_array = 0x07;
  t_hash = 0x08;
  t_struct = 0x09;
  t_data = 0x0c;
  fl_freeze = 0x0800;
  fl_user1 = 0x2000;
}

-- Before 3.2 `nil` and `undef` have other bit patterns.
abbrev pub classic : Consts
classic = record modern { qnil = 0x08; qundef = 0x34 }

abbrev pub IsDocumented : Consts → Type 0
IsDocumented c = (c ≡ modern) ⊎ (c ≡ classic)

-- The memory behind a `VALUE` that is a pointer: the two words of an object's `RBasic`.
pub record Heap : Type 0 where
  pub flags : ℕ → ℕ
  pub klass : ℕ → ℕ

-- ===== src/TypedData/Builder.antt =====
-- src/typed_data.rs: `DataType` and its builder.
use magnus.Prelude.{
  ℕ, ◌+◌, Bool, true, false, not, ◌||◌, ◌&&◌, String, ◌≡◌, refl, if◌then◌else◌, bit_or,
}

-- The bits of `rbimpl_typeddata_flags`.
pub record TypedFlags : Type 0 where
  pub free_immediately : ℕ
  pub frozen_shareable : ℕ
  pub wb_protected : ℕ

-- `DataType`, by its name, the functions it has, and its flags; it has no parent.
pub record DataType : Type 0 where
  pub wrap_struct_name : String
  pub dmark : Bool
  pub dfree : Bool
  pub dsize : Bool
  pub dcompact : Bool
  pub flags : ℕ

pub record DataTypeBuilder : Type 0 where
  pub name : String
  pub mark : Bool
  pub size : Bool
  pub compact : Bool
  pub free_immediately : Bool
  pub wb_protected : Bool
  pub frozen_shareable : Bool

unfoldable pub new : String → DataTypeBuilder
new name = record {
  name = name;
  mark = false;
  size = false;
  compact = false;
  free_immediately = false;
  wb_protected = false;
  frozen_shareable = false;
}

unfoldable pub mark : DataTypeBuilder → DataTypeBuilder
mark self = record self { mark = true }

unfoldable pub size : DataTypeBuilder → DataTypeBuilder
size self = record self { size = true }

unfoldable pub compact : DataTypeBuilder → DataTypeBuilder
compact self = record self { compact = true }

unfoldable pub free_immediately : DataTypeBuilder → DataTypeBuilder
free_immediately self = record self { free_immediately = true }

unfoldable pub wb_protected : DataTypeBuilder → DataTypeBuilder
wb_protected self = record self { wb_protected = true }

unfoldable pub frozen_shareable : DataTypeBuilder → DataTypeBuilder
frozen_shareable self = record self { frozen_shareable = true }

-- `flags |= bit` under a test.
abbrev with_flag : Bool → ℕ → ℕ → ℕ
with_flag test bit flags = if test then bit_or flags bit else flags

unfoldable pub build : Bool → TypedFlags → DataTypeBuilder → DataType
build ruby_gte_3_0 f self =
    let flags = with_flag self.free_immediately f.free_immediately 0 in
    let flags = with_flag (self.wb_protected || not self.mark) f.wb_protected flags in
    let flags = with_flag (ruby_gte_3_0 && self.frozen_shareable) f.frozen_shareable flags in
    record {
      wrap_struct_name = self.name;
      dmark = self.mark;
      dfree = true;
      dsize = self.size;
      dcompact = self.compact;
      flags = flags;
    }

-- The flags of Ruby 3.0 and later.
abbrev documented : TypedFlags
documented = record { free_immediately = 1; frozen_shareable = 0x100; wb_protected = 0x20 }

abbrev bit_if : Bool → ℕ → ℕ
bit_if test bit = if test then bit else 0

flags_lem :
    (a b d : Bool)
    → with_flag d 0x100 (with_flag b 0x20 (with_flag a 1 0))
      ≡ bit_if a 1 + bit_if b 0x20 + bit_if d 0x100
flags_lem true true true = refl
flags_lem true true false = refl
flags_lem true false true = refl
flags_lem true false false = refl
flags_lem false true true = refl
flags_lem false true false = refl
flags_lem false false true = refl
flags_lem false false false = refl

-- The bits of a data type: objects are write-barrier protected if that is asked for or the type has
-- no mark function, and shareable only from Ruby 3.0 on.
build-flags :
    (ruby_gte_3_0 : Bool) (self : DataTypeBuilder)
    → (build ruby_gte_3_0 documented self).flags
      ≡ bit_if self.free_immediately 1
        + bit_if (self.wb_protected || not self.mark) 0x20
        + bit_if (ruby_gte_3_0 && self.frozen_shareable) 0x100
unfolding build
build-flags g self =
    flags_lem self.free_immediately (self.wb_protected || not self.mark)
      (g && self.frozen_shareable)

-- ===== src/Gc.antt =====
-- src/gc.rs: what Rust code tells Ruby's garbage collector.
use magnus.Prelude.{ℕ, Bool, ok, List, map, ◌>>=◌}
use magnus.Prelude.Int.{ℤ}
use magnus.Ruby.{Value, Consts}
use magnus.Error.{Result, Completion, protect}
use magnus.Value.{to_bool}

-- The functions of Ruby's C API on the collector, with its state `G`.
pub record GcCalls (G : Type 0) : Type 0 where
  pub rb_gc_mark : Value → G → G
  pub rb_gc_mark_locations : List Value → G → G
  pub rb_gc_mark_movable : Value → G → G
  pub rb_gc_location : Value → G → Value
  pub rb_gc_register_mark_object : Value → G → G
  pub rb_gc_register_address : ℕ → G → G
  pub rb_gc_unregister_address : ℕ → G → G
  pub rb_gc_disable : G → Value × G
  pub rb_gc_enable : G → Value × G
  pub rb_gc_start : G → G
  pub rb_gc_adjust_memory_usage : ℤ → G → G
  pub rb_gc_count : G → ℕ
  pub rb_gc_stat : Value → G → Completion ℕ

module _ {G : Type 0} (r : GcCalls G) where
  -- `Mark` and `Locate`: a handle, or an `Opaque` one, by the word that it is.
  module _ {H : Type 0} (raw : H → Value) where
    unfoldable mark : H → G → G
    mark value g = r.rb_gc_mark (raw value) g

    -- The slice is passed by the addresses of its ends.
    unfoldable mark_slice : List H → G → G
    mark_slice values g = r.rb_gc_mark_locations (map raw values) g

    unfoldable mark_movable : H → G → G
    mark_movable value g = r.rb_gc_mark_movable (raw value) g

    unfoldable location : (Value → H) → H → G → H
    location from_raw value g = from_raw (r.rb_gc_location (raw value) g)

    unfoldable register_mark_object : H → G → G
    register_mark_object value g = r.rb_gc_register_mark_object (raw value) g

  -- A reference is its address.
  unfoldable register_address : ℕ → G → G
  register_address valref g = r.rb_gc_register_address valref g

  unfoldable unregister_address : ℕ → G → G
  unregister_address valref g = r.rb_gc_unregister_address valref g

  unfoldable gc_disable : Consts → G → Bool × G
  unfolding to_bool
  gc_disable c g = let (v, g') = r.rb_gc_disable g in (to_bool c v, g')

  unfoldable gc_enable : Consts → G → Bool × G
  unfolding to_bool
  gc_enable c g = let (v, g') = r.rb_gc_enable g in (to_bool c v, g')

  unfoldable gc_start : G → G
  gc_start g = r.rb_gc_start g

  unfoldable gc_adjust_memory_usage : ℤ → G → G
  gc_adjust_memory_usage diff g = r.rb_gc_adjust_memory_usage diff g

  unfoldable gc_count : G → ℕ
  gc_count g = r.rb_gc_count g

  unfoldable gc_stat : {K : Type 0} → Consts → (K → Value) → K → G → Result ℕ
  unfolding protect
  gc_stat c into_symbol key g =
      (protect c (r.rb_gc_stat (into_symbol key) g)).result >>= λ res. ok res

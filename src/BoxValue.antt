-- ===== src/BoxValue.antt =====
-- src/value.rs: `BoxValue`, a Ruby value on Rust's heap that the collector knows the address of.
pub mod Rooted
use magnus.Prelude.{ℕ, suc, ◌+◌, Option, none, some, ◌==◌, if◌then◌else◌}
use magnus.Ruby.{Value}
use magnus.Gc.{GcCalls}

-- Rust's heap of boxed values, below `limit`, and the state of the collector.
pub record Boxes (G : Type 0) : Type 0 where
  pub values : ℕ → Option Value
  pub limit : ℕ
  pub collector : G

abbrev pub put : {G : Type 0} → Boxes G → ℕ → Option Value → Boxes G
put b p v = record b { values = λ q. if p == q then v else b.values q; limit = b.limit + suc p }

module _ {G : Type 0} (box_new : Boxes G → ℕ) (r : GcCalls G) where
  -- `BoxValue::new`; a `BoxValue` is the address of its box.
  unfoldable pub box_value_new : Value → Boxes G → ℕ × Boxes G
  box_value_new val b =
      let p = box_new b in
      let b = put b p (some val) in
      (p, record b { collector = r.rb_gc_register_address p b.collector })

  -- `Drop`, and then the drop of the box.
  unfoldable pub box_value_drop : ℕ → Boxes G → Boxes G
  box_value_drop self b =
      put (record b { collector = r.rb_gc_unregister_address self b.collector }) self none

  -- `Deref` and `AsRef`, and a write through `DerefMut` or `AsMut`.
  unfoldable pub deref : ℕ → Boxes G → Option Value
  deref self b = b.values self

  unfoldable pub deref_mut : ℕ → Value → Boxes G → Boxes G
  deref_mut self val b = put b self (some val)

-- ===== src/BoxValue/Rooted.antt =====
-- src/value.rs: the collector knows the boxes that are there, and no others.
use magnus.Prelude.{
  ℕ, suc, ◌+◌, ◌-◌, ◌≤◌, ◌≡◌, sym, ap, ◌∙◌, Option, none, some, ◌==◌, if◌then◌else◌, arith, ==_iff,
  Bool-cases, inl, inr,
}
use magnus.Ruby.{Value}
use magnus.Gc.{GcCalls}
use magnus.BoxValue.{Boxes, put, box_value_new, box_value_drop, deref, deref_mut}

-- How often the collector has an address, and what Ruby documents of it; a new box is at an address
-- that is not in use.
pub record IsGcCalls {G : Type 0} (box_new : Boxes G → ℕ) (r : GcCalls G) (registered : G → ℕ → ℕ)
    : Type 0 where
  pub box_new_law :
      (b : Boxes G) → ((p : ℕ) → b.limit ≤ p → b.values p ≡ none) → b.values (box_new b) ≡ none
  pub register_law :
      (p q : ℕ) (g : G)
      → registered (r.rb_gc_register_address p g) q
        ≡ (if p == q then suc (registered g q) else registered g q)
  pub unregister_law :
      (p q : ℕ) (g : G)
      → registered (r.rb_gc_unregister_address p g) q
        ≡ (if p == q then registered g q - 1 else registered g q)

abbrev present : Option Value → ℕ
present none = 0
present (some v) = 1

module _ {G : Type 0} (box_new : Boxes G → ℕ) (r : GcCalls G) (registered : G → ℕ → ℕ)
    (l : IsGcCalls box_new r registered) where
  -- Each box is known once, and no other address.
  pub record IsRooted (b : Boxes G) : Type 0 where
    pub known : (p : ℕ) → registered b.collector p ≡ present (b.values p)
    pub bounded : (p : ℕ) → b.limit ≤ p → b.values p ≡ none

  -- What a program can do with its boxes: only one that it has can be written or dropped.
  pub data Step (b : Boxes G) : Boxes G → Type 0 where
    news : (val : Value) → Step b (box_value_new box_new r val b).1
    writes :
        (p : ℕ) (v val : Value)
        → deref box_new r p b ≡ some v
        → Step b (deref_mut box_new r p val b)
    drops :
        (p : ℕ) (v : Value) → deref box_new r p b ≡ some v → Step b (box_value_drop box_new r p b)

  pub data Reach (b : Boxes G) : Boxes G → Type 0 where
    here : Reach b b
    next : {e d : Boxes G} → Reach b e → Step e d → Reach b d

  bounded_put :
      (b : Boxes G) (p : ℕ) (v : Option Value)
      → ((q : ℕ) → b.limit ≤ q → b.values q ≡ none)
      → (q : ℕ) → b.limit + suc p ≤ q
      → (put b p v).values q ≡ none
  bounded_put b p v h q le = let old = h q (omega arith) in ground (arith, ==_iff p q)

  Step-IsRooted : {b d : Boxes G} → Step b d → IsRooted b → IsRooted d
  unfolding box_value_new box_value_drop deref deref_mut
  Step-IsRooted {b} (news val) i =
      let p = box_new b in
      let free = l.box_new_law b i.bounded in
      record {
        known = λ q. elim (Bool-cases (p == q)) [
          | inl e ↦
              let same : p ≡ q = (==_iff p q).0 e in
              let none_there : registered b.collector q ≡ 0 =
                i.known q ∙ ap present (ap b.values (sym same) ∙ free) in
              rw (l.register_law p q b.collector) (rw e (ap suc none_there))
          | inr e ↦ rw (l.register_law p q b.collector) (rw e (i.known q))
        ];
        bounded = bounded_put b p (some val) i.bounded;
      }
  Step-IsRooted {b} (writes p v val e) i = record {
    known = λ q. elim (Bool-cases (p == q)) [
      | inl h ↦
          let same : p ≡ q = (==_iff p q).0 h in
          rw h (i.known q ∙ ap present (ap b.values (sym same) ∙ e))
      | inr h ↦ rw h (i.known q)
    ];
    bounded = bounded_put b p (some val) i.bounded;
  }
  Step-IsRooted {b} (drops p v e) i = record {
    known = λ q. elim (Bool-cases (p == q)) [
      | inl h ↦
          let same : p ≡ q = (==_iff p q).0 h in
          let one : registered b.collector q ≡ 1 =
            i.known q ∙ ap present (ap b.values (sym same) ∙ e) in
          rw (l.unregister_law p q b.collector) (rw h (ap (λ (n : ℕ). n - 1) one))
      | inr h ↦ rw (l.unregister_law p q b.collector) (rw h (i.known q))
    ];
    bounded = bounded_put b p none i.bounded;
  }

  -- Whatever boxes a program makes, writes to and drops, the collector knows the address of each box
  -- that is there exactly once, so that it keeps what the box holds, and of no other, so that it
  -- reads no memory that has been given back.
  pub Reach-IsRooted : (b d : Boxes G) → IsRooted b → Reach b d → IsRooted d
  Reach-IsRooted b d i here = i
  Reach-IsRooted b d i (next {e} path step) = Step-IsRooted step (Reach-IsRooted b e i path)

-- ===== src/Tests/MemoryTests.antt =====
-- The properties of ranges, boxed values and the start of Ruby, at small memories.
use magnus.Prelude.{
  Bool-cases, ◌+◌, Bool, ==_iff, sym, inl, inr, ◌&&◌, ◌*◌, true, ℕ, suc, ◌-◌, ◌≡◌, ◌≤◌, refl, arith,
  false, none, ◌==◌, if◌then◌else◌, ok,
}
use magnus.Ruby.{Value, modern, Heap}
use magnus.Error.{Result, Completion, returned, unwound, Tag, protect}
use magnus.Gc.{GcCalls}
use magnus.Prelude.Int.{pos}
use magnus.Range.{RangeCalls, range, range_new, into_value_with, beg, end, excl}
use magnus.Range.Members.{IsRangeCalls, into_value_with-reads}
use magnus.RStruct.Layout.{Holds, embedded}
use magnus.BoxValue.{Boxes, box_value_new, deref, deref_mut, box_value_drop}
use magnus.BoxValue.Rooted.{IsGcCalls, IsRooted, news, writes, drops, here, next, Reach-IsRooted}
use magnus.Embed.{EmbedCalls, setup, init, init_options, cleanup_drop}
use magnus.Embed.Once.{IsEmbedCalls, Machine, sets_up, initialises, Reach-setups}
use magnus.Embed.Once as Once

abbrev plain : Value → Result Value
plain v = ok v

-- Ruby makes one range, `2...7`, which is at 0x100, and no other.
abbrev range_heap : Heap
range_heap = record { flags = λ p. 0x6009; klass = λ p. 0 }

abbrev range_memory : ℕ → ℕ
range_memory p = if p == 0x110 then 5 else if p == 0x118 then 15 else modern.qtrue

abbrev ranges : RangeCalls
ranges = record {
  rb_range_new =
      λ b e x. if (b == 5 && e == 15) && x then returned 0x100 else unwound Tag.raise 0x77;
  rb_range_beg_len = λ v n. returned (pos 2, pos 3);
  is_range = λ v. true;
}

three_members : Holds range_heap range_memory 0x100 3 0x110
three_members = embedded refl (λ e. cc e) refl

made_range :
    (b e : Value) (x : Bool)
    → ((b == 5 && e == 15) && x) ≡ true
    → (5 ≡ b) × (15 ≡ e) × (modern.qtrue ≡ (if x then modern.qtrue else modern.qfalse))
made_range b e x t = ground (arith, ==_iff b 5, ==_iff e 15)

ranges-IsRangeCalls : IsRangeCalls modern range_heap range_memory ranges
ranges-IsRangeCalls = record {
  range_new_law = λ b e x v h. elim (Bool-cases ((b == 5 && e == 15) && x)) [
    | inl t ↦
        let made : ◌≡◌ {A = Completion Value} (returned 0x100) (returned v) = rw t at h in
        let same : 0x100 ≡ v = cc made in
        let (first, last, flag) = made_range b e x t in
        (0x110, rw (sym same) three_members, first, last, flag)
    | inr f ↦
        let made : ◌≡◌ {A = Completion Value} (unwound Tag.raise 0x77) (returned v) = rw f at h in
        absurd cc
  ];
}

abbrev odd_word : ℕ → Value
odd_word n = 2 * n + 1

into_value_with-reads_example :
    (beg modern ranges range_heap range_memory plain 0x100 ≡ ok 5)
    × (end modern ranges range_heap range_memory plain 0x100 ≡ ok 15)
    × (excl modern ranges range_heap range_memory 0x100 ≡ ok true)
unfolding into_value_with range_new protect
into_value_with-reads_example =
    into_value_with-reads modern (inl refl) range_heap range_memory ranges ranges-IsRangeCalls
      odd_word plain (range 2 7) 0x100 refl

-- The collector counts how often it has an address.
abbrev Counts : Type 0
Counts = ℕ → ℕ

abbrev counting : GcCalls Counts
counting = record {
  rb_gc_mark = λ v g. g;
  rb_gc_mark_locations = λ vs g. g;
  rb_gc_mark_movable = λ v g. g;
  rb_gc_location = λ v g. v;
  rb_gc_register_mark_object = λ v g. g;
  rb_gc_register_address = λ p g q. if p == q then suc (g q) else g q;
  rb_gc_unregister_address = λ p g q. if p == q then g q - 1 else g q;
  rb_gc_disable = λ g. (0, g);
  rb_gc_enable = λ g. (0, g);
  rb_gc_start = λ g. g;
  rb_gc_adjust_memory_usage = λ n g. g;
  rb_gc_count = λ g. 0;
  rb_gc_stat = λ key g. returned 0;
}

abbrev at_limit : Boxes Counts → ℕ
at_limit b = b.limit

counting-IsGcCalls : IsGcCalls at_limit counting (λ g. g)
counting-IsGcCalls = record {
  box_new_law = λ b h. h b.limit (omega arith);
  register_law = λ p q g. refl;
  unregister_law = λ p q g. refl;
}

abbrev no_boxes : Boxes Counts
no_boxes = record { values = λ p. none; limit = 0; collector = λ p. 0 }

no_boxes-IsRooted : IsRooted at_limit counting (λ g. g) counting-IsGcCalls no_boxes
no_boxes-IsRooted = record { known = λ p. refl; bounded = λ p le. refl }

abbrev one_box : Boxes Counts
one_box = (box_value_new at_limit counting 0x20 no_boxes).1

abbrev written : Boxes Counts
written = deref_mut at_limit counting 0 0x30 one_box

-- A box is made, written to and dropped.
Reach-IsRooted_example :
    IsRooted at_limit counting
      (λ g. g)
      counting-IsGcCalls
      (box_value_drop at_limit counting 0 written)
unfolding deref box_value_new deref_mut
Reach-IsRooted_example =
    Reach-IsRooted at_limit counting (λ g. g) counting-IsGcCalls no_boxes
      (box_value_drop at_limit counting 0 written) no_boxes-IsRooted
      (next (next (next here (news 0x20)) (writes 0 0x20 0x30 refl)) (drops 0 0x30 refl))

-- Counts the calls that set Ruby up and those that shut it down.
abbrev counter : EmbedCalls (ℕ × ℕ)
counter = record {
  ruby_init_stack = λ s. s;
  ruby_setup = λ s. (0, (suc s.0, s.1));
  ruby_process_options = λ opts s. (returned 0, s);
  ruby_exec_node = λ node s. (0, s);
  ruby_cleanup = λ code s. (s.0, suc s.1);
  ruby_set_script_name = λ v s. s;
}

counter-IsEmbedCalls : IsEmbedCalls counter (λ s. s.0) (λ s. 0) (λ s. s.1)
counter-IsEmbedCalls = record {
  init_stack_law = λ s. (refl, refl, refl);
  setup_law = λ s. (refl, refl, refl);
  options_law = λ opts s. (refl, refl, refl);
  exec_law = λ node s. (refl, refl, refl);
  cleanup_law = λ code s. (refl, refl, refl);
}

abbrev start : Machine (ℕ × ℕ)
start = record { process = record { init = false; ruby = (0, 0) }; owners = 0 }

abbrev ended : Machine (ℕ × ℕ)
ended = record { process = record { init = true; ruby = (1, 1) }; owners = 0 }

-- Ruby is set up, a second `setup` panics, and the `Cleanup` is dropped.
Reach-setups_example :
    (ended.process.ruby.0 ≤ 1) × (ended.process.ruby.1 + 0 + 0 ≡ ended.process.ruby.0)
unfolding setup init init_options cleanup_drop protect
Reach-setups_example =
    Reach-setups modern counter (λ s. s.0) (λ s. 0) (λ s. s.1) counter-IsEmbedCalls start ended refl
      refl refl refl
      (Once.next (Once.next (Once.next Once.here initialises) sets_up) (Once.drops 0 refl))

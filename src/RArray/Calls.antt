-- ===== src/RArray/Calls.antt =====
-- The functions of Ruby's C API on arrays that src/r_array.rs calls, as a parameter, with what
-- Ruby documents of them: a change of an array that is frozen raises and changes nothing, and any
-- other is the operation on the array's list of values.
use magnus.Prelude.{
  ℕ, ◌≡◌, ◌≢◌, ◌-◌, Bool, true, false, Option, none, some, List, [], ◌∷◌, ◌++◌, ltb, if◌then◌else◌,
  length, get_elem?, suc, zero, ◌==◌, inl, inr, refl, ◌∙◌, ==_iff, Bool-cases,
}
use mathlib.Core.List.{reverse}
use magnus.Prelude.Int.{ℤ, pos, negsuc}
use magnus.Ruby.{Value, Consts}
use magnus.Error.{Completion, returned}
use magnus.Space.{Space, is_live, write, hide, reveal}

pub record ArrayCalls : Type 0 where
  pub rb_ary_new : Space → Value × Space
  pub rb_ary_new_capa : ℕ → Space → Value × Space
  pub rb_ary_new_from_values : List Value → Space → Value × Space
  pub rb_ary_hidden_new : ℕ → Space → Value × Space
  pub rb_ary_cat : Value → List Value → Space → Completion Value × Space
  pub rb_ary_concat : Value → Value → Space → Completion Value × Space
  pub rb_ary_plus : Value → Value → Space → Value × Space
  pub rb_ary_push : Value → Value → Space → Completion Value × Space
  pub rb_ary_pop : Value → Space → Completion Value × Space
  pub rb_ary_unshift : Value → Value → Space → Completion Value × Space
  pub rb_ary_shift : Value → Space → Completion Value × Space
  pub rb_ary_delete : Value → Value → Space → Completion Value × Space
  pub rb_ary_delete_at : Value → ℤ → Space → Completion Value × Space
  pub rb_ary_clear : Value → Space → Completion Value × Space
  pub rb_ary_resize : Value → ℤ → Space → Completion Value × Space
  pub rb_ary_reverse : Value → Space → Completion Value × Space
  pub rb_ary_rotate : Value → ℤ → Space → Completion Value × Space
  pub rb_ary_sort_bang : Value → Space → Completion Value × Space
  pub rb_ary_store : Value → ℤ → Value → Space → Completion (Unit {0}) × Space
  pub rb_ary_replace : Value → Value → Space → Completion Value × Space
  pub rb_ary_subseq : Value → ℤ → ℤ → Space → Value × Space
  pub rb_ary_entry : Value → ℤ → Space → Value
  pub rb_ary_includes : Value → Value → Space → Value
  pub rb_ary_shared_with_p : Value → Value → Space → Value
  pub rb_ary_join : Value → Value → Space → Completion Value × Space
  pub rb_ary_assoc : Value → Value → Space → Completion Value × Space
  pub rb_ary_rassoc : Value → Value → Space → Completion Value × Space
  pub rb_ary_cmp : Value → Value → Space → Completion Value × Space
  pub rb_ary_to_ary : Value → Space → Completion Value × Space
  pub rb_check_array_type : Value → Space → Completion Value × Space
  pub rb_obj_hide : Value → Space → Space
  pub rb_obj_reveal : Value → Space → Space

-- The place that an offset means in a list of `n` values; a negative one counts from the end.
abbrev pub place : ℕ → ℤ → Option ℕ
place n (pos i) = if ltb i n then some i else none
place n (negsuc i) = if ltb i n then some (n - suc i) else none

abbrev pub value_or : Value → Option Value → Value
value_or nil none = nil
value_or nil (some v) = v

abbrev pub value_at : Value → List Value → Option ℕ → Value
value_at nil xs none = nil
value_at nil xs (some i) = value_or nil (get_elem? xs i)

-- `nil` out of range.
abbrev pub entry_or : Value → List Value → ℤ → Value
entry_or nil xs offset = value_at nil xs (place (length xs) offset)

-- The first `n` values, and `nil` up to this number.
abbrev pub resized : Value → ℕ → List Value → List Value
resized nil zero xs = []
resized nil (suc n) [] = nil ∷ resized nil n []
resized nil (suc n) (x ∷ xs) = x ∷ resized nil n xs

abbrev pub last_or : Value → List Value → Value
last_or nil [] = nil
last_or nil (x ∷ []) = x
last_or nil (x ∷ y ∷ xs) = last_or nil (y ∷ xs)

abbrev pub without_last : List Value → List Value
without_last [] = []
without_last (x ∷ []) = []
without_last (x ∷ y ∷ xs) = x ∷ without_last (y ∷ xs)

abbrev pub first_or : Value → List Value → Value
first_or nil [] = nil
first_or nil (x ∷ xs) = x

abbrev pub without_first : List Value → List Value
without_first [] = []
without_first (x ∷ xs) = xs

-- A new object: it was not live, holds `xs`, and is hidden or not; the rest of the space is as it was.
pub record IsNew (s : Space) (xs : List Value) (hidden : Bool) (made : Value × Space) : Type 0 where
  pub fresh_law : is_live s made.0 ≡ false
  pub live_law : made.1.objects ≡ made.0 ∷ s.objects
  pub items_law : (b : Value) → made.1.items b ≡ (if made.0 == b then xs else s.items b)
  pub frozen_law : (b : Value) → made.1.frozen b ≡ (if made.0 == b then false else s.frozen b)
  pub hidden_law : (b : Value) → made.1.hidden b ≡ (if made.0 == b then hidden else s.hidden b)

pub record IsArrayCalls (c : Consts) (r : ArrayCalls) : Type 0 where
  pub new_law : (s : Space) → IsNew s [] false (r.rb_ary_new s)
  pub new_capa_law : (n : ℕ) (s : Space) → IsNew s [] false (r.rb_ary_new_capa n s)
  pub new_from_values_law :
      (xs : List Value) (s : Space) → IsNew s xs false (r.rb_ary_new_from_values xs s)
  pub hidden_new_law : (s : Space) → IsNew s [] true (r.rb_ary_hidden_new 0 s)
  pub cat_law :
      (a : Value) (xs : List Value) (s : Space)
      → s.frozen a ≡ false
      → r.rb_ary_cat a xs s ≡ (returned a, write s a (s.items a ++ xs))
  pub push_law :
      (a v : Value) (s : Space)
      → s.frozen a ≡ false
      → r.rb_ary_push a v s ≡ (returned a, write s a (s.items a ++ v ∷ []))
  pub pop_law :
      (a : Value) (s : Space)
      → s.frozen a ≡ false
      → r.rb_ary_pop a s
        ≡ (returned (last_or c.qnil (s.items a)), write s a (without_last (s.items a)))
  pub unshift_law :
      (a v : Value) (s : Space)
      → s.frozen a ≡ false
      → r.rb_ary_unshift a v s ≡ (returned a, write s a (v ∷ s.items a))
  pub shift_law :
      (a : Value) (s : Space)
      → s.frozen a ≡ false
      → r.rb_ary_shift a s
        ≡ (returned (first_or c.qnil (s.items a)), write s a (without_first (s.items a)))
  pub resize_law :
      (a : Value) (n : ℕ) (s : Space)
      → s.frozen a ≡ false
      → r.rb_ary_resize a (pos n) s ≡ (returned a, write s a (resized c.qnil n (s.items a)))
  pub reverse_law :
      (a : Value) (s : Space)
      → s.frozen a ≡ false
      → r.rb_ary_reverse a s ≡ (returned a, write s a (reverse (s.items a)))
  pub clear_law :
      (a : Value) (s : Space) → s.frozen a ≡ false → r.rb_ary_clear a s ≡ (returned a, write s a [])
  pub concat_law :
      (a b : Value) (s : Space)
      → s.frozen a ≡ false
      → r.rb_ary_concat a b s ≡ (returned a, write s a (s.items a ++ s.items b))
  pub replace_law :
      (a b : Value) (s : Space)
      → s.frozen a ≡ false
      → r.rb_ary_replace a b s ≡ (returned a, write s a (s.items b))
  pub plus_law :
      (a b : Value) (s : Space) → IsNew s (s.items a ++ s.items b) false (r.rb_ary_plus a b s)
  pub entry_law :
      (a : Value) (i : ℤ) (s : Space) → r.rb_ary_entry a i s ≡ entry_or c.qnil (s.items a) i
  -- `c_long::MAX` takes all: no array is as long.
  pub dup_law :
      (a : Value) (s : Space)
      → IsNew s (s.items a) false (r.rb_ary_subseq a (pos 0) (pos 0x7fffffffffffffff) s)
  pub hide_law : (a : Value) (s : Space) → r.rb_obj_hide a s ≡ hide s a
  pub reveal_law : (a : Value) (s : Space) → r.rb_obj_reveal a s ≡ reveal s a

pub IsNew-items :
    (s : Space) (xs : List Value) (hid : Bool) (made : Value × Space)
    → IsNew s xs hid made
    → made.1.items made.0 ≡ xs
IsNew-items s xs hid made n = n.items_law made.0 ∙ rw ((==_iff made.0 made.0).1 refl) refl

pub IsNew-frozen :
    (s : Space) (xs : List Value) (hid : Bool) (made : Value × Space)
    → IsNew s xs hid made
    → made.1.frozen made.0 ≡ false
IsNew-frozen s xs hid made n = n.frozen_law made.0 ∙ rw ((==_iff made.0 made.0).1 refl) refl

new_items :
    (s : Space) (xs ys : List Value) (made : Value × Space) (b : Value)
    → made.1.items b ≡ (if made.0 == b then xs else s.items b)
    → (write made.1 made.0 ys).items b ≡ (if made.0 == b then ys else s.items b)
new_items s xs ys made b h = elim (Bool-cases (made.0 == b)) [
  | inl e ↦ rw e refl
  | inr e ↦ rw e (h ∙ rw e refl)
]

pub IsNew-write :
    (s : Space) (hid : Bool) (xs ys : List Value) (made : Value × Space)
    → IsNew s xs hid made
    → IsNew s ys hid (made.0, write made.1 made.0 ys)
IsNew-write s hid xs ys made n = record {
  fresh_law = n.fresh_law;
  live_law = n.live_law;
  items_law = λ b. new_items s xs ys made b (n.items_law b);
  frozen_law = n.frozen_law;
  hidden_law = n.hidden_law;
}

pub IsNew-other :
    (s : Space) (xs : List Value) (hid : Bool) (made : Value × Space) (b : Value)
    → IsNew s xs hid made
    → is_live s b ≡ true
    → made.0 ≢ b
IsNew-other s xs hid made b n l =
    λ e. let f : is_live s b ≡ false = rw (← e) n.fresh_law in cc (f, l)

-- What was there before is another object and stays as it is.
pub IsNew-old :
    (s : Space) (xs : List Value) (hid : Bool) (made : Value × Space) (b : Value)
    → IsNew s xs hid made
    → is_live s b ≡ true
    → (made.1.items b ≡ s.items b) × (is_live made.1 b ≡ true)
IsNew-old s xs hid made b n l = elim (Bool-cases (made.0 == b)) [
  | inl e ↦ absurd (IsNew-other s xs hid made b n l ((==_iff made.0 b).0 e))
  | inr e ↦ (n.items_law b ∙ rw e refl, rw (n.live_law, e) l)
]

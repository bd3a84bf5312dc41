-- ===== src/Tests/SampleArrays.antt =====
-- A concrete form of the C functions on arrays: the operations on lists, new objects above all others.
use mathlib.Core.List.{reverse}
use magnus.Prelude.{
  suc, ◌+◌, ◌≡◌, ◌≤◌, refl, Bool, true, false, List, [], ◌∷◌, ◌++◌, if◌then◌else◌, ◌==◌, arith,
}
use magnus.Prelude.Int.{ℤ, pos, negsuc}
use magnus.Ruby.{Value, modern}
use magnus.Error.{Completion, returned, unwound, raise}
use magnus.Space.{Space, write, hide, reveal, among}
use magnus.RArray.Calls.{
  ArrayCalls, IsArrayCalls, IsNew, entry_or, resized, last_or, without_last, first_or,
  without_first,
}

abbrev pub above : List Value → Value
above [] = 0x1000
above (b ∷ bs) = suc b + above bs

among-above : (bs : List Value) (a : Value) → above bs ≤ a → among bs a ≡ false
among-above [] a h = refl
among-above (b ∷ bs) a h = let rest = among-above bs a (omega arith) in ground arith

abbrev pub alloc : List Value → Bool → Space → Value × Space
alloc xs hid s =
    let a = above s.objects in
    (
      a,
      record {
        items = λ b. if a == b then xs else s.items b;
        pairs = s.pairs;
        objects = a ∷ s.objects;
        frozen = λ b. if a == b then false else s.frozen b;
        hidden = λ b. if a == b then hid else s.hidden b;
      },
    )

pub alloc-IsNew : (xs : List Value) (hid : Bool) (s : Space) → IsNew s xs hid (alloc xs hid s)
alloc-IsNew xs hid s = record {
  fresh_law = among-above s.objects (above s.objects) (omega arith);
  live_law = refl;
  items_law = λ b. refl;
  frozen_law = λ b. refl;
  hidden_law = λ b. refl;
}

-- A change of `a` that gives `v`.
abbrev changing :
    {A : Type 0} → Value → (List Value → List Value) → A → Space → Completion A × Space
changing a f v s =
    if s.frozen a then (unwound raise 0x7000, s) else (returned v, write s a (f (s.items a)))

changing_lem :
    {A : Type 0} (a : Value) (f : List Value → List Value) (v : A) (s : Space)
    → s.frozen a ≡ false
    → changing a f v s ≡ (returned v, write s a (f (s.items a)))
changing_lem a f v s h = rw h refl

abbrev resizing : Value → ℤ → Space → Completion Value × Space
resizing a (pos n) = changing a (resized 4 n) a
resizing a (negsuc n) = λ s. (unwound raise 0x7008, s)

abbrev pub calls : ArrayCalls
calls = record {
  rb_ary_new = alloc [] false;
  rb_ary_new_capa = λ n. alloc [] false;
  rb_ary_new_from_values = λ xs. alloc xs false;
  rb_ary_hidden_new = λ n. alloc [] true;
  rb_ary_cat = λ a xs. changing a (λ ys. ys ++ xs) a;
  rb_ary_concat = λ a b s. changing a (λ ys. ys ++ s.items b) a s;
  rb_ary_plus = λ a b s. alloc (s.items a ++ s.items b) false s;
  rb_ary_push = λ a v. changing a (λ ys. ys ++ v ∷ []) a;
  rb_ary_pop = λ a s. changing a without_last (last_or 4 (s.items a)) s;
  rb_ary_unshift = λ a v. changing a (λ ys. v ∷ ys) a;
  rb_ary_shift = λ a s. changing a without_first (first_or 4 (s.items a)) s;
  rb_ary_delete = λ a v. changing a (λ ys. ys) v;
  rb_ary_delete_at = λ a i. changing a (λ ys. ys) 4;
  rb_ary_clear = λ a. changing a (λ ys. []) a;
  rb_ary_resize = λ a n. resizing a n;
  rb_ary_reverse = λ a. changing a reverse a;
  rb_ary_rotate = λ a n. changing a (λ ys. ys) a;
  rb_ary_sort_bang = λ a. changing a (λ ys. ys) a;
  rb_ary_store = λ a i v. changing a (λ ys. ys) tt;
  rb_ary_replace = λ a b s. changing a (λ ys. s.items b) a s;
  rb_ary_subseq = λ a i n s. alloc (s.items a) false s;
  rb_ary_entry = λ a i s. entry_or 4 (s.items a) i;
  rb_ary_includes = λ a v s. 0;
  rb_ary_shared_with_p = λ a b s. 0;
  rb_ary_join = λ a v s. (returned v, s);
  rb_ary_assoc = λ a v s. (returned 4, s);
  rb_ary_rassoc = λ a v s. (returned 4, s);
  rb_ary_cmp = λ a b s. (returned 1, s);
  rb_ary_to_ary = λ a s. (returned a, s);
  rb_check_array_type = λ a s. (returned a, s);
  rb_obj_hide = λ a s. hide s a;
  rb_obj_reveal = λ a s. reveal s a;
}

pub calls-IsArrayCalls : IsArrayCalls modern calls
calls-IsArrayCalls = record {
  new_law = alloc-IsNew [] false;
  new_capa_law = λ n. alloc-IsNew [] false;
  new_from_values_law = λ xs. alloc-IsNew xs false;
  hidden_new_law = alloc-IsNew [] true;
  cat_law = λ a xs s. changing_lem a (λ ys. ys ++ xs) a s;
  push_law = λ a v s. changing_lem a (λ ys. ys ++ v ∷ []) a s;
  pop_law = λ a s. changing_lem a without_last (last_or 4 (s.items a)) s;
  unshift_law = λ a v s. changing_lem a (λ ys. v ∷ ys) a s;
  shift_law = λ a s. changing_lem a without_first (first_or 4 (s.items a)) s;
  resize_law = λ a n s. changing_lem a (resized 4 n) a s;
  reverse_law = λ a s. changing_lem a reverse a s;
  clear_law = λ a s. changing_lem a (λ ys. []) a s;
  concat_law = λ a b s. changing_lem a (λ ys. ys ++ s.items b) a s;
  replace_law = λ a b s. changing_lem a (λ ys. s.items b) a s;
  plus_law = λ a b s. alloc-IsNew (s.items a ++ s.items b) false s;
  entry_law = λ a i s. refl;
  dup_law = λ a s. alloc-IsNew (s.items a) false s;
  hide_law = λ a s. refl;
  reveal_law = λ a s. refl;
}

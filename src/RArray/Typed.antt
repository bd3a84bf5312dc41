-- ===== src/RArray/Typed.antt =====
-- src/r_array.rs: the items of a `TypedArray` convert.
use mathlib.Core.List.{reverse_aux}
use magnus.Prelude.{
  ℕ, suc, zero, ◌≡◌, ◌<◌, ◌≤◌, false, List, [], ◌∷◌, ◌++◌, map, length, ok, err, panic, refl, arith,
}
use magnus.Ruby.{Value, Consts}
use magnus.Error.{Result, ErrorType}
use magnus.Space.{Space, Effect, pure, after, write, ◌>>◌, items-write}
use magnus.RArray.Calls.{
  ArrayCalls, IsArrayCalls, last_or, first_or, without_last, without_first, resized,
}
use magnus.RArray as RArray
use magnus.RArray.{Conversion, collect, collected}
use magnus.RArray.Loops.{as_signed_small, long_max}
use magnus.RArray.TypedArray as TypedArray

after-const :
    {T : Type 0} (o : Result T) (s : Space) → (after {E = ErrorType} (o, s) (λ _. pure tt)).1 ≡ s
after-const (ok t) s = refl
after-const (err e) s = refl
after-const panic s = refl

-- Every value converts.
pub Typed : {T : Type 0} → Conversion T → List Value → Type 0
Typed convert [] = Unit {0}
Typed {T = T} convert (v ∷ vs) = ((t : T) × (convert v ≡ ok t)) × Typed convert vs

module _ {T : Type 0} (convert : Conversion T) where
  pub Typed-collect :
      (vs : List Value)
      → Typed convert vs
      → (ts : List T) × (map convert vs ≡ map (λ t. ok t) ts) × (collect convert vs ≡ ok ts)
  unfolding Typed
  Typed-collect [] h = ([], refl, refl)
  Typed-collect (v ∷ vs) h =
      let (ts, m, e) = Typed-collect vs h.1 in (h.0.0 ∷ ts, rw (h.0.1, m) refl, rw (h.0.1, e) refl)

  collected_ok :
      (o : Result T) (os : Result (List T)) (ts : List T)
      → collected o os ≡ ok ts
      → ((t : T) × (o ≡ ok t)) × ((ts' : List T) × (os ≡ ok ts'))
  collected_ok (ok t) (ok ts') ts e = ((t, refl), (ts', refl))
  collected_ok (ok t) (err x) ts e = absurd cc
  collected_ok (ok t) panic ts e = absurd cc
  collected_ok (err x) os ts e = absurd cc
  collected_ok panic os ts e = absurd cc

  pub collect-Typed :
      (vs : List Value) (ts : List T) → collect convert vs ≡ ok ts → Typed convert vs
  unfolding Typed
  collect-Typed [] ts e = tt
  collect-Typed (v ∷ vs) ts e =
      let (a, b) = collected_ok (convert v) (collect convert vs) ts e in
      (a, collect-Typed vs b.0 b.1)

  Typed-append :
      (vs ws : List Value) → Typed convert vs → Typed convert ws → Typed convert (vs ++ ws)
  unfolding Typed
  Typed-append [] ws h k = k
  Typed-append (v ∷ vs) ws h k = (h.0, Typed-append vs ws h.1 k)

  Typed-without_last : (vs : List Value) → Typed convert vs → Typed convert (without_last vs)
  unfolding Typed
  Typed-without_last [] h = tt
  Typed-without_last (v ∷ []) h = tt
  Typed-without_last (v ∷ w ∷ vs) h = (h.0, Typed-without_last (w ∷ vs) h.1)

  Typed-without_first : (vs : List Value) → Typed convert vs → Typed convert (without_first vs)
  unfolding Typed
  Typed-without_first [] h = tt
  Typed-without_first (v ∷ vs) h = h.1

  Typed-reverse_aux :
      (vs ws : List Value) → Typed convert vs → Typed convert ws → Typed convert (reverse_aux vs ws)
  unfolding Typed
  Typed-reverse_aux [] ws h k = k
  Typed-reverse_aux (v ∷ vs) ws h k = Typed-reverse_aux vs (v ∷ ws) h.1 (h.0, k)

-- The methods that change a typed array, with what they take.
pub data Change (T : Type 0) : Type 0 where
  pushing unshifting : T → Change T
  popping shifting clearing reversing : Change T
  concatenating replacing : Value → Change T
  appending : List Value → Change T

module _ (c : Consts) (r : ArrayCalls) {T : Type 0} (into : T → Value)
    (convert : Conversion T) where
  -- The method, without its result.
  abbrev pub change : Change T → Value → Effect ErrorType (Unit {0})
  change (pushing t) self = TypedArray.push c r into self t
  change (unshifting t) self = TypedArray.unshift c r into self t
  change popping self = TypedArray.pop c r convert self >> pure tt
  change shifting self = TypedArray.shift c r convert self >> pure tt
  change clearing self = TypedArray.clear c r self
  change reversing self = TypedArray.reverse c r self
  change (concatenating other) self = TypedArray.concat c r self other
  change (replacing other) self = TypedArray.replace c r self other
  change (appending vs) self = TypedArray.cat c r self vs

  -- What the arguments are: the items convert back, and the other arrays are typed.
  abbrev pub Fits : Change T → Space → Type 0
  Fits (pushing t) s = convert (into t) ≡ ok t
  Fits (unshifting t) s = convert (into t) ≡ ok t
  Fits (concatenating other) s = Typed convert (s.items other)
  Fits (replacing other) s = Typed convert (s.items other)
  Fits (appending vs) s = Typed convert vs
  Fits _ s = Unit {0}

  -- The items after the change.
  abbrev changed : Change T → Value → Space → List Value
  changed (pushing t) a s = s.items a ++ into t ∷ []
  changed (unshifting t) a s = into t ∷ s.items a
  changed popping a s = without_last (s.items a)
  changed shifting a s = without_first (s.items a)
  changed clearing a s = []
  changed reversing a s = reverse_aux (s.items a) []
  changed (concatenating other) a s = s.items a ++ s.items other
  changed (replacing other) a s = s.items other
  changed (appending vs) a s = s.items a ++ vs

  module _ (d : IsArrayCalls c r) where
    change_space :
        (ch : Change T) (a : Value) (s : Space)
        → s.frozen a ≡ false
        → (change ch a s).1 ≡ write s a (changed ch a s)
    unfolding TypedArray.push TypedArray.unshift TypedArray.pop TypedArray.shift TypedArray.clear
        TypedArray.reverse TypedArray.concat TypedArray.replace TypedArray.cat RArray.cat
        RArray.push RArray.unshift RArray.pop RArray.shift RArray.clear RArray.reverse RArray.concat
        RArray.replace
    change_space (pushing t) a s f = rw (d.push_law a (into t) s f) refl
    change_space (unshifting t) a s f = rw (d.unshift_law a (into t) s f) refl
    change_space popping a s f =
        rw (d.pop_law a s f) (
          after-const (convert (last_or c.qnil (s.items a))) (write s a (without_last (s.items a))))
    change_space shifting a s f = rw (d.shift_law a s f) (
        after-const (convert (first_or c.qnil (s.items a))) (write s a (without_first (s.items a))))
    change_space clearing a s f = rw (d.clear_law a s f) refl
    change_space reversing a s f = rw (d.reverse_law a s f) refl
    change_space (concatenating other) a s f = rw (d.concat_law a other s f) refl
    change_space (replacing other) a s f = rw (d.replace_law a other s f) refl
    change_space (appending vs) a s f = rw (d.cat_law a vs s f) refl

    changed-Typed :
        (ch : Change T) (a : Value) (s : Space)
        → Typed convert (s.items a)
        → Fits ch s
        → Typed convert (changed ch a s)
    unfolding Typed
    changed-Typed (pushing t) a s h k =
        Typed-append convert (s.items a) (into t ∷ []) h ((t, k), tt)
    changed-Typed (unshifting t) a s h k = ((t, k), h)
    changed-Typed popping a s h k = Typed-without_last convert (s.items a) h
    changed-Typed shifting a s h k = Typed-without_first convert (s.items a) h
    changed-Typed clearing a s h k = tt
    changed-Typed reversing a s h k = Typed-reverse_aux convert (s.items a) [] h tt
    changed-Typed (concatenating other) a s h k =
        Typed-append convert (s.items a) (s.items other) h k
    changed-Typed (replacing other) a s h k = k
    changed-Typed (appending vs) a s h k = Typed-append convert (s.items a) vs h k

    -- Every method of a typed array that changes it, other than `resize`, `store` and those that
    -- move or remove items by index or by Ruby's comparison, leaves an array all of whose items
    -- convert, if it was one and not frozen, and the items and arrays that it takes are such; so
    -- `push`, `unshift`, `pop`, `shift`, `clear`, `reverse`, `concat`, `replace` and `cat`.
    pub change-Typed :
        (ch : Change T) (a : Value) (s : Space)
        → s.frozen a ≡ false
        → Typed convert (s.items a)
        → Fits ch s
        → Typed convert ((change ch a s).1.items a)
    change-Typed ch a s f h k =
        rw (change_space ch a s f, items-write s a (changed ch a s)) (changed-Typed ch a s h k)

module _ (c : Consts) (r : ArrayCalls) {T : Type 0} (convert : Conversion T) where
  -- `to_vec` of a typed array does not panic and gives an item for each value.
  pub to_vec-Typed :
      (a : Value) (s : Space)
      → Typed convert (s.items a)
      → (ts : List T) × (map convert (s.items a) ≡ map (λ t. ok t) ts)
        × (TypedArray.to_vec c r convert {F = ErrorType} a s ≡ (ok ts, s))
  unfolding TypedArray.to_vec RArray.to_vec RArray.as_slice
  to_vec-Typed a s h = let (ts, m, e) = Typed-collect convert (s.items a) h in (ts, m, rw e refl)

  collect-resized :
      (nil : Value) (x : ErrorType) (n : ℕ) (vs : List Value)
      → convert nil ≡ err x
      → Typed convert vs
      → length vs < n
      → collect convert (resized nil n vs) ≡ err x
  unfolding Typed
  collect-resized nil x zero vs e h l = absurd (omega arith)
  collect-resized nil x (suc n) [] e h l = rw e refl
  collect-resized nil x (suc n) (v ∷ vs) e h l =
      rw (h.0.1, collect-resized nil x n vs e h.1 (omega arith)) refl

  -- `resize` of a typed array to more items than it has makes the next `to_vec` panic, if `nil` does
  -- not convert, the array is not frozen and the new length is at most that of `c_long`.
  pub resize-to_vec :
      (d : IsArrayCalls c r) (a : Value) (n : ℕ) (x : ErrorType) (s : Space)
      → s.frozen a ≡ false
      → Typed convert (s.items a)
      → convert c.qnil ≡ err x
      → length (s.items a) < n
      → n ≤ long_max
      → ((TypedArray.resize c r a n >> TypedArray.to_vec c r convert a) s).0 ≡ panic
  unfolding TypedArray.resize TypedArray.to_vec RArray.resize RArray.to_vec RArray.as_slice
  resize-to_vec d a n x s f h e l m =
      rw
        (
          as_signed_small n m,
          d.resize_law a n s f,
          items-write s a (resized c.qnil n (s.items a)),
          collect-resized c.qnil x n (s.items a) e h l,
        )
        refl

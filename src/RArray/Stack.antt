-- ===== src/RArray/Stack.antt =====
-- src/r_array.rs: `push`, `pop`, `unshift` and `shift` as a stack and a queue.
use mathlib.Core.List as List
use mathlib.Core.List.{map-append, reverse_aux}
use magnus.Prelude.{
  Option, none, some, err, panic, map, false, List, [], ◌∷◌, ◌++◌, ok, ◌≡◌, refl, ap, sym, ◌∙◌,
}
use magnus.Ruby.{Value, Consts}
use magnus.Error.{Result, ErrorType}
use magnus.Space.{
  Space, Effect, pure, write, ◌>>=◌, ◌>>◌, after, items-write, write-write, write_same,
}
use magnus.RArray.Calls.{ArrayCalls, IsArrayCalls, last_or, without_last}
use magnus.RArray.{Conversion, push, pop, unshift, shift, reverse}

map-reverse_aux :
    {A B : Type 0} (f : A → B) (xs ys : List A)
    → map f (reverse_aux xs ys) ≡ reverse_aux (map f xs) (map f ys)
map-reverse_aux f [] ys = refl
map-reverse_aux f (x ∷ xs) ys = map-reverse_aux f xs (x ∷ ys)

pub data Op (T : Type 0) : Type 0 where
  pushing unshifting : T → Op T
  popping shifting reversing : Op T

-- What the operations do to a list, and what they give; an empty list gives what `missing` is.
abbrev last : {T : Type 0} → T → List T → T
last x [] = x
last x (y ∷ xs) = last y xs

abbrev front : {T : Type 0} → T → List T → List T
front x [] = []
front x (y ∷ xs) = x ∷ front y xs

abbrev given : {T : Type 0} → Result T → Result (Option T)
given (ok t) = ok (some t)
given (err e) = err e
given panic = panic

abbrev step : {T : Type 0} → Result T → Op T → List T → Result (Option T) × List T
step missing (pushing t) xs = (ok none, xs ++ t ∷ [])
step missing (unshifting t) xs = (ok none, t ∷ xs)
step missing popping [] = (given missing, [])
step missing popping (x ∷ xs) = (ok (some (last x xs)), front x xs)
step missing shifting [] = (given missing, [])
step missing shifting (x ∷ xs) = (ok (some x), xs)
step missing reversing xs = (ok none, List.reverse xs)

abbrev prepend : {A : Type 0} → A → Result (List A) → Result (List A)
prepend a (ok xs) = ok (a ∷ xs)
prepend a (err e) = err e
prepend a panic = panic

-- A run of operations ends at the first that fails.
abbrev then_step :
    {T : Type 0}
    → Result (Option T) × List T
    → (List T → Result (List (Option T)) × List T)
    → Result (List (Option T)) × List T
then_step (ok o, xs) rest = (prepend o (rest xs).0, (rest xs).1)
then_step (err e, xs) rest = (err e, xs)
then_step (panic, xs) rest = (panic, xs)

pub steps : {T : Type 0} → Result T → List (Op T) → List T → Result (List (Option T)) × List T
steps missing [] xs = (ok [], xs)
steps missing (op ∷ ops) xs = then_step (step missing op xs) (steps missing ops)

last-map :
    {T : Type 0} (nil : Value) (into : T → Value) (x : T) (xs : List T)
    → last_or nil (into x ∷ map into xs) ≡ into (last x xs)
last-map nil into x [] = refl
last-map nil into x (y ∷ xs) = last-map nil into y xs

without_last-map :
    {T : Type 0} (into : T → Value) (x : T) (xs : List T)
    → without_last (into x ∷ map into xs) ≡ map into (front x xs)
without_last-map into x [] = refl
without_last-map into x (y ∷ xs) = ap (λ t. into x ∷ t) (without_last-map into y xs)

given_lem :
    {T : Type 0} (o : Result T) (s : Space)
    → after {E = ErrorType} (o, s) (λ t. pure (some t)) ≡ (given o, s)
given_lem (ok t) s = refl
given_lem (err e) s = refl
given_lem panic s = refl

prepend_lem :
    {A : Type 0} (a : A) (o : Result (List A)) (s : Space)
    → after {E = ErrorType} (o, s) (λ xs. pure (a ∷ xs)) ≡ (prepend a o, s)
prepend_lem a (ok xs) s = refl
prepend_lem a (err e) s = refl
prepend_lem a panic s = refl

module _ (c : Consts) (r : ArrayCalls) {T : Type 0} (into : T → Value) (convert : Conversion T)
    (a : Value) where
  -- The operation of `RArray`.
  abbrev perform : Op T → Effect ErrorType (Option T)
  perform (pushing t) = push c r into a t >> pure none
  perform (unshifting t) = unshift c r into a t >> pure none
  perform popping = pop c r convert a >>= λ t. pure (some t)
  perform shifting = shift c r convert a >>= λ t. pure (some t)
  perform reversing = reverse c r a >> pure none

  pub perform_all : List (Op T) → Effect ErrorType (List (Option T))
  perform_all [] = pure []
  perform_all (op ∷ ops) = do o ← perform op; os ← perform_all ops; pure (o ∷ os)

  module _ (d : IsArrayCalls c r) (inverse : (t : T) → convert (into t) ≡ ok t) where
    perform_lem :
        (op : Op T) (xs : List T) (s : Space)
        → s.frozen a ≡ false
        → s.items a ≡ map into xs
        → let end = step (convert c.qnil) op xs in
          perform op s ≡ (end.0, write s a (map into end.1))
    unfolding push pop unshift shift reverse
    perform_lem (pushing t) xs s f e =
        rw (d.push_law a (into t) s f, e) (rw (map-append into xs (t ∷ [])) refl)
    perform_lem (unshifting t) xs s f e = rw (d.unshift_law a (into t) s f, e) refl
    perform_lem popping [] s f e =
        rw (d.pop_law a s f, e) (given_lem (convert c.qnil) (write s a []))
    perform_lem popping (x ∷ xs) s f e =
        rw (d.pop_law a s f, e)
          (rw (last-map c.qnil into x xs, without_last-map into x xs, inverse (last x xs)) refl)
    perform_lem shifting [] s f e =
        rw (d.shift_law a s f, e) (given_lem (convert c.qnil) (write s a []))
    perform_lem shifting (x ∷ xs) s f e = rw (d.shift_law a s f, e, inverse x) refl
    perform_lem reversing xs s f e =
        rw (d.reverse_law a s f, e) (rw (map-reverse_aux into xs []) refl)

    -- The array goes through the operations as the list does.
    Follows : List (Op T) → Type 0
    Follows ops =
        (xs : List T) (s : Space)
        → s.frozen a ≡ false
        → s.items a ≡ map into xs
        → perform_all ops s ≡ (
          (steps (convert c.qnil) ops xs).0,
          write s a (map into (steps (convert c.qnil) ops xs).1),
        )

    then_lem :
        (ops : List (Op T))
        → Follows ops
        → (o : Result (Option T)) (xs : List T) (s : Space) → s.frozen a ≡ false
        → let end = then_step (o, xs) (steps (convert c.qnil) ops) in
          after (o, write s a (map into xs)) (λ x. perform_all ops >>= λ os. pure (x ∷ os))
          ≡ (end.0, write s a (map into end.1))
    unfolding Follows
    then_lem ops ih (ok x) xs s f =
        let end = steps (convert c.qnil) ops xs in
        rw (ih xs (write s a (map into xs)) f (items-write s a (map into xs))) (
          prepend_lem x end.0 _
          ∙ ap (λ s'. (prepend x end.0, s')) (write-write s a (map into xs) (map into end.1)))
    then_lem ops ih (err e) xs s f = refl
    then_lem ops ih panic xs s f = refl

    follow : (ops : List (Op T)) → Follows ops
    unfolding Follows perform_all steps
    follow [] xs s f e = ap (λ s'. (ok [], s')) (sym (write_same s a (map into xs) e))
    follow (op ∷ ops) xs s f e =
        let end = step (convert c.qnil) op xs in
        rw (perform_lem op xs s f e) (then_lem ops (follow ops) end.0 end.1 s f)

    -- An array that is not frozen and holds the values of a list goes through any run of pushes,
    -- pops, unshifts, shifts and reversals as the list does, with the results and the failures of
    -- the run on the list, if the conversions of its items are inverse; nothing else changes.
    pub perform_all_lem :
        (ops : List (Op T)) (xs : List T) (s : Space)
        → s.frozen a ≡ false
        → s.items a ≡ map into xs
        → let end = steps (convert c.qnil) ops xs in
          perform_all ops s ≡ (end.0, write s a (map into end.1))
    unfolding Follows
    perform_all_lem ops xs s f e = follow ops xs s f e

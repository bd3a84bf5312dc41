-- ===== src/Prelude/Lists.antt =====
-- Lists measured, indexed and cut by native numbers, under the library's names.
use Prim.Native.Nat.{ℕ, zero, suc, ◌+◌, ◌-◌, ◌≤◌, min}
use mathlib.Core.Path.{◌≡◌, refl, ap}
use mathlib.Core.List.{List, [], ◌∷◌, ◌++◌}
use mathlib.Core.Option.{Option, none, some}
use native.Mathlib.Omega.{arith}

module _ {ℓ} {A : Type ℓ} where
  abbrev pub length : List A → ℕ
  length [] = 0
  length (x ∷ xs) = suc (length xs)

  abbrev pub get_elem? : List A → ℕ → Option A
  get_elem? [] i = none
  get_elem? (x ∷ xs) zero = some x
  get_elem? (x ∷ xs) (suc i) = get_elem? xs i

  abbrev pub take : ℕ → List A → List A
  take zero xs = []
  take (suc n) [] = []
  take (suc n) (x ∷ xs) = x ∷ take n xs

  abbrev pub drop : ℕ → List A → List A
  drop zero xs = xs
  drop (suc n) [] = []
  drop (suc n) (x ∷ xs) = drop n xs

  abbrev pub replicate : ℕ → A → List A
  replicate zero a = []
  replicate (suc n) a = a ∷ replicate n a

  -- The first `n` places, filled up with `a` where the list ends before.
  abbrev pub pad : ℕ → A → List A → List A
  pad zero a xs = []
  pad (suc n) a [] = a ∷ pad n a []
  pad (suc n) a (x ∷ xs) = x ∷ pad n a xs

  pub length-append : (xs ys : List A) → length (xs ++ ys) ≡ length xs + length ys
  length-append [] ys = omega arith
  length-append (x ∷ xs) ys = omega (arith, length-append xs ys)

  pub length-take : (n : ℕ) (xs : List A) → length (take n xs) ≡ min n (length xs)
  length-take zero xs = omega arith
  length-take (suc n) [] = omega arith
  length-take (suc n) (x ∷ xs) = omega (arith, length-take n xs)

  pub length-drop : (n : ℕ) (xs : List A) → length (drop n xs) ≡ length xs - n
  length-drop zero xs = omega arith
  length-drop (suc n) [] = omega arith
  length-drop (suc n) (x ∷ xs) = omega (arith, length-drop n xs)

  pub length-pad : (n : ℕ) (a : A) (xs : List A) → length (pad n a xs) ≡ n
  length-pad zero a xs = refl
  length-pad (suc n) a [] = ap suc (length-pad n a [])
  length-pad (suc n) a (x ∷ xs) = ap suc (length-pad n a xs)

  pub take-length_append : (xs ys : List A) → take (length xs) (xs ++ ys) ≡ xs
  take-length_append [] ys = refl
  take-length_append (x ∷ xs) ys = ap (λ t. x ∷ t) (take-length_append xs ys)

  pub drop-length_append : (xs ys : List A) → drop (length xs) (xs ++ ys) ≡ ys
  drop-length_append [] ys = refl
  drop-length_append (x ∷ xs) ys = drop-length_append xs ys

  pub take-pad : (n : ℕ) (a : A) (xs : List A) → length xs ≤ n → take (length xs) (pad n a xs) ≡ xs
  take-pad n a [] h = refl
  take-pad zero a (x ∷ xs) h = absurd (omega arith)
  take-pad (suc n) a (x ∷ xs) h = ap (λ t. x ∷ t) (take-pad n a xs (omega arith))

  pub append_nil : (xs : List A) → xs ++ [] ≡ xs
  append_nil [] = refl
  append_nil (x ∷ xs) = ap (λ t. x ∷ t) (append_nil xs)

  pub drop_all : (n : ℕ) (xs : List A) → length xs ≤ n → drop n xs ≡ []
  drop_all zero [] h = refl
  drop_all zero (x ∷ xs) h = absurd (omega arith)
  drop_all (suc n) [] h = refl
  drop_all (suc n) (x ∷ xs) h = drop_all n xs (omega arith)

  -- What stands behind `n` elements in front.
  pub drop-append : (n : ℕ) (xs ys : List A) → length xs ≡ n → drop n (xs ++ ys) ≡ ys
  drop-append zero [] ys h = refl
  drop-append zero (x ∷ xs) ys h = absurd (omega arith)
  drop-append (suc n) [] ys h = absurd (omega arith)
  drop-append (suc n) (x ∷ xs) ys h = drop-append n xs ys (omega arith)

  pub take-append : (n : ℕ) (xs ys : List A) → length xs ≡ n → take n (xs ++ ys) ≡ xs
  take-append zero [] ys h = refl
  take-append zero (x ∷ xs) ys h = absurd (omega arith)
  take-append (suc n) [] ys h = absurd (omega arith)
  take-append (suc n) (x ∷ xs) ys h = ap (λ t. x ∷ t) (take-append n xs ys (omega arith))

  pub drop-drop : (m n k : ℕ) (xs : List A) → k ≡ m + n → drop n (drop m xs) ≡ drop k xs
  drop-drop zero n k xs h = ap (λ i. drop i xs) (omega arith)
  drop-drop (suc m) n zero xs h = absurd (omega arith)
  drop-drop (suc m) zero (suc k) [] h = refl
  drop-drop (suc m) (suc n) (suc k) [] h = refl
  drop-drop (suc m) n (suc k) (x ∷ xs) h = drop-drop m n k xs (omega arith)

  pub take-drop_append : (n : ℕ) (xs : List A) → take n xs ++ drop n xs ≡ xs
  take-drop_append zero xs = refl
  take-drop_append (suc n) [] = refl
  take-drop_append (suc n) (x ∷ xs) = ap (λ t. x ∷ t) (take-drop_append n xs)

  pub append_assoc : (xs ys zs : List A) → (xs ++ ys) ++ zs ≡ xs ++ (ys ++ zs)
  append_assoc [] ys zs = refl
  append_assoc (x ∷ xs) ys zs = ap (λ t. x ∷ t) (append_assoc xs ys zs)

  pub get_elem?-append :
      (n : ℕ) (xs ys : List A) → length xs ≡ n → get_elem? (xs ++ ys) n ≡ get_elem? ys 0
  get_elem?-append zero [] ys h = refl
  get_elem?-append zero (x ∷ xs) ys h = absurd (omega arith)
  get_elem?-append (suc n) [] ys h = absurd (omega arith)
  get_elem?-append (suc n) (x ∷ xs) ys h = get_elem?-append n xs ys (omega arith)

  pub pad-append :
      (n k : ℕ) (a : A) (xs : List A) → n ≡ length xs + k → pad n a xs ≡ xs ++ replicate k a
  pad-append zero zero a [] h = refl
  pad-append zero (suc k) a [] h = absurd (omega arith)
  pad-append (suc n) zero a [] h = absurd (omega arith)
  pad-append (suc n) (suc k) a [] h = ap (λ t. a ∷ t) (pad-append n k a [] (omega arith))
  pad-append zero k a (x ∷ xs) h = absurd (omega arith)
  pad-append (suc n) k a (x ∷ xs) h = ap (λ t. x ∷ t) (pad-append n k a xs (omega arith))

-- ===== src/Space.antt =====
-- Ruby's objects as src/r_array.rs and src/r_hash.rs see them: what arrays and hashes hold, and
-- which objects are frozen or hidden. Code that changes objects is a function of the space.
use mathlib.Core.Path.{fun_ext}
use magnus.Prelude.{
  ◌≡◌, ◌≢◌, refl, Bool, true, false, List, [], ◌∷◌, Outcome, ok, err, panic, ◌==◌, if◌then◌else◌,
  arith, ==_iff, ap,
}
use magnus.Ruby.{Value, Consts}
use magnus.Error.{Result, ErrorType, Completion, protect, returned, unwound}

pub record Space : Type 0 where
  pub items : Value → List Value
  pub pairs : Value → List (Value × Value)
  pub objects : List Value
  pub frozen : Value → Bool
  pub hidden : Value → Bool

abbrev pub among : List Value → Value → Bool
among [] a = false
among (b ∷ bs) a = if b == a then true else among bs a

-- The object is one of the space's.
abbrev pub is_live : Space → Value → Bool
is_live s a = among s.objects a

-- Code that may fail with an `E`, in a space.
abbrev pub Effect : Type 0 → Type 0 → Type 0
Effect E A = Space → Outcome E A × Space

abbrev pub pure : {E A : Type 0} → A → Effect E A
pure a s = (ok a, s)

-- A function that does not look at the space.
abbrev pub lift : {E A : Type 0} → Outcome E A → Effect E A
lift r s = (r, s)

-- The rest of a chain, after its first step.
abbrev pub after : {E A B : Type 0} → Outcome E A × Space → (A → Effect E B) → Outcome E B × Space
after (ok a, s) f = f a s
after (err e, s) f = (err e, s)
after (panic, s) f = (panic, s)

infixl 5 ◌>>=◌ ◌>>◌
abbrev pub ◌>>=◌ : {E A B : Type 0} → Effect E A → (A → Effect E B) → Effect E B
◌>>=◌ m f s = after (m s) f

abbrev pub ◌>>◌ : {E A B : Type 0} → Effect E A → Effect E B → Effect E B
m >> k = m >>= λ _. k

-- `protect` of a call into C that changes the space.
abbrev pub settled : {A : Type 0} → Consts → Completion A × Space → Result A × Space
settled c (returned a, s) = (ok a, s)
settled c (unwound tag v, s) = ((protect c (unwound tag v)).result, s)

abbrev pub protected : {A : Type 0} → Consts → (Space → Completion A × Space) → Effect ErrorType A
protected c call s = settled c (call s)

-- A call into C that cannot unwind.
abbrev pub calling : {E A : Type 0} → (Space → A × Space) → Effect E A
calling call s = (ok (call s).0, (call s).1)

-- `.unwrap()`
abbrev pub unwrapped : {E F A : Type 0} → Outcome E A → Outcome F A
unwrapped (ok a) = ok a
unwrapped (err e) = panic
unwrapped panic = panic

abbrev pub unwrap_all : {E F A : Type 0} → Outcome E A × Space → Outcome F A × Space
unwrap_all (o, s) = (unwrapped o, s)

abbrev pub unwrap : {E F A : Type 0} → Effect E A → Effect F A
unwrap m s = unwrap_all (m s)

-- The space after `a` has got other contents.
abbrev pub write : Space → Value → List Value → Space
write s a xs = record s { items = λ b. if a == b then xs else s.items b }

abbrev pub write_pairs : Space → Value → List (Value × Value) → Space
write_pairs s a ps = record s { pairs = λ b. if a == b then ps else s.pairs b }

abbrev pub hide : Space → Value → Space
hide s a = record s { hidden = λ b. if a == b then true else s.hidden b }

abbrev pub reveal : Space → Value → Space
reveal s a = record s { hidden = λ b. if a == b then false else s.hidden b }

pub items-write : (s : Space) (a : Value) (xs : List Value) → (write s a xs).items a ≡ xs
items-write s a xs = rw ((==_iff a a).1 refl) refl

pub items-write_other :
    (s : Space) (a b : Value) (xs : List Value) → a ≢ b → (write s a xs).items b ≡ s.items b
items-write_other s a b xs ne = ground (arith, ==_iff a b)

pub write-write :
    (s : Space) (a : Value) (xs ys : List Value) → write (write s a xs) a ys ≡ write s a ys
write-write s a xs ys = ap (λ f. record s { items = f }) (fun_ext λ b. ground arith)

pub write_same : (s : Space) (a : Value) (xs : List Value) → s.items a ≡ xs → write s a xs ≡ s
write_same s a xs e = ap (λ f. record s { items = f }) (fun_ext λ b. ground (arith, ==_iff a b))

pub after-cong :
    {E A B : Type 0} (p : Outcome E A × Space) (f g : A → Effect E B)
    → ((a : A) → f a p.1 ≡ g a p.1)
    → after p f ≡ after p g
after-cong (ok a, s) f g h = h a
after-cong (err e, s) f g h = refl
after-cong (panic, s) f g h = refl

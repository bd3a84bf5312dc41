-- ===== src/Prelude/Calls.antt =====
-- What a call into Rust code can do: return `Ok`, return `Err`, or unwind with a panic.

pub data Outcome {ℓ κ} (E : Type κ) (A : Type ℓ) : Type (ℓ ⊔ κ) where
  ok : A → Outcome E A
  err : E → Outcome E A
  panic : Outcome E A

infixl 5 ◌>>=◌ ◌>>◌
abbrev pub ◌>>=◌ {ℓ κ ι} :
    {E : Type ι} {A : Type ℓ} {B : Type κ} → Outcome E A → (A → Outcome E B) → Outcome E B
ok a >>= f = f a
err e >>= f = err e
panic >>= f = panic

abbrev pub ◌>>◌ {ℓ κ ι} :
    {E : Type ι} {A : Type ℓ} {B : Type κ} → Outcome E A → Outcome E B → Outcome E B
m >> k = m >>= λ _. k

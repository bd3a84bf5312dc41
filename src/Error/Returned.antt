-- ===== src/Error/Returned.antt =====
-- src/error.rs: `protect` of a call that has returned, and of one that has not.
use magnus.Prelude.{◌≡◌, refl, sym, ap, ◌∙◌, ok, err}
use magnus.Ruby.{Value, Consts}
use magnus.Error.{Result, ErrorType, Completion, returned, unwound, Tag, protect}

-- `protect` gives an error for a call that unwinds with any tag.
pub protect-unwound :
    {A : Type 0} (c : Consts) (x : Tag) (e : Value)
    → (e' : ErrorType) × ((protect {A = A} c (unwound x e)).result ≡ err e')
unfolding protect
protect-unwound c Tag.return e = (_, refl)
protect-unwound c Tag.break e = (_, refl)
protect-unwound c Tag.next e = (_, refl)
protect-unwound c Tag.retry e = (_, refl)
protect-unwound c Tag.redo e = (_, refl)
protect-unwound c Tag.raise e = (_, refl)
protect-unwound c Tag.throw e = (_, refl)
protect-unwound c Tag.fatal_tag e = (_, refl)

-- `protect` gives a value only for a call that has returned it.
pub protect-returned :
    {A : Type 0} (c : Consts) (o : Completion A) (a : A)
    → (protect c o).result ≡ ok a
    → o ≡ returned a
unfolding protect
protect-returned c (returned b) a h = ap returned cc
protect-returned c (unwound x e) a h =
    let (e', q) = protect-unwound c x e in
    let both : ◌≡◌ {A = Result _} (err e') (ok a) = sym q ∙ h in absurd cc

-- ===== src/Tests/BlockTests.antt =====
-- The property of yielded iterators, for a block that breaks at its third item.
use magnus.Prelude.{ℕ, ◌+◌, ◌≡◌, refl, [], ◌∷◌, ok, if◌then◌else◌, ◌==◌}
use magnus.Ruby.{Value, modern}
use magnus.Error.{Completion, returned, unwound, Tag}
use magnus.Block.{EnsureCalls, do_yield}
use magnus.Block.Drops.{IsEnsureCalls, then_ensure, do_yield-calls}

abbrev ensures : EnsureCalls
ensures = record { rb_ensure = λ f g w. then_ensure g (f w) }

ensures-IsEnsureCalls : IsEnsureCalls ensures
ensures-IsEnsureCalls = record { ensure_law = λ f g w. refl }

-- Adds the items up, and breaks at 3.
abbrev block : ℕ → ℕ → Completion Value × ℕ
block t sum = (if t == 3 then unwound Tag.break 4 else returned 4, sum + t)

do_yield-calls_example :
    do_yield modern ensures block (1 ∷ 2 ∷ 3 ∷ 4 ∷ []) 0
    ≡ (ok (unwound Tag.break 4), record { rest = 4 ∷ []; drops = 1; ruby = 6 })
do_yield-calls_example =
    do_yield-calls modern ensures ensures-IsEnsureCalls block (1 ∷ 2 ∷ 3 ∷ 4 ∷ []) 0

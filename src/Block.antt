-- ===== src/Block.antt =====
-- src/block.rs: iterators that a method returns and whose items go to the method's block, with
-- `ensure` of src/error.rs and the return values of src/method.rs.
pub mod Drops
pub mod Return
use magnus.Prelude.{
  ℕ, suc, zero, Bool, true, false, Option, none, some, List, [], ◌∷◌, ◌++◌, Outcome, ok, err, panic,
  if◌then◌else◌,
}
use magnus.Ruby.{Value, Consts}
use magnus.Error.{Result, ErrorType, Completion, returned, unwound}
use magnus.Convert.{ArgTuple, into_arg_list_with, kw_splat}

-- How a function called from C ends: it returns, it unwinds, or it aborts by a panic.
abbrev pub Ended : Type 0
Ended = Outcome ⊥ (Completion Value)

-- `rb_ensure`, on any state that its two callbacks share.
pub record EnsureCalls : Type 1 where
  pub rb_ensure : {W : Type 0} → (W → Ended × W) → (W → Ended × W) → W → Ended × W

-- What the closures share, with the two `Option`s that hold them: full or taken.
pub record Slots (W : Type 0) : Type 0 where
  pub some_func : Bool
  pub some_ensure : Bool
  pub shared : W

module _ (c : Consts) (r : EnsureCalls) {W : Type 0} where
  -- `call_func`: `take().unwrap()`, then the closure.
  abbrev pub call_func : (W → Completion Value × W) → Slots W → Ended × Slots W
  call_func func s =
      if s.some_func
      then (ok (func s.shared).0, record s { some_func = false; shared = (func s.shared).1 })
      else (panic, s)

  abbrev pub call_ensure : (W → W) → Slots W → Ended × Slots W
  call_ensure f s =
      if s.some_ensure
      then (ok (returned c.qnil), record s { some_ensure = false; shared = f s.shared })
      else (panic, s)

  unfoldable pub ensure : (W → Completion Value × W) → (W → W) → W → Ended × W
  ensure func f w =
      let end =
        r.rb_ensure (call_func func) (call_ensure f)
          (record { some_func = true; some_ensure = true; shared = w }) in
      (end.0, end.1.shared)

-- The iterator, by the items that it still has, how often it has been dropped, and the state of Ruby.
pub record Yielding (T S : Type 0) : Type 0 where
  pub rest : List T
  pub drops : ℕ
  pub ruby : S

module _ (c : Consts) (r : EnsureCalls) {S : Type 0} where
  module _ {T : Type 0} (yield : T → S → Completion Value × S) where
    -- The rest of the loop after a call of the block.
    abbrev pub yielded :
        List T
        → ℕ
        → Completion Value × S
        → (ℕ → S → Completion Value × Yielding T S)
        → Completion Value × Yielding T S
    yielded ts drops (returned v, s) loop = loop drops s
    yielded ts drops (unwound tag v, s) loop =
        (unwound tag v, record { rest = ts; drops = drops; ruby = s })

    -- `for val in &mut *ptr { .. }`
    unfoldable pub yield_loop : List T → ℕ → S → Completion Value × Yielding T S
    yield_loop [] drops s = (returned c.qnil, record { rest = []; drops = drops; ruby = s })
    yield_loop (t ∷ ts) drops s = yielded ts drops (yield t s) (yield_loop ts)

    -- What the three functions share.
    unfoldable pub do_yield : List T → S → Ended × Yielding T S
    unfolding yield_loop
    do_yield iter s =
        ensure c r (λ w. yield_loop w.rest w.drops w.ruby) (λ w. record w { drops = suc w.drops })
          (record { rest = iter; drops = 0; ruby = s })

  -- `rb_yield`, `rb_yield_values_kw` and `rb_yield_splat` are the arguments behind the conversions.
  unfoldable pub do_yield_iter :
      {T : Type 0}
      → (T → Value)
      → (Value → S → Completion Value × S)
      → List T
      → S
      → Ended × Yielding T S
  unfolding do_yield
  do_yield_iter into rb_yield iter s = do_yield (λ val. rb_yield (into val)) iter s

  unfoldable pub do_yield_values_iter :
      {T : Type 0}
      → (T → Value)
      → ℕ
      → ℕ
      → (List Value → ℕ → S → Completion Value × S)
      → List (ArgTuple T)
      → S
      → Ended × Yielding (ArgTuple T) S
  unfolding do_yield
  do_yield_values_iter into pass_keywords no_keywords rb_yield_values_kw iter s =
      do_yield
        (λ val.
          rb_yield_values_kw (into_arg_list_with into val) (kw_splat pass_keywords no_keywords val))
        iter s

  unfoldable pub do_yield_splat_iter :
      (Value → S → Completion Value × S) → List Value → S → Ended × Yielding Value S
  unfolding do_yield
  do_yield_splat_iter rb_yield_splat iter s = do_yield rb_yield_splat iter s

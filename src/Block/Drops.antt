-- ===== src/Block/Drops.antt =====
-- src/block.rs: the iterator is dropped once, however the block ends.
use magnus.Prelude.{ℕ, suc, ◌≡◌, refl, ap, ◌∙◌, true, List, [], ◌∷◌, ok, err, panic}
use magnus.Ruby.{Value, Consts}
use magnus.Error.{Completion, returned, unwound}
use magnus.Block.{Ended, EnsureCalls, call_func, call_ensure, ensure, yielded, yield_loop, do_yield}

-- The second function runs after the first has returned or unwound, and an unwinding of it takes
-- the place of how the first ended.
abbrev pub finished : {W : Type 0} → Completion Value → Ended × W → Ended × W
finished first (ok (returned v), w) = (ok first, w)
finished first (ok (unwound tag v), w) = (ok (unwound tag v), w)
finished first (err e, w) = (err e, w)
finished first (panic, w) = (panic, w)

abbrev pub then_ensure : {W : Type 0} → (W → Ended × W) → Ended × W → Ended × W
then_ensure g (ok first, w) = finished first (g w)
then_ensure g (err e, w) = (err e, w)
then_ensure g (panic, w) = (panic, w)

pub record IsEnsureCalls (r : EnsureCalls) : Type 1 where
  pub ensure_law :
      {W : Type 0} (f g : W → Ended × W) (w : W) → r.rb_ensure f g w ≡ then_ensure g (f w)

module _ (c : Consts) (r : EnsureCalls) (d : IsEnsureCalls r) where
  ensure_lem :
      {W : Type 0} (func : W → Completion Value × W) (f : W → W) (w : W)
      → ensure c r func f w ≡ (ok (func w).0, f (func w).1)
  unfolding ensure
  ensure_lem func f w =
      rw
        (d.ensure_law (call_func c r func) (call_ensure c r f)
          (record { some_func = true; some_ensure = true; shared = w }))
        refl

  module _ {T S : Type 0} (yield : T → S → Completion Value × S) where
    -- The block's calls on the items: how they end, the items that are left, and Ruby's state.
    abbrev after_yield :
        List T
        → Completion Value × S
        → (S → Completion Value × (List T × S))
        → Completion Value × (List T × S)
    after_yield ts (returned v, s) rest = rest s
    after_yield ts (unwound tag v, s) rest = (unwound tag v, (ts, s))

    abbrev pub calls : List T → S → Completion Value × (List T × S)
    calls [] s = (returned c.qnil, ([], s))
    calls (t ∷ ts) s = after_yield ts (yield t s) (calls ts)

    yield_loop_lem :
        (ts : List T) (n : ℕ) (s : S)
        → yield_loop c r yield ts n s
          ≡ ((calls ts s).0, record { rest = (calls ts s).1.0; drops = n; ruby = (calls ts s).1.1 })
    unfolding yield_loop
    yield_loop_lem [] n s = refl
    yield_loop_lem (t ∷ ts) n s = go (yield t s).0 (yield t s).1 (yield_loop_lem ts n)
      where
        go :
            (o : Completion Value) (s' : S)
            → ((s : S)
                → yield_loop c r yield ts n s ≡ (
                  (calls ts s).0,
                  record { rest = (calls ts s).1.0; drops = n; ruby = (calls ts s).1.1 },
                ))
            → yielded c r yield ts n (o, s') (yield_loop c r yield ts) ≡ (
                let end = after_yield ts (o, s') (calls ts) in
                (end.0, record { rest = end.1.0; drops = n; ruby = end.1.1 }))
        go (returned v) s' ih = ih s'
        go (unwound tag v) s' ih = refl

    -- An iterator that a method yields is dropped exactly once, after the block has had its items in
    -- their order, whether the block returns each time or breaks out of the loop; how the loop has
    -- ended is passed on to Ruby.
    pub do_yield-calls :
        (iter : List T) (s : S)
        → let end = calls iter s in
          do_yield c r yield iter s
          ≡ (ok end.0, record { rest = end.1.0; drops = 1; ruby = end.1.1 })
    unfolding do_yield
    do_yield-calls iter s =
        ensure_lem (λ w. yield_loop c r yield w.rest w.drops w.ruby)
          (λ w. record w { drops = suc w.drops }) (record { rest = iter; drops = 0; ruby = s })
        ∙ ap (λ p. (ok p.0, record p.1 { drops = suc p.1.drops })) (yield_loop_lem iter 0 s)

-- ===== src/RHash/Foreach.antt =====
-- src/r_hash.rs: what `foreach` does with the pairs of a hash.
use magnus.Prelude.{◌≡◌, ◌≢◌, refl, ap, ◌∙◌, List, [], ◌∷◌, ok, err, panic}
use magnus.Ruby.{Value, Consts}
use magnus.Error.{
  Result, ErrorType, error, fatal, jump, exception, Tag, Completion, returned, unwound, protect,
}
use magnus.Method.{Ran, Classes, failed, panicked, handle_error}
use magnus.Method.Calls.{panic_message, from_panic_lem}
use magnus.Method.Raise.{IsClasses, Received, raise-protect}
use magnus.Space.{Space, write_pairs}
use magnus.RHash.Calls.{HashCalls, IsHashCalls, Callback, Walked, walk, walk_step, keeping}
use magnus.RHash.{
  ForEach, continue, stop, delete, foreach_code, call_convert_value, call_handle_error, foreach,
  loop_end,
}

-- An unwinding is an error, of any type.
unwound_err :
    (c : Consts) (t : Tag) (v : Value)
    → (x : ErrorType) × ((protect {A = Value} c (unwound t v)).result ≡ err x)
      × ((protect {A = Unit {0}} c (unwound t v)).result ≡ err x)
unfolding protect
unwound_err c Tag.return v = (jump Tag.return, refl, refl)
unwound_err c Tag.break v = (jump Tag.break, refl, refl)
unwound_err c Tag.next v = (jump Tag.next, refl, refl)
unwound_err c Tag.retry v = (jump Tag.retry, refl, refl)
unwound_err c Tag.redo v = (jump Tag.redo, refl, refl)
unwound_err c Tag.raise v = (exception v, refl, refl)
unwound_err c Tag.throw v = (jump Tag.throw, refl, refl)
unwound_err c Tag.fatal_tag v = (jump Tag.fatal_tag, refl, refl)

module _ {S K V : Type 0} (convert_key : Value → Ran K) (convert_value : Value → Ran V)
    (func : K → V → S → Ran ForEach × S) where
  -- What is done with a pair: the key is converted, then the value, and the closure gets both; the
  -- first that fails ends the loop.
  abbrev turn : Ran K → Ran V → S → Ran ForEach × S
  turn (ok key) (ok value) st = func key value st
  turn (ok key) (err e) st = (err e, st)
  turn (ok key) panic st = (panic, st)
  turn (err e) value st = (err e, st)
  turn panic value st = (panic, st)

  turn_lem :
      (key value : Value) (st : S) (k : Ran K) (v : Ran V)
      → convert_key key ≡ k
      → convert_value value ≡ v
      → call_convert_value convert_key convert_value func key value st ≡ turn k v st
  unfolding call_convert_value
  turn_lem key value st (ok k) (ok v) ek ev = rw (ek, ev) refl
  turn_lem key value st (ok k) (err e) ek ev = rw (ek, ev) refl
  turn_lem key value st (ok k) panic ek ev = rw (ek, ev) refl
  turn_lem key value st (err e) v ek ev = rw ek refl
  turn_lem key value st panic v ek ev = rw ek refl

  -- The loop over the pairs: how it ends, and which pairs are left.
  abbrev kept : Value × Value → Ran S × List (Value × Value) → Ran S × List (Value × Value)
  kept p w = (w.0, p ∷ w.1)

  abbrev run_step :
      Value × Value
      → List (Value × Value)
      → Ran ForEach × S
      → (S → Ran S × List (Value × Value))
      → Ran S × List (Value × Value)
  run_step p ps (ok continue, st) rest = kept p (rest st)
  run_step p ps (ok delete, st) rest = rest st
  run_step p ps (ok stop, st) rest = (ok st, p ∷ ps)
  run_step p ps (err e, st) rest = (err e, p ∷ ps)
  run_step p ps (panic, st) rest = (panic, p ∷ ps)

  abbrev pub runs : List (Value × Value) → S → Ran S × List (Value × Value)
  runs [] st = (ok st, [])
  runs (p ∷ ps) st = run_step p ps (turn (convert_key p.0) (convert_value p.1) st) (runs ps)

  module _ (c : Consts) (k : Classes) (l : IsClasses k) (errinfo : Value) where
    callback : Callback S
    callback = call_handle_error convert_key convert_value func c k errinfo

    -- The error in which the loop ends, as `protect` gives it.
    Fails : ErrorType → (Result (Completion (Unit {0})) × S) → Type 0
    Fails e w =
        (completion : Completion (Unit {0})) × (e' : ErrorType) × (w.0 ≡ ok completion)
        × ((protect c completion).result ≡ err e')
        × Received k e e'

    -- How Ruby's loop over the pairs ends, by how the Rust loop does.
    Walks : Ran S → (Result (Completion (Unit {0})) × S) → Type 0
    Walks (ok st) w = w ≡ (ok (returned tt), st)
    Walks (err (failed e)) w = Fails e w
    Walks (err (panicked p)) w = Fails (error fatal (panic_message p)) w
    Walks panic w = Unit {0}

    unwinds :
        (e e' : ErrorType) (completion : Completion Value)
        → (protect c completion).result ≡ err e'
        → Received k e e'
        → (st : S) (p : Value × Value) (ps : List (Value × Value)) (rest : S → Walked S)
        → Fails e (walk_step p ps (ok completion, st) rest).0
          × ((walk_step p ps (ok completion, st) rest).1 ≡ p ∷ ps)
    unfolding Fails protect
    unwinds e e' (returned v) h g st p ps rest = absurd cc
    unwinds e e' (unwound t v) h g st p ps rest =
        let (x, a, b) = unwound_err c t v in
        let same : x ≡ e' = cc (a, h) in
        ((unwound t v, e', refl, b ∙ ap (λ y. err y) same, g), refl)

    Loops : Ran S × List (Value × Value) → Walked S → Type 0
    Loops run w = Walks run.0 w.0 × (w.1 ≡ run.1)

    Loops-kept :
        (p : Value × Value) (run : Ran S × List (Value × Value)) (w : Walked S)
        → Loops run w
        → Loops (kept p run) (keeping p w)
    unfolding Loops
    Loops-kept p run w h = (h.0, ap (λ ps. p ∷ ps) h.1)

    step_lem :
        (p : Value × Value) (ps : List (Value × Value)) (o : Ran ForEach) (st : S)
        (rest : S → Ran S × List (Value × Value)) (rest' : S → Walked S)
        → (run_step p ps (o, st) rest).0 ≢ err (failed (jump Tag.raise))
        → (run_step p ps (o, st) rest).0 ≢ panic
        → ((rest st).0 ≢ err (failed (jump Tag.raise))
            → (rest st).0 ≢ panic
            → Loops (rest st) (rest' st))
        → Loops
            (run_step p ps (o, st) rest)
            (walk_step p ps (handle_error c k errinfo o foreach_code, st) rest')
    unfolding Loops Walks
    step_lem p ps (ok continue) st rest rest' nj np ih =
        Loops-kept p (rest st) (rest' st) (ih nj np)
    step_lem p ps (ok delete) st rest rest' nj np ih = ih nj np
    step_lem p ps (ok stop) st rest rest' nj np ih = (refl, refl)
    step_lem p ps (err (failed e)) st rest rest' nj np ih =
        let (completion, e', raised, got, received) =
          raise-protect c k errinfo e l (λ same. nj (ap (λ x. err (failed x)) same)) in
        rw raised (unwinds e e' completion got received st p ps rest')
    step_lem p ps (err (panicked m)) st rest rest' nj np ih =
        let (completion, e', raised, got, received) =
          raise-protect c k errinfo (error fatal (panic_message m)) l (λ same. absurd cc) in
        rw (from_panic_lem m, raised)
          (unwinds (error fatal (panic_message m)) e' completion got received st p ps rest')
    step_lem p ps panic st rest rest' nj np ih = absurd (np refl)

    walk_lem :
        (ps : List (Value × Value)) (st : S)
        → (runs ps st).0 ≢ err (failed (jump Tag.raise))
        → (runs ps st).0 ≢ panic
        → Loops (runs ps st) (walk callback ps st)
    unfolding Loops Walks callback call_handle_error
    walk_lem [] st nj np = (refl, refl)
    walk_lem (p ∷ ps) st nj np =
        let call = turn (convert_key p.0) (convert_value p.1) st in
        rw (turn_lem p.0 p.1 st (convert_key p.0) (convert_value p.1) refl refl) (
          step_lem p ps call.0 call.1 (runs ps) (walk callback ps) nj np
            (λ a b. walk_lem ps call.1 a b))

    -- How `foreach` ends, by how the Rust loop does: it gives the closure's last state, or the error
    -- that the closure, a conversion or a panic has been made into.
    abbrev pub Results : Ran S → Result S → Type 0
    Results (ok st) o = o ≡ ok st
    Results (err (failed e)) o = (e' : ErrorType) × (o ≡ err e') × Received k e e'
    Results (err (panicked m)) o =
        (e' : ErrorType) × (o ≡ err e') × Received k (error fatal (panic_message m)) e'
    Results panic o = Unit {0}

    module _ (r : HashCalls) where
      Fails-end :
          (e : ErrorType) (w : Result (Completion (Unit {0})) × S) (s : Space)
          → Fails e w
          → (e' : ErrorType) × ((loop_end c r (w, s)).0 ≡ err e') × Received k e e'
      unfolding Fails
      Fails-end e w s h =
          let (completion, e', o, g, received) = h in (e', rw o (rw g refl), received)

      Walks-end :
          (run : Ran S) (w : Result (Completion (Unit {0})) × S) (s : Space)
          → Walks run w
          → Results run (loop_end c r (w, s)).0
      unfolding Walks protect
      Walks-end (ok st) w s h = rw h refl
      Walks-end (err (failed e)) w s h = Fails-end e w s h
      Walks-end (err (panicked m)) w s h = Fails-end (error fatal (panic_message m)) w s h
      Walks-end panic w s h = tt

      loop_end_space :
          (w : Result (Completion (Unit {0})) × S) (s : Space) → (loop_end c r (w, s)).1 ≡ s
      loop_end_space w s = go w.0
        where
          go : (o : Result (Completion (Unit {0}))) → (loop_end c r ((o, w.1), s)).1 ≡ s
          go (ok e) = refl
          go (err e) = refl
          go panic = refl

      -- `foreach` goes through the pairs that the hash has when it begins, stops where the closure
      -- stops, and removes the pairs for which it asks to; it gives the closure's last state, or as
      -- `Err` the error that the closure or the conversion of a key or a value returns, or a `fatal`
      -- error with its panic's message, and what the hash holds then is what the loop has left. Nothing else changes if the closure
      -- changes no Ruby object, and no panic leaves the loop. The loop's error is not a bare tag of a
      -- raised exception, nor an abort.
      pub foreach-Results :
          (d : IsHashCalls r) (st : S) (self : Value) (s : Space)
          → (runs (s.pairs self) st).0 ≢ err (failed (jump Tag.raise))
          → (runs (s.pairs self) st).0 ≢ panic
          → Results
              (runs (s.pairs self) st).0
              (foreach c r k errinfo convert_key convert_value func st self s).0
            × ((foreach c r k errinfo convert_key convert_value func st self s).1
                ≡ write_pairs s self (runs (s.pairs self) st).1)
      unfolding foreach callback Loops
      foreach-Results d st self s nj np =
          let h = walk_lem (s.pairs self) st nj np in
          let w = walk callback (s.pairs self) st in
          rw (d.foreach_law callback self st s) (
            Walks-end (runs (s.pairs self) st).0 w.0 (write_pairs s self w.1) h.0,
            loop_end_space w.0 _ ∙ ap (write_pairs s self) h.1,
          )

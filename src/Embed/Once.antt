-- ===== src/Embed/Once.antt =====
-- src/embed.rs: Ruby is set up once, and shut down once.
use magnus.Prelude.{
  ℕ, suc, String, ◌≡◌, Bool, true, false, List, ◌≢◌, refl, [], ◌∷◌, Outcome, ok, err, panic,
  Bool-cases, arith, ◌+◌, ◌≤◌, inl, inr, ◌==◌, if◌then◌else◌,
}
use magnus.Ruby.{Consts}
use magnus.Error.{Result, ErrorType, protect}
use magnus.Embed.{
  EmbedCalls, Process, setup, init_options, processed, init, with_options, or_drop, cleanup_drop,
  ran_with, ruby_init,
}

-- What a set-up adds to the failed ones: Ruby documents that its state is not 0 when it fails.
abbrev pub failed : ℕ → ℕ
failed state = if state == 0 then 0 else 1

-- How often Ruby has been set up, how often that has failed, and how often Ruby has been shut down;
-- each call counts as Ruby's documentation says.
pub record IsEmbedCalls {S : Type 0} (r : EmbedCalls S) (setups failures cleanups : S → ℕ)
    : Type 0 where
  pub init_stack_law :
      (s : S)
      → (setups (r.ruby_init_stack s) ≡ setups s)
        × (failures (r.ruby_init_stack s) ≡ failures s)
        × (cleanups (r.ruby_init_stack s) ≡ cleanups s)
  pub setup_law :
      (s : S)
      → (setups (r.ruby_setup s).1 ≡ suc (setups s))
        × (failures (r.ruby_setup s).1 ≡ failed (r.ruby_setup s).0 + failures s)
        × (cleanups (r.ruby_setup s).1 ≡ cleanups s)
  pub options_law :
      (opts : List String) (s : S)
      → (setups (r.ruby_process_options opts s).1 ≡ setups s)
        × (failures (r.ruby_process_options opts s).1 ≡ failures s)
        × (cleanups (r.ruby_process_options opts s).1 ≡ cleanups s)
  pub exec_law :
      (node : ℕ) (s : S)
      → (setups (r.ruby_exec_node node s).1 ≡ setups s)
        × (failures (r.ruby_exec_node node s).1 ≡ failures s)
        × (cleanups (r.ruby_exec_node node s).1 ≡ cleanups s)
  pub cleanup_law :
      (code : ℕ) (s : S)
      → (setups (r.ruby_cleanup code s) ≡ setups s)
        × (failures (r.ruby_cleanup code s) ≡ failures s)
        × (cleanups (r.ruby_cleanup code s) ≡ suc (cleanups s))

-- The process, and how many `Cleanup`s the program has.
pub record Machine (S : Type 0) : Type 0 where
  pub process : Process S
  pub owners : ℕ

-- The `Cleanup`s that a call returns.
abbrev given : Outcome ErrorType (Unit {0}) → ℕ
given (ok u) = 1
given (err e) = 0
given panic = 0

module _ {S : Type 0} (c : Consts) (r : EmbedCalls S) (setups failures cleanups : S → ℕ)
    (l : IsEmbedCalls r setups failures cleanups) where
  -- Other code neither sets Ruby up nor shuts it down.
  abbrev Keeps : S → S → Type 0
  Keeps s u = (setups u ≡ setups s) × (failures u ≡ failures s) × (cleanups u ≡ cleanups s)

  -- What a program does, one call after the other: it sets Ruby up in one of the three ways, drops a
  -- `Cleanup` that it has, or runs other code.
  pub data Step (m : Machine S) : Machine S → Type 0 where
    sets_up : Step m (record {
      process = (setup c r m.process).1;
      owners = given (setup c r m.process).0 + m.owners;
    })
    initialises : Step m (record {
      process = (init c r m.process).1;
      owners = given (init c r m.process).0 + m.owners;
    })
    runs_within :
        (func : S → Outcome ErrorType (Unit {0}) × S)
        → ((s : S) → Keeps s (func s).1)
        → Step m (record m { process = (ruby_init c r func m.process).1 })
    drops :
        (n : ℕ)
        → m.owners ≡ 1 + n
        → Step m (record { process = cleanup_drop c r m.process; owners = n })
    runs :
        (f : S → S)
        → ((s : S) → Keeps s (f s))
        → Step m (record m { process = record m.process { ruby = f m.process.ruby } })

  pub data Reach (m : Machine S) : Machine S → Type 0 where
    here : Reach m m
    next : {e d : Machine S} → Reach m e → Step e d → Reach m d

  abbrev allowed : Bool → ℕ
  allowed true = 1
  allowed false = 0

  -- Ruby has been set up only if `INIT` is set, and each set-up has failed, or Ruby has been shut
  -- down for it, or it has an owner.
  IsOnce : Process S → ℕ → Type 0
  IsOnce w n =
      (cleanups w.ruby + n + failures w.ruby ≡ setups w.ruby) × (setups w.ruby ≤ allowed w.init)

  kept :
      (w : Process S) (s : S) (n : ℕ)
      → Keeps w.ruby s
      → IsOnce w n
      → IsOnce (record w { ruby = s }) n
  unfolding IsOnce
  kept w s n k h = (omega (arith, k.0, k.1, k.2, h.0), omega (arith, k.0, h.1))

  given-failed : (state : ℕ) → given (if state == 0 then ok tt else panic) + failed state ≡ 1
  given-failed state = elim (Bool-cases (state == 0)) [ inl e ↦ rw e refl | inr e ↦ rw e refl ]

  as_many : (w : Process S) (n m : ℕ) → m ≡ n → IsOnce w n → IsOnce w m
  unfolding IsOnce
  as_many w n m e h = (omega (arith, e, h.0), h.1)

  setup-IsOnce :
      (w : Process S) (n : ℕ) → IsOnce w n → IsOnce (setup c r w).1 (given (setup c r w).0 + n)
  unfolding setup IsOnce
  setup-IsOnce w n h = elim (Bool-cases w.init) [
    | inl e ↦
        let k = l.init_stack_law w.ruby in
        let most : setups w.ruby ≤ allowed true = rw e at h.1 in
        rw e (omega (arith, k.0, k.1, k.2, h.0), omega (arith, k.0, most))
    | inr e ↦
        let k = l.init_stack_law w.ruby in
        let p = r.ruby_setup (r.ruby_init_stack w.ruby) in
        let k' = l.setup_law (r.ruby_init_stack w.ruby) in
        let most : setups w.ruby ≤ allowed false = rw e at h.1 in
        rw e (
          omega (arith, k.0, k.1, k.2, k'.0, k'.1, k'.2, h.0, given-failed p.0),
          omega (arith, k.0, k'.0, most),
        )
  ]

  cleanup_drop-IsOnce : (w : Process S) (n : ℕ) → IsOnce w (1 + n) → IsOnce (cleanup_drop c r w) n
  unfolding cleanup_drop IsOnce
  cleanup_drop-IsOnce w n h =
      let k = l.cleanup_law 0 w.ruby in (omega (arith, k.0, k.1, k.2, h.0), omega (arith, k.0, h.1))

  -- Neither `init_options` nor what it calls returns an error: it returns or panics.
  abbrev IsNoErr : Outcome ErrorType (Unit {0}) × Process S → Type 0
  IsNoErr p = (e : ErrorType) → p.0 ≢ err e

  processed-IsNoErr : (o : Result ℕ) (w : Process S) → IsNoErr (processed c r o w)
  processed-IsNoErr (ok node) w e h = elim (Bool-cases ((r.ruby_exec_node node w.ruby).0 == 0)) [
    | inl b ↦ absurd cc (h, b)
    | inr b ↦ absurd cc (h, b)
  ]
  processed-IsNoErr (err x) w e h = absurd cc
  processed-IsNoErr panic w e h = absurd cc

  processed-IsOnce :
      (o : Result ℕ) (w : Process S) (n : ℕ) → IsOnce w n → IsOnce (processed c r o w).1 n
  processed-IsOnce (ok node) w n h =
      kept w (r.ruby_exec_node node w.ruby).1 n (l.exec_law node w.ruby) h
  processed-IsOnce (err e) w n h = h
  processed-IsOnce panic w n h = h

  init_options-IsOnce :
      (opts : List String) (w : Process S) (n : ℕ)
      → IsOnce w n
      → IsOnce (init_options c r opts w).1 n
  unfolding init_options protect
  init_options-IsOnce opts w n h =
      let parsed = r.ruby_process_options ("ruby" ∷ opts) w.ruby in
      processed-IsOnce (protect c parsed.0).result (record w { ruby = parsed.1 }) n
        (kept w parsed.1 n (l.options_law ("ruby" ∷ opts) w.ruby) h)

  init_options-IsNoErr : (opts : List String) (w : Process S) → IsNoErr (init_options c r opts w)
  unfolding init_options protect
  init_options-IsNoErr opts w =
      let parsed = r.ruby_process_options ("ruby" ∷ opts) w.ruby in
      processed-IsNoErr (protect c parsed.0).result (record w { ruby = parsed.1 })

  or_drop-IsOnce :
      (p : Outcome ErrorType (Unit {0}) × Process S) (n : ℕ)
      → IsNoErr p
      → IsOnce p.1 (1 + n)
      → IsOnce (or_drop c r p).1 (given (or_drop c r p).0 + n)
  unfolding cleanup_drop
  or_drop-IsOnce (ok u, w) n never h = h
  or_drop-IsOnce (err e, w) n never h = absurd (never e refl)
  or_drop-IsOnce (panic, w) n never h =
      as_many (cleanup_drop c r w) n (0 + n) (omega arith) (cleanup_drop-IsOnce w n h)

  with_options-IsOnce :
      (p : Outcome ErrorType (Unit {0}) × Process S) (n : ℕ)
      → IsOnce p.1 (given p.0 + n)
      → IsOnce (with_options c r p).1 (given (with_options c r p).0 + n)
  with_options-IsOnce (ok u, w) n h =
      or_drop-IsOnce (init_options c r ("-e" ∷ "" ∷ []) w) n
        (init_options-IsNoErr ("-e" ∷ "" ∷ []) w) (init_options-IsOnce ("-e" ∷ "" ∷ []) w (1 + n) h)
  with_options-IsOnce (err e, w) n h = h
  with_options-IsOnce (panic, w) n h = h

  init-IsOnce :
      (w : Process S) (n : ℕ) → IsOnce w n → IsOnce (init c r w).1 (given (init c r w).0 + n)
  unfolding init
  init-IsOnce w n h = with_options-IsOnce (setup c r w) n (setup-IsOnce w n h)

  ran_with-IsOnce :
      (func : S → Outcome ErrorType (Unit {0}) × S) (p : Outcome ErrorType (Unit {0}) × Process S)
      (n : ℕ)
      → ((s : S) → Keeps s (func s).1)
      → IsOnce p.1 (given p.0 + n)
      → IsOnce (ran_with c r func p).1 n
  unfolding cleanup_drop
  ran_with-IsOnce func (ok u, w) n k h =
      cleanup_drop-IsOnce (record w { ruby = (func w.ruby).1 }) n
        (kept w (func w.ruby).1 (1 + n) (k w.ruby) h)
  ran_with-IsOnce func (err e, w) n k h = as_many w (0 + n) n (omega arith) h
  ran_with-IsOnce func (panic, w) n k h = as_many w (0 + n) n (omega arith) h

  Step-IsOnce : {m d : Machine S} → Step m d → IsOnce m.process m.owners → IsOnce d.process d.owners
  unfolding ruby_init
  Step-IsOnce {m} sets_up h = setup-IsOnce m.process m.owners h
  Step-IsOnce {m} initialises h = init-IsOnce m.process m.owners h
  Step-IsOnce {m} (runs_within func k) h =
      ran_with-IsOnce func (init c r m.process) m.owners k (init-IsOnce m.process m.owners h)
  Step-IsOnce {m} (drops n e) h = cleanup_drop-IsOnce m.process n (rw e at h)
  Step-IsOnce {m} (runs f k) h = kept m.process (f m.process.ruby) m.owners (k m.process.ruby) h

  Reach-IsOnce :
      {m d : Machine S} → Reach m d → IsOnce m.process m.owners → IsOnce d.process d.owners
  Reach-IsOnce here h = h
  Reach-IsOnce (next path step) h = Step-IsOnce step (Reach-IsOnce path h)

  allowed-le : (b : Bool) → allowed b ≤ 1
  allowed-le true = omega arith
  allowed-le false = omega arith

  -- Whatever a program that begins without Ruby does, by `setup`, `init`, `Ruby::init` and drops of the
  -- `Cleanup`s that it has, Ruby is set up at most once, and it is shut down at most once: a set-up
  -- has failed, or Ruby has been shut down for it, or it has exactly one owner that is still to shut
  -- Ruby down. A call is done before the next one begins.
  pub Reach-setups :
      (m d : Machine S)
      → setups m.process.ruby ≡ 0
      → failures m.process.ruby ≡ 0
      → cleanups m.process.ruby ≡ 0
      → m.owners ≡ 0
      → Reach m d
      → (setups d.process.ruby ≤ 1)
        × (cleanups d.process.ruby + d.owners + failures d.process.ruby ≡ setups d.process.ruby)
  unfolding IsOnce
  Reach-setups m d es ef ec eo path =
      let h = Reach-IsOnce path (omega (arith, es, ef, ec, eo), omega (arith, es)) in
      (omega (arith, h.1, allowed-le d.process.init), h.0)

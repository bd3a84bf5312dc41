-- ===== src/Embed.antt =====
-- src/embed.rs: starting Ruby in a Rust program, once, and shutting it down.
pub mod Once
use magnus.Prelude.{
  ℕ, Bool, true, false, String, List, [], ◌∷◌, Outcome, ok, err, panic, ◌==◌, if◌then◌else◌,
}
use magnus.Ruby.{Value, Consts}
use magnus.Error.{Result, ErrorType, Completion, protect}
use magnus.Method.{Ran, failed, panicked}

-- The functions of Ruby's C API that start and stop it. Options are C strings, by their texts.
pub record EmbedCalls (S : Type 0) : Type 0 where
  pub ruby_init_stack : S → S
  pub ruby_setup : S → ℕ × S
  pub ruby_process_options : List String → S → Completion ℕ × S
  pub ruby_exec_node : ℕ → S → ℕ × S
  pub ruby_cleanup : ℕ → S → S
  pub ruby_set_script_name : Value → S → S

-- The static `INIT`, and Ruby.
pub record Process (S : Type 0) : Type 0 where
  pub init : Bool
  pub ruby : S

module _ {S : Type 0} (c : Consts) (r : EmbedCalls S) where
  -- `Cleanup::drop`
  unfoldable pub cleanup_drop : Process S → Process S
  cleanup_drop w = record w { ruby = r.ruby_cleanup 0 w.ruby }

  -- After the exchange of `INIT` for `true`; `Ok(())` stands for a `Cleanup`.
  abbrev set_up : ℕ × S → Outcome ErrorType (Unit {0}) × Process S
  set_up (state, s) = (if state == 0 then ok tt else panic, record { init = true; ruby = s })

  unfoldable pub setup : Process S → Outcome ErrorType (Unit {0}) × Process S
  setup w =
      let s = r.ruby_init_stack w.ruby in
      if w.init then (panic, record w { ruby = s }) else set_up (r.ruby_setup s)

  abbrev executed : ℕ × S → Bool → Outcome ErrorType (Unit {0}) × Process S
  executed (state, s) init = (if state == 0 then ok tt else panic, record { init = init; ruby = s })

  abbrev pub processed : Result ℕ → Process S → Outcome ErrorType (Unit {0}) × Process S
  processed (ok node) w = executed (r.ruby_exec_node node w.ruby) w.init
  processed (err e) w = (panic, w)
  processed panic w = (panic, w)

  unfoldable pub init_options : List String → Process S → Outcome ErrorType (Unit {0}) × Process S
  unfolding protect
  init_options opts w =
      let parsed = r.ruby_process_options ("ruby" ∷ opts) w.ruby in
      processed (protect c parsed.0).result (record w { ruby = parsed.1 })

  -- The `Cleanup` is dropped if the options fail.
  abbrev pub or_drop :
      Outcome ErrorType (Unit {0}) × Process S → Outcome ErrorType (Unit {0}) × Process S
  or_drop (ok u, w) = (ok u, w)
  or_drop (err e, w) = (err e, w)
  or_drop (panic, w) = (panic, cleanup_drop w)

  abbrev pub with_options :
      Outcome ErrorType (Unit {0}) × Process S → Outcome ErrorType (Unit {0}) × Process S
  with_options (ok u, w) = or_drop (init_options ("-e" ∷ "" ∷ []) w)
  with_options (err e, w) = (err e, w)
  with_options (panic, w) = (panic, w)

  unfoldable pub init : Process S → Outcome ErrorType (Unit {0}) × Process S
  unfolding setup init_options cleanup_drop
  init w = with_options (setup w)

  -- `Ruby::init`: the `Cleanup` lives until the function has ended, also by a panic.
  abbrev ran_with :
      {E A : Type 0}
      → (S → Outcome E A × S)
      → Outcome ErrorType (Unit {0}) × Process S
      → Outcome E A × Process S
  ran_with func (ok u, w) =
      let end = func w.ruby in (end.0, cleanup_drop (record w { ruby = end.1 }))
  ran_with func (err e, w) = (panic, w)
  ran_with func (panic, w) = (panic, w)

  unfoldable ruby_init :
      {E A : Type 0} → (S → Outcome E A × S) → Process S → Outcome E A × Process S
  unfolding init cleanup_drop
  ruby_init func w = ran_with func (init w)

  unfoldable script : {N : Type 0} → (N → Value) → N → Process S → Process S
  script into_r_string name w = record w {
    ruby = r.ruby_set_script_name (into_r_string name) w.ruby;
  }

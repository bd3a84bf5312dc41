-- ===== src/TypedData/Dup.antt =====
-- src/typed_data.rs: `Dup` of a type with `Clone`, the methods `dup` and `clone` of Ruby.
use magnus.Prelude.{
  ℕ, Bool, true, false, Option, none, some, List, [], ◌∷◌, ok, err, panic, ◌>>=◌, if◌then◌else◌,
}
use magnus.Ruby.{Value, Consts}
use magnus.Error.{Result}
use magnus.ScanArgs.Calls.{ScanCalls}
use magnus.ScanArgs.Convert.{Types, Conversion, no_block, scan_args, get_kwargs}
use magnus.Convert.{option_try_convert, bool_try_convert}
use magnus.TypedData.{Store, TypedCalls, TypedData, deref, wrap}

-- The functions of Ruby's C API that copy an object's singleton class and that freeze.
pub record CloneCalls (T : Type 0) : Type 0 where
  pub rb_singleton_class_clone : Value → Store T → Value × Store T
  pub rb_obj_reveal : Value → Value → Store T → Store T
  pub rb_singleton_class_attached : Value → Value → Store T → Store T
  pub rb_obj_freeze : Value → Store T → Store T

-- `Option::flatten` of the one optional keyword.
abbrev pub flatten : List (Option (Option Bool)) → Option Bool
flatten [] = none
flatten (none ∷ _) = none
flatten (some b ∷ _) = b

module _ {T : Type 0} (c : Consts) (r : TypedCalls T) (k : CloneCalls T) (a : ScanCalls)
    (to_hash : Conversion Value) (hash_new : Value) (freeze_id : ℕ) where
  -- `scan_args::<(), (), (), (), _, ()>`
  abbrev pub only_keywords : Types Value
  only_keywords = record {
    req = [];
    opt = [];
    rest = none;
    trail = [];
    kw = some to_hash;
    blk = no_block;
    hash_new = hash_new;
  }

  -- The `TryConvert` of `Option<bool>`.
  unfoldable pub to_freeze : Conversion (Option Bool)
  unfolding option_try_convert bool_try_convert
  to_freeze v = option_try_convert c (bool_try_convert c) v

  -- `get_kwargs::<_, (), (Option<Option<bool>>,), ()>`
  abbrev pub only_freeze : Types (Option Bool)
  only_freeze = record {
    req = [];
    opt = to_freeze ∷ [];
    rest = none;
    trail = [];
    kw = none;
    blk = no_block;
    hash_new = none;
  }

  abbrev keywords_of : Option Value → Value
  keywords_of none = hash_new
  keywords_of (some v) = v

  -- The keyword `freeze` of the arguments.
  unfoldable pub parse_freeze : List Value → Result (Option Bool)
  unfolding scan_args get_kwargs to_freeze
  parse_freeze args = do
    args ← scan_args c a only_keywords args
    kwargs ← get_kwargs c a only_freeze (keywords_of args.keywords) [] (freeze_id ∷ [])
    ok (flatten kwargs.optional)

  -- `match freeze`
  abbrev pub freeze_clone : Option Bool → Value → Value → Store T → Store T
  freeze_clone (some true) clone rbself s = k.rb_obj_freeze clone s
  freeze_clone none clone rbself s = if s.frozen rbself then k.rb_obj_freeze clone s else s
  freeze_clone (some false) clone rbself s = s

  abbrev pub finish : Option Bool → Value → Result Value × Store T → Result Value × Store T
  finish freeze rbself (ok clone, s) =
      let (class_clone, s) = k.rb_singleton_class_clone rbself s in
      let s = k.rb_obj_reveal clone class_clone s in
      let s = k.rb_singleton_class_attached class_clone clone s in
      (ok clone, freeze_clone freeze clone rbself s)
  finish freeze rbself (err e, s) = (err e, s)
  finish freeze rbself (panic, s) = (panic, s)

  module _ (debug : Bool) (is_inherited : Value → Value → Bool) (t : TypedData T)
      (dup : T → T) where
    -- `obj_wrap` of a copy of what `deref` gives.
    abbrev wrap_copy : Option (Result T) → Store T → Option (Result Value × Store T)
    wrap_copy none s = none
    wrap_copy (some (ok x)) s = some (wrap c r debug is_inherited t (dup x) s)
    wrap_copy (some (err e)) s = some (err e, s)
    wrap_copy (some panic) s = some (panic, s)

    abbrev then_finish :
        Option Bool → Value → Option (Result Value × Store T) → Option (Result Value × Store T)
    then_finish freeze rbself none = none
    then_finish freeze rbself (some p) = some (finish freeze rbself p)

    abbrev clone_with : Result (Option Bool) → Value → Store T → Option (Result Value × Store T)
    clone_with (ok freeze) rbself s = then_finish freeze rbself (wrap_copy (deref c r t rbself s) s)
    clone_with (err e) rbself s = some (err e, s)
    clone_with panic rbself s = some (panic, s)

    unfoldable pub clone : Value → List Value → Store T → Option (Result Value × Store T)
    clone rbself args s = clone_with (parse_freeze args) rbself s

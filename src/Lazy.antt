-- ===== src/Lazy.antt =====
-- src/value.rs: `Lazy` and `LazyId`. Threads of Ruby run in turn, and another thread can run while
-- `func` does; so `get_inner_ref_with` is in two parts, up to the call of `func` and behind it.
pub mod Agree
use magnus.Prelude.{
  String, Bool, true, false, Option, none, some, List, [], ◌∷◌, Outcome, ok, err, panic,
  if◌then◌else◌,
}
use magnus.Ruby.{Value, Consts}

-- `init` is whether the `Once` is completed.
pub record Lazy : Type 0 where
  pub init : Bool
  pub mark : Bool
  pub value : Value

unfoldable pub new : Consts → Lazy
new c = record { init = false; mark = true; value = c.qnil }

unfoldable pub new_without_mark : Consts → Lazy
new_without_mark c = record { init = false; mark = false; value = c.qnil }

unfoldable pub try_get_inner : Lazy → Option Value
try_get_inner this = if this.init then some this.value else none

-- Where a thread stands in `get_inner_ref_with`: before it, in `func`, or behind it with its value.
pub data Phase : Type 0 where
  before : Phase
  calling : Phase
  done : Value → Phase

unfoldable pub enter : Lazy → Phase
enter self = if self.init then done self.value else calling

-- The closure of `call_once`, with the objects that are registered with the collector.
abbrev pub store : Value → Lazy × List Value → Lazy × List Value
store value w = (record w.0 { init = true; value = value }, if w.0.mark then value ∷ w.1 else w.1)

-- `func` has given `value`.
unfoldable pub leave : Value → Lazy × List Value → Phase × (Lazy × List Value)
leave value w = if w.0.init then (done w.0.value, w) else (done value, store value w)

-- `LazyIdInner`, a union.
pub data LazyIdInner : Type 0 where
  name : String → LazyIdInner
  id : Value → LazyIdInner

pub record LazyId : Type 0 where
  pub init : Bool
  pub inner : LazyIdInner

unfoldable pub lazy_id_new : String → LazyId
lazy_id_new s = record { init = false; inner = name s }

-- A read of the member that is not there is undefined, for which `panic` stands.
abbrev pub read_name : LazyIdInner → Outcome ⊥ String
read_name (name s) = ok s
read_name (id v) = panic

abbrev pub read_id : LazyIdInner → Outcome ⊥ Value
read_id (name s) = panic
read_id (id v) = ok v

-- `intern` is `Ruby::intern`.
module _ (intern : String → Value) where
  abbrev interned : Outcome ⊥ String → LazyId → Outcome ⊥ Value × LazyId
  interned (ok s) this = (ok (intern s), record { init = true; inner = id (intern s) })
  interned (err e) this = (err e, this)
  interned panic this = (panic, this)

  unfoldable pub get_inner_with : LazyId → Outcome ⊥ Value × LazyId
  get_inner_with this =
      if this.init then (read_id this.inner, this) else interned (read_name this.inner) this

-- `LazyId::try_get_inner`
unfoldable pub try_get_id : LazyId → Option (Outcome ⊥ Value)
try_get_id this = if this.init then some (read_id this.inner) else none

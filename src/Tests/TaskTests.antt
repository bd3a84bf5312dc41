-- ===== src/Tests/TaskTests.antt =====
-- The properties of threads and fibers, at closures that are numbers.
use magnus.Prelude.{
  ℕ, ◌+◌, ◌≡◌, refl, sym, ap, ◌∙◌, Bool, true, Option, none, some, List, ok, ◌==◌, if◌then◌else◌,
  ltb,
}
use magnus.Ruby.{Value, modern}
use magnus.Error.{Result, Completion, returned, unwound, Tag}
use magnus.Method.{Ran}
use magnus.TypedData.{Wrapped, set_box}
use magnus.TypedData.Lifetime.{IsSound}
use magnus.Thread.{Closures, Entry, closure_at, World, ThreadCalls, call, thread_create_from_fn}
use magnus.Thread.Closure.{IsClosures, wrapped_closure}
use magnus.Thread.Created.{IsThreadCalls, Gives, call_lem, thread_create_from_fn_lem}
use magnus.Fiber.{FiberCalls, lazy, fiber_new_from_fn}
use magnus.Fiber.Made.{IsFiberCalls, fiber_new_from_fn_lem}
use magnus.Tests.MethodTests as Method
use magnus.Tests.SampleTyped.{calls, calls-IsTypedCalls, start, start-IsSound}

data Boxed : Type 0 where
  number : ℕ → Boxed
  boxed_closure : Option ℕ → Boxed

abbrev type_of : Boxed → ℕ
type_of (number n) = 0
type_of (boxed_closure o) = 1

abbrev is_ours : ℕ → Bool
is_ours d = ltb d 2

abbrev slot : Boxed → Option (Option ℕ)
slot (number n) = none
slot (boxed_closure o) = some o

abbrev closures : Closures Boxed ℕ
closures = record { closure = boxed_closure; slot = slot; data_type = 1 }

closure_of : (t : Boxed) → type_of t ≡ 1 → (o : Option ℕ) × (t ≡ boxed_closure o)
closure_of (number n) e = absurd cc
closure_of (boxed_closure o) e = (o, refl)

closures-IsClosures : IsClosures type_of closures
closures-IsClosures = record {
  slot_law = λ o. refl;
  type_law = λ o. refl;
  closure_law = closure_of;
}

abbrev W : Type 0
W = World Boxed ℕ

-- A new thread or fiber is at the number that the state has, if that is free.
abbrev spawn_at : Option Entry → Entry → W → Completion Value × W
spawn_at none e w = (
  returned w.1.ruby,
  (w.0, record w.1 { entry = λ t. if w.1.ruby == t then some e else w.1.entry t }),
)
spawn_at (some old) e w = (unwound Tag.raise 0x99, w)

abbrev spawn : Entry → W → Completion Value × W
spawn e w = spawn_at (w.1.entry w.1.ruby) e w

spawn_law :
    (e : Entry) (w u : W) (v : Value) (o : Option Entry)
    → w.1.entry w.1.ruby ≡ o
    → spawn_at o e w ≡ (returned v, u)
    → (w.1.entry v ≡ none)
      × (u ≡ (w.0, record w.1 { entry = λ t. if v == t then some e else w.1.entry t }))
spawn_law e w u v none at h =
    let same : w.1.ruby ≡ v = cc h in
    let made : ◌≡◌ {A = W}
        (w.0, record w.1 { entry = λ t. if w.1.ruby == t then some e else w.1.entry t }) u =
      cc h in
    (
      ap w.1.entry (sym same) ∙ at,
      sym made
          ∙ ap (λ z. (w.0, record w.1 { entry = λ t. if z == t then some e else w.1.entry t }))
              same,
    )
spawn_law e w u v (some old) at h = absurd cc

abbrev keep : Value → Value → W → Completion Value × W
keep t v w =
    (returned v, (w.0, record w.1 { kept = λ t'. if t == t' then some v else w.1.kept t' }))

abbrev idle : W → Completion (Unit {0}) × W
idle w = (returned tt, w)

abbrev thread_calls : ThreadCalls Boxed ℕ
thread_calls = record {
  rb_thread_create = spawn;
  rb_ivar_set = keep;
  rb_thread_current = λ w. 0;
  rb_thread_main = λ w. 0;
  rb_thread_schedule = λ w. w;
  rb_thread_wait_fd = λ fd w. idle w;
  rb_thread_fd_writable = λ fd w. idle w;
  rb_thread_fd_close = λ fd w. idle w;
  rb_thread_alone = λ w. 1;
  rb_thread_wait_for = λ sec usec w. idle w;
  rb_thread_sleep_forever = idle;
  rb_thread_sleep_deadly = idle;
  rb_thread_check_ints = idle;
  rb_thread_wakeup = λ t w. (returned t, w);
  rb_thread_wakeup_alive = λ t w. w;
  rb_thread_run = λ t w. (returned t, w);
  rb_thread_kill = λ t w. (returned t, w);
  rb_thread_local_aref = λ t key w. 4;
  rb_thread_local_aset = λ t key v w. (returned v, w);
  rb_thread_interrupted = λ t w. 0;
}

thread_calls-IsThreadCalls : IsThreadCalls thread_calls
thread_calls-IsThreadCalls = record {
  create_law = λ e w u v h. spawn_law e w u v (w.1.entry w.1.ruby) refl h;
  ivar_law = λ t v w. refl;
}

abbrev fiber_calls : FiberCalls Boxed ℕ
fiber_calls = record {
  rb_fiber_new_storage = λ e storage w. spawn e w;
  rb_fiber_new = spawn;
  rb_ivar_set = keep;
  rb_fiber_current = λ w. 0;
  rb_fiber_yield_kw = λ args kw w. (returned 4, w);
  rb_obj_is_fiber = λ v w. 0x14;
  rb_fiber_alive_p = λ v w. 0x14;
  rb_fiber_resume_kw = λ f args kw w. (returned 4, w);
  rb_fiber_transfer_kw = λ f args kw w. (returned 4, w);
  rb_fiber_raise = λ f args w. (returned 4, w);
}

fiber_calls-IsFiberCalls : IsFiberCalls fiber_calls
fiber_calls-IsFiberCalls = record {
  new_storage_law = λ e storage w u v h. spawn_law e w u v (w.1.entry w.1.ruby) refl h;
  new_law = λ e w u v h. spawn_law e w u v (w.1.entry w.1.ruby) refl h;
  ivar_law = λ t v w. refl;
}

-- A closure adds its number to the state.
abbrev body : ℕ → W → Ran Value × W
body n w = (ok n, (w.0, record w.1 { ruby = w.1.ruby + n }))

abbrev world : W
world = (start, record { entry = λ t. none; kept = λ t. none; ruby = 0x500 })

abbrev threaded : Result Value × W
unfolding thread_create_from_fn
threaded = thread_create_from_fn modern Method.classes 0 body closures calls thread_calls 7 world

thread_create_from_fn_lem_example :
    (v : Value) × (ptr : ℕ) × (world.1.entry 0x500 ≡ none)
    × (threaded.1.1.entry 0x500 ≡ some (closure_at ptr))
    × (threaded.1.1.kept 0x500 ≡ some v)
    × (threaded.1.0.objects v ≡ some (record { class = 0; ptr = ptr; data_type = 1 }))
    × (threaded.1.0.boxes ptr ≡ some (boxed_closure (some 7)))
    × IsSound type_of is_ours threaded.1.0
unfolding thread_create_from_fn
thread_create_from_fn_lem_example =
    thread_create_from_fn_lem type_of is_ours modern Method.classes 0 body closures
      closures-IsClosures refl calls calls-IsTypedCalls thread_calls thread_calls-IsThreadCalls 7
      world threaded.1 0x500 (start-IsSound type_of is_ours) refl

abbrev object : Wrapped
object = record { class = 0; ptr = 0x101; data_type = 1 }

threaded-IsSound : IsSound type_of is_ours threaded.1.0
unfolding thread_create_from_fn
threaded-IsSound =
    (wrapped_closure type_of is_ours closures closures-IsClosures refl calls calls-IsTypedCalls 7
      start (start-IsSound type_of is_ours)).0

call_lem_example :
    (o : Option ℕ) × (threaded.1.0.boxes 0x101 ≡ some (boxed_closure o))
    × Gives type_of is_ours modern Method.classes 0 body closures closures-IsClosures refl calls
        calls-IsTypedCalls thread_calls thread_calls-IsThreadCalls o
        (set_box threaded.1.0 0x101 (some (boxed_closure none)), threaded.1.1)
        (call modern Method.classes 0 body closures calls thread_calls 0x101 threaded.1)
unfolding thread_create_from_fn
call_lem_example =
    call_lem type_of is_ours modern Method.classes 0 body closures closures-IsClosures refl calls
      calls-IsTypedCalls thread_calls thread_calls-IsThreadCalls threaded.1.0 threaded.1.1 0x203
      object Method.classes-IsClasses (λ n w e. cc e) (λ n w e. cc e) threaded-IsSound refl refl

abbrev fiber_body : ℕ → List Value → Option Value → W → Ran Value × W
fiber_body n args block w = body n w

abbrev fibered : Result Value × W
unfolding fiber_new_from_fn
fibered =
    fiber_new_from_fn modern Method.classes 0 true some fiber_body closures calls fiber_calls lazy 7
      world

fiber_new_from_fn_lem_example :
    (v : Value) × (ptr : ℕ) × (world.1.entry 0x500 ≡ none)
    × (fibered.1.1.entry 0x500 ≡ some (closure_at ptr))
    × (fibered.1.1.kept 0x500 ≡ some v)
    × (fibered.1.0.objects v ≡ some (record { class = 0; ptr = ptr; data_type = 1 }))
    × (fibered.1.0.boxes ptr ≡ some (boxed_closure (some 7)))
    × IsSound type_of is_ours fibered.1.0
unfolding fiber_new_from_fn
fiber_new_from_fn_lem_example =
    fiber_new_from_fn_lem type_of is_ours modern Method.classes 0 true some fiber_body closures
      closures-IsClosures refl calls calls-IsTypedCalls fiber_calls fiber_calls-IsFiberCalls lazy 7
      world fibered.1 0x500 (start-IsSound type_of is_ours) refl

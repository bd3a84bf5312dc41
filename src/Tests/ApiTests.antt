-- ===== src/Tests/ApiTests.antt =====
-- The property of `Ruby::get` for a thread that waits for the lock, asks, gets it and asks again.
use magnus.Prelude.{◌≡◌, some, true, false}
use magnus.Api.{unlocked, get, Thread}
use magnus.Api.Reach.{
  World, Reachable, start, after, call_get, acquire, of_thread, answer, get-answer,
}

abbrev waiting : Thread
waiting = of_thread false true

abbrev holding : World
holding = record { thread = of_thread true true; cell = some unlocked }

holding-Reachable : Reachable holding
unfolding get
holding-Reachable = after (after (start {t = waiting}) call_get) acquire

get-answer_example : (get holding.thread holding.cell).0 ≡ answer holding.thread
get-answer_example = get-answer holding holding-Reachable

-- ===== src/Tests/LazyTests.antt =====
-- Two calls of `get_inner_ref_with` that both run `func`, and a third behind them.
use magnus.Prelude.{◌≡◌, refl, String, [], ◌∷◌, some, if◌then◌else◌}
use magnus.Ruby.{Value, modern}
use magnus.Lazy.{new, try_get_inner, before, enter, leave}
use magnus.Lazy.Agree.{
  World, Reachable, start, after, enters, leaves, entered, left, try_get_inner-done,
}

abbrev begin : World
begin = record { lazy = new modern; registered = []; phase = λ i. before }

abbrev both : World
both = entered 2 (entered 1 begin)

abbrev end : World
end = entered 3 (left 1 0x100 (left 2 0x200 both))

end-Reachable : Reachable (new modern) end
unfolding new enter leave
end-Reachable =
    after
      (after (after (after (after start (enters 1)) (enters 2)) (leaves 2 0x200 refl))
        (leaves 1 0x100 refl))
      (enters 3)

abbrev stored : Value
stored = 0x200

try_get_inner-done_example :
    (stored ≡ stored)
    × (try_get_inner end.lazy ≡ some stored)
    × (end.registered ≡ (if end.lazy.mark then stored ∷ [] else []))
unfolding new enter leave
try_get_inner-done_example =
    try_get_inner-done (new modern) end 1 3 stored stored refl end-Reachable refl refl

abbrev intern : String → Value
intern s = 0x300

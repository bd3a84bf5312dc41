-- ===== src/Lazy/Agree.antt =====
-- src/value.rs: threads that force one `Lazy` at the same time.
use mathlib.Core.Path.{subst}
use magnus.Prelude.{
  ℕ, zero, suc, arith, ◌≡◌, refl, sym, ◌∙◌, String, true, false, none, some, List, [], ◌∷◌, ok,
  if◌then◌else◌, ◌==◌, Bool-cases, inl, inr,
}
use magnus.Ruby.{Value}
use magnus.Lazy.{
  Lazy, try_get_inner, Phase, before, calling, done, enter, store, leave, LazyId, lazy_id_new,
  get_inner_with, id, try_get_id,
}

-- A `Lazy` with the objects registered with the collector, and the threads by number.
pub record World : Type 0 where
  pub lazy : Lazy
  pub registered : List Value
  pub phase : ℕ → Phase

abbrev pub move : ℕ → Phase → (ℕ → Phase) → ℕ → Phase
move i p phases j = if i == j then p else phases j

-- A thread calls `get_inner_ref_with`, or goes on when `func` has returned any value.
abbrev pub entered : ℕ → World → World
entered i w = record w { phase = move i (enter w.lazy) w.phase }

abbrev pub landed : ℕ → Phase × (Lazy × List Value) → World → World
landed i end w = record { lazy = end.1.0; registered = end.1.1; phase = move i end.0 w.phase }

abbrev pub left : ℕ → Value → World → World
left i v w = landed i (leave v (w.lazy, w.registered)) w

pub data Step (w : World) : World → Type 0 where
  enters : (i : ℕ) → Step w (entered i w)
  leaves : (i : ℕ) (v : Value) → w.phase i ≡ calling → Step w (left i v w)
  -- `func` unwinds.
  fails : (i : ℕ) → w.phase i ≡ calling → Step w (record w { phase = move i before w.phase })

pub data Reachable : Lazy → World → Type 0 where
  start : {l : Lazy} → Reachable l (record { lazy = l; registered = []; phase = λ i. before })
  after : {l : Lazy} {w w' : World} → Reachable l w → Step w w' → Reachable l w'

-- What has been handed out is the value of a `Lazy` that is set, and it alone is registered.
pub record IsSound (w : World) : Type 0 where
  pub handed_law :
      (i : ℕ) (v : Value) → w.phase i ≡ done v → (w.lazy.init ≡ true) × (w.lazy.value ≡ v)
  pub set_law : w.lazy.init ≡ true → w.registered ≡ (if w.lazy.mark then w.lazy.value ∷ [] else [])
  pub unset_law : w.lazy.init ≡ false → w.registered ≡ []

not_zero : (n : ℕ) → (suc n == 0) ≡ false
not_zero n = ground arith

-- What `enter` hands out is the value.
enter_done : (l : Lazy) (v : Value) → enter l ≡ done v → (l.init ≡ true) × (l.value ≡ v)
unfolding enter
enter_done l v e = elim (Bool-cases l.init) [
  | inl i ↦ let e' : done l.value ≡ done v = rw (← e) (rw i refl) in (i, cc e')
  | inr i ↦ absurd (let e' : calling ≡ done v = rw (← e) (rw i refl) in cc e')
]

-- A thread that has moved, or another one.
moved :
    {P : Type 0} (i j : ℕ) (p : Phase) (phases : ℕ → Phase) (v : Value)
    → (p ≡ done v → P)
    → (phases j ≡ done v → P)
    → move i p phases j ≡ done v
    → P
moved i j p phases v f g e = elim (Bool-cases (i == j)) [
  | inl same ↦ f (sym (rw same refl) ∙ e)
  | inr other ↦ g (sym (rw other refl) ∙ e)
]

entered-IsSound : (i : ℕ) (w : World) → IsSound w → IsSound (entered i w)
entered-IsSound i w h = record {
  handed_law = λ j v. moved i j (enter w.lazy) w.phase v (enter_done w.lazy v) (h.handed_law j v);
  set_law = h.set_law;
  unset_law = h.unset_law;
}

leave_first :
    (v : Value) (w : Lazy × List Value) → w.0.init ≡ false → leave v w ≡ (done v, store v w)
unfolding leave
leave_first v w e = rw e refl

leave_later :
    (v : Value) (w : Lazy × List Value) → w.0.init ≡ true → leave v w ≡ (done w.0.value, w)
unfolding leave
leave_later v w e = rw e refl

-- The first thread to be back stores its value, and every other gets that one.
left-IsSound : (i : ℕ) (v : Value) (w : World) → IsSound w → IsSound (left i v w)
left-IsSound i v w h = elim (Bool-cases w.lazy.init) [
  | inl e ↦
      subst (λ end. IsSound (landed i end w)) (sym (leave_later v (w.lazy, w.registered) e))
        (record {
          handed_law =
              λ j u. moved i j (done w.lazy.value) w.phase u (λ f. (e, cc f)) (h.handed_law j u);
          set_law = h.set_law;
          unset_law = h.unset_law;
        })
  | inr e ↦
      subst (λ end. IsSound (landed i end w)) (sym (leave_first v (w.lazy, w.registered) e))
        (record {
          handed_law = λ j u.
              moved i j (done v) w.phase u (λ f. (refl, cc f))
                (λ f. absurd (cc (e, (h.handed_law j u f).0)));
          set_law = λ _. rw (h.unset_law e) refl;
          unset_law = λ f. absurd (cc f);
        })
]

Step-IsSound : {w w' : World} → Step w w' → IsSound w → IsSound w'
Step-IsSound {w = w} (enters i) h = entered-IsSound i w h
Step-IsSound {w = w} (leaves i v e) h = left-IsSound i v w h
Step-IsSound {w = w} (fails i e) h = record {
  handed_law = λ j u.
      moved i j before w.phase u (λ f. absurd (let e' : before ≡ done u = f in cc e'))
        (h.handed_law j u);
  set_law = h.set_law;
  unset_law = h.unset_law;
}

Reachable-IsSound : (l : Lazy) (w : World) → l.init ≡ false → Reachable l w → IsSound w
Reachable-IsSound l w e start = record {
  handed_law = λ i v f. absurd (cc f);
  set_law = λ f. absurd (cc (e, f));
  unset_law = λ f. refl;
}
Reachable-IsSound l w e (after before_w step) = Step-IsSound step (Reachable-IsSound l _ e before_w)

-- However the calls of `get_inner_ref_with` of one new `Lazy` by several threads come in turn,
-- whatever `func` gives and however often it unwinds: two calls that have returned gave the same
-- value, `try_get_inner` gives it too, and of the values that `func` has given it alone is
-- registered with the collector, once, by a `Lazy` that marks, and none by another.
pub try_get_inner-done :
    (l : Lazy) (w : World) (i j : ℕ) (u v : Value)
    → l.init ≡ false
    → Reachable l w
    → w.phase i ≡ done u
    → w.phase j ≡ done v
    → (u ≡ v)
      × (try_get_inner w.lazy ≡ some u)
      × (w.registered ≡ (if w.lazy.mark then u ∷ [] else []))
unfolding try_get_inner
try_get_inner-done l w i j u v e r f g =
    let h = Reachable-IsSound l w e r in
    let (init, a) = h.handed_law i u f in
    let (_, b) = h.handed_law j v g in (sym a ∙ b, rw (init, a) refl, h.set_law init ∙ rw a refl)

module _ (intern : String → Value) where
  -- The cell after `n` calls of `get_inner_with`.
  abbrev pub calls : ℕ → LazyId → LazyId
  calls zero this = this
  calls (suc n) this = calls n (get_inner_with intern this).1

  calls_set :
      (n : ℕ) (v : Value)
      → calls n (record { init = true; inner = id v }) ≡ record { init = true; inner = id v }
  unfolding get_inner_with
  calls_set zero v = refl
  calls_set (suc n) v = calls_set n v

  -- Every call of `LazyId::get_inner_with` gives the `Id` of the name that the cell was made with,
  -- and `try_get_inner` gives it from the first call on and none before; the union is never read
  -- at the member that it does not hold.
  pub get_inner_with-calls :
      (n : ℕ) (s : String)
      → ((get_inner_with intern (calls n (lazy_id_new s))).0 ≡ ok (intern s))
        × (try_get_id (calls n (lazy_id_new s)) ≡ (if n == 0 then none else some (ok (intern s))))
  unfolding get_inner_with try_get_id lazy_id_new
  get_inner_with-calls zero s = (refl, refl)
  get_inner_with-calls (suc n) s = rw (calls_set n (intern s)) (refl, rw (not_zero n) refl)

-- ===== src/Navigation/Exclusion.antt =====
-- src/modules/navigate.ts: no two visits go on at a time, unless one is aborted at a bad time.
use vitest_swup.Prelude.{
  ◌≡◌, refl, ap, nat_eq, ltb, true, false, not, List, [], ◌∷◌, inl, inr, Bool-cases, arith,
}
use vitest_swup.Values.{VisitRef}
use vitest_swup.Visit.{VisitState, rank, aborted}
use vitest_swup.Navigation.{
  Position, idle, aborting, starting, loading, transitioning, ending, Failure, Navigation,
  set_state, Action, navigate, abort_returned, abort_threw, returned, threw, advanced, cancelled,
  called, abort_resumed, abort_rejected, resumed, rejected, step, run,
}
use vitest_swup.Navigation.Running.{is_fixed, goes_on, running, IsExclusive, kept, placed, changed}
use vitest_swup.Navigation.Segments.{
  go_on-IsExclusive, after_start-IsExclusive, perform-IsExclusive, over_goes, fail-IsExclusive,
  after_abort-IsExclusive, after_end-IsExclusive,
}

-- A visit that is aborted by another navigation is not in one of these hooks by then.
abbrev pub IsTimelyAt : Action → Navigation → Type 0
IsTimelyAt (abort_returned v) s = is_fixed (s.positions s.visit) ≡ false
IsTimelyAt _ s = Unit

unfoldable pub IsTimely : List Action → Navigation → Type 0
IsTimely [] s = Unit
IsTimely (a ∷ actions) s = IsTimelyAt a s × IsTimely actions (step a s)

-- The `await` of a visit that ends one way or the other.
resumed-IsExclusive :
    (p : Position) (v : VisitRef) (s : Navigation)
    → s.positions v ≡ p
    → IsExclusive s
    → IsExclusive (resumed p v s)
unfolding resumed
resumed-IsExclusive idle v s e x = x
resumed-IsExclusive aborting v s e x = x
resumed-IsExclusive starting v s e x = after_start-IsExclusive v s e x
resumed-IsExclusive loading v s e x = go_on-IsExclusive v transitioning s (λ o. rw e (ap not o)) x
resumed-IsExclusive transitioning v s e x = go_on-IsExclusive v ending s (λ o. rw e (ap not o)) x
resumed-IsExclusive ending v s e x = after_end-IsExclusive v s e x

rejected-IsExclusive :
    (p : Position) (v : VisitRef) (failure : Failure) (s : Navigation)
    → IsExclusive s
    → IsExclusive (rejected p v failure s)
unfolding rejected
rejected-IsExclusive idle v failure s x = x
rejected-IsExclusive aborting v failure s x = x
rejected-IsExclusive starting v failure s x = fail-IsExclusive v failure s x
rejected-IsExclusive loading v failure s x = fail-IsExclusive v failure s x
rejected-IsExclusive transitioning v failure s x = fail-IsExclusive v failure s x
rejected-IsExclusive ending v failure s x = fail-IsExclusive v failure s x

called-IsExclusive :
    (p : Position) (v : VisitRef) (s : Navigation)
    → s.positions v ≡ p
    → IsExclusive s
    → IsExclusive (called p v s)
unfolding called
called-IsExclusive idle v s e x = perform-IsExclusive v s e x
called-IsExclusive aborting v s e x = x
called-IsExclusive starting v s e x = x
called-IsExclusive loading v s e x = x
called-IsExclusive transitioning v s e x = x
called-IsExclusive ending v s e x = x

abort-IsExclusive :
    (p : Position) (v : VisitRef) (s : Navigation)
    → IsExclusive s
    → (is_fixed (s.positions s.visit) ≡ false → IsExclusive (abort_resumed p v s))
      × IsExclusive (abort_rejected p v s)
unfolding abort_resumed abort_rejected
abort-IsExclusive aborting v s x =
    (λ f. after_abort-IsExclusive v s f x, placed v idle s (λ h. absurd (cc h)) x)
abort-IsExclusive idle v s x = (λ f. x, x)
abort-IsExclusive starting v s x = (λ f. x, x)
abort-IsExclusive loading v s x = (λ f. x, x)
abort-IsExclusive transitioning v s x = (λ f. x, x)
abort-IsExclusive ending v s x = (λ f. x, x)

later_goes :
    (p : Position) (state later : VisitState)
    → ltb (rank state) (rank later) ≡ true
    → goes_on p later ≡ true
    → goes_on p state ≡ true
later_goes p state later l h = ground arith

step-IsExclusive :
    (a : Action) (s : Navigation) → IsTimelyAt a s → IsExclusive s → IsExclusive (step a s)
unfolding step
step-IsExclusive (navigate v) s t x = called-IsExclusive (s.positions v) v s refl x
step-IsExclusive (abort_returned v) s t x = (abort-IsExclusive (s.positions v) v s x).0 t
step-IsExclusive (abort_threw v) s t x = (abort-IsExclusive (s.positions v) v s x).1
step-IsExclusive (returned v) s t x = resumed-IsExclusive (s.positions v) v s refl x
step-IsExclusive (threw v failure) s t x = rejected-IsExclusive (s.positions v) v failure s x
step-IsExclusive (advanced v state) s t x =
    elim (Bool-cases (ltb (rank (s.states v)) (rank state))) [
      | inl l ↦ rw l (
          kept s (set_state v state s) refl refl
            (changed v state s (later_goes (s.positions v) (s.states v) state l)) x)
      | inr l ↦ rw l x
    ]
step-IsExclusive (cancelled v) s t x =
    kept s (set_state v aborted s) refl refl
      (changed v aborted s (over_goes (s.positions v) (s.states v) aborted refl)) x

run-IsExclusive :
    (actions : List Action) (s : Navigation)
    → IsTimely actions s
    → IsExclusive s
    → IsExclusive (run actions s)
unfolding run IsTimely
run-IsExclusive [] s t x = x
run-IsExclusive (a ∷ actions) s t x =
    run-IsExclusive actions (step a s) t.1 (step-IsExclusive a s t.0 x)

-- From any instance on that performs no visit, after any calls of `performNavigation`, ends of what
-- they wait for, errors, and changes of visits by handlers and by the rendering of pages, in any order:
-- a visit that goes on is the current one, and `navigating` is set, so that no two visits go on at a
-- time; provided that whenever a navigation has aborted the current visit, that visit is neither in its
-- hook `visit:start` nor in `visit:end`.
pub run-exclusive :
    (actions : List Action) (s : Navigation)
    → ((v : VisitRef) → s.positions v ≡ idle)
    → IsTimely actions s
    → (v : VisitRef) → running (run actions s) v ≡ true
    → (v ≡ (run actions s).visit) × ((run actions s).navigating ≡ true)
run-exclusive actions s resting t = run-IsExclusive actions s t nothing
  where
    nothing : IsExclusive s
    nothing v h =
        let stopped : running s v ≡ false = ap (λ p. goes_on p (s.states v)) (resting v) in
        absurd (cc (stopped, h))

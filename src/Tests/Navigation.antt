-- ===== src/Tests/Navigation.antt =====
-- Navigations, alone and at a time.
use vitest_swup.Prelude.{
  ℕ, ◌≡◌, refl, ◌==◌, nat_eq, true, false, none, some, List, [], ◌∷◌, if◌then◌else◌, arith,
}
use vitest_swup.Visit.{created, leaving, loaded, entering, completed}
use vitest_swup.Navigation.{
  Navigation, idle, starting, transitioning, ending, Action, navigate, abort_returned, returned,
  advanced, cancelled, other_error, step, run,
}
use vitest_swup.Navigation.Running.{running}
use vitest_swup.Navigation.Exclusion.{IsTimely, run-exclusive}
use vitest_swup.Navigation.Outcomes.{
  IsStuck, IsAlone, IsStuck-run, transition-IsStuck, returned-cancelled, returned-ending,
}

program : Unit {0}
unfolding step run IsTimely
program = tt

-- No visit is performed; the pages of visits are not waited for.
abbrev resting : Navigation
resting = record {
  navigating = false;
  visit = 0;
  on_visit_end = none;
  states = λ v. created;
  waits = λ v. false;
  positions = λ v. idle;
}

-- Visit 2 aborts visit 1 in its transition.
abbrev replacing : List Action
replacing = navigate 1 ∷ returned 1 ∷ navigate 2 ∷ abort_returned 2 ∷ returned 1 ∷ returned 2 ∷ []

run-exclusive_example :
    (2 ≡ (run replacing resting).visit) × ((run replacing resting).navigating ≡ true)
unfolding program
run-exclusive_example =
    run-exclusive replacing resting (λ v. refl) (tt, (tt, (tt, (refl, (tt, (tt, tt)))))) 2 refl

-- Visit 2 aborts visit 1 in its hook `visit:start`: then both go on.
both_running :
    let s = run (navigate 1 ∷ navigate 2 ∷ abort_returned 2 ∷ returned 1 ∷ []) resting in
    (running s 1 ≡ true) × (running s 2 ≡ true)
unfolding program
both_running = (refl, refl)

-- From the call to the end of a visit, with another visit queued on the way.
whole_visit :
    let s =
      run
        (navigate 1
          ∷ returned 1
          ∷ advanced 1 leaving
          ∷ advanced 1 loaded
          ∷ advanced 1 entering
          ∷ navigate 2
          ∷ returned 1
          ∷ returned 1
          ∷ [])
        resting in
    (s.states 1 ≡ completed) × (s.visit ≡ 2) × (s.navigating ≡ true) × (s.positions 2 ≡ starting)
unfolding program
whole_visit = (refl, refl, refl, refl)

-- Visit 1 in its transition.
abbrev moving : Navigation
moving = record resting {
  navigating = true;
  visit = 1;
  positions = λ v. if v == 1 then transitioning else idle;
}

moving-IsAlone : IsAlone 1 transitioning moving
moving-IsAlone = record { navigating = refl; current = refl; position = refl; others = rest }
  where
    rest : (u : ℕ) → (1 == u) ≡ false → (if u == 1 then transitioning else idle) ≡ idle
    rest u h = ground arith

IsStuck-run_example :
    let s = step (returned 1) (step (cancelled 1) moving) in
    IsStuck (run (navigate 2 ∷ returned 2 ∷ navigate 3 ∷ []) s)
    × ((run (navigate 2 ∷ returned 2 ∷ navigate 3 ∷ []) s).visit ≡ s.visit)
unfolding program
IsStuck-run_example =
    IsStuck-run (navigate 2 ∷ returned 2 ∷ navigate 3 ∷ [])
      (step (returned 1) (step (cancelled 1) moving))
      (transition-IsStuck 1 other_error moving moving-IsAlone).0
      ((λ e. omega (arith, e)), (tt, ((λ e. omega (arith, e)), tt)))

returned-cancelled_example :
    step (returned 1) (step (cancelled 1) (run (navigate 1 ∷ []) resting))
    ≡ step (returned 1) (run (navigate 1 ∷ []) resting)
unfolding program
returned-cancelled_example = returned-cancelled 1 (run (navigate 1 ∷ []) resting) refl

-- Visit 1 in its hook `visit:end`, with visit 2 queued.
abbrev finishing : Navigation
finishing = record moving {
  on_visit_end = some 2;
  positions = λ v. if v == 1 then ending else idle;
}

returned-ending_example :
    let s = step (returned 1) finishing in
    (s.states 1 ≡ completed)
    × (s.on_visit_end ≡ none)
    × ((s.navigating ≡ true) × (s.visit ≡ 2) × (s.positions 2 ≡ starting))
returned-ending_example = returned-ending 1 finishing refl

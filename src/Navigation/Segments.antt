-- ===== src/Navigation/Segments.antt =====
-- src/modules/navigate.ts: each segment of `performNavigation` leaves the current visit as the only one that
-- goes on.
use vitest_swup.Prelude.{
  ◌≡◌, refl, sym, ◌∙◌, ap, subst, nat_eq, leb, Bool, true, false, Option, none, some, inl, inr,
  Bool-cases, if◌then◌else◌, arith,
}
use vitest_swup.Values.{VisitRef}
use vitest_swup.Visit.{VisitState, rank, started, completed, aborted, failed, queued, entering}
use vitest_swup.State.{update}
use vitest_swup.Navigation.{
  Position, idle, aborting, starting, loading, transitioning, ending, Failure, aborted_request,
  other_error, Navigation, set_state, set_position, is_over, begin, queue, perform_navigation,
  after_abort, go_on, after_start, run_queued, after_end, fail,
}
use vitest_swup.Navigation.Running.{
  is_fixed, goes_on, running, IsExclusive, at_change, kept, placed, update-same, update-other,
  changed, begun, quiet, is_over-idle,
}

pub go_on-IsExclusive :
    (v : VisitRef) (p : Position) (s : Navigation)
    → (is_over (s.states v) ≡ false → running s v ≡ true)
    → IsExclusive s
    → IsExclusive (go_on v p s)
go_on-IsExclusive v p s before x = elim (Bool-cases (is_over (s.states v))) [
  | inl o ↦ rw o (placed v idle s (λ h. absurd (cc h)) x)
  | inr o ↦ rw o (placed v p s (λ h. before o) x)
]

pub after_start-IsExclusive :
    (v : VisitRef) (s : Navigation)
    → s.positions v ≡ starting
    → IsExclusive s
    → IsExclusive (after_start v s)
unfolding after_start
after_start-IsExclusive v s e x =
    let s' = set_state v started s in
    let x' = kept s s' refl refl (changed v started s (λ h. rw e refl)) x in
    elim (Bool-cases (s.waits v)) [
      | inl w ↦ rw w (placed v loading s' (λ h. rw e refl) x')
      | inr w ↦ rw w (go_on-IsExclusive v transitioning s' (λ h. rw e refl) x')
    ]

pub perform-IsExclusive :
    (v : VisitRef) (s : Navigation)
    → s.positions v ≡ idle
    → IsExclusive s
    → IsExclusive (perform_navigation v s)
unfolding perform_navigation
perform-IsExclusive v s e x =
    by_flag s.navigating (leb (rank entering) (rank (s.states s.visit))) refl
  where
    by_flag :
        (n l : Bool)
        → s.navigating ≡ n
        → IsExclusive
            (if n then (if l then queue v s else set_position v aborting s) else begin v s)
    by_flag true true n =
        kept s (queue v s) refl refl (changed v queued s (λ h. absurd (cc (rw e at h)))) x
    by_flag true false n = placed v aborting s (λ h. absurd (cc h)) x
    by_flag false l n = begun v s (quiet s x n v)

pub over_goes :
    (p : Position) (state later : VisitState)
    → is_over later ≡ true
    → goes_on p later ≡ true
    → goes_on p state ≡ true
over_goes p state later o h = ground arith

pub fail-IsExclusive :
    (v : VisitRef) (failure : Failure) (s : Navigation)
    → IsExclusive s
    → IsExclusive (fail v failure s)
unfolding fail
fail-IsExclusive v aborted_request s x =
    placed v idle (set_state v aborted s) (λ h. absurd (cc h))
      (kept s (set_state v aborted s) refl refl
        (changed v aborted s (over_goes (s.positions v) (s.states v) aborted refl)) x)
fail-IsExclusive v other_error s x =
    placed v idle (set_state v failed s) (λ h. absurd (cc h))
      (kept s (set_state v failed s) refl refl
        (changed v failed s (over_goes (s.positions v) (s.states v) failed refl)) x)

pub after_abort-IsExclusive :
    (v : VisitRef) (s : Navigation)
    → is_fixed (s.positions s.visit) ≡ false
    → IsExclusive s
    → IsExclusive (after_abort v s)
unfolding after_abort
after_abort-IsExclusive v s f x = begun v (set_state s.visit aborted s) none_left
  where
    stopped : running (set_state s.visit aborted s) s.visit ≡ false
    stopped =
        ap (goes_on (s.positions s.visit)) (update-same s.states s.visit aborted)
        ∙ is_over-idle (s.positions s.visit) aborted refl f

    none_left : (u : VisitRef) → running (set_state s.visit aborted s) u ≡ true → v ≡ u
    none_left u h =
        let before =
          changed s.visit aborted s
            (over_goes (s.positions s.visit) (s.states s.visit) aborted refl) u h in
        let current = (x u before).0 in
        absurd (cc (stopped, subst (λ w. running (set_state s.visit aborted s) w ≡ true) current h))

pub after_end-IsExclusive :
    (v : VisitRef) (s : Navigation)
    → s.positions v ≡ ending
    → IsExclusive s
    → IsExclusive (after_end v s)
unfolding after_end perform_navigation
after_end-IsExclusive v s e x = by_queue s.on_visit_end
  where
    s' : Navigation
    s' = record s {
      states = update s.states v completed;
      navigating = false;
      positions = update s.positions v idle;
    }

    none_left : (u : VisitRef) → running s' u ≡ true → s.visit ≡ u
    none_left u h =
        sym
          (x u (
            at_change v u idle s.positions s.states (update s.states v completed)
              (update-other s.states v u completed) (λ i. absurd (cc i)) h)).0

    ended_current : v ≡ s.visit
    ended_current = (x v (rw e refl)).0

    nothing : (u : VisitRef) → running s' u ≡ true → ⊥
    nothing u h =
        let stopped : running s' v ≡ false =
          ap (λ p. goes_on p (s'.states v)) (update-same s.positions v idle) in
        absurd
          (cc (stopped, subst (λ w. running s' w ≡ true) (sym (ended_current ∙ none_left u h)) h))

    by_queue : (o : Option VisitRef) → IsExclusive (run_queued o s')
    by_queue none = λ u h. absurd (nothing u h)
    by_queue (some w) = begun w s' (λ u h. absurd (nothing u h))

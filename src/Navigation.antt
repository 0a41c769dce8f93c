-- ===== src/Navigation.antt =====
-- src/modules/navigate.ts: the control flow of `performNavigation` from one `await` to the next, for any
-- number of visits at a time.
pub mod Running
pub mod Segments
pub mod Exclusion
pub mod Outcomes
use vitest_swup.Prelude.{
  ℕ, ◌==◌, nat_eq, ltb, leb, Bool, true, false, Option, none, some, List, [], ◌∷◌, if◌then◌else◌,
}
use vitest_swup.Values.{VisitRef}
use vitest_swup.Visit.{VisitState, rank, queued, started, entering, completed, aborted, failed}
use vitest_swup.State.{update}

-- Where the `performNavigation` of a visit stands: at no `await`, since it has not been called or has
-- returned, or at that of a hook (`visit:abort`, `visit:start`, `visit:transition`, `visit:end`) or of
-- the page.
pub data Position : Type 0 where
  idle aborting starting loading transitioning ending : Position

-- What is thrown: nothing or an aborted request, or another error.
pub data Failure : Type 0 where
  aborted_request other_error : Failure

pub record Navigation : Type 0 where
  pub navigating : Bool
  pub visit : VisitRef
  -- The visit that `onVisitEnd` performs.
  pub on_visit_end : Option VisitRef
  pub states : VisitRef → VisitState
  -- `visit.animation.wait`
  pub waits : VisitRef → Bool
  pub positions : VisitRef → Position

abbrev pub set_state : VisitRef → VisitState → Navigation → Navigation
set_state v state s = record s { states = update s.states v state }

abbrev pub set_position : VisitRef → Position → Navigation → Navigation
set_position v position s = record s { positions = update s.positions v position }

-- `visit.done`
abbrev pub is_over : VisitState → Bool
is_over state = leb (rank completed) (rank state)

-- The visit becomes the current one, and its hook `visit:start` is called.
abbrev pub begin : VisitRef → Navigation → Navigation
begin v s = record s { navigating = true; visit = v; positions = update s.positions v starting }

abbrev pub queue : VisitRef → Navigation → Navigation
queue v s = record s { states = update s.states v queued; on_visit_end = some v }

-- From the call of `performNavigation` to its first `await`.
unfoldable pub perform_navigation : VisitRef → Navigation → Navigation
unfolding update
perform_navigation v s =
    if s.navigating
    then (if leb (rank entering) (rank (s.states s.visit))
        then queue v s
        else set_position v aborting s)
    else begin v s

-- After the hook `visit:abort`: the visit that is the current one by then is aborted.
unfoldable pub after_abort : VisitRef → Navigation → Navigation
unfolding update
after_abort v s = begin v (set_state s.visit aborted s)

-- Is there still something to do for the visit? Otherwise `performNavigation` returns.
abbrev pub go_on : VisitRef → Position → Navigation → Navigation
go_on v position s =
    if is_over (s.states v) then set_position v idle s else set_position v position s

-- After the hook `visit:start`.
unfoldable pub after_start : VisitRef → Navigation → Navigation
unfolding update
after_start v s =
    let s' = set_state v started s in
    if s.waits v then set_position v loading s' else go_on v transitioning s'

abbrev pub run_queued : Option VisitRef → Navigation → Navigation
run_queued none s = s
run_queued (some w) s = record (perform_navigation w s) { on_visit_end = none }

-- After the hook `visit:end`; the queued visit is performed before it is forgotten.
unfoldable pub after_end : VisitRef → Navigation → Navigation
unfolding perform_navigation
after_end v s = run_queued s.on_visit_end (record s {
  states = update s.states v completed;
  navigating = false;
  positions = update s.positions v idle;
})

-- The `catch`.
unfoldable pub fail : VisitRef → Failure → Navigation → Navigation
unfolding update
fail v aborted_request s = set_position v idle (set_state v aborted s)
fail v other_error s = set_position v idle (set_state v failed s)

-- What can happen next: a call of `performNavigation`, the end of what a visit waits for, or a change
-- of a visit by a handler, by the rendering of its page, or when its page is there.
pub data Action : Type 0 where
  navigate abort_returned abort_threw returned : VisitRef → Action
  threw : VisitRef → Failure → Action
  advanced : VisitRef → VisitState → Action
  cancelled : VisitRef → Action

-- A call is for a visit that is not being performed.
unfoldable pub called : Position → VisitRef → Navigation → Navigation
unfolding perform_navigation
called idle v s = perform_navigation v s
called _ v s = s

-- An `await` of `visit:abort`, outside of the `try`.
unfoldable pub abort_resumed : Position → VisitRef → Navigation → Navigation
unfolding after_abort
abort_resumed aborting v s = after_abort v s
abort_resumed _ v s = s

unfoldable pub abort_rejected : Position → VisitRef → Navigation → Navigation
unfolding update
abort_rejected aborting v s = set_position v idle s
abort_rejected _ v s = s

-- An `await` inside of the `try`.
unfoldable pub resumed : Position → VisitRef → Navigation → Navigation
unfolding after_start after_end
resumed starting v s = after_start v s
resumed loading v s = go_on v transitioning s
resumed transitioning v s = go_on v ending s
resumed ending v s = after_end v s
resumed _ v s = s

unfoldable pub rejected : Position → VisitRef → Failure → Navigation → Navigation
unfolding fail
rejected idle v failure s = s
rejected aborting v failure s = s
rejected _ v failure s = fail v failure s

unfoldable pub step : Action → Navigation → Navigation
unfolding called abort_resumed abort_rejected resumed rejected
step (navigate v) s = called (s.positions v) v s
step (abort_returned v) s = abort_resumed (s.positions v) v s
step (abort_threw v) s = abort_rejected (s.positions v) v s
step (returned v) s = resumed (s.positions v) v s
step (threw v failure) s = rejected (s.positions v) v failure s
step (advanced v state) s = if ltb (rank (s.states v)) (rank state) then set_state v state s else s
step (cancelled v) s = set_state v aborted s

unfoldable pub run : List Action → Navigation → Navigation
unfolding step
run [] s = s
run (a ∷ actions) s = run actions (step a s)

-- ===== src/Performing/Tasks.antt =====
-- src/modules/navigate.ts: the rest of `performNavigation`, from its first `await` on.
use vitest_swup.Prelude.{ℕ, suc, false, not, ◌||◌, Option, none, some, [], ◌∷◌, if◌then◌else◌}
use vitest_swup.Values.{Value, undefined, visit, object, function, VisitRef, Outcome, is_truthy}
use vitest_swup.Visit.{VisitState, started, completed, aborted, failed, done}
use vitest_swup.State.{
  Swup, Host, Functions, Task, aborting, starting, M, ◌>>=◌, ◌>>◌, pure, gets, modify, alloc, log,
}
use vitest_swup.Objects.{read, set_visit, attempt, awaited, unawaited, or_catch}
use vitest_swup.Hooks.Run.{call, await}
use vitest_swup.Hooks.Run.Default.{Closure, with_closure}
use vitest_swup.Classes
use vitest_swup.Rendering.{name_class}
use vitest_swup.Transition.{visit_transition}
use vitest_swup.Performing.{begin, perform_navigation}
use vitest_swup.Performing.Loading.{page_load, then_loaded, enter_history}

abbrev pub set_state : VisitRef → VisitState → Swup → Swup
set_state v state = set_visit v (λ w. record w { state = state })

-- `delete visit.to.document`
abbrev pub forget_document : VisitRef → Swup → Swup
forget_document v = set_visit v (λ w. record w { to = record w.to { document = none } })

-- The closure that `window.location.assign`s the URL of the visit is put into the options, and the
-- history goes back.
abbrev pub leave_page : Functions → VisitRef → Swup → Swup
leave_page f v s = record s {
  options = record s.options { skip_pop_state_handling = f.leave };
  left_visit = v;
  browser = record s.browser { backs = suc s.browser.backs };
}

module _ (host : Host) where
  -- The queued visit is performed before it is forgotten.
  abbrev pub run_queued : Option (VisitRef × ℕ) → M (Unit {0})
  run_queued none = pure tt
  run_queued (some (v, o)) = do
    unawaited (perform_navigation host v o)
    modify (λ s. record s { on_visit_end = none })

  -- The classes that mark the kind of the visit.
  unfoldable pub mark_classes : VisitRef → Swup → Swup
  unfolding Classes.add
  mark_classes v s =
      let w = s.visits v in
      let s₁ = if w.history.popstate then Classes.add host ("is-popstate" ∷ []) s else s in
      Classes.add host (name_class w.animation.name) s₁

  -- The default handler of `visit:end`.
  unfoldable pub visit_end : Closure
  unfolding Classes.clear
  visit_end w args = do modify (Classes.clear host); pure undefined

  -- What follows on the hook `visit:end`.
  unfoldable pub end_visit : VisitRef → M (Unit {0})
  unfolding set_visit perform_navigation
  end_visit v = do
    modify (λ s. record (set_state v completed s) { navigating = false })
    queued_visit ← gets (λ s. s.on_visit_end)
    run_queued queued_visit

  -- The end of a visit whose transition is over.
  unfoldable pub finish : Functions → VisitRef → M (Unit {0})
  unfolding visit_end end_visit
  finish f v = do
    _ ← await host (
        call (with_closure f.visit_end visit_end host) "visit:end" (visit v) undefined
          (function f.visit_end))
    end_visit v

  -- The transition, once the page need not be awaited any more.
  unfoldable pub transition : Functions → VisitRef → Outcome Value → M (Unit {0})
  unfolding visit_transition finish done
  transition f v page = do
    over ← gets (λ s. done (s.visits v))
    if over then pure tt else (do
      _ ← await host (
          call (with_closure f.visit_transition (visit_transition host f v page) host)
            "visit:transition" (visit v) undefined (function f.visit_transition))
      over' ← gets (λ s. done (s.visits v))
      if over' then pure tt else finish f v)

  -- The body of the `try`.
  unfoldable pub perform : Functions → VisitRef → ℕ → M (Unit {0})
  unfolding alloc set_visit page_load enter_history mark_classes transition
  perform f v o = do
    _ ← await host (call host "visit:start" (visit v) undefined undefined)
    modify (set_state v started)
    args ← alloc (("options", object o) ∷ [])
    page ← attempt (
        call (with_closure f.page_load (page_load host f) host) "page:load" (visit v) (object args)
          (function f.page_load))
    then_loaded host v page
    enter_history host v
    modify (mark_classes v)
    wait ← gets (λ s. (s.visits v).animation.wait)
    _ ← (if wait then awaited host page else pure undefined)
    transition f v page

  -- The `catch`: an aborted request ends the visit; any other error sends the browser to its URL.
  unfoldable pub navigation_failed : Functions → VisitRef → Value → M (Unit {0})
  unfolding set_visit
  navigation_failed f v error = do
    aborted_request ← gets (λ s. is_truthy (read "aborted" error s))
    if not (is_truthy error) || aborted_request
        then modify (set_state v aborted)
        else (do modify (set_state v failed); modify (log "error"); modify (leave_page f v))

  -- `try`, `catch` and `finally`.
  unfoldable pub run_starting : Functions → VisitRef → ℕ → M (Unit {0})
  unfolding perform navigation_failed set_visit
  run_starting f v o = do
    or_catch (perform f v o) (navigation_failed f v)
    modify (forget_document v)

  -- The current visit is aborted for the new one, which begins.
  unfoldable pub run_aborting : VisitRef → VisitRef → ℕ → M (Unit {0})
  unfolding set_visit begin
  run_aborting current v o = do
    _ ← await host (call host "visit:abort" (visit current) undefined undefined)
    modify (λ s. set_state s.visit aborted (forget_document s.visit s))
    begin host v o

  unfoldable pub run_task : Functions → Task → M (Unit {0})
  unfolding run_starting run_aborting
  run_task f (aborting current v o) = run_aborting current v o
  run_task f (starting v o) = run_starting f v o

  -- The loop takes up the task that has waited longest, if there is one.
  unfoldable pub run_next : Functions → Swup → Swup
  unfolding run_task
  run_next f s = elim s.tasks [
    | [] ↦ s
    | task ∷ tasks ↦ (run_task f task (record s { tasks = tasks })).1
  ]

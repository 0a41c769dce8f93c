-- ===== src/Transition.antt =====
-- src/modules/animatePageOut.ts and src/modules/animatePageIn.ts, and the default handler of the hook
-- `visit:transition` in src/modules/navigate.ts.
use vitest_swup.Prelude.{String, false, Option, none, some, [], ◌∷◌, if◌then◌else◌}
use vitest_swup.Values.{
  Value, undefined, boolean, visit, object, function, VisitRef, Outcome, is_truthy,
}
use vitest_swup.Visit.{leaving, advance, done}
use vitest_swup.State.{Swup, Host, Functions, M, ◌>>=◌, ◌>>◌, pure, gets, modify, alloc, log}
use vitest_swup.Objects.{set_visit, member, given, attempt, awaited}
use vitest_swup.Hooks.Run.{call, await}
use vitest_swup.Hooks.Run.Default.{Closure, with_closure}
use vitest_swup.Animations.{Awaited, await_animations}
use vitest_swup.Classes
use vitest_swup.Rendering.{render_page}

-- The warning of `awaitAnimations`, if there is one. The loop over delays always has enough fuel, so that
-- there is a result.
abbrev pub warn_animations : Option String → Swup → Swup
warn_animations none s = s
warn_animations (some warning) s = log warning s

abbrev pub report_awaited : Option Awaited → Swup → Swup
report_awaited none s = s
report_awaited (some a) s = warn_animations a.warning s

module _ (host : Host) where
  -- The default handler of `animation:out:await` and of `animation:in:await`, whose promise settles
  -- when the animations have ended.
  unfoldable pub animation_await : Closure
  unfolding await_animations
  animation_await w args = do
    skip ← member host "skip" args
    if is_truthy skip
        then pure undefined
        else given host w λ v. do
          modify (λ s.
              report_awaited
                (await_animations host.to_ms host.style host.query_in_body
                  (s.visits v).animation.selector none)
                s)
          await host (pure undefined)

  -- The default handlers that change the classes alone.
  unfoldable pub animation_out_start : Closure
  unfolding Classes.add
  animation_out_start w args = do
    modify (Classes.add host ("is-changing" ∷ "is-animating" ∷ "is-leaving" ∷ []))
    pure undefined

  unfoldable pub animation_in_start : Closure
  unfolding Classes.remove
  animation_in_start w args = do modify (Classes.remove host ("is-animating" ∷ [])); pure undefined

  unfoldable pub animate_page_out : Functions → VisitRef → M (Unit {0})
  unfolding alloc animation_out_start animation_await
  animate_page_out f v = do
    _ ← await host (
        call (with_closure f.animation_out_start animation_out_start host) "animation:out:start"
          (visit v) undefined (function f.animation_out_start))
    args ← alloc (("skip", boolean false) ∷ [])
    _ ← await host (
        call (with_closure f.animation_out_await animation_await host) "animation:out:await"
          (visit v) (object args) (function f.animation_out_await))
    _ ← await host (call host "animation:out:end" (visit v) undefined undefined)
    pure tt

  -- `nextTick()`
  abbrev pub next_tick : M (Unit {0})
  next_tick = await host (pure tt)

  -- `animatePageIn(visit)`, of a visit that is not done.
  unfoldable pub animate_live_in : Functions → VisitRef → M (Unit {0})
  unfolding alloc animation_in_start animation_await
  animate_live_in f v = do
    args ← alloc (("skip", boolean false) ∷ [])
    animation ← attempt (
        call (with_closure f.animation_in_await animation_await host) "animation:in:await" (visit v)
          (object args) (function f.animation_in_await))
    next_tick
    _ ← await host (
        call (with_closure f.animation_in_start animation_in_start host) "animation:in:start"
          (visit v) undefined (function f.animation_in_start))
    _ ← awaited host animation
    _ ← await host (call host "animation:in:end" (visit v) undefined undefined)
    pure tt

  unfoldable pub animate_page_in : Functions → VisitRef → M (Unit {0})
  unfolding animate_live_in done
  animate_page_in f v = do
    over ← gets (λ s. done (s.visits v))
    if over then pure tt else animate_live_in f v

  -- `await page` and then `renderPage`, in a native transition of the view or not.
  unfoldable pub render_awaited : Functions → VisitRef → Outcome Value → M (Unit {0})
  unfolding render_page
  render_awaited f v page = do page' ← awaited host page; await host (render_page host f v page')

  -- The promise `finished` of a native transition is awaited as well.
  unfoldable pub render_natively : Functions → VisitRef → Outcome Value → M (Unit {0})
  unfolding render_awaited
  render_natively f v page = do
    native ← gets (λ s. (s.visits v).animation.native)
    if native
        then (if host.start_view_transition
            then await host (render_awaited f v page)
            else render_awaited f v page)
        else render_awaited f v page

  -- The default handler of `visit:transition`.
  unfoldable pub visit_transition : Functions → VisitRef → Outcome Value → Closure
  unfolding advance set_visit render_awaited render_natively animate_page_out animate_page_in
  visit_transition f v page w args = do
    animate ← gets (λ s. (s.visits v).animation.animate)
    if animate
        then (do
          modify (set_visit v (advance leaving))
          await host (animate_page_out f v)
          render_natively f v page
          await host (animate_page_in f v)
          pure undefined)
        else (do
          _ ← await host (call host "animation:skip" undefined undefined undefined)
          render_awaited f v page
          pure undefined)

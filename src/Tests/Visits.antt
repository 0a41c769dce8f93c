-- ===== src/Tests/Visits.antt =====
-- Visits that are performed, and what starts them, on concrete inputs.
use vitest_swup.Prelude.{
  ℕ, ◌<◌, ◌≡◌, ◌≢◌, refl, ◌==◌, nat_eq, string_eq, true, false, none, some, [], ◌∷◌, arith,
}
use vitest_swup.Prelude.Dict
use vitest_swup.Values.{undefined, null, number, string, boolean, object, returns}
use vitest_swup.Visit
use vitest_swup.Visit.{VisitState, disabled, forwards, created, loaded, completed, failed}
use vitest_swup.State.{Swup, Window}
use vitest_swup.Objects
use vitest_swup.Objects.{read}
use vitest_swup.Hooks.Run.Frame.{IsKept}
use vitest_swup.Navigation
use vitest_swup.Navigation.{Navigation, idle}
use vitest_swup.Performing.{perform_navigation}
use vitest_swup.Performing.Refinement.{view, perform_navigation-view}
use vitest_swup.Performing.Tasks.{end_visit, navigation_failed}
use vitest_swup.Performing.Ending.{end_visit-view}
use vitest_swup.Performing.Loading.{page_load}
use vitest_swup.Performing.Cached.{page_load-cached}
use vitest_swup.Ignoring.{assign_location, navigate}
use vitest_swup.Ignoring.Navigate.{with_visit, navigate_lem}
use vitest_swup.Instance.{click_created, link_click}
use vitest_swup.Instance.Popstate.{create_entry, handle_pop_state}
use vitest_swup.Instance.Leaving.{in_window, handle_pop_state-failed}
use vitest_swup.Instance.Entries.{create_entry-visit}
use vitest_swup.Instance.Clicks.{SameNavigation, click_created-SameNavigation}
use vitest_swup.Instance.Frame.{SeenAs}
use vitest_swup.Instance.Links.{link_click-view}
use vitest_swup.Instance.Marks.{mark_disabled-mark_enabled}
use vitest_swup.Instance.Lifetime.{mark_enabled, mark_disabled}
use vitest_swup.Tests.{quiet, fresh, functions, local_url, visit_in}

program : Unit {0}
unfolding Dict.get Dict.set Dict.has Objects.spread Objects.set_property
    vitest_swup.ResolveUrl.resolved Visit.done
program = tt

undefined-not_null : undefined ≢ null
undefined-not_null e = absurd (cc e)

-- No visit is under way; visit 1 is performed with the options in object 2, which has no `cache`.
perform_navigation-view_example :
    (t : Swup) × (perform_navigation quiet 1 2 fresh ≡ (returns tt, t))
    × (view t ≡ Navigation.perform_navigation 1 (view fresh))
unfolding program
perform_navigation-view_example = perform_navigation-view quiet 1 2 fresh undefined-not_null

-- Visit 1 is queued behind visit 0, which ends.
abbrev queueing : Swup
queueing = record fresh { navigating = true; on_visit_end = some (1, 2) }

end_visit-view_example :
    (t : Swup) × (end_visit quiet 0 queueing ≡ (returns tt, t))
    × (view t ≡ Navigation.after_end 0 (view queueing))
unfolding program
end_visit-view_example = end_visit-view quiet 0 queueing refl (λ w o e. uncached o)
  where
    uncached : (o : ℕ) → read "cache" (object o) queueing ≢ null
    uncached o = undefined-not_null

-- The page of the visit is in the cache.
abbrev filled : Swup
filled = record fresh { pages = ("/page", 2) ∷ [] }

page_load-cached_example :
    (t : Swup) × (page_load quiet functions (some 0) (object 3) filled ≡ (returns (object 5), t))
    × (t.objects 5 ≡ ("url", string "/page") ∷ ("html", string "<html>") ∷ [])
    × (read "page" (object 3) t ≡ object 5)
    × (read "cache" (object 3) t ≡ boolean true)
    × (t.pages ≡ ("/page", 2) ∷ [])
unfolding program
page_load-cached_example =
    page_load-cached quiet functions 0 3 2 filled refl refl refl (omega arith)

navigate_lem_example :
    (t : Swup) × (navigate quiet functions (string "/new") 2 none none none fresh ≡ (returns tt, t))
    × (view t
        ≡ Navigation.perform_navigation 5
            (view (with_visit quiet (local_url "/new") none none none fresh)))
unfolding program vitest_swup.Ignoring.default_ignore_visit
navigate_lem_example =
    (navigate_lem quiet functions "/new" 2 none none none fresh (local_url "/new") refl refl).1 refl
      undefined-not_null

-- The visit goes to a place of its page, and its record has been written.
abbrev at_part : Swup
at_part = record fresh {
  visits = λ v. record (visit_in Visit.entering) {
    to = record { url = "/page"; hash = some "#part"; html = none; document = none };
  };
}

-- The window once the browser has gone back.
abbrev gone_back : Window
gone_back = record fresh.browser { backs = 1; title = "Old" }

handle_pop_state-failed_example :
    let t = (navigation_failed quiet functions 0 (string "no") at_part).1 in
    (t.browser.backs ≡ 1)
    × ((t.visits 0).state ≡ failed)
    × (handle_pop_state quiet functions 3 (in_window gone_back t)
        ≡ (returns tt, assign_location "/page#part" (in_window gone_back t)))
unfolding program
handle_pop_state-failed_example =
    handle_pop_state-failed quiet functions 0 (string "no") 3 gone_back at_part refl refl

create_entry-visit_example :
    (t : Swup) × (create_entry quiet "/old" 2 3 fresh ≡ (returns 5, t))
    × (w : Visit.Visit) × (t.visits 5 ≡ w)
    × (w.from.url ≡ "/")
    × (w.to.url ≡ "/old")
    × (w.to.hash ≡ some "")
    × (w.trigger.event ≡ some 3)
    × (w.history.popstate ≡ true)
    × (w.history.direction ≡ some forwards)
    × (w.animation.animate ≡ false)
    × (w.scroll.reset ≡ false)
    × (w.scroll.target ≡ disabled)
    × (t.current_history_index ≡ 2)
    × ((u : ℕ) → u < 5 → t.visits u ≡ fresh.visits u)
create_entry-visit_example = create_entry-visit quiet "/old" 2 3 fresh (local_url "/old") refl

-- A click with the control key.
abbrev pressed : Swup
pressed = record fresh { objects = λ r. ("ctrlKey", boolean true) ∷ ("button", number 0) ∷ [] }

pressed-IsKept : IsKept quiet (SameNavigation pressed)
pressed-IsKept = record {
  framed = record { console = λ t c same. same; registry = λ t r same. same };
  invoke = λ f v args d s p. p;
  settle = λ v s p. p;
  pass = λ s p. p;
  dispatch = λ name detail s p. p;
}

click_created-SameNavigation_example :
    SameNavigation pressed (click_created quiet functions 1 "/new" "/new" "" 7 3 pressed).1
unfolding program
click_created-SameNavigation_example =
    click_created-SameNavigation quiet functions 1 "/new" "/new" "" 7 3 pressed refl pressed-IsKept

-- Visit 1 has not begun, and the hook `link:self` has no handlers.
abbrev linking : Swup
linking = record fresh { registry = ("link:self", []) ∷ [] }

quiet-SeenAs : (n : Navigation) → IsKept quiet (SeenAs n)
quiet-SeenAs n = record {
  framed = record { console = λ t c p. p; registry = λ t r p. p };
  invoke = λ f v args d s p. p;
  settle = λ v s p. p;
  pass = λ s p. p;
  dispatch = λ name detail s p. p;
}

link_click-view_example :
    view (link_click quiet functions 1 "/new" "" 3 (some 1) undefined linking).1
    ≡ Navigation.perform_navigation 1 (view linking)
unfolding program
link_click-view_example =
    link_click-view quiet functions 1 quiet-SeenAs "/new" "" 3 (some 1) undefined linking refl refl

-- The element 0 is the root of the document.
abbrev marked : Swup
marked = record fresh { class_lists = λ e. "no-js" ∷ "swup-native" ∷ [] }

mark_disabled-mark_enabled_example :
    let t = (mark_disabled quiet none undefined (mark_enabled quiet none undefined marked).1).1 in
    (t.class_lists 0 ≡ "no-js" ∷ [])
    × ((e : ℕ) → (0 == e) ≡ false → t.class_lists e ≡ "no-js" ∷ "swup-native" ∷ [])
mark_disabled-mark_enabled_example =
    mark_disabled-mark_enabled quiet none none undefined undefined marked

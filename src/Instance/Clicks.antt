-- ===== src/Instance/Clicks.antt =====
-- src/Swup.ts: which clicks are left to the browser.
use vitest_swup.Prelude.{
  ℕ, ◌+◌, nat_eq, string_eq, String, true, not, ◌||◌, [], ◌∷◌, ◌≡◌, refl, inl, inr, Bool-cases,
}
use vitest_swup.Values.{undefined, string, visit, object, VisitRef}
use vitest_swup.State.{Swup, Host, Functions, M, pure, update}
use vitest_swup.Objects.{read}
use vitest_swup.Hooks.Run.{call_sync}
use vitest_swup.Hooks.Run.Frame.{IsKept, Keeps, and_then-Keeps, call-Keeps}
use vitest_swup.Instance.{has_modifier, is_main_button, click_created}

-- Two instances at the same point of their visits: which visit is current, whether it is under way, what is
-- queued, and what waits.
abbrev pub SameNavigation : Swup → Swup → Type 0
SameNavigation s t =
    (t.visit ≡ s.visit)
    × (t.navigating ≡ s.navigating)
    × (t.on_visit_end ≡ s.on_visit_end)
    × (t.tasks ≡ s.tasks)

-- A click with a modifier key, or with a button other than the main one, starts no visit: the navigation is
-- as it was before, where the handlers of hooks and the listeners for DOM events leave it as they find it.
pub click_created-SameNavigation :
    (host : Host) (f : Functions) (v : VisitRef) (href url hash : String) (el event : ℕ) (s : Swup)
    → (has_modifier event s || not (is_main_button (read "button" (object event) s))) ≡ true
    → IsKept host (SameNavigation s)
    → SameNavigation s (click_created host f v href url hash el event s).1
unfolding click_created
click_created-SameNavigation host f v href url hash el event s other kept =
    elim (Bool-cases (has_modifier event s)) [
      | inl m ↦
          rw (m, click_created)
            (and_then-Keeps (SameNavigation s)
              (call_sync host "link:newtab" (visit v) (object s.next) undefined with_args)
              (λ _. nothing) (newtab with_args (refl, refl, refl, refl)) (λ _ t same. same))
      | inr m ↦
          let b : not (is_main_button (read "button" (object event) s)) ≡ true = rw m at other in
          rw (m, b, click_created) (refl, refl, refl, refl)
    ]
  where
    nothing : M (Unit {0})
    nothing = pure tt

    with_args : Swup
    with_args = record s {
      objects = update s.objects s.next (("href", string href) ∷ []);
      next = s.next + 1;
    }

    newtab :
        Keeps (SameNavigation s) (call_sync host "link:newtab" (visit v) (object s.next) undefined)
    newtab =
        (call-Keeps host (SameNavigation s) kept "link:newtab" (visit v) (object s.next)
          undefined).0

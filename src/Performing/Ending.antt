-- ===== src/Performing/Ending.antt =====
-- src/modules/navigate.ts: how a visit ends and a queued one begins, against the state machine.
use vitest_swup.Prelude.{
  ℕ, nat_eq, false, Option, none, some, ◌≡◌, ◌≢◌, refl, sym, ◌∙◌, ap, ap₂, fun_ext,
}
use vitest_swup.Values.{null, object, VisitRef, Outcome, returns}
use vitest_swup.Visit.{completed}
use vitest_swup.State.{Swup, Host, M, and_then, pure, modify, update}
use vitest_swup.Objects.{read, set_visit, attempted}
use vitest_swup.Objects.Heap.{update-read, update-map}
use vitest_swup.Navigation
use vitest_swup.Navigation.{Navigation, Position, idle}
use vitest_swup.Performing.Tasks.{run_queued, end_visit, set_state}
use vitest_swup.Performing.Refinement.{view, visit_of, perform_navigation-view}

-- The visit is completed, and none is under way.
ended-view :
    (v : VisitRef) (s : Swup)
    → (view s).positions v ≡ idle
    → view (record (set_state v completed s) { navigating = false }) ≡ record (view s) {
      states = update (view s).states v completed;
      navigating = false;
      positions = update (view s).positions v idle;
    }
unfolding set_visit update
ended-view v s h =
    let w = record (s.visits v) { state = completed } in
    ap₂ (λ states waits. record (view s) { states = states; waits = waits; navigating = false })
      (fun_ext (update-map (λ u. u.state) s.visits v w))
      (fun_ext (update-read (λ u. u.animation.wait) s.visits v w refl))
    ∙ ap
        (λ positions. record (view s) {
          states = update (view s).states v completed;
          navigating = false;
          positions = positions;
        })
        (sym (fun_ext (update-read (λ p. p) (view s).positions v idle (sym h))))

-- After the hook `visit:end`, where the visit has no task of its own and the options of the queued visit,
-- if there is one, do not have `null` for `cache`: no error is thrown, and the state machine makes the same
-- step. So the visit is completed, and a queued visit begins.
pub end_visit-view :
    (host : Host) (v : VisitRef) (s : Swup)
    → (view s).positions v ≡ idle
    → ((w : VisitRef) (o : ℕ) → s.on_visit_end ≡ some (w, o) → read "cache" (object o) s ≢ null)
    → (t : Swup) × (end_visit host v s ≡ (returns tt, t))
      × (view t ≡ Navigation.after_end v (view s))
unfolding end_visit Navigation.after_end
end_visit-view host v s h k =
    let (t, ran, same) = next s.on_visit_end refl in
    (t, ran, same ∙ ap (Navigation.run_queued (visit_of s.on_visit_end)) (ended-view v s h))
  where
    after : Swup
    after = record (set_state v completed s) { navigating = false }

    forget : Navigation → Navigation
    forget n = record n { on_visit_end = none }

    nothing : M (Unit {0})
    nothing = pure tt

    resume : Outcome (Unit {0}) × Swup → Outcome (Unit {0}) × Swup
    resume x =
        and_then (and_then (attempted x) (λ _. nothing))
          (λ _. modify (λ u. record u { on_visit_end = none }))

    next :
        (q : Option (VisitRef × ℕ))
        → s.on_visit_end ≡ q
        → (t : Swup) × (run_queued host q after ≡ (returns tt, t))
          × (view t ≡ Navigation.run_queued (visit_of q) (view after))
    next none e = (after, refl, refl)
    next (some (w, o)) e =
        let (t, ran, same) = perform_navigation-view host w o after (k w o e) in
        (record t { on_visit_end = none }, ap resume ran, ap forget same)

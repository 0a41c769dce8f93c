-- ===== src/Performing/Refinement.antt =====
-- src/modules/navigate.ts: `performNavigation` on the instance, against the state machine of the module
-- Navigation, which forgets all but the control flow.
use vitest_swup.Prelude.{
  ℕ, nat_eq, string_eq, leb, Bool, true, false, Option, none, some, List, [], ◌∷◌, ◌++◌, ◌≡◌, ◌≢◌,
  refl, sym, ◌∙◌, ap, ap₂, fun_ext, if◌then◌else◌,
}
use vitest_swup.Values.{
  Value, undefined, null, boolean, number, string, visit, object, node, function, is_truthy,
  VisitRef, returns,
}
use vitest_swup.Visit.{Visit, rank, entering, queued}
use vitest_swup.State.{Swup, Host, Task, aborting, starting, and_then, modify, ◌>>◌, update}
use vitest_swup.Prelude.Dict
use vitest_swup.Cache.Pages.{update_self}
use vitest_swup.Objects.{property_of, read, set_visit, set_property, delete_property}
use vitest_swup.Classes
use vitest_swup.Objects.Heap.{update-read, update-map}
use vitest_swup.Navigation
use vitest_swup.Navigation.{Navigation, Position, idle}
use vitest_swup.Performing.{
  unanimated, set_cache, set_cache_options, add_task, queue, sanitize_cache, set_referrer,
  disable_animation, clear_unanimated, with_details, apply_options, begin, interrupt,
  perform_navigation, is_false,
}

abbrev pub visit_of : Option (VisitRef × ℕ) → Option VisitRef
visit_of none = none
visit_of (some (v, o)) = some v

-- Where a visit stands: its last task says it.
abbrev position_in : List Task → (VisitRef → Position) → VisitRef → Position
position_in [] p = p
position_in (aborting current v o ∷ tasks) p = position_in tasks (update p v Position.aborting)
position_in (starting v o ∷ tasks) p = position_in tasks (update p v Position.starting)

-- What is left of an instance when all but its control flow is forgotten.
abbrev pub view : Swup → Navigation
view s = record {
  navigating = s.navigating;
  visit = s.visit;
  on_visit_end = visit_of s.on_visit_end;
  states = λ w. (s.visits w).state;
  waits = λ w. (s.visits w).animation.wait;
  positions = position_in s.tasks (λ w. idle);
}

position_in-append :
    (tasks : List Task) (task : Task) (p : VisitRef → Position)
    → position_in (tasks ++ task ∷ []) p ≡ position_in (task ∷ []) (position_in tasks p)
position_in-append [] task p = refl
position_in-append (aborting current v o ∷ tasks) task p = position_in-append tasks task _
position_in-append (starting v o ∷ tasks) task p = position_in-append tasks task _

abbrev position_of : Task → (VisitRef → Position) → VisitRef → Position
position_of task = position_in (task ∷ [])

add_task-view :
    (task : Task) (s : Swup)
    → view (add_task task s) ≡ record (view s) { positions = position_of task (view s).positions }
add_task-view task s =
    ap (λ p. record (view s) { positions = p }) (position_in-append s.tasks task (λ w. idle))

-- A change of a visit that leaves its state and its `wait` alone is not seen.
set_visit-view :
    (v : VisitRef) (f : Visit → Visit) (s : Swup)
    → ((w : Visit) → (f w).state ≡ w.state)
    → ((w : Visit) → (f w).animation.wait ≡ w.animation.wait)
    → view (set_visit v f s) ≡ view s
unfolding set_visit update
set_visit-view v f s h k =
    ap₂ (λ states waits. record (view s) { states = states; waits = waits })
      (fun_ext (update-read (λ w. w.state) s.visits v (f (s.visits v)) (h (s.visits v))))
      (fun_ext (update-read (λ w. w.animation.wait) s.visits v (f (s.visits v)) (k (s.visits v))))

-- Nor is what the options of a visit change.
apply_options-view :
    (host : Host) (v : VisitRef) (o : ℕ) (s : Swup) → view (apply_options host v o s) ≡ view s
unfolding apply_options set_referrer set_property with_details disable_animation clear_unanimated
    Classes.clear
apply_options-view host v o s =
    let s₁ = set_referrer host o s in
    let s₂ = disable_animation host v o s₁ in
    let s₃ = clear_unanimated host v s₂ in
    set_visit-view v (with_details host o s₃) s₃ (λ w. refl) (λ w. refl)
    ∙ cleared (s₂.visits v).animation.animate s₂
    ∙ disabled (is_false (read "animate" (object o) s₁)) s₁
  where
    cleared : (b : Bool) (t : Swup) → view (if b then t else Classes.clear host t) ≡ view t
    cleared true t = refl
    cleared false t = refl

    disabled : (b : Bool) (t : Swup) → view (if b then set_visit v unanimated t else t) ≡ view t
    disabled true t = set_visit-view v unanimated t (λ w. refl) (λ w. refl)
    disabled false t = refl

-- The other options are what they were.
apply_options-cache :
    (host : Host) (v : VisitRef) (o : ℕ) (s : Swup)
    → read "cache" (object o) (apply_options host v o s) ≡ read "cache" (object o) s
unfolding apply_options set_referrer set_property set_visit disable_animation clear_unanimated
    Classes.clear
apply_options-cache host v o s =
    let s₁ = set_referrer host o s in
    let s₂ = disable_animation host v o s₁ in
    ap (λ h. property_of (Dict.get "cache" (h o)))
      (cleared (s₂.visits v).animation.animate s₂
        ∙ disabled (is_false (read "animate" (object o) s₁)) s₁)
    ∙ ap (λ d. property_of (Dict.get "cache" d)) (update_self s.objects o _)
    ∙ ap property_of (Dict.get-set "referrer" "cache" _ (s.objects o))
  where
    cleared : (b : Bool) (t : Swup) → (if b then t else Classes.clear host t).objects ≡ t.objects
    cleared true t = refl
    cleared false t = refl

    disabled :
        (b : Bool) (t : Swup) → (if b then set_visit v unanimated t else t).objects ≡ t.objects
    disabled true t = refl
    disabled false t = refl

-- `options.cache` is not `null`, so that no error is thrown.
sanitize_cache-view :
    (host : Host) (v : VisitRef) (cache : Value) (s : Swup)
    → cache ≢ null
    → (t : Swup) × (sanitize_cache host v cache s ≡ (returns tt, t)) × (view t ≡ view s)
unfolding sanitize_cache
sanitize_cache-view host v undefined s h = (s, refl, refl)
sanitize_cache-view host v null s h = absurd (h refl)
sanitize_cache-view host v (boolean b) s h =
    (_, refl, set_visit-view v (set_cache (is_truthy (boolean b))) s (λ w. refl) (λ w. refl))
sanitize_cache-view host v (number n) s h =
    (_, refl, set_visit-view v (set_cache (is_truthy (number n))) s (λ w. refl) (λ w. refl))
sanitize_cache-view host v (string text) s h =
    (_, refl, set_visit-view v (set_cache (is_truthy (string text))) s (λ w. refl) (λ w. refl))
sanitize_cache-view host v (function f) s h =
    (_, refl, set_visit-view v (set_cache (is_truthy (function f))) s (λ w. refl) (λ w. refl))
sanitize_cache-view host v (visit r) s h =
    let f = set_cache_options (read "read" (visit r) s) (read "write" (visit r) s) in
    (_, refl, set_visit-view v f s (λ w. refl) (λ w. refl))
sanitize_cache-view host v (object r) s h =
    let f = set_cache_options (read "read" (object r) s) (read "write" (object r) s) in
    (_, refl, set_visit-view v f s (λ w. refl) (λ w. refl))
sanitize_cache-view host v (node r) s h =
    let f = set_cache_options (read "read" (node r) s) (read "write" (node r) s) in
    (_, refl, set_visit-view v f s (λ w. refl) (λ w. refl))

begin-view :
    (host : Host) (v : VisitRef) (o : ℕ) (s : Swup)
    → read "cache" (object o) s ≢ null
    → (t : Swup) × (begin host v o s ≡ (returns tt, t)) × (view t ≡ Navigation.begin v (view s))
unfolding begin delete_property
begin-view host v o s h =
    let s' = record s { navigating = true; visit = v } in
    let s₁ = apply_options host v o s' in
    let (t, ran, same) =
      sanitize_cache-view host v (read "cache" (object o) s₁) s₁
        (λ e. h (sym (apply_options-cache host v o s') ∙ e)) in
    (
      add_task (starting v o) (delete_property o "cache" t),
      ap
          (λ x.
            and_then x
              (λ _. modify (delete_property o "cache") >> modify (add_task (starting v o))))
          ran,
      add_task-view (starting v o) t
          ∙ ap (Navigation.set_position v Position.starting)
              (same ∙ apply_options-view host v o s'),
    )

queue-view :
    (v : VisitRef) (o : ℕ) (s : Swup)
    → view (queue v o (set_visit v (λ w. record w { state = queued }) s))
      ≡ Navigation.queue v (view s)
unfolding set_visit
queue-view v o s =
    let w = record (s.visits v) { state = queued } in
    ap₂ (λ states waits. record (view s) { on_visit_end = some v; states = states; waits = waits })
      (fun_ext (update-map (λ u. u.state) s.visits v w))
      (fun_ext (update-read (λ u. u.animation.wait) s.visits v w refl))

-- A call of `performNavigation` up to its first `await`, where `options.cache` is not `null`: it throws no
-- error, and the state machine that knows of visits only which is current, which is queued, which states
-- they have and at which `await` they stand makes the same step.
pub perform_navigation-view :
    (host : Host) (v : VisitRef) (o : ℕ) (s : Swup)
    → read "cache" (object o) s ≢ null
    → (t : Swup) × (perform_navigation host v o s ≡ (returns tt, t))
      × (view t ≡ Navigation.perform_navigation v (view s))
unfolding perform_navigation interrupt Navigation.perform_navigation
perform_navigation-view host v o s h = called s.navigating
  where
    interrupted :
        (b : Bool)
        → (t : Swup) × ((if b
                then modify (set_visit v (λ w. record w { state = queued })) >> modify (queue v o)
                else modify (add_task (aborting s.visit v o)))
              s
            ≡ (returns tt, t))
          × (view t ≡ (
              if b
              then Navigation.queue v (view s)
              else Navigation.set_position v Position.aborting (view s)))
    interrupted true = (_, refl, queue-view v o s)
    interrupted false = (_, refl, add_task-view (aborting s.visit v o) s)

    called :
        (b : Bool)
        → (t : Swup) × ((if b then interrupt host v o else begin host v o) s ≡ (returns tt, t))
          × (view t ≡ (
              if b
              then (if leb (rank entering) (rank (s.visits s.visit).state)
                  then Navigation.queue v (view s)
                  else Navigation.set_position v Position.aborting (view s))
              else Navigation.begin v (view s)))
    called true = interrupted (leb (rank entering) (rank (s.visits s.visit).state))
    called false = begin-view host v o s h

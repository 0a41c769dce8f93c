-- ===== src/Ignoring/Navigate.antt =====
-- src/modules/navigate.ts: which calls of `navigate` start a visit.
use vitest_swup.Prelude.{
  ℕ, ◌==◌, string_eq, nat_eq, String, Bool, true, false, not, ◌||◌, Option, some, ◌≡◌, ◌≢◌, refl,
  ◌∙◌, ap, inl, inr, Bool-cases,
}
use vitest_swup.Values.{null, string, object, Outcome, returns}
use vitest_swup.Visit.Create.{create_visit}
use vitest_swup.State.{Swup, Host, Functions, Location, M, and_then, pure}
use vitest_swup.Objects.{read, attempted}
use vitest_swup.ResolveUrl.{location_url}
use vitest_swup.History.{window_location}
use vitest_swup.Navigation
use vitest_swup.Performing.Refinement.{view, perform_navigation-view}
use vitest_swup.Ignoring.{
  assign_location, opens_new_window, default_ignore_visit, ignore_visit, should_ignore_visit,
  navigate_unless, navigate_to, navigate,
}

-- Whether a visit is ignored, where the options have the default `ignoreVisit`.
abbrev pub is_ignored : Host → Location → Option ℕ → Swup → Bool
is_ignored host location el s =
    not (location.origin == (window_location s).origin)
    || opens_new_window host el
    || default_ignore_visit host el

should_ignore_visit-default :
    (host : Host) (f : Functions) (href : String) (el event : Option ℕ) (s : Swup)
    (location : Location)
    → host.parse_url href ≡ returns location
    → (s.options.ignore_visit == f.ignore_visit) ≡ true
    → should_ignore_visit host f href el event s ≡ (returns (is_ignored host location el s), s)
unfolding should_ignore_visit ignore_visit
should_ignore_visit-default host f href el event s location parsed default =
    elim (Bool-cases (location.origin == (window_location s).origin)) [
      | inr e ↦ rw (parsed, e) refl
      | inl e ↦ elim (Bool-cases (opens_new_window host el)) [
        | inl o ↦ rw (parsed, e, o) refl
        | inr o ↦ rw (parsed, e, o, default) refl
      ]
    ]

-- The visit that `navigate` creates.
abbrev pub with_visit : Host → Location → Option String → Option ℕ → Option ℕ → Swup → Swup
with_visit host location from el event s =
    (create_visit (host.random s)
      (record {
        to = location_url location;
        from = from;
        hash = some location.hash;
        el = el;
        event = event;
      })
      s).1

-- A visit that is ignored is left to the browser.
navigate-ignored :
    (host : Host) (f : Functions) (url : String) (o : ℕ) (from : Option String)
    (el event : Option ℕ) (s : Swup) (location : Location)
    → host.parse_url url ≡ returns location
    → (s.options.ignore_visit == f.ignore_visit) ≡ true
    → is_ignored host location el s ≡ true
    → navigate host f (string url) o from el event s ≡ (returns tt, assign_location url s)
unfolding navigate navigate_to
navigate-ignored host f url o from el event s location parsed default ignored =
    ap (λ x. and_then x (λ ignored. navigate_unless host ignored url o from el event))
      (should_ignore_visit-default host f url el event s location parsed default
        ∙ ap (λ b. (returns b, s)) ignored)

-- Any other one is created and performed.
navigate-view :
    (host : Host) (f : Functions) (url : String) (o : ℕ) (from : Option String)
    (el event : Option ℕ) (s : Swup) (location : Location)
    → host.parse_url url ≡ returns location
    → (s.options.ignore_visit == f.ignore_visit) ≡ true
    → is_ignored host location el s ≡ false
    → read "cache" (object o) s ≢ null
    → (t : Swup) × (navigate host f (string url) o from el event s ≡ (returns tt, t))
      × (view t
          ≡ Navigation.perform_navigation s.next (view (with_visit host location from el event s)))
unfolding navigate navigate_to create_visit
navigate-view host f url o from el event s location parsed default ignored h =
    let s' = with_visit host location from el event s in
    let (t, ran, same) = perform_navigation-view host s.next o s' h in
    (
      t,
      ap (λ x. and_then x (λ ignored. navigate_unless host ignored url o from el event))
            (should_ignore_visit-default host f url el event s location parsed default
              ∙ ap (λ b. (returns b, s)) ignored)
          ∙ rw parsed (ap heard ran),
      same,
    )
  where
    nothing : M (Unit {0})
    nothing = pure tt

    heard : Outcome (Unit {0}) × Swup → Outcome (Unit {0}) × Swup
    heard x = and_then (attempted x) (λ _. nothing)

pub navigate_lem :
    (host : Host) (f : Functions) (url : String) (o : ℕ) (from : Option String)
    (el event : Option ℕ) (s : Swup) (location : Location)
    → host.parse_url url ≡ returns location
    → (s.options.ignore_visit == f.ignore_visit) ≡ true
    → (is_ignored host location el s ≡ true
        → navigate host f (string url) o from el event s ≡ (returns tt, assign_location url s))
      × (is_ignored host location el s ≡ false
          → read "cache" (object o) s ≢ null
          → (t : Swup) × (navigate host f (string url) o from el event s ≡ (returns tt, t))
            × (view t
                ≡ Navigation.perform_navigation s.next
                    (view (with_visit host location from el event s))))
navigate_lem host f url o from el event s location parsed default = (
  navigate-ignored host f url o from el event s location parsed default,
  navigate-view host f url o from el event s location parsed default,
)

-- ===== src/Ignoring.antt =====
-- src/Swup.ts and src/modules/navigate.ts: which visits are left to the browser, and `navigate`.
pub mod Navigate
use vitest_swup.Prelude.{
  ℕ, ◌&◌, ◌==◌, string_eq, nat_eq, String, Bool, true, false, not, ◌&&◌, ◌||◌, Option, none, some,
  List, [], ◌∷◌, ◌++◌, if◌then◌else◌,
}
use vitest_swup.Values.{Value, boolean, string, VisitRef, is_truthy, returns, throws}
use vitest_swup.Visit.{VisitInitOptions}
use vitest_swup.Visit.Create.{create_visit}
use vitest_swup.State.{
  Swup, Host, Functions, Location, M, ◌>>=◌, ◌>>◌, and_then, pure, gets, modify,
}
use vitest_swup.Objects.{throw_error, unawaited}
use vitest_swup.ResolveUrl.{location_url}
use vitest_swup.Cache.{from_url}
use vitest_swup.History.{window_location}
use vitest_swup.Performing.{perform_navigation}

-- `window.location.assign(url)`
abbrev pub assign_location : String → Swup → Swup
assign_location url s = record s {
  browser = record s.browser { assigned = s.browser.assigned ++ url ∷ [] };
}

abbrev is_some {ℓ} : {A : Type ℓ} → Option A → Bool
is_some none = false
is_some (some _) = true

module _ (host : Host) where
  -- `triggerWillOpenNewWindow(el)`
  unfoldable pub trigger_will_open_new_window : ℕ → Bool
  trigger_will_open_new_window el = host.matches el "[download], [target=\"_blank\"]"

  abbrev pub opens_new_window : Option ℕ → Bool
  opens_new_window none = false
  opens_new_window (some el) = trigger_will_open_new_window el

  -- `defaults.ignoreVisit`
  unfoldable pub default_ignore_visit : Option ℕ → Bool
  default_ignore_visit none = false
  default_ignore_visit (some el) = is_some (host.closest el "[data-no-swup]")

  -- The call of `options.ignoreVisit`.
  unfoldable pub ignore_visit : Functions → String → Option ℕ → Option ℕ → M Value
  unfolding default_ignore_visit
  ignore_visit f url el event s =
      if s.options.ignore_visit == f.ignore_visit
      then (returns (boolean (default_ignore_visit el)), s)
      else host.ignore_visit s.options.ignore_visit url el event s

  -- `shouldIgnoreVisit(href, { el, event })`
  unfoldable pub should_ignore_visit : Functions → String → Option ℕ → Option ℕ → M Bool
  unfolding trigger_will_open_new_window ignore_visit
  should_ignore_visit f href el event = do
    location ← from_url host href
    origin ← gets (λ s. (window_location s).origin)
    if not (location.origin == origin)
        then pure true
        else if opens_new_window el
        then pure true
        else (do
          ignored ← ignore_visit f (location_url location & location.hash) el event
          pure (is_truthy ignored))

  -- A visit that is ignored is left to the browser; for any other one a visit is created and performed.
  abbrev pub navigate_unless :
      Bool → String → ℕ → Option String → Option ℕ → Option ℕ → M (Unit {0})
  navigate_unless true url o from el event = modify (assign_location url)
  navigate_unless false url o from el event = do
    location ← from_url host url
    random ← gets host.random
    v ← create_visit random (record {
      to = location_url location;
      from = from;
      hash = some location.hash;
      el = el;
      event = event;
    })
    unawaited (perform_navigation host v o)

  -- `navigate(url, options, init)`, of a URL that is a text.
  unfoldable pub navigate_to :
      Functions → String → ℕ → Option String → Option ℕ → Option ℕ → M (Unit {0})
  unfolding should_ignore_visit create_visit perform_navigation
  navigate_to f url o from el event = do
    ignored ← should_ignore_visit f url el event
    navigate_unless ignored url o from el event

  unfoldable pub navigate :
      Functions → Value → ℕ → Option String → Option ℕ → Option ℕ → M (Unit {0})
  unfolding navigate_to throw_error
  navigate f (string url) o from el event = navigate_to f url o from el event
  navigate f url o from el event = throw_error "swup.navigate() requires a URL parameter"

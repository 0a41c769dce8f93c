-- ===== src/Instance.antt =====
-- src/Swup.ts: what the instance does on clicks of links and on the browser's own navigation.
pub mod Options
pub mod Lifetime
pub mod Popstate
pub mod Leaving
pub mod Entries
pub mod Frame
pub mod Links
pub mod Clicks
pub mod Marks
use vitest_swup.Prelude.{
  ℕ, ◌+◌, ◌-◌, ◌&◌, ◌==◌, string_eq, nat_eq, ltb, String, Bool, true, false, not, ◌&&◌, ◌||◌,
  Option, none, some, List, [], ◌∷◌, if◌then◌else◌,
}
use vitest_swup.Prelude.Dict
use vitest_swup.Values.{
  Value, undefined, boolean, number, string, visit, object, node, function, FunctionRef, VisitRef,
  is_truthy, returns, throws,
}
use vitest_swup.Visit.{Visit, HistoryDirection, forwards, backwards, disabled}
use vitest_swup.Visit.Create.{create_visit}
use vitest_swup.State.{
  Swup, Host, Functions, NavigationToSelfAction, scroll, navigate, M, ◌>>=◌, ◌>>◌, and_then, pure,
  gets, modify, alloc,
}
use vitest_swup.Objects.{read, set_property, set_visit, unawaited}
use vitest_swup.Hooks.Run.{call_sync}
use vitest_swup.Hooks.Run.Default.{Closure, with_closure}
use vitest_swup.ResolveUrl.{location_url, is_same_resolved_url}
use vitest_swup.Cache.{from_url}
use vitest_swup.History.{window_location, get_current_url, update_history_record}
use vitest_swup.Scroll.{scroll_to_content}
use vitest_swup.Rendering.{or_blank}
use vitest_swup.Fetch.{text_of}
use vitest_swup.Performing.{perform_navigation}
use vitest_swup.Ignoring.{should_ignore_visit, assign_location}

-- `event.preventDefault()`
abbrev pub prevent_default : ℕ → Swup → Swup
prevent_default event = set_property event "defaultPrevented" (boolean true)

-- The keys that open a link in a new tab.
abbrev pub has_modifier : ℕ → Swup → Bool
has_modifier event s =
    is_truthy (read "metaKey" (object event) s)
    || is_truthy (read "ctrlKey" (object event) s)
    || is_truthy (read "shiftKey" (object event) s)
    || is_truthy (read "altKey" (object event) s)

-- `event.button !== 0`
abbrev pub is_main_button : Value → Bool
is_main_button (number n) = n == 0
is_main_button _ = false

abbrev pub or_empty_text : Option String → String
or_empty_text none = ""
or_empty_text (some text) = text

-- A text that is not empty, or the next one.
abbrev pub or_text : Option String → String → String
or_text none text = text
or_text (some a) text = if a == "" then text else a

-- `history.state?.index ?? 0`, as a number.
abbrev pub index_of : Value → ℕ
index_of (number n) = n
index_of _ = 0

-- The direction of a visit to another entry of the history.
abbrev pub direction_of : (index current : ℕ) → HistoryDirection
direction_of index current = if ltb current index then forwards else backwards

abbrev pub navigates_to_self : NavigationToSelfAction → Bool
navigates_to_self navigate = true
navigates_to_self scroll = false

module _ (host : Host) where
  -- `Location.fromElement(el)`: the text of the attribute.
  abbrev pub href_of : ℕ → String
  href_of el =
      or_text (host.get_attribute el "href") (or_text (host.get_attribute el "xlink:href") "")

  -- The page is scrolled for a visit, after its record has been written.
  unfoldable pub scroll_for : Functions → VisitRef → String → Closure
  unfolding update_history_record scroll_to_content
  scroll_for f v url w args = do
    update_history_record host url []
    _ ← scroll_to_content host f.scroll_anchor f.scroll_top v
    pure undefined

  -- A call of `performNavigation` that is not awaited, with no options.
  unfoldable pub start : VisitRef → M Value
  unfolding perform_navigation alloc
  start v = do o ← alloc []; unawaited (perform_navigation host v o); pure undefined

  -- The default handler of `link:self`.
  unfoldable pub link_self : Functions → VisitRef → String → Closure
  unfolding start scroll_for
  link_self f v url w args = do
    action ← gets (λ s. s.options.link_to_self)
    if navigates_to_self action then start v else scroll_for f v url w args

  -- A link to the page itself.
  unfoldable pub click_self : Functions → VisitRef → String → String → M Value
  unfolding alloc scroll_for link_self
  click_self f v url hash =
      if not (hash == "")
      then (do
        args ← alloc (("hash", string hash) ∷ [])
        _ ←
            call_sync (with_closure f.link_anchor (scroll_for f v (url & hash)) host) "link:anchor"
              (visit v) (object args) (function f.link_anchor)
        pure undefined)
      else (do
        _ ←
            call_sync (with_closure f.link_self (link_self f v url) host) "link:self" (visit v)
              undefined (function f.link_self)
        pure undefined)

  -- The default handler of `link:click`.
  unfoldable pub link_click : Functions → VisitRef → String → String → ℕ → Closure
  unfolding set_property click_self is_same_resolved_url start
  link_click f v url hash event w args = do
    from ← gets (λ s. (s.visits v).from.url)
    modify (prevent_default event)
    if url == "" || url == from then click_self f v url hash else (do
      same ← (λ s. let (b, t) = is_same_resolved_url host url from s in (returns b, t))
      if same then pure undefined else start v)

  -- The part of `handleLinkClick` for a visit that has been created.
  unfoldable pub click_created :
      Functions → VisitRef → String → String → String → ℕ → ℕ → M (Unit {0})
  unfolding alloc link_click
  click_created f v href url hash el event = do
    modified ← gets (has_modifier event)
    button ← gets (read "button" (object event))
    if modified
        then (do
          args ← alloc (("href", string href) ∷ [])
          _ ← call_sync host "link:newtab" (visit v) (object args) undefined
          pure tt)
        else if not (is_main_button button)
        then pure tt
        else (do
          args ← alloc (("el", node el) ∷ ("event", object event) ∷ [])
          _ ←
              call_sync (with_closure f.link_click (link_click f v url hash event) host)
                "link:click" (visit v) (object args) (function f.link_click)
          pure tt)

  -- `handleLinkClick(event)`, of an event at the element `el`.
  unfoldable pub handle_link_click : Functions → ℕ → ℕ → M (Unit {0})
  unfolding should_ignore_visit set_property create_visit click_created
  handle_link_click f el event = do
    location ← from_url host (href_of el)
    ignored ← should_ignore_visit host f location.href (some el) (some event)
    towards ← gets (λ s. s.navigating && (location_url location == (s.visits s.visit).to.url))
    if ignored then pure tt else if towards then modify (prevent_default event) else (do
      random ← gets host.random
      v ← create_visit random (record {
        to = location_url location;
        from = none;
        hash = some location.hash;
        el = some el;
        event = some event;
      })
      click_created f v location.href (location_url location) location.hash el event)

-- ===== src/Instance/Popstate.antt =====
-- src/Swup.ts: `handlePopState`, where the browser has gone to another entry of its history.
use vitest_swup.Prelude.{
  ℕ, ◌&◌, ◌==◌, nat_eq, string_eq, String, Bool, true, false, not, ◌&&◌, none, some, [], ◌∷◌,
  if◌then◌else◌,
}
use vitest_swup.Values.{
  Value, undefined, null, boolean, visit, object, function, VisitRef, is_truthy, returns,
}
use vitest_swup.Visit.{Visit, HistoryDirection, disabled}
use vitest_swup.Visit.Create.{create_visit}
use vitest_swup.State.{Swup, Host, Functions, M, ◌>>=◌, ◌>>◌, pure, gets, modify, alloc}
use vitest_swup.Objects.{read, set_visit, member}
use vitest_swup.Hooks.Run.{call_sync}
use vitest_swup.Hooks.Run.Default.{Closure, with_closure}
use vitest_swup.ResolveUrl.{location_url, is_same_resolved_url}
use vitest_swup.Cache.{from_url}
use vitest_swup.History.{window_location, get_current_url}
use vitest_swup.Performing.Loading.{hash_text}
use vitest_swup.Fetch.{text_of}
use vitest_swup.Ignoring.{assign_location}
use vitest_swup.Instance.{index_of, direction_of, start}

-- `event.state?.url ?? window.location.href`
abbrev pub href_or_current : Value → String → String
href_or_current undefined href = href
href_or_current null href = href
href_or_current value href = text_of value

abbrev pub set_direction : HistoryDirection → Visit → Visit
set_direction direction w = record w { history = record w.history { direction = some direction } }

-- The entry of the history that the browser has gone to, if its index is known and another one.
unfoldable pub follow_index : VisitRef → ℕ → Swup → Swup
unfolding set_visit
follow_index v index s =
    if not (index == 0) && not (index == s.current_history_index)
    then record (set_visit v (set_direction (direction_of index s.current_history_index)) s) {
      current_history_index = index;
    }
    else s

abbrev pub set_popstate : Visit → Visit
set_popstate w = record w { history = record w.history { popstate = true } }

-- A visit of the history is animated and scrolls to the top only where the options say so.
unfoldable pub set_history_visit : Bool → Visit → Visit
set_history_visit animate w = record w {
  animation = record w.animation { animate = animate };
  scroll = record w.scroll { reset = animate; target = disabled };
}

module _ (host : Host) where
  -- The closure that a failed visit has put into `options.skipPopStateHandling`.
  unfoldable pub leave : M Value
  leave = do
    w ← gets (λ s. s.visits s.left_visit)
    modify (assign_location (w.to.url & hash_text w.to.hash))
    pure (boolean true)

  -- `defaults.skipPopStateHandling`
  unfoldable pub default_skip : Value → M Value
  default_skip event = do
    state ← member host "state" event
    source ← gets (read "source" state)
    pure (boolean (not (text_of source == "swup")))

  -- The call of `options.skipPopStateHandling`.
  unfoldable pub skip_handling : Functions → Value → M Value
  unfolding leave default_skip
  skip_handling f event s =
      if s.options.skip_pop_state_handling == f.leave
      then leave s
      else if s.options.skip_pop_state_handling == f.skip_pop_state_handling
      then default_skip event s
      else host.skip_pop_state_handling s.options.skip_pop_state_handling event s

  -- The default handler of `history:popstate`.
  unfoldable pub history_popstate : VisitRef → Closure
  unfolding start
  history_popstate v w args = start host v

  -- The visit of an entry of the history with an index, before the hook is called.
  unfoldable pub create_entry : String → ℕ → ℕ → M VisitRef
  unfolding create_visit set_visit follow_index set_history_visit
  create_entry href index event = do
    location ← from_url host href
    random ← gets host.random
    v ← create_visit random (record {
      to = location_url location;
      from = none;
      hash = some location.hash;
      el = none;
      event = some event;
    })
    modify (set_visit v set_popstate)
    modify (follow_index v index)
    animated ← gets (λ s. s.options.animate_history_browsing)
    modify (set_visit v (set_history_visit animated))
    pure v

  unfoldable pub visit_entry : Functions → String → Value → ℕ → M (Unit {0})
  unfolding create_entry history_popstate alloc
  visit_entry f href state event = do
    index ← gets (λ s. index_of (read "index" state s))
    v ← create_entry href index event
    args ← alloc (("event", object event) ∷ [])
    _ ←
        call_sync (with_closure f.history_popstate (history_popstate v) host) "history:popstate"
          (visit v) (object args) (function f.history_popstate)
    pure tt

  -- The event is handled, unless it is to be skipped.
  abbrev pub handle_unless : Bool → Functions → String → Value → ℕ → M (Unit {0})
  handle_unless true f href state event = pure tt
  handle_unless false f href state event = do
    same ← (λ s.
        let (b, t) =
          is_same_resolved_url host (get_current_url false s) (location_url s.location) s in
        (returns b, t))
    if same then pure tt else visit_entry f href state event

  -- `handlePopState(event)`
  unfoldable pub handle_pop_state : Functions → ℕ → M (Unit {0})
  unfolding skip_handling is_same_resolved_url get_current_url visit_entry
  handle_pop_state f event = do
    state ← gets (read "state" (object event))
    href ← gets (λ s. href_or_current (read "url" state s) (window_location s).href)
    skipped ← skip_handling f (object event)
    handle_unless (is_truthy skipped) f href state event

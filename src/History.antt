-- ===== src/History.antt =====
-- src/helpers/history.ts and src/helpers/getCurrentUrl.ts: the records in the history of the tab.
pub mod Records
use vitest_swup.Prelude.{
  ◌&◌, ◌==◌, string_eq, String, Bool, true, false, not, ◌&&◌, Option, none, some, List, [], ◌∷◌,
  if◌then◌else◌,
}
use vitest_swup.Prelude.Dict.{Dict}
use vitest_swup.Values.{Value, number, string, Outcome, returns, throws}
use vitest_swup.State.{
  Swup, Host, Location, HistoryEntry, Window, M, ◌>>=◌, ◌>>◌, and_then, pure, gets, modify,
}
use vitest_swup.Objects.{spread}

-- `window.location`, and `window.history.state`.
abbrev pub window_location : Swup → Location
window_location s = s.browser.entry.location

abbrev pub or_empty : Option (Dict String Value) → Dict String Value
or_empty none = []
or_empty (some state) = state

-- `getCurrentUrl({ hash })`
unfoldable pub get_current_url : Bool → Swup → String
get_current_url hash s =
    let l = window_location s in l.pathname & l.search & (if hash then l.hash else "")

-- A text, or the current URL where it is empty: `url || getCurrentUrl({ hash: true })`.
abbrev pub or_current_url : String → Swup → String
or_current_url url s = if url == "" then get_current_url true s else url

-- `pushState` and `replaceState`, once the URL has been parsed.
abbrev pub push_entry : HistoryEntry → Swup → Swup
push_entry entry s = record s {
  browser = record s.browser { past = s.browser.entry ∷ s.browser.past; entry = entry };
}

abbrev pub replace_entry : HistoryEntry → Swup → Swup
replace_entry entry s = record s { browser = record s.browser { entry = entry } }

-- The state of a record that is created.
abbrev pub created_state : String → Value → Dict String Value → Dict String Value
created_state url random extra =
    spread (("url", string url) ∷ ("random", random) ∷ ("source", string "swup") ∷ []) extra

-- The state of a record that is updated.
abbrev pub updated_state :
    Dict String Value → String → Value → Dict String Value → Dict String Value
updated_state current url random extra =
    spread
      (spread current (("url", string url) ∷ ("random", random) ∷ ("source", string "swup") ∷ []))
      extra

module _ (host : Host) where
  -- The browser refuses a URL that cannot be parsed, and one of another origin.
  abbrev pub accept :
      (HistoryEntry → Swup → Swup) → Dict String Value → Outcome Location → M (Unit {0})
  accept write state (throws error) s = (throws error, s)
  accept write state (returns location) s =
      if location.origin == (window_location s).origin
      then (returns tt, write (record { state = some state; location = location }) s)
      else (throws host.security_error, s)

  unfoldable pub push_state : Dict String Value → String → M (Unit {0})
  push_state state url = accept push_entry state (host.parse_url url)

  unfoldable pub replace_state : Dict String Value → String → M (Unit {0})
  replace_state state url = accept replace_entry state (host.parse_url url)

  -- `createHistoryRecord(url, data)`
  unfoldable pub create_history_record : String → Dict String Value → M (Unit {0})
  unfolding push_state get_current_url spread
  create_history_record url extra s =
      let url' = or_current_url url s in
      push_state (created_state url' (number (host.random s)) extra) url' s

  -- `updateHistoryRecord(url, data)`, where the empty text stands for `null` too.
  unfoldable pub update_history_record : String → Dict String Value → M (Unit {0})
  unfolding replace_state get_current_url spread
  update_history_record url extra s =
      let url' = or_current_url url s in
      replace_state
        (updated_state (or_empty s.browser.entry.state) url' (number (host.random s)) extra) url' s

-- ===== src/History/Records.antt =====
-- src/helpers/history.ts: what the history holds after a record has been written.
use vitest_swup.Prelude.{◌==◌, string_eq, String, true, Option, some, [], ◌∷◌, ◌≡◌, refl, ◌∙◌, ap}
use vitest_swup.Prelude.Dict
use vitest_swup.Prelude.Dict.{Dict, Distinct}
use vitest_swup.Values.{Value, number, string, returns}
use vitest_swup.State.{Swup, Host, Location}
use vitest_swup.Objects.{spread}
use vitest_swup.Objects.Spread.{prefer, get-spread}
use vitest_swup.History.{
  window_location, or_empty, or_current_url, push_entry, replace_entry, created_state,
  updated_state, push_state, replace_state, create_history_record, update_history_record,
}

-- The properties that every record has.
abbrev pub base : String → Value → Dict String Value
base url random = ("url", string url) ∷ ("random", random) ∷ ("source", string "swup") ∷ []

base-Distinct : (url : String) (random : Value) → Distinct (base url random)
base-Distinct url random = unfold Dict.has in (refl, (refl, (refl, tt)))

-- A property of the current record.
abbrev pub state_property : String → Swup → Option Value
state_property q s = Dict.get q (or_empty s.browser.entry.state)

-- A record is updated, with a URL (or the current one, for the empty text) that the browser parses to a location
-- of its own origin: no error is thrown; the number of entries is the same, and the earlier entries are; the
-- window is at that location; and a property of the record is the one that is given, else that of every
-- record of the library, with that URL, else the one that it has had.
pub update_history_record-entry :
    (host : Host) (url : String) (extra : Dict String Value) (s : Swup) (location : Location)
    → host.parse_url (or_current_url url s) ≡ returns location
    → (location.origin == (window_location s).origin) ≡ true
    → Distinct extra
    → (t : Swup) × (update_history_record host url extra s ≡ (returns tt, t))
      × (t.browser.past ≡ s.browser.past)
      × (window_location t ≡ location)
      × ((q : String)
          → state_property q t
            ≡ prefer (Dict.get q extra) (
                prefer
                  (Dict.get q (base (or_current_url url s) (number (host.random s))))
                  (state_property q s)))
unfolding update_history_record replace_state
update_history_record-entry host url extra s location parsed local distinct =
    let url' = or_current_url url s in
    let random = number (host.random s) in
    (
      replace_entry
          (record {
            state = some (updated_state (or_empty s.browser.entry.state) url' random extra);
            location = location;
          })
          s,
      rw (parsed, local) refl,
      refl,
      refl,
      λ q.
          get-spread q (spread (or_empty s.browser.entry.state) (base url' random)) extra distinct
          ∙ ap (prefer (Dict.get q extra)) (
              get-spread q (or_empty s.browser.entry.state) (base url' random)
                (base-Distinct url' random)),
    )

-- A record is created, likewise: the entry that has been the current one is the latest of the earlier ones,
-- the window is at the new location, and a property of the record is the one that is given, or else that
-- of every record of the library; nothing of the old record is in it.
pub create_history_record-entry :
    (host : Host) (url : String) (extra : Dict String Value) (s : Swup) (location : Location)
    → host.parse_url (or_current_url url s) ≡ returns location
    → (location.origin == (window_location s).origin) ≡ true
    → Distinct extra
    → (t : Swup) × (create_history_record host url extra s ≡ (returns tt, t))
      × (t.browser.past ≡ s.browser.entry ∷ s.browser.past)
      × (window_location t ≡ location)
      × ((q : String)
          → state_property q t
            ≡ prefer
                (Dict.get q extra)
                (Dict.get q (base (or_current_url url s) (number (host.random s)))))
unfolding create_history_record push_state
create_history_record-entry host url extra s location parsed local distinct =
    let url' = or_current_url url s in
    let random = number (host.random s) in
    (
      push_entry (record { state = some (created_state url' random extra); location = location }) s,
      rw (parsed, local) refl,
      refl,
      refl,
      λ q. get-spread q (base url' random) extra distinct,
    )

-- ===== src/ResolveUrl.antt =====
-- src/modules/resolveUrl.ts and src/helpers/Location.ts: how URLs are made comparable.
pub mod Laws
use vitest_swup.Prelude.{String, ◌&◌, ◌==◌, string_eq, Bool, true, false, ◌||◌, if◌then◌else◌}
use text.Mathlib.Text.{starts_with}
use vitest_swup.Values.{Value, function, string, FunctionRef, Outcome}
use vitest_swup.State.{Swup, Host, Options, Location, M, log}

-- `location.url`: the full local path including query params.
abbrev pub location_url : Location → String
location_url l = l.pathname & l.search

-- What is made of the result of the callback: a URL, or a warning in its place.
pub data Resolution : Type 0 where
  accepted : String → Resolution
  rejected : String → Resolution

check_string : String → Resolution
check_string result =
    if result == ""
    then rejected "[swup] options.resolveUrl needs to return a url"
    else if starts_with result "//" || starts_with result "http"
    then rejected "[swup] options.resolveUrl needs to return a relative url"
    else accepted result

check_result : Value → Resolution
unfolding check_string
check_result (string result) = check_string result
check_result _ = rejected "[swup] options.resolveUrl needs to return a url"

check_option : (FunctionRef → String → Value) → Value → String → Resolution
unfolding check_result
check_option call (function f) url = check_result (call f url)
check_option call _ url = rejected "[swup] options.resolveUrl expects a callback function."

-- A rejected result stands for the URL as it is, with a warning.
abbrev pub chosen : String → Resolution → String
chosen url (accepted result) = result
chosen url (rejected warning) = url

abbrev pub report : Resolution → Swup → Swup
report (accepted result) s = s
report (rejected warning) s = log warning s

module _ (host : Host) where
  pub resolution : Options → String → Resolution
  unfolding check_option
  resolution options url = check_option host.resolve_url options.resolve_url url

  -- What `resolveUrl` returns.
  unfoldable pub resolved : Options → String → String
  unfolding resolution
  resolved options url = chosen url (resolution options url)

  unfoldable pub resolve_url : String → Swup → String × Swup
  unfolding resolution
  resolve_url url s = let r = resolution s.options url in (chosen url r, report r s)

  unfoldable pub is_same_resolved_url : String → String → Swup → Bool × Swup
  unfolding resolve_url
  is_same_resolved_url url1 url2 s =
      let (r1, s1) = resolve_url url1 s in let (r2, s2) = resolve_url url2 s1 in (r1 == r2, s2)

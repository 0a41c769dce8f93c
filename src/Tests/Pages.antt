-- ===== src/Tests/Pages.antt =====
-- Fetching, rendering, history records and slugs on concrete inputs.
use vitest_swup.Prelude.{
  ℕ, ◌<◌, ◌≡◌, ◌↔◌, refl, ◌==◌, nat_eq, string_eq, String, true, false, some, [], ◌∷◌, arith,
  if◌then◌else◌,
}
use vitest_swup.Prelude.Dict
use vitest_swup.Prelude.Dict.{Dict}
use vitest_swup.Values.{Value, undefined, number, string, boolean, object, returns}
use vitest_swup.Visit
use vitest_swup.State.{Swup, Forest, empty, tree}
use vitest_swup.Objects
use vitest_swup.Hooks.Run.{call, dispatch_dom_event}
use vitest_swup.Hooks.Run.Default.{with_closure}
use vitest_swup.Values.{visit, function}
use vitest_swup.Hooks.Run.Later.{call-default}
use vitest_swup.Cache.Pages.{page_at}
use vitest_swup.Fetch.Skipped.{ThrowsError, fetch_page-done}
use vitest_swup.Fetch.{fetch_page, Request, refused, receive, request_failed, request}
use vitest_swup.Fetch.Caching.{page_at-receive}
use vitest_swup.Fetch.Errors.{ThrowsFetchError, request_failed-throws, receive-refused}
use vitest_swup.Fetch.Requests.{request-plain, asked}
use vitest_swup.Document.{subtree}
use vitest_swup.Document.Trees.{count}
use vitest_swup.Rendering.{replace_from, replace_container}
use vitest_swup.Rendering.Content.{
  AllFound, titled, replace_from-true_iff, replace_container-Exchanged,
}
use vitest_swup.Document.Order.{Exchanged, shape}
use vitest_swup.History.{update_history_record, window_location}
use vitest_swup.History.Records.{base, state_property, update_history_record-entry}
use vitest_swup.Objects.Spread.{prefer}
use vitest_swup.Slugs
use vitest_swup.Slugs.{slug}
use vitest_swup.Slugs.Shape.{IsSlug}
use vitest_swup.Slugs.Output.{slug-IsSlug}
use vitest_swup.Tests.{quiet, fresh, finished, local_url}
use vitest_swup.Tests.Cache.{same-IsKept}

program : Unit {0}
unfolding Dict.get Dict.set Dict.has Dict.delete Objects.spread Objects.set_property Slugs.slug
    Slugs.to_lower Slugs.replace_runs Slugs.remove_others Slugs.trim_start Slugs.trim_end
    Slugs.lower Slugs.of_code shape vitest_swup.ResolveUrl.resolved count subtree replace_from
    replace_container update_history_record Visit.done
program = tt

-- The object 4 is a response, for the URL `/page`.
abbrev response_with : ℕ → ℕ → Dict String Value
response_with status r =
    if r == 4 then ("status", number status) ∷ ("url", string "/page") ∷ [] else []

abbrev responding : ℕ → Swup
responding status = record fresh {
  objects = response_with status;
  registry = ("fetch:request", []) ∷ [];
}

-- A request for `/page`, with no method.
abbrev asking : Request
asking = record { url = "/page"; visit = 0; options = 1; variables = 2; signal = 3; timer = some 0 }

page_at-receive_example :
    page_at "/page" (receive quiet asking (object 4) (responding 200)).1
    ≡ some (("url", string "/page") ∷ ("html", string "<html>") ∷ [])
unfolding program
page_at-receive_example =
    page_at-receive quiet asking 4 (number 200) "/page" "<html>" (responding 200) (responding 200)
      (local_url "/page") refl refl refl refl refl refl refl tt (omega arith) same-IsKept "/page"

receive-refused_example :
    ThrowsFetchError
      (receive quiet asking (object 4) (responding 500))
      "Server error: /page"
      (refused "/page" (number 500))
unfolding program
receive-refused_example =
    receive-refused quiet asking 4 (number 500) "/page" "<html>" (responding 500) (responding 500)
      refl refl refl refl

-- The timer of the request has gone off.
abbrev late : Swup
late = record fresh { objects = λ r. if r == 2 then ("timedOut", boolean true) ∷ [] else [] }

request_failed-throws_example :
    ThrowsFetchError
      (request_failed quiet asking (string "no network") late)
      "Request timed out: /page"
      (record { url = "/page"; status = undefined; aborted = false; timed_out = true })
unfolding program
request_failed-throws_example =
    (request_failed-throws quiet asking (string "no network") late).0 refl

request-plain_example :
    request quiet 52 asking (responding 200) ≡ (returns (object 4), asked asking (responding 200))
unfolding program
request-plain_example =
    request-plain quiet 52 asking (responding 200) (λ t. refl) (λ name detail t. refl) refl refl

-- The visit has been completed: a page that is asked for without a visit is not fetched.
abbrev idle_again : Swup
idle_again = record finished { registry = ("fetch:request", []) ∷ [] }

fetch_page-done_example :
    ThrowsError (fetch_page quiet 52 "/page" 1 idle_again) (string "TypeError")
unfolding program
fetch_page-done_example =
    fetch_page-done quiet 52 (λ t. refl) "/page" 1 (local_url "/page") idle_again refl refl refl

call-default_example :
    call
      (with_closure 50 (λ v args s. (returns (string "done"), s)) quiet)
      "fetch:request"
      (visit 0)
      undefined
      (function 50)
      (responding 200)
    ≡ (returns (string "done"), responding 200)
unfolding program dispatch_dom_event
call-default_example =
    call-default quiet "fetch:request" 0 undefined 50 (λ v args s. (returns (string "done"), s))
      (responding 200) refl refl

-- A document whose container 11 has an element 12 in it, and a page that has come.
abbrev two_deep : Forest
two_deep = tree 10 0 (tree 11 1 (tree 12 3 empty empty) (tree 13 2 empty empty)) empty

abbrev showing : Swup
showing = record fresh { document = two_deep; next = 30 }

abbrev come : Forest
come = tree 20 1 (tree 21 3 empty empty) empty

replace_container-Exchanged_example :
    let (replaced, t) = replace_container "#swup" (some 11) (some 20) come showing in
    (replaced ≡ true)
    × (new : Forest) × Exchanged 11 new two_deep t.document
    × (shape new ≡ tree 0 1 (tree 0 3 empty empty) empty)
    × ((x : ℕ) → x < 30 → count x new ≡ 0)
unfolding program
replace_container-Exchanged_example =
    replace_container-Exchanged "#swup" 11 20 come come showing refl refl

replace_from-true_iff_example :
    let (replaced, t) = replace_from quiet 1 ("#swup" ∷ "#nav" ∷ []) showing in
    ((replaced ≡ true)
      ↔ AllFound quiet (tree 20 1 empty empty) ("#swup" ∷ "#nav" ∷ []) (titled quiet 1 showing))
    × ((replaced ≡ true) ↔ (t.console ≡ []))
replace_from-true_iff_example = replace_from-true_iff quiet 1 ("#swup" ∷ "#nav" ∷ []) showing

-- The navigation is not in the page that has come.
one_missing :
    (replace_from quiet 1 ("#swup" ∷ "#nav" ∷ []) showing).1.console
    ≡ "[swup] Container missing in incoming document: #nav" ∷ []
unfolding program
one_missing = refl

update_history_record-entry_example :
    (t : Swup) × (update_history_record quiet "/new" (("index", number 2) ∷ []) fresh
      ≡ (returns tt, t))
    × (t.browser.past ≡ [])
    × (window_location t ≡ local_url "/new")
    × ((q : String)
        → state_property q t
          ≡ prefer
              (Dict.get q (("index", number 2) ∷ []))
              (prefer (Dict.get q (base "/new" (number 5))) (state_property q fresh)))
unfolding program
update_history_record-entry_example =
    update_history_record-entry quiet "/new" (("index", number 2) ∷ []) fresh (local_url "/new")
      refl refl (refl, tt)

slug-IsSlug_example :
    IsSlug (slug "Hello World--2!") × (slug (slug "Hello World--2!") ≡ slug "Hello World--2!")
slug-IsSlug_example = slug-IsSlug "Hello World--2!"

hello_slug : slug "Hello World--2!" ≡ "hello-world-2"
unfolding program
hello_slug = refl

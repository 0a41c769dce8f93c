-- ===== src/Fetch.antt =====
-- src/modules/fetchPage.ts: loading a page from the server. The options of a request and its response
-- are objects of the heap, since handlers see and may change them; so are the variables of the closure
-- that the timer runs.
pub mod Caching
pub mod Errors
pub mod Requests
pub mod Skipped
use vitest_swup.Prelude.{
  ℕ, ◌+◌, ◌&◌, ◌==◌, nat_eq, string_eq, String, Bool, true, false, not, ◌&&◌, ◌||◌, Option, none,
  some, List, [], ◌∷◌, map, if◌then◌else◌,
}
use vitest_swup.Prelude.Dict
use vitest_swup.Prelude.Dict.{Dict}
use vitest_swup.Values.{
  Value, undefined, null, boolean, number, string, visit, object, function, FunctionRef, VisitRef,
  is_truthy, returns, throws,
}
use vitest_swup.State.{
  Swup, Host, Location, Timer, M, ◌>>=◌, ◌>>◌, and_then, pure, gets, modify, alloc, update,
}
use vitest_swup.Objects.{
  spread, read, contents_of, member, set_property, throw, or_catch, unawaited,
}
use vitest_swup.Hooks.Run.{call, await}
use vitest_swup.Hooks.Run.Default.{Closure, with_closure}
use vitest_swup.ResolveUrl.{location_url}
use vitest_swup.Cache
use vitest_swup.Cache.{from_url}

-- The details of a `FetchError`.
pub record Details : Type 0 where
  pub url : String
  pub status : Value
  pub aborted : Bool
  pub timed_out : Bool

-- `new FetchError(message, details)`: the error object.
unfoldable pub new_fetch_error : String → Details → M Value
unfolding alloc
new_fetch_error message details = do
  error ← alloc (
      ("message", string message)
      ∷ ("name", string "FetchError")
      ∷ ("url", string details.url)
      ∷ ("status", details.status)
      ∷ ("aborted", boolean details.aborted)
      ∷ ("timedOut", boolean details.timed_out)
      ∷ [])
  pure (object error)

-- `throw new FetchError(…)`
unfoldable pub throw_fetch_error {ℓ} : {A : Type ℓ} → String → Details → M A
unfolding new_fetch_error
throw_fetch_error message details = do error ← new_fetch_error message details; throw error

-- `setTimeout`, with a reference as its id, and `clearTimeout`.
unfoldable pub set_timeout : ℕ → ℕ → ℕ → M ℕ
set_timeout delay variables signal s = (
  returns s.next,
  record s {
    timers =
        Dict.set s.next (record { delay = delay; variables = variables; signal = signal }) s.timers;
    next = s.next + 1;
  },
)

abbrev pub clear_timeout : Option ℕ → Swup → Swup
clear_timeout none s = s
clear_timeout (some id) s = record s { timers = Dict.delete id s.timers }

-- The callback of the timer: `timedOut = true`, and `controller.abort('timeout')`.
unfoldable pub on_timer : Timer → Swup → Swup
unfolding set_property
on_timer timer s = set_property timer.signal "reason" (string "timeout") (
    set_property timer.signal "aborted" (boolean true)
      (set_property timer.variables "timedOut" (boolean true) s))

-- `options.timeout ?? this.options.timeout`
abbrev pub timeout_of : Value → ℕ → Value
timeout_of undefined timeout = number timeout
timeout_of null timeout = number timeout
timeout_of value timeout = value

-- `if (timeout && timeout > 0)`: the timer, if there is one.
abbrev pub start_timer : Value → ℕ → ℕ → M (Option ℕ)
start_timer (number timeout) variables signal =
    if timeout == 0
    then pure none
    else (do id ← set_timeout timeout variables signal; pure (some id))
start_timer _ variables signal = pure none

-- `const { visit = this.visit } = options`
abbrev pub visit_or_current : Value → Swup → VisitRef
visit_or_current (visit v) s = v
visit_or_current _ s = s.visit

-- A value in a template literal, or as a URL.
abbrev pub text_of : Value → String
text_of (string text) = text
text_of _ = ""

-- A request that is under way: the local variables of `fetchPage` at its first `await`.
pub record Request : Type 0 where
  pub url : String
  pub visit : VisitRef
  pub options : ℕ
  pub variables : ℕ
  pub signal : ℕ
  pub timer : Option ℕ

-- `!options.method || options.method === 'GET'`
abbrev pub is_safe : Value → Bool
is_safe (string method) = method == "" || method == "GET"
is_safe value = not (is_truthy value)

-- Whether the page may be written to the cache.
abbrev pub may_cache : Request → String → Swup → Bool
may_cache r final_url s =
    (s.visits r.visit).cache.write
    && is_safe (read "method" (object r.options) s)
    && (r.url == final_url)

-- The details of an error about a response.
abbrev pub refused : String → Value → Details
refused url status = record { url = url; status = status; aborted = false; timed_out = false }

-- `status === 500`
abbrev pub is_500 : Value → Bool
is_500 (number status) = status == 500
is_500 _ = false

module _ (host : Host) where
  -- The merged options and the timer of a request.
  unfoldable pub prepare_for : Location → ℕ → M Request
  unfolding spread alloc set_timeout
  prepare_for location options = do
    v ← gets (λ s. visit_or_current (read "visit" (object options) s) s)
    headers ← gets (λ s.
        spread (map (λ h. (h.0, string h.1)) s.options.request_headers)
          (contents_of (read "headers" (object options) s) s))
    headers' ← alloc headers
    timeout ← gets (λ s. timeout_of (read "timeout" (object options) s) s.options.timeout)
    signal ← alloc (("aborted", boolean false) ∷ [])
    content ← gets (λ s. s.objects options)
    options' ←
        alloc (spread content (("headers", object headers') ∷ ("signal", object signal) ∷ []))
    variables ← alloc (("timedOut", boolean false) ∷ [])
    timer ← start_timer timeout variables signal
    pure (record {
      url = location_url location;
      visit = v;
      options = options';
      variables = variables;
      signal = signal;
      timer = timer;
    })

  -- The code up to the request.
  unfoldable pub prepare : String → ℕ → M Request
  unfolding prepare_for
  prepare url options = do location ← from_url host url; prepare_for location options

  -- The default handler of `fetch:request`, which takes the URL and the options from its arguments.
  unfoldable pub fetch_request : Closure
  fetch_request v args = do
    url ← member host "url" args
    options ← member host "options" args
    host.fetch url options

  -- The `catch` around the request.
  unfoldable pub request_failed : Request → Value → M Value
  unfolding alloc throw_fetch_error
  request_failed r error = do
    timed_out ← gets (λ s. is_truthy (read "timedOut" (object r.variables) s))
    aborted ← gets (λ s. is_truthy (read "aborted" (object r.signal) s))
    name ← gets (read "name" error)
    if timed_out
        then (do
          args ← alloc (("url", string r.url) ∷ [])
          _ ← unawaited (call host "fetch:timeout" (visit r.visit) (object args) undefined)
          throw_fetch_error ("Request timed out: " & r.url)
              (record { url = r.url; status = undefined; aborted = false; timed_out = true }))
        else if text_of name == "AbortError" || aborted
        then throw_fetch_error ("Request aborted: " & r.url)
            (record { url = r.url; status = undefined; aborted = true; timed_out = false })
        else throw error

  unfoldable pub request : FunctionRef → Request → M Value
  unfolding fetch_request alloc request_failed
  request f r =
      or_catch
        (do
          args ← alloc (("url", string r.url) ∷ ("options", object r.options) ∷ [])
          response ← await host (
              call (with_closure f fetch_request host) "fetch:request" (visit r.visit) (object args)
                (function f))
          modify (clear_timeout r.timer)
          pure response)
        (request_failed r)

  -- The page object, which is written to the cache where that is allowed.
  unfoldable pub keep_page : Request → String → String → M ℕ
  unfolding alloc
  keep_page r final_url html = do
    page ← alloc (("url", string final_url) ∷ ("html", string html) ∷ [])
    allowed ← gets (may_cache r final_url)
    if allowed then Cache.set host final_url page >> pure page else pure page

  -- The page is refused where the server has failed and where there is no text.
  unfoldable pub accept_page : Request → Value → Value → Value → String → M ℕ
  unfolding alloc throw_fetch_error keep_page
  accept_page r response status response_url html =
      if is_500 status
      then (do
        args ← alloc (("status", status) ∷ ("response", response) ∷ ("url", response_url) ∷ [])
        _ ← unawaited (call host "fetch:error" (visit r.visit) (object args) undefined)
        throw_fetch_error ("Server error: " & text_of response_url)
            (refused (text_of response_url) status))
      else if html == ""
      then throw_fetch_error ("Empty response: " & text_of response_url)
          (refused (text_of response_url) status)
      else (do
        location ← from_url host (text_of response_url)
        keep_page r (location_url location) html)

  -- The code after the request.
  unfoldable pub receive : Request → Value → M ℕ
  unfolding accept_page
  receive r response = do
    status ← member host "status" response
    response_url ← member host "url" response
    html ← await host (host.text response)
    accept_page r response status response_url html

  -- `fetchPage(url, options)`: the page object that it returns.
  unfoldable pub fetch_page : FunctionRef → String → ℕ → M ℕ
  unfolding prepare request receive
  fetch_page f url options = do r ← prepare url options; response ← request f r; receive r response

-- ===== src/Fetch/Errors.antt =====
-- src/modules/fetchPage.ts: the errors that `fetchPage` throws.
use vitest_swup.Prelude.{
  ℕ, ◌+◌, ◌&◌, ◌==◌, nat_eq, string_eq, String, Bool, true, false, ◌||◌, [], ◌∷◌, ◌≡◌, refl, sym,
  subst, ◌∙◌, ap, ap₂,
}
use vitest_swup.Prelude.Dict.{Dict}
use vitest_swup.Values.{
  Value, undefined, boolean, string, visit, object, is_truthy, Outcome, returns, throws,
}
use vitest_swup.State.{Swup, Host, Timer, M, and_then, alloc, update}
use vitest_swup.Objects.{read, set_property, attempt}
use vitest_swup.Objects.Heap.{read-set_property, read-set_property_other}
use vitest_swup.Hooks.Run.{call}
use vitest_swup.Cache.Pages.{update_self}
use vitest_swup.Fetch.{
  Details, Request, new_fetch_error, throw_fetch_error, refused, is_500, text_of, on_timer,
  request_failed, accept_page, receive,
}

-- The properties of a `FetchError`.
abbrev pub error_fields : String → Details → Dict String Value
error_fields message details =
    ("message", string message)
    ∷ ("name", string "FetchError")
    ∷ ("url", string details.url)
    ∷ ("status", details.status)
    ∷ ("aborted", boolean details.aborted)
    ∷ ("timedOut", boolean details.timed_out)
    ∷ []

-- A computation throws a new `FetchError` with these details.
abbrev pub ThrowsFetchError {ℓ} : {A : Type ℓ} → Outcome A × Swup → String → Details → Type ℓ
ThrowsFetchError {A = A} x message details =
    (e : ℕ) × (x.0 ≡ throws (object e)) × (x.1.objects e ≡ error_fields message details)

throw_fetch_error-throws {ℓ} :
    {A : Type ℓ} (message : String) (details : Details) (s : Swup)
    → ThrowsFetchError (throw_fetch_error {A = A} message details s) message details
unfolding throw_fetch_error new_fetch_error alloc
throw_fetch_error-throws message details s = (s.next, refl, update_self s.objects s.next _)

-- Whether the request has been aborted, as the `catch` sees it.
abbrev pub has_aborted : Request → Value → Swup → Bool
has_aborted r error s =
    text_of (read "name" error s) == "AbortError" || is_truthy (read "aborted" (object r.signal) s)

-- A request that has failed: if its timer has gone off, `fetchPage` throws an error that says so, whatever
-- the handlers of `fetch:timeout` do; otherwise, if the request has been aborted, it throws an error
-- that says that; and otherwise it throws the error of the request and does nothing else.
pub request_failed-throws :
    (host : Host) (r : Request) (error : Value) (s : Swup)
    → let timed_out = is_truthy (read "timedOut" (object r.variables) s) in
      let x = request_failed host r error s in
      (timed_out ≡ true
        → ThrowsFetchError x
            ("Request timed out: " & r.url)
            (record { url = r.url; status = undefined; aborted = false; timed_out = true }))
      × (timed_out ≡ false
          → has_aborted r error s ≡ true
          → ThrowsFetchError x
              ("Request aborted: " & r.url)
              (record { url = r.url; status = undefined; aborted = true; timed_out = false }))
      × (timed_out ≡ false → has_aborted r error s ≡ false → x ≡ (throws error, s))
unfolding request_failed throw_fetch_error new_fetch_error alloc
request_failed-throws host r error s =
    let args = ("url", string r.url) ∷ [] in
    let called =
      attempt (call host "fetch:timeout" (visit r.visit) (object s.next) undefined)
        (record s { objects = update s.objects s.next args; next = s.next + 1 }) in
    (
      λ t.
          rw (t, request_failed)
            (throw_fetch_error-throws {A = Value} ("Request timed out: " & r.url)
              (record { url = r.url; status = undefined; aborted = false; timed_out = true })
              called.1),
      λ t a.
          rw (t, a, request_failed)
            (throw_fetch_error-throws {A = Value} ("Request aborted: " & r.url)
              (record { url = r.url; status = undefined; aborted = true; timed_out = false }) s),
      λ t a. rw (t, a, request_failed) refl,
    )

-- When the timer of a request goes off and the request then fails, `fetchPage` throws an error that says
-- that it has timed out, whatever the error of the request is.
pub on_timer-request_failed :
    (host : Host) (r : Request) (timer : Timer) (error : Value) (s : Swup)
    → timer.variables ≡ r.variables
    → ThrowsFetchError
        (request_failed host r error (on_timer timer s))
        ("Request timed out: " & r.url)
        (record { url = r.url; status = undefined; aborted = false; timed_out = true })
unfolding on_timer
on_timer-request_failed host r timer error s e =
    (request_failed-throws host r error (on_timer timer s)).0 (ap is_truthy fired)
  where
    s₁ : Swup
    s₁ = set_property timer.variables "timedOut" (boolean true) s

    s₂ : Swup
    s₂ = set_property timer.signal "aborted" (boolean true) s₁

    fired : read "timedOut" (object r.variables) (on_timer timer s) ≡ boolean true
    fired =
        read-set_property_other timer.signal r.variables "reason" "timedOut" (string "timeout") s₂
          refl
        ∙ read-set_property_other timer.signal r.variables "aborted" "timedOut" (boolean true) s₁
            refl
        ∙ ap (λ v. read "timedOut" (object v) s₁) (sym e)
        ∙ read-set_property timer.variables "timedOut" (boolean true) s

-- What an error about a response says.
abbrev pub refusal : Bool → String → String
refusal true url = "Server error: " & url
refusal false url = "Empty response: " & url

-- `fetchPage` once the response is there: if its status is 500, or its text is empty, the call throws an
-- error with the URL and the status of the response, whatever the handlers of `fetch:error` do.
pub receive-refused :
    (host : Host) (r : Request) (response : ℕ) (status : Value) (url html : String) (s t : Swup)
    → read "status" (object response) s ≡ status
    → read "url" (object response) s ≡ string url
    → host.text (object response) s ≡ (returns html, t)
    → (is_500 status || html == "") ≡ true
    → ThrowsFetchError
        (receive host r (object response) s)
        (refusal (is_500 status) url)
        (refused url status)
unfolding receive accept_page throw_fetch_error new_fetch_error alloc
receive-refused host r response status url html s t st ur text h =
    subst (λ x. ThrowsFetchError x (refusal (is_500 status) url) (refused url status))
      (sym received) (refuses (is_500 status) refl)
  where
    u : Swup
    u = host.pass t

    continue_with : Value → Value → String → M ℕ
    continue_with = accept_page host r (object response)

    awaited : Outcome String × Swup → Outcome String × Swup
    awaited x = (x.0, host.pass x.1)

    received : receive host r (object response) s ≡ continue_with status (string url) html u
    received =
        ap
          (λ x.
            and_then (awaited x)
              (continue_with (read "status" (object response) s) (read "url" (object response) s)))
          text
        ∙ ap₂ (λ st ur. continue_with st ur html u) st ur

    args : Dict String Value
    args = ("status", status) ∷ ("response", object response) ∷ ("url", string url) ∷ []

    called : Swup
    called =
        (call host "fetch:error" (visit r.visit) (object u.next) undefined
          (record u { objects = update u.objects u.next args; next = u.next + 1 })).1

    refuses :
        (b : Bool)
        → is_500 status ≡ b
        → ThrowsFetchError
            (continue_with status (string url) html u)
            (refusal b url)
            (refused url status)
    refuses true e =
        rw (e, accept_page)
          (throw_fetch_error-throws {A = ℕ} ("Server error: " & url) (refused url status) called)
    refuses false e =
        let blank : (html == "") ≡ true = rw e at h in
        rw (e, accept_page, blank)
          (throw_fetch_error-throws {A = ℕ} ("Empty response: " & url) (refused url status) u)

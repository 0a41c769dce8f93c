-- ===== src/Fetch/Requests.antt =====
-- src/modules/fetchPage.ts: the request, where no handler has a say in it.
use vitest_swup.Prelude.{◌+◌, nat_eq, string_eq, String, false, some, [], ◌∷◌, ◌≡◌, ◌∙◌, ap}
use vitest_swup.Prelude.Dict
use vitest_swup.Prelude.Dict.{Dict}
use vitest_swup.Values.{
  Value, string, visit, object, function, FunctionRef, Outcome, returns, throws,
}
use vitest_swup.State.{Swup, Host, HookEventDetail, M, ◌>>◌, and_then, pure, modify, alloc, update}
use vitest_swup.Objects.{property_of, handled}
use vitest_swup.Objects.Heap.{update_self}
use vitest_swup.Hooks.Run.{call, is_done, dispatch_dom_event}
use vitest_swup.Hooks.Run.Default.{with_closure}
use vitest_swup.Hooks.Run.Later.{settled, finished_later, call-default}
use vitest_swup.Hooks.Run.Default.{dispatch-calm}
use vitest_swup.Fetch.{Request, clear_timeout, fetch_request, request_failed, request}

-- The response is passed on once the timer has been stopped.
abbrev pub stopped : Request → Outcome Value × Swup → Outcome Value × Swup
stopped r (returns response, s) = (returns response, clear_timeout r.timer s)
stopped r (throws error, s) = (throws error, s)

-- The arguments of the hook.
abbrev pub request_args : Request → Dict String Value
request_args r = ("url", string r.url) ∷ ("options", object r.options) ∷ []

abbrev pub asked : Request → Swup → Swup
asked r s = record s { objects = update s.objects s.next (request_args r); next = s.next + 1 }

-- For a visit that is not done, where the hook `fetch:request` exists and has no handlers, no other task does
-- anything while the request is pending, and no listener for a DOM event does: `fetch` is called with the URL
-- and the options of the request. If it gives a response, the timer is stopped and the response is passed
-- on; if it throws, or its promise is rejected, the error goes to the `catch`.
pub request-plain :
    (host : Host) (f : FunctionRef) (r : Request) (s : Swup)
    → ((t : Swup) → host.pass t ≡ t)
    → ((name : String) (detail : HookEventDetail) (t : Swup) → host.dispatch name detail t ≡ t)
    → Dict.get "fetch:request" s.registry ≡ some []
    → is_done r.visit s ≡ false
    → request host f r s
      ≡ handled
          (request_failed host r)
          (stopped r (settled host (host.fetch (string r.url) (object r.options) (asked r s))))
unfolding request fetch_request alloc Dict.get
request-plain host f r s idle calm e d =
    ap (λ x. handled (request_failed host r) (and_then (passed x) rest))
      (called
        ∙ ap (λ x. finished_later linked "fetch:request" r.visit (object s.next) (settled host x))
            fetching)
    ∙ ap (handled (request_failed host r))
        (ended (settled host (host.fetch (string r.url) (object r.options) s')))
  where
    linked : Host
    linked = with_closure f (fetch_request host) host

    s' : Swup
    s' = asked r s

    passed : Outcome Value × Swup → Outcome Value × Swup
    passed x = (x.0, host.pass x.1)

    rest : Value → M Value
    rest response = modify (clear_timeout r.timer) >> pure response

    called :
        call linked "fetch:request" (visit r.visit) (object s.next) (function f) s'
        ≡ finished_later linked "fetch:request" r.visit
            (object s.next)
            (settled linked (fetch_request host (some r.visit) (object s.next) (host.pass s')))
    called =
        call-default host "fetch:request" r.visit (object s.next) f (fetch_request host) s' e
          (ap (is_done r.visit) (idle s') ∙ d)

    fetching :
        fetch_request host (some r.visit) (object s.next) (host.pass s')
        ≡ host.fetch (string r.url) (object r.options) s'
    fetching =
        ap (fetch_request host (some r.visit) (object s.next)) (idle s')
        ∙ ap
            (λ d.
              host.fetch (property_of (Dict.get "url" d)) (property_of (Dict.get "options" d)) s')
            (update_self s.objects s.next (request_args r))

    rested : (t : Swup) → host.pass (host.pass (host.pass t)) ≡ t
    rested t = ap (λ u. host.pass (host.pass u)) (idle t) ∙ ap host.pass (idle t) ∙ idle t

    ended :
        (x : Outcome Value × Swup)
        → and_then (passed (finished_later linked "fetch:request" r.visit (object s.next) x)) rest
          ≡ stopped r x
    ended (returns response, t) =
        ap (λ u. (returns response, clear_timeout r.timer u))
          (idle (
              dispatch_dom_event linked "fetch:request" (some r.visit) (object s.next)
                (host.pass (host.pass (host.pass t))))
            ∙ dispatch-calm linked "fetch:request" r.visit (object s.next)
                (host.pass (host.pass (host.pass t))) calm
            ∙ rested t)
    ended (throws error, t) = ap (λ u. (throws error, u)) (rested t)

-- ===== src/Fetch/Skipped.antt =====
-- src/modules/fetchPage.ts: a request for a visit that is done.
use vitest_swup.Prelude.{
  ℕ, map, ◌==◌, nat_eq, string_eq, String, true, false, Option, none, some, [], ◌∷◌, ◌≡◌, refl, ◌∙◌,
  ap, ap₂, inl, inr, Bool-cases,
}
use vitest_swup.Prelude.Dict
use vitest_swup.Values.{
  Value, undefined, null, boolean, number, string, visit, object, node, function, FunctionRef,
  VisitRef, Outcome, returns, throws,
}
use vitest_swup.State.{
  Swup, Host, Location, HookLedger, M, ◌>>=◌, ◌>>◌, and_then, pure, modify, alloc,
}
use vitest_swup.Objects.{read, contents_of, spread, handled}
use vitest_swup.Visit.{done}
use vitest_swup.Hooks.Run.{is_done}
use vitest_swup.Hooks.Run.Calls.{call_done}
use vitest_swup.Hooks.Run.Default.{with_closure}
use vitest_swup.Fetch.{
  Request, visit_or_current, start_timer, set_timeout, timeout_of, prepare, prepare_for,
  fetch_request, request, receive, fetch_page, clear_timeout, request_failed,
}
use vitest_swup.Fetch.Requests.{asked}

-- Whether a computation has ended with this error.
abbrev pub ThrowsError {ℓ} : {A : Type ℓ} → Outcome A × Swup → Value → Type ℓ
ThrowsError x error = x.0 ≡ throws error

-- The timer is set without any change to the visits and the hooks.
start_timer_lem :
    (timeout : Value) (variables signal : ℕ) (s : Swup)
    → (id : Option ℕ) × (t : Swup) × (start_timer timeout variables signal s ≡ (returns id, t))
      × (t.visits ≡ s.visits)
      × (t.registry ≡ s.registry)
unfolding set_timeout
start_timer_lem (number timeout) variables signal s = elim (Bool-cases (timeout == 0)) [
  | inl zero ↦ (none, s, rw zero refl, refl, refl)
  | inr positive ↦
      (some s.next, (set_timeout timeout variables signal s).1, rw positive refl, refl, refl)
]
start_timer_lem undefined variables signal s = (none, s, refl, refl, refl)
start_timer_lem null variables signal s = (none, s, refl, refl, refl)
start_timer_lem (boolean b) variables signal s = (none, s, refl, refl, refl)
start_timer_lem (string text) variables signal s = (none, s, refl, refl, refl)
start_timer_lem (visit v) variables signal s = (none, s, refl, refl, refl)
start_timer_lem (object r) variables signal s = (none, s, refl, refl, refl)
start_timer_lem (node e) variables signal s = (none, s, refl, refl, refl)
start_timer_lem (function f) variables signal s = (none, s, refl, refl, refl)

-- A computation that sets a timer, and then starts a request for the visit.
abbrev TimerSet : Outcome (Option ℕ) × Swup → Swup → Type 0
TimerSet x s =
    (id : Option ℕ) × (t : Swup) × (x ≡ (returns id, t))
    × (t.visits ≡ s.visits)
    × (t.registry ≡ s.registry)

module _ (host : Host) (f : FunctionRef) (idle : (t : Swup) → host.pass t ≡ t) where
  -- The request itself: the hook gives no response, and reading its status throws.
  request_done :
      (r : Request) (s : Swup) {ledger : HookLedger}
      → Dict.get "fetch:request" s.registry ≡ some ledger
      → is_done r.visit s ≡ true
      → ThrowsError (and_then (request host f r s) (receive host r)) host.type_error
  unfolding request receive alloc
  request_done r s e d =
      ap (λ x. (ended x).0)
        (call_done linked "fetch:request" r.visit (object s.next) (function f) (asked r s) e idle d)
    where
      linked : Host
      linked = with_closure f (fetch_request host) host

      rest : Value → M Value
      rest response = modify (clear_timeout r.timer) >> pure response

      ended : Outcome Value × Swup → Outcome ℕ × Swup
      ended x =
          and_then (handled (request_failed host r) (and_then (x.0, host.pass x.1) rest))
            (receive host r)

  after_timer :
      (x : Outcome (Option ℕ) × Swup) (make : Option ℕ → Request) (v : VisitRef) (s : Swup)
      {ledger : HookLedger}
      → TimerSet x s
      → ((id : Option ℕ) → (make id).visit ≡ v)
      → Dict.get "fetch:request" s.registry ≡ some ledger
      → is_done v s ≡ true
      → ThrowsError
          (and_then (and_then x (λ id. pure (make id))) (λ r. request host f r >>= receive host r))
          host.type_error
  after_timer x make v s (id, t, ran, visits, registry) same e d =
      ap (λ y. (then_request (and_then y (λ id. pure (make id)))).0) ran
      ∙ request_done (make id) t (ap (Dict.get "fetch:request") registry ∙ e)
          (ap₂ (λ h w. done (h w)) visits (same id) ∙ d)
    where
      then_request : Outcome Request × Swup → Outcome ℕ × Swup
      then_request y = and_then y (λ r. request host f r >>= receive host r)

  -- For a visit that is done (the current one, where the options name none), and where the URL can be
  -- parsed, the hook `fetch:request` exists and no other task does anything meanwhile: `fetchPage` throws a
  -- `TypeError`, whatever the handlers of the hook are.
  pub fetch_page-done :
      (url : String) (options : ℕ) (location : Location) (s : Swup) {ledger : HookLedger}
      → host.parse_url url ≡ returns location
      → Dict.get "fetch:request" s.registry ≡ some ledger
      → is_done (visit_or_current (read "visit" (object options) s) s) s ≡ true
      → ThrowsError (fetch_page host f url options s) host.type_error
  unfolding fetch_page prepare prepare_for alloc
  fetch_page-done url options location s p e d =
      let after = λ (o : Outcome Location).
        and_then (and_then (o, s) (λ l. prepare_for host l options))
          (λ r. request host f r >>= receive host r) in
      let request_headers = map (λ h. (h.0, string h.1)) s.options.request_headers in
      let headers = contents_of (read "headers" (object options) s) s in
      let with_headers = (alloc (spread request_headers headers) s).1 in
      let timeout = timeout_of (read "timeout" (object options) with_headers) s.options.timeout in
      let signalled = (alloc (("aborted", boolean false) ∷ []) with_headers).1 in
      let merged =
        spread (signalled.objects options)
          (("headers", object s.next) ∷ ("signal", object with_headers.next) ∷ []) in
      let with_options = (alloc merged signalled).1 in
      let ready = (alloc (("timedOut", boolean false) ∷ []) with_options).1 in
      ap (λ o. (after o).0) p
      ∙ after_timer (start_timer timeout with_options.next with_headers.next ready) _
          (visit_or_current (read "visit" (object options) s) s) ready
          (start_timer_lem timeout with_options.next with_headers.next ready) (λ id. refl) e d

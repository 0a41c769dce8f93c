-- ===== src/Hooks/Run/Calls.antt =====
-- src/modules/Hooks.ts: what a call of a hook does on each path.
use vitest_swup.Prelude.{
  ◌≡◌, refl, ◌∙◌, ap, String, Bool, true, false, ◌||◌, Option, none, some, List, [], inl, inr,
  string_eq,
}
use vitest_swup.Values.{
  Value, undefined, visit, is_visit, is_object, is_function, as_function, VisitRef, FunctionRef,
  Outcome, returns, throws,
}
use vitest_swup.State.{Swup, Host, HookLedger, HookRegistration, Outcome-cases}
use vitest_swup.Prelude.Dict
use vitest_swup.Hooks.Handlers.{Handlers, handlers_of}
use vitest_swup.Hooks.Handlers.Partition.{get_handlers_found}
use vitest_swup.Hooks.Run.{
  CallArgs, parse_call_args, is_done, or_current, run_sync, run_loop, run_as_promise, run_direct,
  dispatch_dom_event, call, call_sync, call_handlers, call_handlers_sync,
}
use vitest_swup.Hooks.Run.Loop.{Caller, run_loop_done, run_loop_returns}

-- For arguments that are neither a visit nor a function, and where the arguments are an object (or
-- null) or the handler is a function: a call in the legacy order, without a visit, is read as the
-- call in the present order with `undefined` for the visit, and a call with a visit is read as it
-- stands.
pub parse_call_args_orders :
    (args handler : Value) (v : VisitRef)
    → is_visit args ≡ false
    → is_function args ≡ false
    → (is_object args || is_function handler) ≡ true
    → (parse_call_args args handler undefined ≡ parse_call_args undefined args handler)
      × (parse_call_args undefined args handler
          ≡ record { visit = none; args = args; default_handler = as_function handler })
      × (parse_call_args (visit v) args handler
          ≡ record { visit = some v; args = args; default_handler = as_function handler })
unfolding parse_call_args
parse_call_args_orders args handler v a f o = rw (a, f, o) (refl, refl, refl)

-- An error at another type of results.
recast : Outcome Value × Swup → Outcome (List Value) × Swup
recast (returns _, s) = (returns [], s)
recast (throws error, s) = (throws error, s)

parse_undefined :
    (args handler : Value)
    → is_function args ≡ false
    → parse_call_args undefined args handler
      ≡ record { visit = none; args = args; default_handler = as_function handler }
unfolding parse_call_args
parse_undefined args handler p = rw p

module _ (host : Host) where
  -- While the visit is done, no row of handlers does anything.
  done_rows :
      (one : Caller) (v : Option VisitRef) (args : Value) (rethrow : Bool)
      → (rs : List HookRegistration) (s : Swup) → is_done (or_current v s) s ≡ true
      → run_loop host one rs (or_current v s) args rethrow s ≡ (returns [], s)
  done_rows one v args rethrow rs s d = run_loop_done host one (or_current v s) args rethrow rs s d

  call_handlers_sync_done :
      (hook : String) (a : CallArgs) (h : Handlers) (s : Swup)
      → is_done (or_current a.visit s) s ≡ true
      → call_handlers_sync host hook a h s
        ≡ (returns undefined, dispatch_dom_event host hook a.visit a.args s)
  unfolding call_handlers_sync
  call_handlers_sync_done hook a h s d = rw (
    done_rows (run_direct host) a.visit a.args false h.before s d,
    done_rows (run_direct host) a.visit a.args true h.handler s d,
    done_rows (run_direct host) a.visit a.args false h.after s d,
  )

  call_handlers_done :
      (hook : String) (a : CallArgs) (h : Handlers) (s : Swup)
      → ((t : Swup) → host.pass t ≡ t)
      → is_done (or_current a.visit s) s ≡ true
      → call_handlers host hook a h s
        ≡ (returns undefined, dispatch_dom_event host hook a.visit a.args s)
  unfolding call_handlers
  call_handlers_done hook a h s quiet d = rw (
    done_rows (run_as_promise host) a.visit a.args false h.before s d,
    quiet s,
    done_rows (run_as_promise host) a.visit a.args true h.handler s d,
    quiet s,
    done_rows (run_as_promise host) a.visit a.args false h.after s d,
    quiet s,
  )

  -- A call of a hook that exists, without a visit and with arguments that are not a function,
  -- while the current visit is done: no handler is called, the default handler included, the
  -- result is `undefined`, and still the DOM events are dispatched. For `call` this is stated
  -- where no other task does anything meanwhile.
  pub call_current_done :
      (hook : String) (args handler : Value) (s : Swup) {ledger : HookLedger}
      → Dict.get hook s.registry ≡ some ledger
      → is_function args ≡ false
      → ((t : Swup) → host.pass t ≡ t)
      → is_done s.visit s ≡ true
      → (call_sync host hook undefined args handler s
          ≡ (returns undefined, dispatch_dom_event host hook none args s))
        × (call host hook undefined args handler s
            ≡ (returns undefined, dispatch_dom_event host hook none args s))
  unfolding call call_sync
  call_current_done hook args handler s {ledger} e plain quiet d =
      let a : CallArgs = record {
        visit = none;
        args = args;
        default_handler = as_function handler;
      } in
      rw (parse_undefined args handler plain, get_handlers_found hook (as_function handler) s e)
        (
          call_handlers_sync_done hook a (handlers_of (some ledger) hook a.default_handler) s d,
          call_handlers_done hook a (handlers_of (some ledger) hook a.default_handler) s quiet d,
        )

  -- A call of a hook that exists, for a visit that is done: no handler is called, the default handler
  -- included, no DOM event is dispatched, and the result is `undefined`, where no other task does anything
  -- meanwhile.
  pub call_done :
      (hook : String) (v : VisitRef) (args handler : Value) (s : Swup) {ledger : HookLedger}
      → Dict.get hook s.registry ≡ some ledger
      → ((t : Swup) → host.pass t ≡ t)
      → is_done v s ≡ true
      → call host hook (visit v) args handler s ≡ (returns undefined, s)
  unfolding call parse_call_args dispatch_dom_event
  call_done hook v args handler s {ledger} e quiet d =
      let a = parse_call_args (visit v) args handler in
      rw (get_handlers_found hook a.default_handler s e) (
        call_handlers_done hook a (handlers_of (some ledger) hook a.default_handler) s quiet d
        ∙ rw (d, dispatch_dom_event) refl)

  -- If `callSync` throws, then the handlers before the main one have returned and the main one has
  -- thrown that error; what is left is the instance at that point, so neither the handlers after
  -- it have run nor have the DOM events been dispatched.
  pub call_handlers_sync_throws :
      (hook : String) (a : CallArgs) (h : Handlers) (s s' : Swup) (error : Value)
      → call_handlers_sync host hook a h s ≡ (throws error, s')
      → (results : List Value) × (t : Swup) × (run_sync host h.before a.visit a.args false s
          ≡ (returns results, t))
        × (run_sync host h.handler a.visit a.args true t ≡ (throws error, s'))
  unfolding call_handlers_sync recast
  call_handlers_sync_throws hook a h s s' error e =
      let (results, t, ran) = returned h.before s in
      elim (Outcome-cases (run_loop host one h.handler (or_current a.visit t) a.args true t)) [
        | inl (values, u, main) ↦
            let (others, w, rest) = returned h.after u in
            absurd (cc (rw rest at (rw main at (rw ran at e))))
        | inr (error', u, main) ↦ (results, t, ran, main ∙ ap recast (rw main at (rw ran at e)))
      ]
    where
      one : Caller
      one = run_direct host

      returned :
          (rs : List HookRegistration) (q : Swup)
          → (results : List Value) × (q' : Swup) × (run_loop host one rs
                (or_current a.visit q)
                a.args
                false
                q
              ≡ (returns results, q'))
      returned rs q = run_loop_returns host one (or_current a.visit q) a.args rs q

  -- In a synchronous call with a visit: where the handlers before the main one leave the visit
  -- done, the main handler is not called and neither are those after it, no DOM event is
  -- dispatched, and the result is `undefined`.
  pub call_handlers_sync_aborted :
      (hook : String) (v : VisitRef) (args : Value) (d : Option FunctionRef) (h : Handlers)
      → (s t : Swup) (results : List Value)
      → run_sync host h.before (some v) args false s ≡ (returns results, t)
      → is_done v t ≡ true
      → call_handlers_sync host hook
          (record { visit = some v; args = args; default_handler = d })
          h
          s
        ≡ (returns undefined, t)
  unfolding call_handlers_sync
  call_handlers_sync_aborted hook v args d h s t results e done = rw (
    e,
    done_rows (run_direct host) (some v) args true h.handler t done,
    done_rows (run_direct host) (some v) args false h.after t done,
    dispatch_dom_event,
    done,
  )

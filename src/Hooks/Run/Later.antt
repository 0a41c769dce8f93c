-- ===== src/Hooks/Run/Later.antt =====
-- src/modules/Hooks.ts: an asynchronous call with a default handler of the library's, for a hook without
-- handlers.
use vitest_swup.Prelude.{
  ◌≡◌, refl, ◌∙◌, ap, nat_eq, beq_refl, string_eq, true, false, String, some, List, [], ◌∷◌,
  if◌then◌else◌,
}
use vitest_swup.Prelude.Dict
use vitest_swup.Values.{Value, visit, function, FunctionRef, VisitRef, Outcome, returns, throws}
use vitest_swup.State.{Swup, Host, M, ◌>>=◌, ◌>>◌, and_then, pure, modify}
use vitest_swup.Hooks.Handlers.{default_registration, handlers_of}
use vitest_swup.Hooks.Handlers.Partition.{get_handlers_found}
use vitest_swup.Hooks.Run.{
  parse_call_args, is_done, is_promise, await, run_loop, run, run_as_promise, dispatch_dom_event,
  call, call_handlers, settle_round, first,
}
use vitest_swup.Hooks.Run.Loop.{loop_round}
use vitest_swup.Hooks.Run.Default.{Closure, with_closure}

-- What a promise that has been returned settles with.
abbrev pub settled : Host → Outcome Value × Swup → Outcome Value × Swup
settled host x =
    and_then x (λ result. if is_promise host result then host.settle result else pure result)

-- What is left of a call once the promise of the default handler has settled.
abbrev pub finished_later :
    Host → String → VisitRef → Value → Outcome Value × Swup → Outcome Value × Swup
finished_later host hook v args (returns result, s) = (
  returns result,
  dispatch_dom_event host hook (some v) args (host.pass (host.pass (host.pass s))),
)
finished_later host hook v args (throws error, s) = (throws error, host.pass (host.pass s))

-- The row of handlers that has the default handler alone.
abbrev row : Host → Outcome Value × Swup → Outcome (List Value) × Swup
row host (returns result, s) = (returns (result ∷ []), host.pass s)
row host (throws error, s) = (throws error, host.pass s)

run-default :
    (host : Host) (hook : String) (v : VisitRef) (args : Value) (f : FunctionRef)
    (closure : Closure)
    → (s : Swup) → is_done v s ≡ false
    → run (with_closure f closure host) (default_registration hook f ∷ []) (some v) args true s
      ≡ row host (settled host (closure (some v) args s))
unfolding run_loop run_as_promise run
run-default host hook v args f closure s d =
    loop_round linked (run_as_promise linked) v args true (default_registration hook f) [] s d
    ∙ rw (beq_refl f) (kept (settled host (closure (some v) args s)))
  where
    linked : Host
    linked = with_closure f closure host

    kept :
        (x : Outcome Value × Swup)
        → settle_round true hook
            (run_loop linked (run_as_promise linked) [] v args true)
            (x.0, host.pass x.1)
          ≡ row host x
    kept (returns result, t) = refl
    kept (throws error, t) = refl

-- An asynchronous call of a hook that exists and has no handlers, with a default handler, for a visit
-- that is not done once the call has begun: the default handler is called once, with the visit and the arguments.
-- If it throws, or the promise that it returns is rejected, the call throws that error. Otherwise the call
-- returns what it returns, or what its promise is resolved with, after the DOM events for the visit.
pub call-default :
    (host : Host) (hook : String) (v : VisitRef) (args : Value) (f : FunctionRef)
    (closure : Closure)
    → (s : Swup) → Dict.get hook s.registry ≡ some []
    → is_done v (host.pass s) ≡ false
    → call (with_closure f closure host) hook (visit v) args (function f) s
      ≡ finished_later
          (with_closure f closure host)
          hook
          v
          args
          (settled host (closure (some v) args (host.pass s)))
unfolding call call_handlers run handlers_of parse_call_args run_loop run_as_promise
call-default host hook v args f closure s e d = rw (get_handlers_found hook (some f) s e) (
    ap (λ x. and_then (passed x) rest) (run-default host hook v args f closure (host.pass s) d)
    ∙ ended (settled host (closure (some v) args (host.pass s))))
  where
    linked : Host
    linked = with_closure f closure host

    passed : Outcome (List Value) × Swup → Outcome (List Value) × Swup
    passed x = (x.0, host.pass x.1)

    rest : List Value → M Value
    rest results = do
      _ ← await linked (run linked [] (some v) args false)
      modify (dispatch_dom_event linked hook (some v) args)
      pure (first results)

    ended :
        (x : Outcome Value × Swup)
        → and_then (passed (row host x)) rest ≡ finished_later linked hook v args x
    ended (returns result, t) = refl
    ended (throws error, t) = refl

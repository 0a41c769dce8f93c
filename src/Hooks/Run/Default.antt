-- ===== src/Hooks/Run/Default.antt =====
-- src/modules/Hooks.ts: a call with a default handler of the library's, for a hook without handlers.
use vitest_swup.Prelude.{
  Bool-cases, inl, inr, ◌≡◌, refl, ◌∙◌, ap, ◌==◌, nat_eq, beq_refl, string_eq, true, false, String,
  Option, some, List, [], ◌∷◌, if◌then◌else◌, ◌&◌,
}
use vitest_swup.Prelude.Dict
use vitest_swup.Values.{Value, visit, function, FunctionRef, VisitRef, Outcome, returns, throws}
use vitest_swup.State.{Swup, Host, HookEventDetail, M, ◌>>=◌, ◌>>◌, and_then, pure, modify, log}
use vitest_swup.Hooks.Handlers.{default_registration, handlers_of}
use vitest_swup.Hooks.Handlers.Partition.{get_handlers_found}
use vitest_swup.Hooks.Run.{
  parse_call_args, is_done, is_promise, run_loop, run_sync, run_direct, dispatch_dom_event,
  call_sync, call_handlers_sync, settle_round, first,
}
use vitest_swup.Hooks.Run.Loop.{loop_round}

-- A closure of the library's, under an identity of its own, besides the functions of users.
abbrev pub Closure : Type 0
Closure = Option VisitRef → Value → M Value

abbrev pub with_closure : FunctionRef → Closure → Host → Host
with_closure f closure host = record host {
  invoke = λ g v args default_handler.
      if f == g then closure v args else host.invoke g v args default_handler;
}

-- What is left of a call once the default handler has ended.
abbrev pub finished : Host → String → VisitRef → Value → Outcome Value × Swup → Outcome Value × Swup
finished host hook v args (returns result, s) = (
  returns result,
  dispatch_dom_event host hook (some v) args (
      if is_promise host result
      then log ("Swup will not await Promises in handler for synchronous hook '" & hook & "'.") s
      else s),
)
finished host hook v args (throws error, s) = (throws error, s)

-- The row of handlers that has the default handler alone.
abbrev row : Host → String → Outcome Value × Swup → Outcome (List Value) × Swup
row host hook (returns result, s) = (
  returns (result ∷ []),
  if is_promise host result
      then log ("Swup will not await Promises in handler for synchronous hook '" & hook & "'.") s
      else s,
)
row host hook (throws error, s) = (throws error, s)

run_sync-default :
    (host : Host) (hook : String) (v : VisitRef) (args : Value) (f : FunctionRef)
    (closure : Closure)
    → (s : Swup) → is_done v s ≡ false
    → run_sync (with_closure f closure host) (default_registration hook f ∷ []) (some v) args true s
      ≡ row (with_closure f closure host) hook (closure (some v) args s)
unfolding run_loop run_direct run_sync
run_sync-default host hook v args f closure s d =
    loop_round linked (run_direct linked) v args true (default_registration hook f) [] s d
    ∙ (rw (beq_refl f) (settled (closure (some v) args s)))
  where
    linked : Host
    linked = with_closure f closure host

    settled :
        (x : Outcome Value × Swup)
        → settle_round true hook (run_loop linked (run_direct linked) [] v args true) (
            and_then x (λ result t. (
              returns result,
              if is_promise linked result
                  then log
                      ("Swup will not await Promises in handler for synchronous hook '" & hook
                        & "'.")
                      t
                  else t,
            )))
          ≡ row linked hook x
    settled (returns result, t) = refl
    settled (throws error, t) = refl

-- A synchronous call for a visit that is not done, with a default handler, of a hook that exists and has
-- no handlers: the default handler is called once, with the visit and the arguments. If it throws, the
-- call throws that error. Otherwise the call returns its result, after the DOM events for the visit, and
-- after a warning if the result is a promise.
pub call_sync-default :
    (host : Host) (hook : String) (v : VisitRef) (args : Value) (f : FunctionRef)
    (closure : Closure)
    → (s : Swup) → Dict.get hook s.registry ≡ some []
    → is_done v s ≡ false
    → call_sync (with_closure f closure host) hook (visit v) args (function f) s
      ≡ finished (with_closure f closure host) hook v args (closure (some v) args s)
unfolding call_sync call_handlers_sync run_sync handlers_of parse_call_args run_loop run_direct
call_sync-default host hook v args f closure s e d = rw (get_handlers_found hook (some f) s e) (
    ap (λ x. and_then x rest) (run_sync-default host hook v args f closure s d)
    ∙ ended (closure (some v) args s))
  where
    linked : Host
    linked = with_closure f closure host

    rest : List Value → M Value
    rest results = do
      _ ← run_sync linked [] (some v) args false
      modify (dispatch_dom_event linked hook (some v) args)
      pure (first results)

    ended :
        (x : Outcome Value × Swup)
        → and_then (row linked hook x) rest ≡ finished linked hook v args x
    ended (returns result, t) = refl
    ended (throws error, t) = refl

-- No listener does anything to the instance.
pub dispatch-calm :
    (host : Host) (hook : String) (v : VisitRef) (args : Value) (s : Swup)
    → ((name : String) (detail : HookEventDetail) (t : Swup) → host.dispatch name detail t ≡ t)
    → dispatch_dom_event host hook (some v) args s ≡ s
unfolding dispatch_dom_event
dispatch-calm host hook v args s calm = elim (Bool-cases (is_done v s)) [
  | inl d ↦ rw (d, dispatch_dom_event) refl
  | inr d ↦ rw (d, dispatch_dom_event) (calm _ _ _ ∙ calm _ _ _)
]

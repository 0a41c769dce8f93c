-- ===== src/Hooks/Run.antt =====
-- src/modules/Hooks.ts: `call` and `callSync`, which run the handlers of a hook.
pub mod Loop
pub mod Calls
pub mod Once
pub mod Frame
pub mod Default
pub mod Later
use vitest_swup.Prelude.{
  String, Bool, true, false, not, ◌&&◌, ◌||◌, Option, none, some, List, [], ◌∷◌, if◌then◌else◌, ◌&◌,
}
use vitest_swup.Values.{
  Value, undefined, null, VisitRef, FunctionRef, Outcome, returns, throws, is_visit, is_object,
  is_function, as_visit, as_function,
}
use vitest_swup.Visit.{done}
use vitest_swup.State.{
  Swup, Host, HookRegistration, HookEventDetail, M, ◌>>=◌, ◌>>◌, pure, modify, log,
}
use vitest_swup.Hooks.Registry.{off}
use vitest_swup.Hooks.Handlers.{Handlers, get_handlers}

-- The parsed arguments of a call.
pub record CallArgs : Type 0 where
  pub visit : Option VisitRef
  pub args : Value
  pub default_handler : Option FunctionRef

abbrev is_legacy_order : Value → Value → Bool
is_legacy_order arg1 arg2 = not (is_visit arg1) && (is_object arg1 || is_function arg2)

unfoldable pub parse_call_args : Value → Value → Value → CallArgs
parse_call_args arg1 arg2 arg3 =
    if is_legacy_order arg1 arg2
    then record { visit = none; args = arg1; default_handler = as_function arg2 }
    else record { visit = as_visit arg1; args = arg2; default_handler = as_function arg3 }

-- The default parameter `visit = this.swup.visit`.
abbrev pub or_current : Option VisitRef → Swup → VisitRef
or_current none s = s.visit
or_current (some v) s = v

-- `visit?.done`
abbrev pub is_done : VisitRef → Swup → Bool
is_done v s = done (s.visits v)

-- The `if (once) this.off(hook, handler)` before a handler runs.
abbrev pub forget_once : HookRegistration → Swup → Swup
forget_once r s = if r.once then off r.hook (some r.handler) s else s

-- The `catch`: an error is passed on, or reported and dropped.
abbrev pub add_result : Value → M (List Value) → M (List Value)
add_result result rest = rest >>= λ results. pure (result ∷ results)

-- The error is rethrown, or it is reported and the loop goes on with `rest`.
abbrev pub recover : Bool → String → Value → M (List Value) → M (List Value)
recover true hook error rest s = (throws error, s)
recover false hook error rest s = rest (log ("Error in hook '" & hook & "':") s)

-- The `try` of one round: `result` is what the handler ended with.
abbrev pub settle_round :
    Bool → String → M (List Value) → Outcome Value × Swup → Outcome (List Value) × Swup
settle_round rethrow hook rest (returns result, s) = add_result result rest s
settle_round rethrow hook rest (throws error, s) = recover rethrow hook error rest s

-- `const [result] = results`
abbrev pub first : List Value → Value
first [] = undefined
first (result ∷ _) = result

module _ (host : Host) where
  -- `isPromise`: of `null` and `undefined` the `then` is not read.
  abbrev pub is_promise : Value → Bool
  is_promise null = false
  is_promise value = (is_object value || is_function value) && host.has_then value

  -- An `await`: other tasks run before its outcome is there.
  abbrev pub await {ℓ} : {A : Type ℓ} → M A → M A
  await m s = let (outcome, s') = m s in (outcome, host.pass s')

  -- `await runAsPromise(handler, args)`: a promise that the handler returns is awaited, and what it
  -- throws at once rejects the promise.
  unfoldable pub run_as_promise : HookRegistration → Option VisitRef → Value → M Value
  run_as_promise r visit args = await (do
    result ← host.invoke r.handler visit args r.default_handler
    if is_promise result then host.settle result else pure result)

  -- The call of one handler without `await`, with the warning about promises.
  unfoldable pub run_direct : HookRegistration → Option VisitRef → Value → M Value
  run_direct r visit args = do
    result ← host.invoke r.handler visit args r.default_handler
    λ s. (
      returns result,
      if is_promise result
          then log
              ("Swup will not await Promises in handler for synchronous hook '" & r.hook & "'.") s
          else s,
    )

  -- The loop of `run` and `runSync`, which differ in how one handler is called. A `continue` goes
  -- on with the rest.
  unfoldable pub run_loop :
      (HookRegistration → Option VisitRef → Value → M Value)
      → List HookRegistration
      → VisitRef
      → Value
      → Bool
      → M (List Value)
  run_loop one [] visit args rethrow s = (returns [], s)
  run_loop one (r ∷ rs) visit args rethrow s =
      let rest = run_loop one rs visit args rethrow in
      elim (is_done visit s) [
        | true ↦ rest s
        | false ↦ settle_round rethrow r.hook rest (one r (some visit) args (forget_once r s))
      ]

  unfoldable pub run : List HookRegistration → Option VisitRef → Value → Bool → M (List Value)
  unfolding run_loop run_as_promise
  run rs visit args rethrow s = run_loop run_as_promise rs (or_current visit s) args rethrow s

  unfoldable pub run_sync : List HookRegistration → Option VisitRef → Value → Bool → M (List Value)
  unfolding run_loop run_direct
  run_sync rs visit args rethrow s = run_loop run_direct rs (or_current visit s) args rethrow s

  unfoldable pub dispatch_dom_event : String → Option VisitRef → Value → Swup → Swup
  dispatch_dom_event hook none args s =
      let detail : HookEventDetail = record { hook = hook; args = args; visit = s.visit } in
      host.dispatch ("swup:" & hook) detail (host.dispatch "swup:any" detail s)
  dispatch_dom_event hook (some v) args s =
      let detail : HookEventDetail = record { hook = hook; args = args; visit = v } in
      elim (is_done v s) [
        | true ↦ s
        | false ↦ host.dispatch ("swup:" & hook) detail (host.dispatch "swup:any" detail s)
      ]

  -- The body of `call`, once the arguments are parsed and the handlers are found.
  unfoldable pub call_handlers : String → CallArgs → Handlers → M Value
  unfolding run dispatch_dom_event
  call_handlers hook a h = do
    _ ← await (run h.before a.visit a.args false)
    results ← await (run h.handler a.visit a.args true)
    _ ← await (run h.after a.visit a.args false)
    modify (dispatch_dom_event hook a.visit a.args)
    pure (first results)

  unfoldable pub call : String → Value → Value → Value → M Value
  call hook arg1 arg2 arg3 s =
      let a = parse_call_args arg1 arg2 arg3 in
      let (h, s') = get_handlers hook a.default_handler s in call_handlers hook a h s'

  -- The body of `callSync`, likewise.
  unfoldable pub call_handlers_sync : String → CallArgs → Handlers → M Value
  unfolding run_sync dispatch_dom_event
  call_handlers_sync hook a h = do
    _ ← run_sync h.before a.visit a.args false
    results ← run_sync h.handler a.visit a.args true
    _ ← run_sync h.after a.visit a.args false
    modify (dispatch_dom_event hook a.visit a.args)
    pure (first results)

  unfoldable pub call_sync : String → Value → Value → Value → M Value
  call_sync hook arg1 arg2 arg3 s =
      let a = parse_call_args arg1 arg2 arg3 in
      let (h, s') = get_handlers hook a.default_handler s in call_handlers_sync hook a h s'

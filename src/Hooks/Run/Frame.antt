-- ===== src/Hooks/Run/Frame.antt =====
-- src/modules/Hooks.ts: what a call of a hook leaves alone, whatever the handlers are.
use vitest_swup.Prelude.{
  String, Bool, true, false, Option, none, some, List, [], ◌∷◌, inl, inr, Bool-cases, Option-cases,
  if◌then◌else◌, ◌&◌, string_eq, nat_eq,
}
use vitest_swup.Prelude.Dict
use vitest_swup.Values.{Value, FunctionRef, VisitRef, Outcome, returns, throws}
use vitest_swup.State.{
  Swup, Host, Callee, HookEventDetail, HookRegistration, HookRegistry, M, log, pure, modify, ◌>>=◌,
  ◌>>◌, and_then,
}
use vitest_swup.Hooks.Registry.{off, get}
use vitest_swup.Hooks.Registry.Laws.{off-found, off-missing}
use vitest_swup.Hooks.Handlers.{Handlers, get_handlers}
use vitest_swup.Hooks.Run.{
  CallArgs, parse_call_args, is_done, or_current, forget_once, run_loop, run_as_promise, run_direct,
  is_promise, dispatch_dom_event, call, call_sync, call_handlers, call_handlers_sync, settle_round,
  await, run, run_sync, first,
}
use vitest_swup.Hooks.Run.Loop.{Caller, loop_skip, loop_round, after_round}

-- A property of the instance that does not look at the console or at the registry of hooks.
pub record IsFramed (P : Swup → Type 0) : Type 0 where
  pub console : (s : Swup) (c : List String) → P s → P (record s { console = c })
  pub registry : (s : Swup) (r : HookRegistry) → P s → P (record s { registry = r })

-- The functions that users have passed in, and the listeners on the document, keep it.
pub record IsKept (host : Host) (P : Swup → Type 0) : Type 0 where
  pub framed : IsFramed P
  pub invoke :
      (f : FunctionRef) (v : Option VisitRef) (args : Value) (d : Option Callee) (s : Swup)
      → P s
      → P (host.invoke f v args d s).1
  pub settle : (v : Value) (s : Swup) → P s → P (host.settle v s).1
  pub pass : (s : Swup) → P s → P (host.pass s)
  pub dispatch :
      (name : String) (detail : HookEventDetail) (s : Swup) → P s → P (host.dispatch name detail s)

-- A computation keeps a property.
abbrev pub Keeps {ℓ} : {A : Type ℓ} → (Swup → Type 0) → M A → Type 0
Keeps P m = (s : Swup) → P s → P (m s).1

pub and_then-Keeps {ℓ κ} :
    {A : Type ℓ} {B : Type κ} (P : Swup → Type 0) (x : Outcome A × Swup) (f : A → M B)
    → P x.1
    → ((a : A) (t : Swup) → P t → P (f a t).1)
    → P (and_then x f).1
and_then-Keeps P (returns a, s) f p h = h a s p
and_then-Keeps P (throws e, s) f p h = p

module _ (host : Host) (P : Swup → Type 0) (k : IsKept host P) where
  off-Keeps : (hook : String) (f : FunctionRef) (s : Swup) → P s → P (off hook (some f) s)
  off-Keeps hook f s p = elim (Option-cases (Dict.get hook s.registry)) [
    | inl e ↦ rw (off-missing hook (some f) s e) (k.framed.console _ _ p)
    | inr (ledger, e) ↦
        let q = k.framed.registry s (Dict.set hook (Dict.delete f ledger) s.registry) p in
        elim (Bool-cases (Dict.has f ledger)) [
          | inl h ↦ rw (off-found hook f s e, h) q
          | inr h ↦ rw (off-found hook f s e, h) (k.framed.console _ _ q)
        ]
  ]

  forget_once-Keeps : (r : HookRegistration) (s : Swup) → P s → P (forget_once r s)
  forget_once-Keeps r s p = either r.once
    where
      either : (b : Bool) → P (if b then off r.hook (some r.handler) s else s)
      either true = off-Keeps r.hook r.handler s p
      either false = p

  -- How one handler is called keeps the property too.
  run_direct-Keeps :
      (r : HookRegistration) (v : Option VisitRef) (args : Value)
      → Keeps P (run_direct host r v args)
  unfolding run_direct
  run_direct-Keeps r v args s p =
      and_then-Keeps P (host.invoke r.handler v args r.default_handler s) _
        (k.invoke r.handler v args r.default_handler s p)
        (λ result t q. warned (is_promise host result) t q)
    where
      warned :
          (b : Bool) (t : Swup)
          → P t
          → P (
              if b
              then log
                  ("Swup will not await Promises in handler for synchronous hook '" & r.hook & "'.")
                  t
              else t)
      warned true t q = k.framed.console _ _ q
      warned false t q = q

  run_as_promise-Keeps :
      (r : HookRegistration) (v : Option VisitRef) (args : Value)
      → Keeps P (run_as_promise host r v args)
  unfolding run_as_promise
  run_as_promise-Keeps r v args s p = k.pass _ (
      and_then-Keeps P (host.invoke r.handler v args r.default_handler s) _
        (k.invoke r.handler v args r.default_handler s p)
        (λ result t q. settled result (is_promise host result) t q))
    where
      settled :
          (result : Value) (b : Bool) (t : Swup)
          → P t
          → P ((if b then host.settle result else pure result) t).1
      settled result true t q = k.settle result t q
      settled result false t q = q

  after_round-Keeps : (name : String) (x : Outcome Value × Swup) → P x.1 → P (after_round name x)
  after_round-Keeps name (returns result, s) p = p
  after_round-Keeps name (throws error, s) p = k.framed.console _ _ p

  settle_round-Keeps :
      (rethrow : Bool) (name : String) (rest : M (List Value)) (x : Outcome Value × Swup)
      → Keeps P rest
      → P x.1
      → P (settle_round rethrow name rest x).1
  settle_round-Keeps rethrow name rest (returns result, s) h p =
      and_then-Keeps P (rest s) _ (h s p) (λ results t q. q)
  settle_round-Keeps true name rest (throws error, s) h p = p
  settle_round-Keeps false name rest (throws error, s) h p = h _ (k.framed.console _ _ p)

  run_loop-Keeps :
      (one : Caller)
      → ((r : HookRegistration) (v : Option VisitRef) (args : Value) → Keeps P (one r v args))
      → (rs : List HookRegistration) (v : VisitRef) (args : Value) (rethrow : Bool)
      → Keeps P (run_loop host one rs v args rethrow)
  run_loop-Keeps one keeps [] v args rethrow s p = unfold run_loop in p
  run_loop-Keeps one keeps (r ∷ rs) v args rethrow s p = elim (Bool-cases (is_done v s)) [
    | inl d ↦
        rw (loop_skip host one v args rethrow r rs s d)
          (run_loop-Keeps one keeps rs v args rethrow s p)
    | inr d ↦ rw (loop_round host one v args rethrow r rs s d) (
        settle_round-Keeps rethrow r.hook (run_loop host one rs v args rethrow)
          (one r (some v) args (forget_once r s)) (run_loop-Keeps one keeps rs v args rethrow)
          (keeps r (some v) args (forget_once r s) (forget_once-Keeps r s p)))
  ]

  pub dispatch-Keeps :
      (hook : String) (v : Option VisitRef) (args : Value) (s : Swup)
      → P s
      → P (dispatch_dom_event host hook v args s)
  unfolding dispatch_dom_event
  dispatch-Keeps hook none args s p = k.dispatch _ _ _ (k.dispatch _ _ _ p)
  dispatch-Keeps hook (some v) args s p = elim (Bool-cases (is_done v s)) [
    | inl d ↦ rw (d, dispatch_dom_event) p
    | inr d ↦ rw (d, dispatch_dom_event) (k.dispatch _ _ _ (k.dispatch _ _ _ p))
  ]

  -- Three rows of handlers, and the DOM events.
  rows-keep :
      (m₁ m₂ m₃ : M (List Value)) (end : Swup → Swup)
      → Keeps P m₁
      → Keeps P m₂
      → Keeps P m₃
      → ((s : Swup) → P s → P (end s))
      → Keeps P (do _ ← m₁; results ← m₂; _ ← m₃; modify end; pure (first results))
  rows-keep m₁ m₂ m₃ end h₁ h₂ h₃ h s p =
      and_then-Keeps P (m₁ s)
        (λ _. m₂ >>= λ results. m₃ >>= λ _. modify end >> pure (first results)) (h₁ s p)
        (λ _ t q.
          and_then-Keeps P (m₂ t) (λ results. m₃ >>= λ _. modify end >> pure (first results))
            (h₂ t q)
            (λ results u o.
              and_then-Keeps P (m₃ u) (λ _. modify end >> pure (first results)) (h₃ u o)
                (λ _ w n. h w n)))

  call_handlers_sync-Keeps :
      (hook : String) (a : CallArgs) (h : Handlers) → Keeps P (call_handlers_sync host hook a h)
  unfolding call_handlers_sync
  call_handlers_sync-Keeps hook a h =
      rows-keep (run_sync host h.before a.visit a.args false)
        (run_sync host h.handler a.visit a.args true) (run_sync host h.after a.visit a.args false)
        (dispatch_dom_event host hook a.visit a.args) (row h.before false) (row h.handler true)
        (row h.after false) (dispatch-Keeps hook a.visit a.args)
    where
      row :
          (rs : List HookRegistration) (rethrow : Bool)
          → Keeps P (run_sync host rs a.visit a.args rethrow)
      row rs rethrow t q =
          run_loop-Keeps (run_direct host) run_direct-Keeps rs (or_current a.visit t) a.args rethrow
            t q

  call_handlers-Keeps :
      (hook : String) (a : CallArgs) (h : Handlers) → Keeps P (call_handlers host hook a h)
  unfolding call_handlers
  call_handlers-Keeps hook a h =
      rows-keep (await host (run host h.before a.visit a.args false))
        (await host (run host h.handler a.visit a.args true))
        (await host (run host h.after a.visit a.args false))
        (dispatch_dom_event host hook a.visit a.args) (row h.before false) (row h.handler true)
        (row h.after false) (dispatch-Keeps hook a.visit a.args)
    where
      row :
          (rs : List HookRegistration) (rethrow : Bool)
          → Keeps P (await host (run host rs a.visit a.args rethrow))
      row rs rethrow t q = k.pass _ (
          run_loop-Keeps (run_as_promise host) run_as_promise-Keeps rs (or_current a.visit t) a.args
            rethrow t q)

  get_handlers-Keeps :
      (hook : String) (d : Option FunctionRef) (s : Swup) → P s → P (get_handlers hook d s).1
  unfolding get_handlers
  get_handlers-Keeps hook d s p = elim (Option-cases (Dict.get hook s.registry)) [
    | inl e ↦ rw (e, get) (k.framed.console _ _ p)
    | inr (ledger, e) ↦ rw (e, get) p
  ]

  -- A call of a hook, of either kind, keeps every property of the instance that does not look at
  -- the console or the registry, and that the functions passed in by users, the promises that they
  -- return, other tasks and the listeners on the document keep.
  pub call-Keeps :
      (hook : String) (arg1 arg2 arg3 : Value)
      → Keeps P (call_sync host hook arg1 arg2 arg3) × Keeps P (call host hook arg1 arg2 arg3)
  unfolding call call_sync
  call-Keeps hook arg1 arg2 arg3 =
      let a = parse_call_args arg1 arg2 arg3 in
      (
        λ s p. call_handlers_sync-Keeps hook a _ _ (get_handlers-Keeps hook a.default_handler s p),
        λ s p. call_handlers-Keeps hook a _ _ (get_handlers-Keeps hook a.default_handler s p),
      )

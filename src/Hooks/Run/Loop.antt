-- ===== src/Hooks/Run/Loop.antt =====
-- src/modules/Hooks.ts: the loop over the handlers, in `run` and `runSync` alike.
use vitest_swup.Prelude.{
  ◌≡◌, refl, ◌∙◌, String, Bool, true, false, Option, some, List, [], ◌∷◌, inl, inr, Bool-cases, ◌&◌,
}
use vitest_swup.Values.{Value, VisitRef, Outcome, returns, throws}
use vitest_swup.State.{Swup, Host, HookRegistration, M, log, Outcome-cases}
use vitest_swup.Hooks.Run.{is_done, forget_once, settle_round, run_loop}

-- How the loop calls one handler.
abbrev pub Caller : Type 0
Caller = HookRegistration → Option VisitRef → Value → M Value

module _ (host : Host) (one : Caller) (v : VisitRef) (args : Value) (rethrow : Bool) where
  -- One round of the loop.
  pub loop_skip :
      (r : HookRegistration) (rs : List HookRegistration) (s : Swup)
      → is_done v s ≡ true
      → run_loop host one (r ∷ rs) v args rethrow s ≡ run_loop host one rs v args rethrow s
  unfolding run_loop
  loop_skip r rs s d = rw (d, run_loop)

  pub loop_round :
      (r : HookRegistration) (rs : List HookRegistration) (s : Swup)
      → is_done v s ≡ false
      → run_loop host one (r ∷ rs) v args rethrow s
        ≡ settle_round rethrow r.hook
            (run_loop host one rs v args rethrow)
            (one r (some v) args (forget_once r s))
  unfolding run_loop
  loop_round r rs s d = rw (d, run_loop)

  -- Once the visit is done no handler is called any more.
  pub run_loop_done :
      (rs : List HookRegistration) (s : Swup)
      → is_done v s ≡ true
      → run_loop host one rs v args rethrow s ≡ (returns [], s)
  unfolding run_loop
  run_loop_done [] s d = refl
  run_loop_done (r ∷ rs) s d = loop_skip r rs s d ∙ run_loop_done rs s d

module _ (host : Host) (one : Caller) (v : VisitRef) (args : Value) where
  -- Without `rethrow`, the loop does not throw, whatever the handlers do.
  pub run_loop_returns :
      (rs : List HookRegistration) (s : Swup)
      → (results : List Value) × (s' : Swup) × (run_loop host one rs v args false s
          ≡ (returns results, s'))
  unfolding run_loop
  run_loop_returns [] s = ([], s, refl)
  run_loop_returns (r ∷ rs) s = elim (Bool-cases (is_done v s)) [
    | inl d ↦
        let (results, s', e) = run_loop_returns rs s in
        (results, s', loop_skip host one v args false r rs s d ∙ e)
    | inr d ↦ elim (Outcome-cases (one r (some v) args (forget_once r s))) [
      | inl (result, t, e) ↦
          let (results, s', f) = run_loop_returns rs t in
          (result ∷ results, s', loop_round host one v args false r rs s d ∙ rw e (rw f refl))
      | inr (error, t, e) ↦
          let (results, s', f) = run_loop_returns rs (log ("Error in hook '" & r.hook & "':") t) in
          (results, s', loop_round host one v args false r rs s d ∙ rw e (rw f refl))
    ]
  ]

  -- A handler after whose call the visit is done is the last one that is called.
  pub run_loop_last :
      (r : HookRegistration) (rs : List HookRegistration) (rethrow : Bool) (s t : Swup)
      (result : Value)
      → is_done v s ≡ false
      → one r (some v) args (forget_once r s) ≡ (returns result, t)
      → is_done v t ≡ true
      → run_loop host one (r ∷ rs) v args rethrow s ≡ (returns (result ∷ []), t)
  run_loop_last r rs rethrow s t result d e d' =
      loop_round host one v args rethrow r rs s d
      ∙ rw e (rw (run_loop_done host one v args rethrow rs t d') refl)

  -- With `rethrow`, the first error ends the loop.
  pub run_loop_rethrows :
      (r : HookRegistration) (rs : List HookRegistration) (s t : Swup) (error : Value)
      → is_done v s ≡ false
      → one r (some v) args (forget_once r s) ≡ (throws error, t)
      → run_loop host one (r ∷ rs) v args true s ≡ (throws error, t)
  run_loop_rethrows r rs s t error d e = loop_round host one v args true r rs s d ∙ rw e refl

-- The instance after one round without `rethrow`: an error leaves a message.
abbrev pub after_round : String → Outcome Value × Swup → Swup
after_round hook (returns result, s) = s
after_round hook (throws error, s) = log ("Error in hook '" & hook & "':") s

settle_round-state :
    (hook : String) (rest : M (List Value)) (x : Outcome Value × Swup)
    → (settle_round false hook rest x).1 ≡ (rest (after_round hook x)).1
settle_round-state hook rest (returns result, s) = elim (Outcome-cases (rest s)) [
  | inl (results, t, e) ↦ rw e
  | inr (error, t, e) ↦ rw e
]
settle_round-state hook rest (throws error, s) = refl

module _ (host : Host) (one : Caller) (v : VisitRef) (args : Value) where
  -- The instance that the loop ends with is that of the remaining rounds.
  pub loop_next :
      (r : HookRegistration) (rs : List HookRegistration) (s : Swup)
      → is_done v s ≡ false
      → (run_loop host one (r ∷ rs) v args false s).1
        ≡ (run_loop host one rs v args false
            (after_round r.hook (one r (some v) args (forget_once r s)))).1
  loop_next r rs s d = rw (loop_round host one v args false r rs s d) (
      settle_round-state r.hook (run_loop host one rs v args false)
        (one r (some v) args (forget_once r s)))

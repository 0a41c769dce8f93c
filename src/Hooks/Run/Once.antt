-- ===== src/Hooks/Run/Once.antt =====
-- src/modules/Hooks.ts: handlers that are registered to run once.
use vitest_swup.Prelude.{
  ◌≡◌, refl, ◌∙◌, subst, String, Bool, true, false, none, some, List, [], ◌∷◌, inl, inr, beq_refl,
  Bool-cases, Option-cases, nat_eq, string_eq, if◌then◌else◌, arith,
}
use mathlib.Core.List.{Memᴰ}
use vitest_swup.Prelude.Dict
use vitest_swup.Values.{Value, VisitRef, FunctionRef, Outcome, returns, throws}
use vitest_swup.State.{Swup, Host, HookRegistration}
use vitest_swup.Hooks.Registry.{off}
use vitest_swup.Hooks.Registry.Laws.{registered, registered-off, off-found, off-missing}
use vitest_swup.Hooks.Run.{is_done, forget_once, run_loop}
use vitest_swup.Hooks.Run.Loop.{Caller, after_round, loop_skip, loop_next}

-- Taking a handler away touches no visit.
is_done-off :
    (v : VisitRef) (hook : String) (f : FunctionRef) (s : Swup)
    → is_done v (off hook (some f) s) ≡ is_done v s
is_done-off v hook f s = elim (Option-cases (Dict.get hook s.registry)) [
  | inl e ↦ rw (off-missing hook (some f) s e)
  | inr (ledger, e) ↦ elim (Bool-cases (Dict.has f ledger)) [
    | inl p ↦ rw (off-found hook f s e, p)
    | inr p ↦ rw (off-found hook f s e, p)
  ]
]

is_done-forget_once :
    (v : VisitRef) (r : HookRegistration) (s : Swup) → is_done v (forget_once r s) ≡ is_done v s
is_done-forget_once v r s = either r.once
  where
    either : (b : Bool) → is_done v (if b then off r.hook (some r.handler) s else s) ≡ is_done v s
    either true = is_done-off v r.hook r.handler s
    either false = refl

-- A handler that is to run once is not registered any more when it is called.
pub registered-forget_once :
    (r : HookRegistration) (s : Swup)
    → r.once ≡ true
    → registered r.hook r.handler (forget_once r s) ≡ none
registered-forget_once r s o =
    ground (
      arith,
      registered-off r.hook r.hook r.handler r.handler s,
      beq_refl r.hook,
      beq_refl r.handler,
    )

forget_once-none :
    (hook : String) (f : FunctionRef) (r : HookRegistration) (s : Swup)
    → registered hook f s ≡ none
    → registered hook f (forget_once r s) ≡ none
forget_once-none hook f r s n = either r.once
  where
    either : (b : Bool) → registered hook f (if b then off r.hook (some r.handler) s else s) ≡ none
    either true = ground (arith, registered-off r.hook hook r.handler f s)
    either false = n

registered-after_round :
    (hook : String) (f : FunctionRef) (name : String) (x : Outcome Value × Swup)
    → registered hook f (after_round name x) ≡ registered hook f x.1
registered-after_round hook f name (returns _, s) = refl
registered-after_round hook f name (throws _, s) = refl

is_done-after_round :
    (v : VisitRef) (name : String) (x : Outcome Value × Swup)
    → is_done v (after_round name x) ≡ is_done v x.1
is_done-after_round v name (returns _, s) = refl
is_done-after_round v name (throws _, s) = refl

module _ (host : Host) (one : Caller) (v : VisitRef) (args : Value) (hook : String)
    (f : FunctionRef)
    -- No handler registers `f` for the hook again, and none ends the visit.
    (keeps : (r : HookRegistration) (s : Swup)
      → registered hook f s ≡ none
      → registered hook f (one r (some v) args s).1 ≡ none)
    (lasts : (r : HookRegistration) (s : Swup)
      → is_done v s ≡ false
      → is_done v (one r (some v) args s).1 ≡ false) where
  -- One round keeps the function unregistered, and the visit going.
  round :
      (r : HookRegistration) (s : Swup)
      → is_done v s ≡ false
      → let x = one r (some v) args (forget_once r s) in
        (registered hook f (forget_once r s) ≡ none
          → registered hook f (after_round r.hook x) ≡ none)
        × (is_done v (after_round r.hook x) ≡ false)
  round r s d =
      let s' = forget_once r s in
      let x = one r (some v) args s' in
      (
        λ n. registered-after_round hook f r.hook x ∙ keeps r s' n,
        is_done-after_round v r.hook x ∙ lasts r s' (is_done-forget_once v r s ∙ d),
      )

  -- What the loop keeps once the function is not registered.
  stays :
      (rs : List HookRegistration) (s : Swup)
      → registered hook f s ≡ none
      → registered hook f (run_loop host one rs v args false s).1 ≡ none
  stays [] s n = unfold run_loop in n
  stays (r ∷ rs) s n = elim (Bool-cases (is_done v s)) [
    | inl d ↦ rw (loop_skip host one v args false r rs s d) (stays rs s n)
    | inr d ↦ rw (loop_next host one v args r rs s d) (
        stays rs (after_round r.hook (one r (some v) args (forget_once r s)))
          ((round r s d).0 (forget_once-none hook f r s n)))
  ]

  -- Handlers are run whose errors are reported, for a visit that is not done; none of them
  -- registers the function `f` for the hook, and none ends the visit. If `f` is registered for the
  -- hook to run once, and its registration is among those that run, then `f` is not registered for
  -- the hook afterwards.
  pub run_loop-once :
      (r : HookRegistration) (rs : List HookRegistration) (s : Swup)
      → Memᴰ r rs
      → r.once ≡ true
      → r.hook ≡ hook
      → r.handler ≡ f
      → is_done v s ≡ false
      → registered hook f (run_loop host one rs v args false s).1 ≡ none
  run_loop-once r [] s m o h g d = elim m [ ]
  run_loop-once r (q ∷ rs) s (Memᴰ.head p) o h g d =
      let n =
        subst (λ x. registered hook f (forget_once x s) ≡ none) p
          (subst (λ k. registered k f (forget_once r s) ≡ none) h
            (subst (λ i. registered r.hook i (forget_once r s) ≡ none) g
              (registered-forget_once r s o))) in
      rw (loop_next host one v args q rs s d)
        (stays rs (after_round q.hook (one q (some v) args (forget_once q s))) ((round q s d).0 n))
  run_loop-once r (q ∷ rs) s (Memᴰ.tail m) o h g d = rw (loop_next host one v args q rs s d) (
      run_loop-once r rs (after_round q.hook (one q (some v) args (forget_once q s))) m o h g
        (round q s d).1)

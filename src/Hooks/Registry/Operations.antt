-- ===== src/Hooks/Registry/Operations.antt =====
-- src/modules/Hooks.ts: the registry after any row of calls.
use vitest_swup.Prelude.{
  ◌≡◌, refl, ◌∙◌, String, true, Option, none, some, List, [], ◌∷◌, length, All, All-map, beq_refl,
  Bool-cases, Option-cases, inl, inr, string_eq, nat_eq, arith,
}
use vitest_swup.Prelude.Dict
use vitest_swup.Prelude.Dict.{Distinct, Entries}
use vitest_swup.Values.{FunctionRef}
use vitest_swup.State.{Swup, HookOptions, HookLedger}
use vitest_swup.Hooks.Registry.{
  core_hooks, exists, create, create_all, init, clear, on, off, registration, set_ledger,
  unregister, HookUnregister, nothing, off_handler,
}
use vitest_swup.Hooks.Registry.Laws.{on-found, on-missing, off-found, off_all-found, off-missing}
use vitest_swup.Hooks.Registry.Invariant.{
  IsValid, create-IsValid, create_all-IsValid, on-IsValid, off-IsValid, clear-IsValid,
}

-- An operation of the registry, with the arguments that it is called with.
pub data Operation : Type 0 where
  created : String → Operation
  added : String → FunctionRef → HookOptions → Operation
  removed : String → Option FunctionRef → Operation
  unregistered : HookUnregister → Operation
  emptied : Operation

unfoldable pub perform : Operation → Swup → Swup
perform (created hook) s = create hook s
perform (added hook f o) s = (on hook f o s).1
perform (removed hook f) s = off hook f s
perform (unregistered u) s = unregister u s
perform emptied s = clear s

unfoldable pub perform_all : List Operation → Swup → Swup
unfolding perform
perform_all [] s = s
perform_all (op ∷ ops) s = perform_all ops (perform op s)

unregister-IsValid : (u : HookUnregister) (s : Swup) → IsValid s → IsValid (unregister u s)
unfolding unregister
unregister-IsValid nothing s v = v
unregister-IsValid (off_handler hook f) s v = off-IsValid hook (some f) s v

perform-IsValid : (op : Operation) (s : Swup) → IsValid s → IsValid (perform op s)
unfolding perform
perform-IsValid (created hook) s v = create-IsValid hook s v
perform-IsValid (added hook f o) s v = on-IsValid hook f o s v
perform-IsValid (removed hook f) s v = off-IsValid hook f s v
perform-IsValid (unregistered u) s v = unregister-IsValid u s v
perform-IsValid emptied s v = clear-IsValid s v

pub perform_all-IsValid :
    (ops : List Operation) (s : Swup) → IsValid s → IsValid (perform_all ops s)
unfolding perform_all
perform_all-IsValid [] s v = v
perform_all-IsValid (op ∷ ops) s v = perform_all-IsValid ops (perform op s) (perform-IsValid op s v)

set_ledger-exists :
    (hook h : String) (ledger : HookLedger) (s : Swup)
    → exists h s ≡ true
    → exists h (set_ledger hook ledger s) ≡ true
unfolding exists
set_ledger-exists hook h ledger s e = ground (arith, Dict.has-set hook h ledger s.registry)

create-exists : (hook h : String) (s : Swup) → exists h s ≡ true → exists h (create hook s) ≡ true
unfolding create
create-exists hook h s e = elim (Bool-cases (Dict.has hook s.registry)) [
  | inl p ↦ rw p e
  | inr p ↦ rw p (set_ledger-exists hook h [] s e)
]

create-exists_self : (hook : String) (s : Swup) → exists hook (create hook s) ≡ true
unfolding create exists
create-exists_self hook s = ground (arith, Dict.has-set hook hook [] s.registry, beq_refl hook)

on-exists :
    (hook h : String) (f : FunctionRef) (o : HookOptions) (s : Swup)
    → exists h s ≡ true
    → exists h (on hook f o s).1 ≡ true
on-exists hook h f o s x = elim (Option-cases (Dict.get hook s.registry)) [
  | inl e ↦ rw (on-missing hook f o s e) (unfold exists in x)
  | inr (ledger, e) ↦
      rw (on-found hook f o s e)
        (set_ledger-exists hook h (Dict.set f (registration (length ledger) hook f o) ledger) s x)
]

off-exists :
    (hook h : String) (f : Option FunctionRef) (s : Swup)
    → exists h s ≡ true
    → exists h (off hook f s) ≡ true
off-exists hook h none s x = elim (Option-cases (Dict.get hook s.registry)) [
  | inl e ↦ rw (off-missing hook none s e) (unfold exists in x)
  | inr (ledger, e) ↦ rw (off_all-found hook s e) (set_ledger-exists hook h [] s x)
]
off-exists hook h (some f) s x = elim (Option-cases (Dict.get hook s.registry)) [
  | inl e ↦ rw (off-missing hook (some f) s e) (unfold exists in x)
  | inr (ledger, e) ↦
      let kept = set_ledger-exists hook h (Dict.delete f ledger) s x in
      elim (Bool-cases (Dict.has f ledger)) [
        | inl p ↦ rw (off-found hook f s e, p) kept
        | inr p ↦ rw (off-found hook f s e, p) (unfold exists in kept)
      ]
]

perform-exists :
    (op : Operation) (h : String) (s : Swup) → exists h s ≡ true → exists h (perform op s) ≡ true
unfolding perform exists unregister clear
perform-exists (created hook) h s x = create-exists hook h s x
perform-exists (added hook f o) h s x = on-exists hook h f o s x
perform-exists (removed hook f) h s x = off-exists hook h f s x
perform-exists (unregistered nothing) h s x = x
perform-exists (unregistered (off_handler hook f)) h s x = off-exists hook h (some f) s x
perform-exists emptied h s x =
    Dict.has-map (λ (hook, ledger). (hook, [])) (λ p. refl) h s.registry ∙ x

perform_all-exists :
    (ops : List Operation) (h : String) (s : Swup)
    → exists h s ≡ true
    → exists h (perform_all ops s) ≡ true
unfolding perform_all
perform_all-exists [] h s x = x
perform_all-exists (op ∷ ops) h s x =
    perform_all-exists ops h (perform op s) (perform-exists op h s x)

create_all-exists :
    (hooks : List String) (h : String) (s : Swup)
    → exists h s ≡ true
    → exists h (create_all hooks s) ≡ true
unfolding create_all
create_all-exists [] h s x = x
create_all-exists (hook ∷ hooks) h s x =
    create_all-exists hooks h (create hook s) (create-exists hook h s x)

create_all-exists_self :
    (hooks : List String) (s : Swup) → All (λ h. exists h (create_all hooks s) ≡ true) hooks
unfolding create_all
create_all-exists_self [] s = tt
create_all-exists_self (hook ∷ hooks) s = (
  create_all-exists hooks hook (create hook s) (create-exists_self hook s),
  create_all-exists_self hooks (create hook s),
)

-- After `init` on an empty registry, and any calls of `create`, `on`, `off`, `clear` and of the
-- functions that `on` returns, in any order: no hook has two ledgers, no ledger has a function
-- twice, each registration stands under its own hook and function with a positive id, and all core
-- hooks exist.
pub operations-IsValid :
    (ops : List Operation) (s : Swup)
    → s.registry ≡ []
    → IsValid (perform_all ops (init s))
      × All (λ h. exists h (perform_all ops (init s)) ≡ true) core_hooks
unfolding init
operations-IsValid ops s e = (
  perform_all-IsValid ops (create_all core_hooks s)
      (create_all-IsValid core_hooks s (record { distinct = rw e tt; ledgers = rw e tt })),
  All-map core_hooks (λ h x. perform_all-exists ops h (create_all core_hooks s) x)
      (create_all-exists_self core_hooks s),
)

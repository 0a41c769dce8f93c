-- ===== src/Hooks/Registry/Laws.antt =====
-- src/modules/Hooks.ts: what registering a handler and taking it away do to the registry.
use vitest_swup.Prelude.{
  ℕ, ◌≡◌, refl, ◌∙◌, String, Bool, true, false, ◌&&◌, Option, none, some, [], length, beq_refl,
  Option-cases, inl, inr, ◌==◌, string_eq, nat_eq, if◌then◌else◌, ◌&◌, arith,
}
use text.Mathlib.TextEquality.{eq_iff}
use vitest_swup.Prelude.Dict
use vitest_swup.Values.{FunctionRef}
use vitest_swup.State.{Swup, HookOptions, HookRegistration, HookLedger, log}
use vitest_swup.Hooks.Registry.{
  nothing, off_handler, exists, on, off, get, registration, set_ledger, unregister,
}

-- `on` at a hook that exists.
pub on-found :
    (hook : String) (f : FunctionRef) (o : HookOptions) (s : Swup) {ledger : HookLedger}
    → Dict.get hook s.registry ≡ some ledger
    → on hook f o s ≡ (
      off_handler hook f,
      set_ledger hook (Dict.set f (registration (length ledger) hook f o) ledger) s,
    )
unfolding on
on-found hook f o s e = rw (e, get)

-- `off` at a hook that exists.
pub off-found :
    (hook : String) (f : FunctionRef) (s : Swup) {ledger : HookLedger}
    → Dict.get hook s.registry ≡ some ledger
    → off hook (some f) s ≡ (
        let s' = set_ledger hook (Dict.delete f ledger) s in
        if Dict.has f ledger then s' else log ("Handler for hook '" & hook & "' not found.") s')
unfolding off
off-found hook f s e = rw (e, get)

pub off_all-found :
    (hook : String) (s : Swup) {ledger : HookLedger}
    → Dict.get hook s.registry ≡ some ledger
    → off hook none s ≡ set_ledger hook [] s
unfolding off
off_all-found hook s e = rw (e, get)

-- A hook that does not exist: nothing but a message.
pub on-missing :
    (hook : String) (f : FunctionRef) (o : HookOptions) (s : Swup)
    → Dict.get hook s.registry ≡ none
    → on hook f o s
      ≡ (nothing, log ("Hook '" & hook & "' not found.") (log ("Unknown hook '" & hook & "'") s))
unfolding on
on-missing hook f o s e = rw (e, get)

pub off-missing :
    (hook : String) (f : Option FunctionRef) (s : Swup)
    → Dict.get hook s.registry ≡ none
    → off hook f s ≡ log ("Unknown hook '" & hook & "'") s
unfolding off
off-missing hook f s e = rw (e, get)

-- The abstract view of the registry: the registration of a function for a hook.
abbrev pub in_ledger : FunctionRef → Option HookLedger → Option HookRegistration
in_ledger f none = none
in_ledger f (some ledger) = Dict.get f ledger

abbrev pub registered : String → FunctionRef → Swup → Option HookRegistration
registered hook f s = in_ledger f (Dict.get hook s.registry)

abbrev pub is_registered : Option HookRegistration → Bool
is_registered none = false
is_registered (some _) = true

-- How many handlers a hook has.
abbrev pub ledger_size : Option HookLedger → ℕ
ledger_size none = 0
ledger_size (some ledger) = length ledger

abbrev pub size_of : String → Swup → ℕ
size_of hook s = ledger_size (Dict.get hook s.registry)

-- `on` changes the registration of that function for that hook and no other; at a hook that does not
-- exist it changes none.
pub registered-on :
    (hook hook' : String) (f f' : FunctionRef) (o : HookOptions) (s : Swup)
    → registered hook' f' (on hook f o s).1 ≡ (
        if exists hook s && (hook == hook' && f == f')
        then some (registration (size_of hook s) hook f o)
        else registered hook' f' s)
unfolding exists
registered-on hook hook' f f' o s = elim (Option-cases (Dict.get hook s.registry)) [
  | inl e ↦ rw (on-missing hook f o s e, (Dict.has-get hook s.registry).1 e)
  | inr (ledger, e) ↦
      let r = registration (length ledger) hook f o in
      rw (on-found hook f o s e, Dict.has-of_get hook s.registry e)
        (ground (
          arith,
          Dict.get-set hook hook' (Dict.set f r ledger) s.registry,
          Dict.get-set f f' r ledger,
          eq_iff hook hook',
        ))
]

-- `off` takes away the registration of that function for that hook and no other.
pub registered-off :
    (hook hook' : String) (f f' : FunctionRef) (s : Swup)
    → registered hook' f' (off hook (some f) s)
      ≡ (if hook == hook' && f == f' then none else registered hook' f' s)
registered-off hook hook' f f' s = elim (Option-cases (Dict.get hook s.registry)) [
  | inl e ↦ rw (off-missing hook (some f) s e) (ground (arith, eq_iff hook hook'))
  | inr (ledger, e) ↦ rw (off-found hook f s e) (
      ground (
        arith,
        Dict.get-set hook hook' (Dict.delete f ledger) s.registry,
        Dict.get-delete f f' ledger,
        eq_iff hook hook',
      ))
]

-- `off` with no handler takes away all registrations for that hook and no other.
pub registered-off_all :
    (hook hook' : String) (f' : FunctionRef) (s : Swup)
    → registered hook' f' (off hook none s)
      ≡ (if hook == hook' then none else registered hook' f' s)
unfolding off Dict.get
registered-off_all hook hook' f' s = elim (Option-cases (Dict.get hook s.registry)) [
  | inl e ↦ rw (off-missing hook none s e) (ground (arith, eq_iff hook hook'))
  | inr (ledger, e) ↦ ground (arith, Dict.get-set hook hook' [] s.registry, eq_iff hook hook')
]

unregister-off :
    (hook : String) (f : FunctionRef) (s : Swup)
    → unregister (off_handler hook f) s ≡ off hook (some f) s
unfolding unregister
unregister-off hook f s = refl

-- Taking away the one entry that was added gives the registry back.
restore :
    (hook : String) (f : FunctionRef) (r : HookRegistration) (s : Swup) {ledger : HookLedger}
    → Dict.get hook s.registry ≡ some ledger
    → Dict.has f ledger ≡ false
    → off hook (some f) (set_ledger hook (Dict.set f r ledger) s) ≡ s
restore hook f r s {ledger} e new =
    let s' = set_ledger hook (Dict.set f r ledger) s in
    off-found hook f s' (Dict.get-set_self hook (Dict.set f r ledger) s.registry)
    ∙ rw (
      Dict.has-set f f r ledger,
      beq_refl f,
      Dict.delete-set f r ledger new,
      Dict.set-set hook ledger (Dict.set f r ledger) s.registry,
      Dict.set-get hook ledger s.registry e,
    )

-- At a hook that exists, registering a function that is not registered for it, and then calling what
-- `on` returned, gives back the instance as it was.
pub unregister-on :
    (hook : String) (f : FunctionRef) (o : HookOptions) (s : Swup)
    → exists hook s ≡ true
    → registered hook f s ≡ none
    → unregister (on hook f o s).0 (on hook f o s).1 ≡ s
unfolding exists
unregister-on hook f o s there new = elim (Option-cases (Dict.get hook s.registry)) [
  | inl e ↦ absurd (cc (there, (Dict.has-get hook s.registry).1 e))
  | inr (ledger, e) ↦
      rw (on-found hook f o s e, unregister-off)
        (restore hook f (registration (length ledger) hook f o) s e
          ((Dict.has-get f ledger).1 (rw e at new)))
]

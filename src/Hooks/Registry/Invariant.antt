-- ===== src/Hooks/Registry/Invariant.antt =====
-- src/modules/Hooks.ts: what always holds of the registry.
use vitest_swup.Prelude.{
  ◌≤◌, ◌≡◌, refl, String, Option, none, some, List, [], ◌∷◌, map, length, Bool-cases, Option-cases,
  inl, inr, string_eq, nat_eq, arith,
}
use vitest_swup.Prelude.Dict
use vitest_swup.Prelude.Dict.{Distinct, Entries}
use vitest_swup.Values.{FunctionRef}
use vitest_swup.State.{Swup, HookOptions, HookRegistration, HookLedger}
use vitest_swup.Hooks.Registry.{create, create_all, clear, on, off, registration, set_ledger}
use vitest_swup.Hooks.Registry.Laws.{on-found, on-missing, off-found, off_all-found, off-missing}

-- A registration stands under its function and its hook, and has a positive id.
pub record IsFiled (hook : String) (f : FunctionRef) (r : HookRegistration) : Type 0 where
  pub at_hook : r.hook ≡ hook
  pub at_handler : r.handler ≡ f
  pub positive : 1 ≤ r.id

pub record IsLedger (hook : String) (ledger : HookLedger) : Type 0 where
  pub distinct : Distinct ledger
  pub filed : Entries (IsFiled hook) ledger

pub record IsValid (s : Swup) : Type 0 where
  pub distinct : Distinct s.registry
  pub ledgers : Entries IsLedger s.registry

set_ledger-IsValid :
    (hook : String) (ledger : HookLedger) (s : Swup)
    → IsLedger hook ledger
    → IsValid s
    → IsValid (set_ledger hook ledger s)
set_ledger-IsValid hook ledger s h v = record {
  distinct = Dict.set-Distinct hook ledger s.registry v.distinct;
  ledgers = Dict.Entries-set IsLedger hook ledger s.registry h v.ledgers;
}

empty-IsLedger : (hook : String) → IsLedger hook []
empty-IsLedger hook = record { distinct = tt; filed = tt }

-- Creating a hook keeps the registry well-formed.
pub create-IsValid : (hook : String) (s : Swup) → IsValid s → IsValid (create hook s)
unfolding create
create-IsValid hook s v = elim (Bool-cases (Dict.has hook s.registry)) [
  | inl e ↦ rw e v
  | inr e ↦ rw e (set_ledger-IsValid hook [] s (empty-IsLedger hook) v)
]

pub create_all-IsValid : (hooks : List String) (s : Swup) → IsValid s → IsValid (create_all hooks s)
unfolding create_all
create_all-IsValid [] s v = v
create_all-IsValid (hook ∷ hooks) s v =
    create_all-IsValid hooks (create hook s) (create-IsValid hook s v)

pub on-IsValid :
    (hook : String) (f : FunctionRef) (o : HookOptions) (s : Swup)
    → IsValid s
    → IsValid (on hook f o s).1
on-IsValid hook f o s v = elim (Option-cases (Dict.get hook s.registry)) [
  | inl e ↦ rw (on-missing hook f o s e) (record { distinct = v.distinct; ledgers = v.ledgers })
  | inr (ledger, e) ↦
      let l = Dict.Entries-get IsLedger hook s.registry e v.ledgers in
      let r = registration (length ledger) hook f o in
      rw (on-found hook f o s e) (
        set_ledger-IsValid hook (Dict.set f r ledger) s
          (record {
            distinct = Dict.set-Distinct f r ledger l.distinct;
            filed =
                Dict.Entries-set (IsFiled hook) f r ledger
                  (record { at_hook = refl; at_handler = refl; positive = omega arith }) l.filed;
          })
          v)
]

-- Taking handlers away keeps the registry well-formed.
pub off-IsValid :
    (hook : String) (f : Option FunctionRef) (s : Swup) → IsValid s → IsValid (off hook f s)
off-IsValid hook none s v = elim (Option-cases (Dict.get hook s.registry)) [
  | inl e ↦ rw (off-missing hook none s e) (record { distinct = v.distinct; ledgers = v.ledgers })
  | inr (ledger, e) ↦
      rw (off_all-found hook s e) (set_ledger-IsValid hook [] s (empty-IsLedger hook) v)
]
off-IsValid hook (some f) s v = elim (Option-cases (Dict.get hook s.registry)) [
  | inl e ↦
      rw (off-missing hook (some f) s e) (record { distinct = v.distinct; ledgers = v.ledgers })
  | inr (ledger, e) ↦
      let l = Dict.Entries-get IsLedger hook s.registry e v.ledgers in
      let done =
        set_ledger-IsValid hook (Dict.delete f ledger) s
          (record {
            distinct = Dict.delete-Distinct f ledger l.distinct;
            filed = Dict.Entries-delete (IsFiled hook) f ledger l.filed;
          })
          v in
      elim (Bool-cases (Dict.has f ledger)) [
        | inl p ↦ rw (off-found hook f s e, p) done
        | inr p ↦
            rw (off-found hook f s e, p)
              (record { distinct = done.distinct; ledgers = done.ledgers })
      ]
]

cleared-ledgers :
    (m : Dict.Dict String HookLedger) → Entries IsLedger (map (λ (hook, ledger). (hook, [])) m)
cleared-ledgers [] = tt
cleared-ledgers ((hook, ledger) ∷ m) = (empty-IsLedger hook, cleared-ledgers m)

-- Clearing all ledgers keeps the registry well-formed.
pub clear-IsValid : (s : Swup) → IsValid s → IsValid (clear s)
unfolding clear
clear-IsValid s v = record {
  distinct = Dict.map-Distinct (λ (hook, ledger). (hook, [])) (λ p. refl) s.registry v.distinct;
  ledgers = cleared-ledgers s.registry;
}

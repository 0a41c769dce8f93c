-- ===== src/Hooks/Handlers/Partition.antt =====
-- src/modules/Hooks.ts: `getHandlers` sorts every registration of a hook into one of three lists.
use vitest_swup.Prelude.{
  String, map, All, All-filter_by, ap, arith, ◌-◌, length, get_elem?, none, ◌≡◌, refl, Bool, true,
  false, Option, some, List, [], ◌∷◌, ◌++◌, filter_by, not, ◌&&◌, if◌then◌else◌, string_eq,
}
use vitest_swup.Prelude.Dict
use vitest_swup.Prelude.Dict.{values}
use vitest_swup.Values.{FunctionRef}
use vitest_swup.State.{Swup, HookRegistration, HookLedger}
use vitest_swup.Hooks.Registry.{get}
use vitest_swup.Hooks.Order.{sort}
use vitest_swup.Hooks.Order.Sorted.{IsSorted, sort-IsSorted, sort-perm, All-sort}
use vitest_swup.Hooks.Handlers.{
  is_before, is_replace, is_after, main_handler, handlers_of, get_handlers,
}
use mathlib.Core.List.{Perm, perm_middle, append_assoc}
use mathlib.Core.List.Perm

-- A registration goes to one of three places, by its flags.
place :
    (b r : Bool) (x : HookRegistration) (befores replaces afters xs : List HookRegistration)
    → Perm (befores ++ (replaces ++ afters)) xs
    → Perm
        ((if b && not r then x ∷ befores else befores)
          ++ ((if r then x ∷ replaces else replaces)
              ++ (if not b && not r then x ∷ afters else afters)))
        (x ∷ xs)
place true true x befores replaces afters xs p = Perm.trans (perm_middle _ _) (Perm.cons x p)
place false true x befores replaces afters xs p = Perm.trans (perm_middle _ _) (Perm.cons x p)
place true false x befores replaces afters xs p = Perm.cons x p
place false false x befores replaces afters xs p =
    rw (← append_assoc)
      (Perm.trans (perm_middle (befores ++ replaces) afters) (Perm.cons x (rw append_assoc p)))

-- The three tests leave no registration out and take none twice.
partition-perm :
    (xs : List HookRegistration)
    → Perm (filter_by is_before xs ++ (filter_by is_replace xs ++ filter_by is_after xs)) xs
partition-perm [] = Perm.refl []
partition-perm (x ∷ xs) = place x.before x.replace x _ _ _ xs (partition-perm xs)

-- What `getHandlers` gives for a hook that exists.
pub get_handlers_found :
    (hook : String) (d : Option FunctionRef) (s : Swup) {ledger : HookLedger}
    → Dict.get hook s.registry ≡ some ledger
    → get_handlers hook d s ≡ (handlers_of (some ledger) hook d, s)
unfolding get_handlers
get_handlers_found hook d s e = rw (e, get)

-- Which handler stands for the default handler: the last of those that replace it, or it itself.
abbrev pub last_of : FunctionRef → List HookRegistration → FunctionRef
last_of f [] = f
last_of f (r ∷ rs) = last_of r.handler rs

abbrev pub main_of : Option FunctionRef → List HookRegistration → List FunctionRef
main_of none replacing = []
main_of (some f) replacing = last_of f replacing ∷ []

abbrev pub Flagged : (before replace : Bool) → HookRegistration → Type 0
Flagged before replace r = (r.before ≡ before) × (r.replace ≡ replace)

last_found :
    (r : HookRegistration) (rs : List HookRegistration)
    → (last : HookRegistration) × (get_elem? (r ∷ rs) (length rs) ≡ some last)
      × (last.handler ≡ last_of r.handler rs)
last_found r [] = (r, refl, refl)
last_found r (x ∷ rs) = let (last, found, same) = last_found x rs in (last, found, same)

-- The index of the last replacement finds it.
main_handler-main_of :
    (hook : String) (replace : List HookRegistration) (d : Option FunctionRef)
    → map (λ r. r.handler) (main_handler hook replace d) ≡ main_of d replace
unfolding main_handler
main_handler-main_of hook replace none = refl
main_handler-main_of hook [] (some f) = refl
main_handler-main_of hook (r ∷ rs) (some f) =
    let (last, found, same) = last_found r rs in
    let index : length (r ∷ rs) - 1 ≡ length rs = omega arith in
    rw (main_handler, index, found) (ap (λ f. f ∷ []) same)

-- For a hook that exists, `getHandlers` leaves the instance alone; the handlers that run before, those that
-- replace the default handler and those that run after are together the registrations of the ledger, each
-- once; those that replace it have the option `replace`, those that run before have the option `before` and
-- not `replace`, and those that run after have neither; each of the three lists is ascending by priority, then by id; and where there is a default
-- handler, the one main handler is the last of those that replace it, or the default handler itself
-- where there are none.
pub get_handlers-partition :
    (hook : String) (d : Option FunctionRef) (s : Swup) {ledger : HookLedger}
    → Dict.get hook s.registry ≡ some ledger
    → let h = (get_handlers hook d s).0 in
      ((get_handlers hook d s).1 ≡ s)
      × (replacing : List HookRegistration) × Perm
          (h.before ++ (replacing ++ h.after))
          (values ledger)
      × All (λ r. r.replace ≡ true) replacing
      × All (Flagged true false) h.before
      × All (Flagged false false) h.after
      × IsSorted h.before
      × IsSorted replacing
      × IsSorted h.after
      × (map (λ r. r.handler) h.handler ≡ main_of d replacing)
unfolding handlers_of
get_handlers-partition hook d s {ledger} e =
    let befores = filter_by is_before (values ledger) in
    let replaces = filter_by is_replace (values ledger) in
    let afters = filter_by is_after (values ledger) in
    rw (get_handlers_found hook d s e) (
      refl,
      sort replaces,
      Perm.trans
          (Perm.append {l₂ = befores} (sort-perm befores)
            (Perm.append {l₂ = replaces} {t₂ = afters} (sort-perm replaces) (sort-perm afters)))
          (partition-perm (values ledger)),
      All-sort (λ r. r.replace ≡ true) replaces (All-filter_by (values ledger) (λ r e. e)),
      All-sort (Flagged true false) befores
          (All-filter_by (values ledger) (λ r e. ground (arith, e))),
      All-sort (Flagged false false) afters
          (All-filter_by (values ledger) (λ r e. ground (arith, e))),
      sort-IsSorted befores,
      sort-IsSorted replaces,
      sort-IsSorted afters,
      main_handler-main_of hook (sort replaces) d,
    )

-- ===== src/Hooks/Handlers/Registration.antt =====
-- src/modules/Hooks.ts: where a newly registered handler runs.
use vitest_swup.Prelude.{
  ◌+◌, ◌≤◌, ◌<◌, ◌≡◌, refl, sym, ap, ◌∙◌, String, Bool, false, Option, some, List, [], ◌∷◌, ◌++◌,
  inl, inr, Bool-cases, All, All-map, length, filter_by, string_eq, nat_eq, if◌then◌else◌, arith,
}
use vitest_swup.Prelude.Dict
use vitest_swup.Prelude.Dict.{values}
use vitest_swup.Prelude.Int.{◌≤ℤ◌}
use vitest_swup.Values.{FunctionRef}
use vitest_swup.State.{Swup, HookOptions, HookRegistration, HookLedger}
use vitest_swup.Hooks.Registry.{on, registration, set_ledger}
use vitest_swup.Hooks.Registry.Laws.{on-found}
use vitest_swup.Hooks.Order.{sort, priority_or_zero}
use vitest_swup.Hooks.Order.Sorted.{
  priority_of, RunsBefore, RunsStrictlyBefore, sort-snoc_last, sort-snoc_first,
}
use vitest_swup.Hooks.Handlers.{is_after, handlers_of, get_handlers}
use vitest_swup.Hooks.Handlers.Partition.{get_handlers_found}

-- A new key goes to the end of the map.
values-set_new :
    (f : FunctionRef) (r : HookRegistration) (ledger : HookLedger)
    → Dict.has f ledger ≡ false
    → values (Dict.set f r ledger) ≡ values ledger ++ r ∷ []
unfolding Dict.has Dict.set
values-set_new f r [] h = refl
values-set_new f r ((g, q) ∷ m) h = ground (arith, values-set_new f r m)

filter_by-snoc :
    (p : HookRegistration → Bool) (xs : List HookRegistration) (n : HookRegistration)
    → filter_by p (xs ++ n ∷ []) ≡ (if p n then filter_by p xs ++ n ∷ [] else filter_by p xs)
filter_by-snoc p [] n = refl
filter_by-snoc p (x ∷ xs) n = ground (arith, filter_by-snoc p xs n)

All-filter_by :
    (P : HookRegistration → Type 0) (p : HookRegistration → Bool) (xs : List HookRegistration)
    → All P xs
    → All P (filter_by p xs)
All-filter_by P p [] h = tt
All-filter_by P p (x ∷ xs) h = elim (Bool-cases (p x)) [
  | inl e ↦ rw e (h.0, All-filter_by P p xs h.1)
  | inr e ↦ rw e (All-filter_by P p xs h.1)
]

-- The handlers of a hook just after `on` has registered a new handler there.
handlers-on :
    (hook : String) (f : FunctionRef) (o : HookOptions) (d : Option FunctionRef) (s : Swup)
    → {ledger : HookLedger} → Dict.get hook s.registry ≡ some ledger
    → get_handlers hook d (on hook f o s).1 ≡ (
      handlers_of (some (Dict.set f (registration (length ledger) hook f o) ledger)) hook d,
      (on hook f o s).1,
    )
handlers-on hook f o d s {ledger} e = rw (on-found hook f o s e) (
    get_handlers_found hook d
      (set_ledger hook (Dict.set f (registration (length ledger) hook f o) ledger) s)
      (Dict.get-set_self hook _ s.registry))

-- Options for a handler that runs after the default handler.
abbrev pub IsPlain : HookOptions → Type 0
IsPlain o = (o.before ≡ false) × (o.replace ≡ false)

-- The lists that a plain new registration leaves alone, and the list that it is put into.
handlers_of-snoc :
    (hook : String) (d : Option FunctionRef) (f : FunctionRef) (n : HookRegistration)
    → (ledger : HookLedger) → Dict.has f ledger ≡ false
    → n.before ≡ false
    → n.replace ≡ false
    → let h = handlers_of (some ledger) hook d in
      let h' = handlers_of (some (Dict.set f n ledger)) hook d in
      (h'.before ≡ h.before)
      × (h'.handler ≡ h.handler)
      × (h'.after ≡ sort (filter_by is_after (values ledger) ++ n ∷ []))
unfolding handlers_of
handlers_of-snoc hook d f n ledger new b r =
    simp (values-set_new f n ledger new, filter_by-snoc, b, r) (refl, refl, refl)

-- Both theorems below: `sorted` is what the new registration makes of the last list.
on-plain :
    (hook : String) (f : FunctionRef) (o : HookOptions) (d : Option FunctionRef) (s : Swup)
    → {ledger : HookLedger} → Dict.get hook s.registry ≡ some ledger
    → Dict.has f ledger ≡ false
    → IsPlain o
    → let h = (get_handlers hook d s).0 in
      let h' = (get_handlers hook d (on hook f o s).1).0 in
      (h'.before ≡ h.before)
      × (h'.handler ≡ h.handler)
      × (h'.after
          ≡ sort (filter_by is_after (values ledger) ++ registration (length ledger) hook f o ∷ []))
      × (h.after ≡ sort (filter_by is_after (values ledger)))
unfolding handlers_of
on-plain hook f o d s {ledger} e new plain =
    let n = registration (length ledger) hook f o in
    let (befores, handlers, afters) = handlers_of-snoc hook d f n ledger new plain.0 plain.1 in
    rw (handlers-on hook f o d s e, get_handlers_found hook d s e) (befores, handlers, afters, refl)

-- A plain handler is registered for the first time for a hook none of whose handlers has a greater
-- priority, or an id greater than the number of registrations. It then runs after every handler
-- that is there; the handlers that run before, and the default handler, stay as they are.
pub get_handlers-on_last :
    (hook : String) (f : FunctionRef) (o : HookOptions) (d : Option FunctionRef) (s : Swup)
    → {ledger : HookLedger} → Dict.get hook s.registry ≡ some ledger
    → Dict.has f ledger ≡ false
    → IsPlain o
    → All
        (λ r. (priority_of r ≤ℤ priority_or_zero o.priority) × (r.id ≤ length ledger))
        (values ledger)
    → let h = (get_handlers hook d s).0 in
      let h' = (get_handlers hook d (on hook f o s).1).0 in
      (h'.before ≡ h.before)
      × (h'.handler ≡ h.handler)
      × (h'.after ≡ h.after ++ registration (length ledger) hook f o ∷ [])
get_handlers-on_last hook f o d s {ledger} e new plain all =
    let n = registration (length ledger) hook f o in
    let (befores, handlers, afters, sorted) = on-plain hook f o d s e new plain in
    let last = sort-snoc_last (filter_by is_after (values ledger)) n (
      All-filter_by (λ r. RunsBefore r n) is_after (values ledger)
        (All-map (values ledger) (λ r h. ground arith) all)) in
    (befores, handlers, afters ∙ last ∙ ap (λ l. l ++ n ∷ []) (sym sorted))

-- A plain handler is registered for the first time for a hook whose handlers all have its
-- priority, and ids greater than the next one, which is the number of registrations plus one, as
-- can be after handlers have been taken away. The new handler then runs before every plain handler
-- that is there, though they were registered earlier.
pub get_handlers-on_first :
    (hook : String) (f : FunctionRef) (o : HookOptions) (d : Option FunctionRef) (s : Swup)
    → {ledger : HookLedger} → Dict.get hook s.registry ≡ some ledger
    → Dict.has f ledger ≡ false
    → IsPlain o
    → All
        (λ r. (priority_of r ≡ priority_or_zero o.priority) × (length ledger + 1 < r.id))
        (values ledger)
    → (get_handlers hook d (on hook f o s).1).0.after
      ≡ registration (length ledger) hook f o ∷ (get_handlers hook d s).0.after
get_handlers-on_first hook f o d s {ledger} e new plain all =
    let n = registration (length ledger) hook f o in
    let (befores, handlers, afters, sorted) = on-plain hook f o d s e new plain in
    let head = sort-snoc_first (filter_by is_after (values ledger)) n (
      All-filter_by (RunsStrictlyBefore n) is_after (values ledger)
        (All-map (values ledger) (λ r h. ground arith) all)) in
    afters ∙ head ∙ ap (◌∷◌ n) (sym sorted)

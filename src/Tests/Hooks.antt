-- ===== src/Tests/Hooks.antt =====
-- The hook registry, its handlers, calls of hooks and visits, on concrete instances.
use vitest_swup.Prelude.{
  ◌≡◌, refl, true, false, none, some, List, map, [], ◌∷◌, ◌++◌, All, string_eq, nat_eq,
}
use mathlib.Core.List.{Perm, Memᴰ}
use vitest_swup.Prelude.Dict
use vitest_swup.Prelude.Dict.{values}
use vitest_swup.Values.{Value, throws, undefined, string, function, returns}
use vitest_swup.Visit.{Visit, advance, rank, created, started, loaded, aborted}
use vitest_swup.State.{log, Swup, HookLedger, HookOptions, HookRegistration, direct, nested}
use vitest_swup.Hooks.Registry
use vitest_swup.Hooks.Registry.{core_hooks, default_options, exists, init, off_handler, unregister}
use vitest_swup.Hooks.Registry.Laws.{registered}
use vitest_swup.Hooks.Registry.Invariant.{IsValid}
use vitest_swup.Hooks.Registry.Operations.{added, removed, perform_all, operations-IsValid}
use vitest_swup.Hooks.Names.{parse_name}
use vitest_swup.Hooks.Order.Sorted.{IsSorted}
use vitest_swup.Hooks.Handlers.{get_handlers, main_handler}
use vitest_swup.Hooks.Handlers.Partition.{Flagged, main_of, get_handlers-partition}
use vitest_swup.Hooks.Handlers.Chain.{main_handler-eq-chain}
use vitest_swup.Hooks.Run.{
  parse_call_args, call, call_sync, call_handlers_sync, run_sync, run_loop, run_direct,
  dispatch_dom_event,
}
use vitest_swup.Hooks.Run.Calls.{call_handlers_sync_aborted, call_handlers_sync_throws}
use vitest_swup.Hooks.Run.Once.{run_loop-once}
use vitest_swup.Tests.{quiet, loud, fresh, finished, with_ledger, enable_registration}

program : Unit {0}
unfolding perform_all Registry.off Registry.on Registry.exists Dict.get Dict.set Dict.has
    Dict.delete vitest_swup.Visit.done vitest_swup.Visit.advance parse_call_args call call_sync
    call_handlers_sync run_sync run_loop run_direct dispatch_dom_event get_handlers
program = tt

abbrev once_only : HookOptions
once_only = record default_options { once = true }

abbrev two : HookLedger
two =
    (7, enable_registration 0 7 default_options) ∷ (8, enable_registration 1 8 default_options) ∷ []

-- Three handlers are registered and the first two taken away.
abbrev third : HookLedger
third = (8, enable_registration 2 8 default_options) ∷ []

third_lem :
    (perform_all
      (added "enable" 6 default_options
        ∷ added "enable" 7 default_options
        ∷ added "enable" 8 default_options
        ∷ removed "enable" (some 6)
        ∷ removed "enable" (some 7)
        ∷ [])
      fresh).registry
    ≡ ("enable", third) ∷ []
unfolding program
third_lem = refl

operations-IsValid_example :
    let ops =
      added "enable" 7 once_only ∷ removed "enable" (some 7) ∷ removed "nowhere" none ∷ [] in
    let s = record fresh { registry = [] } in
    IsValid (perform_all ops (init s))
    × All (λ h. exists h (perform_all ops (init s)) ≡ true) core_hooks
operations-IsValid_example =
    operations-IsValid
      (added "enable" 7 once_only ∷ removed "enable" (some 7) ∷ removed "nowhere" none ∷ [])
      (record fresh { registry = [] }) refl

get_handlers-partition_example :
    let h = (get_handlers "enable" (some 6) (with_ledger two)).0 in
    ((get_handlers "enable" (some 6) (with_ledger two)).1 ≡ with_ledger two)
    × (replacing : List HookRegistration) × Perm (h.before ++ (replacing ++ h.after)) (values two)
    × All (λ r. r.replace ≡ true) replacing
    × All (Flagged true false) h.before
    × All (Flagged false false) h.after
    × IsSorted h.before
    × IsSorted replacing
    × IsSorted h.after
    × (map (λ r. r.handler) h.handler ≡ main_of (some 6) replacing)
unfolding program
get_handlers-partition_example = get_handlers-partition "enable" (some 6) (with_ledger two) refl

main_handler-eq-chain_example :
    main_handler "enable"
      (enable_registration 0 7 default_options ∷ enable_registration 1 8 once_only ∷ [])
      (some 6)
    ≡ record {
      id = 0;
      hook = "enable";
      handler = 8;
      default_handler = some (nested 7 (direct 6));
      options = once_only;
    }
      ∷ []
main_handler-eq-chain_example =
    main_handler-eq-chain "enable" (enable_registration 0 7 default_options ∷ [])
      (enable_registration 1 8 once_only) 6

call_handlers_sync_throws_example :
    let h = (get_handlers "enable" (some 9) (with_ledger two)).0 in
    (results : List Value) × (t : Swup) × (run_sync loud h.before none undefined false
        (with_ledger two)
      ≡ (returns results, t))
    × (run_sync loud h.handler none undefined true t
        ≡ (throws (string "no"), log "nine" (with_ledger two)))
unfolding program
call_handlers_sync_throws_example =
    call_handlers_sync_throws loud "enable"
      (record { visit = none; args = undefined; default_handler = some 9 })
      (get_handlers "enable" (some 9) (with_ledger two)).0 (with_ledger two)
      (log "nine" (with_ledger two)) (string "no") refl

call_handlers_sync_aborted_example :
    call_handlers_sync loud "enable"
      (record { visit = some 0; args = undefined; default_handler = some 8 })
      (get_handlers "enable" (some 8) finished).0
      finished
    ≡ (returns undefined, finished)
unfolding program
call_handlers_sync_aborted_example =
    call_handlers_sync_aborted loud "enable" 0 undefined (some 8)
      (get_handlers "enable" (some 8) finished).0 finished finished [] refl refl

run_loop-once_example :
    registered "enable" 8
      (run_loop quiet
        (run_direct quiet)
        (enable_registration 0 8 once_only ∷ [])
        0
        undefined
        false
        (with_ledger ((8, enable_registration 0 8 once_only) ∷ []))).1
    ≡ none
unfolding program
run_loop-once_example =
    run_loop-once quiet (run_direct quiet) 0 undefined "enable" 8 (λ r s n. n) (λ r s d. d)
      (enable_registration 0 8 once_only) (enable_registration 0 8 once_only ∷ [])
      (with_ledger ((8, enable_registration 0 8 once_only) ∷ [])) (Memᴰ.head refl) refl refl refl
      refl

-- The handlers before, the default handler, those after, in that order; then the DOM events. An error
-- of a handler before or after is reported, and the default handler's result is what the call returns.
call_sync_order :
    call_sync loud "enable" undefined undefined (function 8) (
      with_ledger (
        (7, enable_registration 0 7 default_options)
        ∷ (9, enable_registration 1 9 (record default_options { before = true }))
        ∷ []))
    ≡ (
      returns (string "eight"),
      record (with_ledger (
          (7, enable_registration 0 7 default_options)
          ∷ (9, enable_registration 1 9 (record default_options { before = true }))
          ∷ [])) {
            console =
                "nine" ∷ "Error in hook 'enable':" ∷ "eight" ∷ "other" ∷ "swup:any" ∷ "swup:enable"
                ∷ [];
          },
    )
unfolding program
call_sync_order = refl

names_parsed :
    (parse_name "content:replace.before.once"
      ≡ ("content:replace", record default_options { before = true; once = true }))
    × (parse_name "enable" ≡ ("enable", default_options))
unfolding parse_name
names_parsed = (refl, refl)

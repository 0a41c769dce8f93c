-- ===== src/Hooks/Registry.antt =====
-- src/modules/Hooks.ts: the ledgers of handlers, and how handlers are registered and taken away.
pub mod Laws
pub mod Invariant
pub mod Operations
use vitest_swup.Prelude.{
  ℕ, ◌+◌, ◌&◌, String, Bool, true, false, Option, none, some, List, [], ◌∷◌, map, length, nat_eq,
  string_eq, if◌then◌else◌,
}
use vitest_swup.Prelude.Dict
use vitest_swup.Prelude.Dict.{Dict}
use vitest_swup.Values.{FunctionRef}
use vitest_swup.State.{Swup, HookOptions, HookRegistration, HookLedger, log}

-- The core hooks, in the order of the source.
abbrev pub core_hooks : List String
core_hooks =
    "animation:out:start" ∷ "animation:out:await" ∷ "animation:out:end" ∷ "animation:in:start"
    ∷ "animation:in:await" ∷ "animation:in:end" ∷ "animation:skip" ∷ "cache:clear" ∷ "cache:set"
    ∷ "content:replace" ∷ "content:scroll" ∷ "enable" ∷ "disable" ∷ "fetch:request" ∷ "fetch:error"
    ∷ "fetch:timeout" ∷ "history:popstate" ∷ "link:click" ∷ "link:self" ∷ "link:anchor"
    ∷ "link:newtab" ∷ "page:load" ∷ "page:view" ∷ "scroll:top" ∷ "scroll:anchor" ∷ "visit:start"
    ∷ "visit:transition" ∷ "visit:abort" ∷ "visit:end" ∷ []

-- `registry.set` on the map of ledgers.
abbrev pub set_ledger : String → HookLedger → Swup → Swup
set_ledger hook ledger s = record s { registry = Dict.set hook ledger s.registry }

unfoldable pub exists : String → Swup → Bool
exists hook s = Dict.has hook s.registry

unfoldable pub create : String → Swup → Swup
create hook s = if Dict.has hook s.registry then s else set_ledger hook [] s

pub create_all : List String → Swup → Swup
create_all [] s = s
create_all (hook ∷ hooks) s = create_all hooks (create hook s)

unfoldable pub init : Swup → Swup
unfolding create_all create
init s = create_all core_hooks s

-- `get`: a missing ledger is reported on the console.
unfoldable pub get : String → Swup → Option HookLedger × Swup
get hook s = elim (Dict.get hook s.registry) [
  | some ledger ↦ (some ledger, s)
  | none ↦ (none, log ("Unknown hook '" & hook & "'") s)
]

-- `ledger.clear()` on every ledger.
unfoldable pub clear : Swup → Swup
clear s = record s { registry = map (λ (hook, ledger). (hook, [])) s.registry }

-- What `on` returns: a function that does nothing, or one that calls `off`.
pub data HookUnregister : Type 0 where
  nothing : HookUnregister
  off_handler : String → FunctionRef → HookUnregister

abbrev pub default_options : HookOptions
default_options = record { once = false; before = false; priority = none; replace = false }

-- The registration that `on` makes; `size` is the size of the ledger.
abbrev pub registration : ℕ → String → FunctionRef → HookOptions → HookRegistration
registration size hook handler options = record {
  id = size + 1;
  hook = hook;
  handler = handler;
  default_handler = none;
  options = options;
}

on_found : Option HookLedger → String → FunctionRef → HookOptions → Swup → HookUnregister × Swup
on_found none hook handler options s = (nothing, log ("Hook '" & hook & "' not found.") s)
on_found (some ledger) hook handler options s = (
  off_handler hook handler,
  set_ledger hook (Dict.set handler (registration (length ledger) hook handler options) ledger) s,
)

unfoldable pub on : String → FunctionRef → HookOptions → Swup → HookUnregister × Swup
unfolding get on_found
on hook handler options s = let (ledger, s') = get hook s in on_found ledger hook handler options s'

unfoldable pub before : String → FunctionRef → HookOptions → Swup → HookUnregister × Swup
unfolding on
before hook handler options s = on hook handler (record options { before = true }) s

unfoldable pub replace : String → FunctionRef → HookOptions → Swup → HookUnregister × Swup
unfolding on
replace hook handler options s = on hook handler (record options { replace = true }) s

unfoldable pub once : String → FunctionRef → HookOptions → Swup → HookUnregister × Swup
unfolding on
once hook handler options s = on hook handler (record options { once = true }) s

off_found : Option HookLedger → String → Option FunctionRef → Swup → Swup
off_found none hook handler s = s
off_found (some ledger) hook none s = set_ledger hook [] s
off_found (some ledger) hook (some handler) s =
    let s' = set_ledger hook (Dict.delete handler ledger) s in
    if Dict.has handler ledger then s' else log ("Handler for hook '" & hook & "' not found.") s'

unfoldable pub off : String → Option FunctionRef → Swup → Swup
unfolding get off_found
off hook handler s = let (ledger, s') = get hook s in off_found ledger hook handler s'

-- A call of what `on` returned.
unfoldable pub unregister : HookUnregister → Swup → Swup
unfolding off
unregister nothing s = s
unregister (off_handler hook handler) s = off hook (some handler) s

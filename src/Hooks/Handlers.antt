-- ===== src/Hooks/Handlers.antt =====
-- src/modules/Hooks.ts: `getHandlers`, which of a hook's handlers run, and with what default handler.
pub mod Partition
pub mod Chain
pub mod Registration
use vitest_swup.Prelude.{
  ℕ, zero, suc, ◌-◌, String, Bool, true, false, not, ◌&&◌, Option, none, some, List, [], ◌∷◌,
  length, filter_by, get_elem?,
}
use vitest_swup.Prelude.Dict.{values}
use vitest_swup.Values.{FunctionRef}
use vitest_swup.State.{Swup, Callee, direct, nested, HookRegistration, HookLedger}
use vitest_swup.Hooks.Registry.{get, default_options}
use vitest_swup.Hooks.Order.{sort}

pub record Handlers : Type 0 where
  pub found : Bool
  pub before : List HookRegistration
  pub handler : List HookRegistration
  pub after : List HookRegistration
  pub replaced : Bool

abbrev pub is_before : HookRegistration → Bool
is_before r = r.before && not r.replace

abbrev pub is_replace : HookRegistration → Bool
is_replace r = r.replace

abbrev pub is_after : HookRegistration → Bool
is_after r = not r.before && not r.replace

-- `createDefaultHandler(index)`: the closure over `replace[index - 1]`, or the default handler.
unfoldable pub create_default_handler : List HookRegistration → FunctionRef → ℕ → Callee
create_default_handler replace default_handler zero = direct default_handler
create_default_handler replace default_handler (suc i) = elim (get_elem? replace i) [
  | some next ↦ nested next.handler (create_default_handler replace default_handler i)
  | none ↦ direct default_handler
]

-- The main registration where the default handler is not replaced.
abbrev pub default_registration : String → FunctionRef → HookRegistration
default_registration hook default_handler = record {
  id = 0;
  hook = hook;
  handler = default_handler;
  default_handler = none;
  options = default_options;
}

-- The main registration where `replacing`, the last of `replace`, stands for the default handler.
abbrev pub replacing_registration :
    String → HookRegistration → List HookRegistration → FunctionRef → ℕ → HookRegistration
replacing_registration hook replacing replace default_handler index = record {
  id = 0;
  hook = hook;
  handler = replacing.handler;
  default_handler = some (create_default_handler replace default_handler index);
  options = record default_options { once = replacing.once };
}

-- The array `handler`. `replaced` is `replace.length > 0`, so that `replace[index]` is there.
unfoldable pub main_handler :
    String → List HookRegistration → Option FunctionRef → List HookRegistration
main_handler hook replace none = []
main_handler hook replace (some default_handler) =
    let index = length replace - 1 in
    elim (get_elem? replace index) [
      | none ↦ default_registration hook default_handler ∷ []
      | some replacing ↦ replacing_registration hook replacing replace default_handler index ∷ []
    ]

-- `replace.length > 0`
abbrev pub is_nonempty : List HookRegistration → Bool
is_nonempty [] = false
is_nonempty (_ ∷ _) = true

unfoldable pub handlers_of : Option HookLedger → String → Option FunctionRef → Handlers
unfolding main_handler sort
handlers_of none hook default_handler = record {
  found = false;
  before = [];
  handler = [];
  after = [];
  replaced = false;
}
handlers_of (some ledger) hook default_handler =
    let registrations = values ledger in
    let replace = sort (filter_by is_replace registrations) in
    record {
      found = true;
      before = sort (filter_by is_before registrations);
      handler = main_handler hook replace default_handler;
      after = sort (filter_by is_after registrations);
      replaced = is_nonempty replace;
    }

unfoldable pub get_handlers : String → Option FunctionRef → Swup → Handlers × Swup
unfolding get handlers_of
get_handlers hook default_handler s =
    let (ledger, s') = get hook s in (handlers_of ledger hook default_handler, s')

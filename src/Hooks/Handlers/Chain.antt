-- ===== src/Hooks/Handlers/Chain.antt =====
-- src/modules/Hooks.ts: the chain of replaced default handlers that `createDefaultHandler` builds.
use vitest_swup.Prelude.{
  ℕ, zero, suc, ◌≤◌, ◌<◌, ◌≡◌, refl, sym, String, some, List, [], ◌∷◌, ◌++◌, length, length-append,
  get_elem?, arith,
}
use mathlib.Core.List.{foldl, append-nil, append_assoc}
use vitest_swup.Values.{FunctionRef}
use vitest_swup.State.{Callee, direct, nested, HookRegistration}
use vitest_swup.Hooks.Handlers.{create_default_handler, main_handler}
use vitest_swup.Hooks.Registry.{default_options}

-- The default handler under a row of replacements, the first one innermost.
abbrev pub wrap : Callee → HookRegistration → Callee
wrap inner r = nested r.handler inner

abbrev pub chain : FunctionRef → List HookRegistration → Callee
chain default_handler replacements = foldl wrap (direct default_handler) replacements

get_elem?-append :
    (xs ys : List HookRegistration) (i : ℕ)
    → i < length xs
    → get_elem? (xs ++ ys) i ≡ get_elem? xs i
get_elem?-append [] ys i h = elim h [ ]
get_elem?-append (x ∷ xs) ys zero h = refl
get_elem?-append (x ∷ xs) ys (suc i) h = get_elem?-append xs ys i (omega arith)

get_elem?-middle :
    (xs : List HookRegistration) (y : HookRegistration) (ys : List HookRegistration)
    → get_elem? (xs ++ y ∷ ys) (length xs) ≡ some y
get_elem?-middle [] y ys = refl
get_elem?-middle (x ∷ xs) y ys = get_elem?-middle xs y ys

-- What lies beyond the index plays no part.
create-append :
    (xs ys : List HookRegistration) (d : FunctionRef) (i : ℕ)
    → i ≤ length xs
    → create_default_handler (xs ++ ys) d i ≡ create_default_handler xs d i
unfolding create_default_handler
create-append xs ys d zero h = refl
create-append xs ys d (suc i) h =
    ground (arith, get_elem?-append xs ys i (omega arith), create-append xs ys d i (omega arith))

-- From any point on, the index-based construction goes through the rest of the array.
create-foldl :
    (pre rest : List HookRegistration) (d : FunctionRef)
    → foldl wrap (create_default_handler (pre ++ rest) d (length pre)) rest
      ≡ create_default_handler (pre ++ rest) d (length (pre ++ rest))
unfolding create_default_handler
create-foldl pre [] d = rw append-nil
create-foldl pre (r ∷ rs) d =
    rw (step, ← append_assoc pre (r ∷ []) rs, ← length-snoc) (create-foldl (pre ++ r ∷ []) rs d)
  where
    length-snoc : length (pre ++ r ∷ []) ≡ suc (length pre)
    length-snoc = omega (arith, length-append pre (r ∷ []))

    step :
        nested r.handler (create_default_handler (pre ++ r ∷ rs) d (length pre))
        ≡ create_default_handler (pre ++ r ∷ rs) d (suc (length pre))
    step = ground (arith, get_elem?-middle pre r rs)

create-eq-chain :
    (xs : List HookRegistration) (d : FunctionRef)
    → create_default_handler xs d (length xs) ≡ chain d xs
unfolding create_default_handler
create-eq-chain xs d = sym (create-foldl [] xs d)

-- When the default handler is replaced, one handler stands for it: the last of the replacements.
-- It is given a default handler that calls the replacement before it, and so on down to the
-- default handler itself; and the last replacement alone says whether the registration runs once.
pub main_handler-eq-chain :
    (hook : String) (xs : List HookRegistration) (last : HookRegistration) (d : FunctionRef)
    → main_handler hook (xs ++ last ∷ []) (some d)
      ≡ record {
        id = 0;
        hook = hook;
        handler = last.handler;
        default_handler = some (chain d xs);
        options = record default_options { once = last.once };
      }
        ∷ []
unfolding main_handler
main_handler-eq-chain hook xs last d = ground (
  arith,
  length-append xs (last ∷ []),
  get_elem?-middle xs last [],
  create-append xs (last ∷ []) d (length xs) (omega arith),
  create-eq-chain xs d,
)

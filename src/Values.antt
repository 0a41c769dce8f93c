-- ===== src/Values.antt =====
-- The dynamic values that handlers, hook arguments and `throw` pass around. Objects are references,
-- so that `===` on them is equality of references and what they hold stays shared.
use vitest_swup.Prelude.{
  ℕ, ◌==◌, nat_eq, string_eq, String, Bool, true, false, not, Option, none, some,
}

-- A function, by its identity.
abbrev pub FunctionRef : Type 0
FunctionRef = ℕ

-- A `Visit` object, by its identity.
abbrev pub VisitRef : Type 0
VisitRef = ℕ

pub data Value : Type 0 where
  undefined : Value
  null : Value
  boolean : Bool → Value
  number : ℕ → Value
  string : String → Value
  visit : VisitRef → Value
  object : ℕ → Value
  -- An element of the document.
  node : ℕ → Value
  function : FunctionRef → Value

-- `Boolean(value)`
abbrev pub is_truthy : Value → Bool
is_truthy undefined = false
is_truthy null = false
is_truthy (boolean b) = b
is_truthy (number n) = not (n == 0)
is_truthy (string s) = not (s == "")
is_truthy _ = true

-- `v instanceof Visit`
abbrev pub is_visit : Value → Bool
is_visit (visit _) = true
is_visit _ = false

-- `typeof v === 'object'`, which holds of `null` too.
abbrev pub is_object : Value → Bool
is_object null = true
is_object (visit _) = true
is_object (object _) = true
is_object (node _) = true
is_object _ = false

-- `typeof v === 'function'`
abbrev pub is_function : Value → Bool
is_function (function _) = true
is_function _ = false

-- A parameter of type `HookDefaultHandler | undefined` that is tested by `if (f)` and then called.
abbrev pub as_function : Value → Option FunctionRef
as_function (function f) = some f
as_function _ = none

-- A parameter of type `Visit | undefined`.
abbrev pub as_visit : Value → Option VisitRef
as_visit (visit v) = some v
as_visit _ = none

-- What a call that may throw ends with.
pub data Outcome {ℓ} (A : Type ℓ) : Type ℓ where
  returns : A → Outcome A
  throws : Value → Outcome A

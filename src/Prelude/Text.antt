-- ===== src/Prelude/Text.antt =====
-- `a + b` on texts, as template literals use it, and `split`.
use Prim.Native.Nat.{ℕ, zero, suc, ◌+◌, ◌≤◌}
use Prim.Native.String.{String, ◌++◌, len, slice}
use mathlib.Core.Option.{some, none}
use mathlib.Core.List.{List, [], ◌∷◌}
use native.Mathlib.Omega.{arith}
use text.Mathlib.Text.{find?}
use vitest_swup.Prelude.Lists.{length}

infixl 65 ◌&◌
abbrev pub ◌&◌ : String → String → String
a & b = a ++ b

-- At most as many separators as the fuel says are found.
split_with : ℕ → String → String → List String
split_with zero separator s = s ∷ []
split_with (suc fuel) separator s = elim (find? s separator) [
  | none ↦ s ∷ []
  | some i ↦ slice s 0 i ∷ split_with fuel separator (slice s (i + len separator) (len s))
]

-- `s.split(separator)`, for a separator that is not empty: a text has at most as many of them as bytes.
unfoldable pub split : String → String → List String
unfolding split_with
split separator s = split_with (len s) separator s

pub length-split-pos : (separator s : String) → 1 ≤ length (split separator s)
unfolding split
length-split-pos separator s = by_fuel (len s)
  where
    by_fuel : (fuel : ℕ) → 1 ≤ length (split_with fuel separator s)
    by_fuel zero = omega arith
    by_fuel (suc fuel) =
        elim (find? s separator)
          as (λ o.
            1
            ≤ length (elim o [
              | none ↦ s ∷ []
              | some i ↦
                  slice s 0 i ∷ split_with fuel separator (slice s (i + len separator) (len s))
            ])) [ none ↦ omega arith | some i ↦ omega arith ]

-- ===== src/Hooks/Order.antt =====
-- src/modules/Hooks.ts: `sortRegistrations`, and the stable sort of JavaScript's arrays with it.
pub mod Sorted
use vitest_swup.Prelude.{ℕ, Option, none, some, List, [], ◌∷◌, if◌then◌else◌}
use vitest_swup.Prelude.Int.{ℤ, pos, ◌-ℤ◌, sub_ℕ, is_positive, is_zero}
use vitest_swup.State.{HookRegistration}

-- `a.priority ?? 0`
abbrev pub priority_or_zero : Option ℤ → ℤ
priority_or_zero none = pos 0
priority_or_zero (some p) = p

-- The sign of the result says which goes first, as `sort` reads it.
unfoldable pub sort_registrations : HookRegistration → HookRegistration → ℤ
unfolding ◌-ℤ◌
sort_registrations a b =
    let priority = priority_or_zero a.priority -ℤ priority_or_zero b.priority in
    let id = sub_ℕ a.id b.id in if is_zero priority then id else priority

-- `array.sort(sortRegistrations)`: JavaScript's sort is stable, as insertion sort is.
insert_sorted : HookRegistration → List HookRegistration → List HookRegistration
unfolding sort_registrations
insert_sorted x [] = x ∷ []
insert_sorted x (y ∷ ys) =
    let rest = insert_sorted x ys in
    if is_positive (sort_registrations x y) then y ∷ rest else x ∷ y ∷ ys

unfoldable pub sort : List HookRegistration → List HookRegistration
unfolding insert_sorted
sort [] = []
sort (x ∷ xs) = insert_sorted x (sort xs)

-- ===== src/Hooks/Order/Sorted.antt =====
-- src/modules/Hooks.ts: what `array.sort(sortRegistrations)` gives.
use vitest_swup.Prelude.{
  ◌≤◌, ◌<◌, ◌≡◌, refl, ◌⊎◌, inl, inr, true, false, List, [], ◌∷◌, ◌++◌, All, Bool-cases, arith,
}
use vitest_swup.Prelude.Int.{ℤ, ◌<ℤ◌, ◌≤ℤ◌, is_positive}
use vitest_swup.State.{HookRegistration}
use vitest_swup.Hooks.Order.{priority_or_zero, sort_registrations, insert_sorted, sort}
use mathlib.Core.List.{Perm}
use mathlib.Core.List.Perm

abbrev pub priority_of : HookRegistration → ℤ
priority_of r = priority_or_zero r.priority

-- The order that the documentation promises: a lower priority first, and the smaller id first
-- among equal priorities.
abbrev pub RunsBefore : HookRegistration → HookRegistration → Type 0
RunsBefore a b =
    (priority_of a <ℤ priority_of b)
    ⊎ ((priority_of a ≤ℤ priority_of b) × (priority_of b ≤ℤ priority_of a) × (a.id ≤ b.id))

abbrev pub IsSorted : List HookRegistration → Type 0
IsSorted [] = Unit
IsSorted (x ∷ xs) = All (RunsBefore x) xs × IsSorted xs

pub positive_iff :
    (a b : HookRegistration) → is_positive (sort_registrations a b) ≡ true → RunsBefore b a
unfolding sort_registrations
positive_iff a b h = ground arith

pub not-positive :
    (a b : HookRegistration) → is_positive (sort_registrations a b) ≡ false → RunsBefore a b
unfolding sort_registrations
not-positive a b h = ground arith

RunsBefore-trans : (a b c : HookRegistration) → RunsBefore a b → RunsBefore b c → RunsBefore a c
RunsBefore-trans a b c h k = ground arith

All-trans :
    (a b : HookRegistration) (xs : List HookRegistration)
    → RunsBefore a b
    → All (RunsBefore b) xs
    → All (RunsBefore a) xs
All-trans a b [] h k = tt
All-trans a b (x ∷ xs) h k = (RunsBefore-trans a b x h k.0, All-trans a b xs h k.1)

-- What holds of all registrations holds of them in another order.
All-insert {κ} :
    (P : HookRegistration → Type κ) (x : HookRegistration) (xs : List HookRegistration)
    → P x
    → All P xs
    → All P (insert_sorted x xs)
unfolding insert_sorted
All-insert P x [] h k = (h, tt)
All-insert P x (y ∷ ys) h k = elim (Bool-cases (is_positive (sort_registrations x y))) [
  | inl p ↦ rw p (k.0, All-insert P x ys h k.1)
  | inr p ↦ rw p (h, k)
]

insert_sorted-IsSorted :
    (x : HookRegistration) (xs : List HookRegistration)
    → IsSorted xs
    → IsSorted (insert_sorted x xs)
unfolding insert_sorted
insert_sorted-IsSorted x [] h = (tt, tt)
insert_sorted-IsSorted x (y ∷ ys) h = elim (Bool-cases (is_positive (sort_registrations x y))) [
  | inl p ↦
      rw p
        (All-insert (RunsBefore y) x ys (positive_iff x y p) h.0, insert_sorted-IsSorted x ys h.1)
  | inr p ↦ rw p ((not-positive x y p, All-trans x y ys (not-positive x y p) h.0), h)
]

insert_sorted-perm :
    (x : HookRegistration) (xs : List HookRegistration) → Perm (insert_sorted x xs) (x ∷ xs)
unfolding insert_sorted
insert_sorted-perm x [] = Perm.refl (x ∷ [])
insert_sorted-perm x (y ∷ ys) = elim (Bool-cases (is_positive (sort_registrations x y))) [
  | inl p ↦ rw p (Perm.trans (Perm.cons y (insert_sorted-perm x ys)) (Perm.swap x y ys))
  | inr p ↦ rw p (Perm.refl (x ∷ y ∷ ys))
]

-- Sorting loses no registration and adds none, and the result is ascending.
pub sort-IsSorted : (xs : List HookRegistration) → IsSorted (sort xs)
unfolding sort
sort-IsSorted [] = tt
sort-IsSorted (x ∷ xs) = insert_sorted-IsSorted x (sort xs) (sort-IsSorted xs)

pub sort-perm : (xs : List HookRegistration) → Perm (sort xs) xs
unfolding sort
sort-perm [] = Perm.refl []
sort-perm (x ∷ xs) = Perm.trans (insert_sorted-perm x (sort xs)) (Perm.cons x (sort-perm xs))

pub All-sort {κ} :
    (P : HookRegistration → Type κ) (xs : List HookRegistration) → All P xs → All P (sort xs)
unfolding sort
All-sort P [] h = tt
All-sort P (x ∷ xs) h = All-insert P x (sort xs) h.0 (All-sort P xs h.1)

-- The comparison decides the order.
not-positive_of :
    (a b : HookRegistration) → RunsBefore a b → is_positive (sort_registrations a b) ≡ false
unfolding sort_registrations
not-positive_of a b h = ground arith

-- Strictly before: the other one does not run before it.
abbrev pub RunsStrictlyBefore : HookRegistration → HookRegistration → Type 0
RunsStrictlyBefore a b =
    (priority_of a <ℤ priority_of b)
    ⊎ ((priority_of a ≤ℤ priority_of b) × (priority_of b ≤ℤ priority_of a) × (a.id < b.id))

positive_of :
    (a b : HookRegistration) → RunsStrictlyBefore b a → is_positive (sort_registrations a b) ≡ true
unfolding sort_registrations
positive_of a b h = ground arith

insert_sorted-snoc :
    (x n : HookRegistration) (ys : List HookRegistration)
    → RunsBefore x n
    → insert_sorted x (ys ++ n ∷ []) ≡ insert_sorted x ys ++ n ∷ []
unfolding insert_sorted
insert_sorted-snoc x n [] h = rw (not-positive_of x n h)
insert_sorted-snoc x n (y ∷ ys) h = elim (Bool-cases (is_positive (sort_registrations x y))) [
  | inl p ↦ rw (p, insert_sorted-snoc x n ys h)
  | inr p ↦ rw p
]

-- A registration that no other has to run after goes to the end.
pub sort-snoc_last :
    (xs : List HookRegistration) (n : HookRegistration)
    → All (λ x. RunsBefore x n) xs
    → sort (xs ++ n ∷ []) ≡ sort xs ++ n ∷ []
unfolding sort insert_sorted
sort-snoc_last [] n h = refl
sort-snoc_last (x ∷ xs) n h = rw (sort-snoc_last xs n h.1) (insert_sorted-snoc x n (sort xs) h.0)

-- A registration that all others have to run after goes to the front.
pub sort-snoc_first :
    (xs : List HookRegistration) (n : HookRegistration)
    → All (RunsStrictlyBefore n) xs
    → sort (xs ++ n ∷ []) ≡ n ∷ sort xs
unfolding sort insert_sorted
sort-snoc_first [] n h = refl
sort-snoc_first (x ∷ xs) n h = rw (sort-snoc_first xs n h.1, positive_of x n h.0)

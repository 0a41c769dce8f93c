-- ===== src/Classes/Clearing.antt =====
-- src/modules/Classes.ts: what `clear` leaves, and that it undoes `add`.
use vitest_swup.Prelude.{
  ℕ, ◌≡◌, refl, sym, ◌∙◌, ap, ◌==◌, nat_eq, nat_beq_iff, string_eq, String, Bool, true, false, not,
  ◌&&◌, ◌||◌, List, [], ◌∷◌, ◌++◌, All, All-map, filter_by, inl, inr, Bool-cases, beq_refl,
  if◌then◌else◌, arith, ◌⊎◌,
}
use text.Mathlib.TextEquality.{eq_iff}
use vitest_swup.State.{Swup, Host, update}
use vitest_swup.Classes.{
  is_among, is_swup_class, add_to, remove_from, for_targets, targets, add, clear,
}

-- The classes that are not the library's.
abbrev pub others : List String → List String
others = filter_by (λ c. not (is_swup_class c))

abbrev pub is_target : ℕ → List ℕ → Bool
is_target q [] = false
is_target q (t ∷ ts) = t == q || is_target q ts

is_among-filter_by :
    (p : String → Bool) (c : String) (xs : List String)
    → is_among c (filter_by p xs) ≡ (is_among c xs && p c)
is_among-filter_by p c [] = refl
is_among-filter_by p c (x ∷ xs) = elim (Bool-cases (x == c)) [
  | inl e ↦
      let same : p x ≡ p c = ap p ((eq_iff x c).0 e) in
      ground (arith, same, e, is_among-filter_by p c xs)
  | inr e ↦ ground (arith, e, is_among-filter_by p c xs)
]

is_among_self : (xs : List String) → All (λ c. is_among c xs ≡ true) xs
is_among_self [] = tt
is_among_self (x ∷ xs) =
    (rw (beq_refl x) refl, All-map xs (λ c h. ground (arith, h)) (is_among_self xs))

filter_by-same :
    (p q : String → Bool) (xs : List String)
    → All (λ c. p c ≡ q c) xs
    → filter_by p xs ≡ filter_by q xs
filter_by-same p q [] h = refl
filter_by-same p q (x ∷ xs) h = rw (h.0, filter_by-same p q xs h.1) refl

-- To take away from a list what is in it and passes a test is to keep what does not pass.
remove_own :
    (p : String → Bool) (xs : List String)
    → remove_from (filter_by p xs) xs ≡ filter_by (λ c. not (p c)) xs
remove_own p xs =
    filter_by-same (λ c. not (is_among c (filter_by p xs))) (λ c. not (p c)) xs
      (All-map xs (λ c h. ap not (is_among-filter_by p c xs ∙ rw h refl)) (is_among_self xs))

filter_by-twice :
    (p : String → Bool) (xs : List String) → filter_by p (filter_by p xs) ≡ filter_by p xs
filter_by-twice p [] = refl
filter_by-twice p (x ∷ xs) = ground (arith, filter_by-twice p xs)

-- A function that gives the same when it is applied twice is applied to the targets, each of which may
-- stand in the list more than once.
for_targets-at :
    (f g : List String → List String)
    → ((l : List String) → f l ≡ g l)
    → ((l : List String) → g (g l) ≡ g l)
    → (ts : List ℕ) (lists : ℕ → List String) (q : ℕ)
    → for_targets f ts lists q ≡ (if is_target q ts then g (lists q) else lists q)
unfolding for_targets update
for_targets-at f g same twice [] lists q = refl
for_targets-at f g same twice (t ∷ ts) lists q =
    for_targets-at f g same twice ts (update lists t (f (lists t))) q ∙ elim (Bool-cases (t == q)) [
      | inl e ↦
          let eq : t ≡ q = (nat_beq_iff t q).0 e in
          rw e (either (is_target q ts) (ap (λ x. f (lists x)) eq ∙ same (lists q)))
      | inr e ↦ rw e refl
    ]
  where
    either :
        (b : Bool)
        → f (lists t) ≡ g (lists q)
        → (if b then g (f (lists t)) else f (lists t)) ≡ g (lists q)
    either true h = ap g h ∙ twice (lists q)
    either false h = h

-- What does not see a change of a target does not see the change of all.
for_targets-unseen :
    (f g : List String → List String)
    → ((l : List String) → g (f l) ≡ g l)
    → (ts : List ℕ) (lists : ℕ → List String) (q : ℕ) → g (for_targets f ts lists q) ≡ g (lists q)
unfolding for_targets update
for_targets-unseen f g unseen [] lists q = refl
for_targets-unseen f g unseen (t ∷ ts) lists q =
    for_targets-unseen f g unseen ts (update lists t (f (lists t))) q ∙ elim (Bool-cases (t == q)) [
      | inl e ↦
          let eq : t ≡ q = (nat_beq_iff t q).0 e in
          rw e (unseen (lists t) ∙ ap (λ x. g (lists x)) eq)
      | inr e ↦ rw e refl
    ]

for_targets-outside :
    (f : List String → List String) (ts : List ℕ) (lists : ℕ → List String) (q : ℕ)
    → is_target q ts ≡ false
    → for_targets f ts lists q ≡ lists q
unfolding for_targets update
for_targets-outside f [] lists q h = refl
for_targets-outside f (t ∷ ts) lists q h = elim (Bool-cases (t == q)) [
  | inl e ↦ absurd (cc (rw e at h))
  | inr e ↦ for_targets-outside f ts (update lists t (f (lists t))) q (rw e at h) ∙ rw e refl
]

others-snoc :
    (c : String) (xs : List String) → is_swup_class c ≡ true → others (xs ++ c ∷ []) ≡ others xs
others-snoc c [] h = rw h refl
others-snoc c (x ∷ xs) h = ground (arith, others-snoc c xs h)

others-add_to :
    (classes : List String) (xs : List String)
    → All (λ c. is_swup_class c ≡ true) classes
    → others (add_to classes xs) ≡ others xs
others-add_to [] xs h = refl
others-add_to (c ∷ classes) xs h = elim (Bool-cases (is_among c xs)) [
  | inl e ↦ rw e (others-add_to classes xs h.1)
  | inr e ↦ rw e (others-add_to classes (xs ++ c ∷ []) h.1 ∙ others-snoc c xs h.0)
]

module _ (host : Host) where
  -- After `clear` a target has the classes that are not the library's, in their order, and every other
  -- element has the classes that it had.
  pub clear-class_lists :
      (s : Swup) (q : ℕ)
      → (clear host s).class_lists q
        ≡ (if is_target q (targets host s) then others (s.class_lists q) else s.class_lists q)
  unfolding clear
  clear-class_lists s q =
      for_targets-at (λ list. remove_from (filter_by is_swup_class list) list) others
        (remove_own is_swup_class) (filter_by-twice (λ c. not (is_swup_class c))) (targets host s)
        s.class_lists q

  -- To add classes of the library's and then to clear gives every element the classes that it has when
  -- they are cleared at once.
  pub clear-add :
      (classes : List String) (s : Swup)
      → All (λ c. is_swup_class c ≡ true) classes
      → (q : ℕ) → (clear host (add host classes s)).class_lists q ≡ (clear host s).class_lists q
  unfolding add targets
  clear-add classes s own q =
      clear-class_lists (add host classes s) q
      ∙ either (Bool-cases (is_target q (targets host s)))
      ∙ sym (clear-class_lists s q)
    where
      lists : ℕ → List String
      lists = for_targets (add_to classes) (targets host s) s.class_lists

      either :
          (is_target q (targets host s) ≡ true) ⊎ (is_target q (targets host s) ≡ false)
          → (if is_target q (targets host s) then others (lists q) else lists q)
            ≡ (if is_target q (targets host s) then others (s.class_lists q) else s.class_lists q)
      either (inl e) = rw e (
          for_targets-unseen (add_to classes) others (λ l. others-add_to classes l own)
            (targets host s) s.class_lists q)
      either (inr e) =
          rw e (for_targets-outside (add_to classes) (targets host s) s.class_lists q e)

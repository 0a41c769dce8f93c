-- ===== src/Animations/Timeouts.antt =====
-- src/modules/awaitAnimations.ts: the delays of a style are read cyclically.
use vitest_swup.Prelude.{
  ℕ, zero, suc, ◌+◌, ◌-◌, ◌≤◌, ◌<◌, ◌≡◌, refl, sym, ap, ap₂, ◌∙◌, String, Option, none, some, List,
  [], ◌∷◌, ◌++◌, length, length-append, get_elem?, ltb, inl, inr, Bool-cases, arith,
}
use Prim.Native.Nat.{◌%◌}
use native.Mathlib.Nat.{zero-add, suc-add, mod-eq_of_lt, mod-eq-sub-mod}
use mathlib.Core.List.{append-nil, append_assoc}
use vitest_swup.Prelude.Int.{ℤ}
use vitest_swup.Animations.{
  Number, sum_ms, math_max, extend, ms_at, sums, max_timeout, calculate_timeout,
}

-- A list put after itself, `k` times in all.
abbrev pub repeated : ℕ → List String → List String
repeated zero xs = []
repeated (suc k) xs = xs ++ repeated k xs

repeated-add : (j k : ℕ) (xs : List String) → repeated j xs ++ repeated k xs ≡ repeated (j + k) xs
repeated-add zero k xs = rw (zero-add k) refl
repeated-add (suc j) k xs =
    rw (suc-add j k)
      (append_assoc xs (repeated j xs) (repeated k xs) ∙ ap (λ l. xs ++ l) (repeated-add j k xs))

-- Doubling a list of at least `k` entries gives the length that is asked for before the fuel is out.
extend-repeated :
    (fuel : ℕ) (durations xs : List String) (k : ℕ)
    → length durations < length (repeated k xs) + fuel + 1
    → 1 ≤ length (repeated k xs)
    → (j : ℕ) × (extend fuel durations (repeated k xs) ≡ some (repeated j xs))
      × (length durations ≤ length (repeated j xs))
unfolding extend
extend-repeated zero durations xs k h p = (k, ground arith, ground arith)
extend-repeated (suc fuel) durations xs k h p =
    elim (Bool-cases (ltb (length (repeated k xs)) (length durations))) [
      | inl l ↦
          let doubled = repeated-add k k xs in
          let size : length (repeated (k + k) xs)
              ≡ length (repeated k xs) + length (repeated k xs) =
            ap length (sym doubled) ∙ length-append (repeated k xs) (repeated k xs) in
          let (j, e, b) =
            extend-repeated fuel durations xs (k + k) (omega (arith, size, h, p))
              (omega (arith, size, p)) in
          (j, rw (l, extend) (ap (extend fuel durations) doubled ∙ e), b)
      | inr l ↦ (k, rw (l, extend) refl, ground arith)
    ]

get_elem?-append_left :
    (xs ys : List String) (i : ℕ) → i < length xs → get_elem? (xs ++ ys) i ≡ get_elem? xs i
get_elem?-append_left [] ys i h = elim h [ ]
get_elem?-append_left (x ∷ xs) ys zero h = refl
get_elem?-append_left (x ∷ xs) ys (suc i) h = get_elem?-append_left xs ys i (omega arith)

get_elem?-append_right :
    (xs ys : List String) (i : ℕ)
    → length xs ≤ i
    → get_elem? (xs ++ ys) i ≡ get_elem? ys (i - length xs)
get_elem?-append_right [] ys i h = ap (get_elem? ys) (omega arith)
get_elem?-append_right (x ∷ xs) ys zero h = absurd (omega (arith, h))
get_elem?-append_right (x ∷ xs) ys (suc i) h =
    get_elem?-append_right xs ys i (omega arith) ∙ ap (get_elem? ys) (omega arith)

-- A list put after itself is read cyclically.
get_elem?-repeated :
    (k : ℕ) (xs : List String) (i : ℕ)
    → i < length (repeated k xs)
    → get_elem? (repeated k xs) i ≡ get_elem? xs (i % length xs)
get_elem?-repeated zero xs i h = elim h [ ]
get_elem?-repeated (suc k) xs i h = elim (Bool-cases (ltb i (length xs))) [
  | inl l ↦
      get_elem?-append_left xs (repeated k xs) i (ground arith)
      ∙ ap (get_elem? xs) (sym (mod-eq_of_lt (ground arith)))
  | inr l ↦
      get_elem?-append_right xs (repeated k xs) i (ground arith)
      ∙ get_elem?-repeated k xs (i - length xs) (ground (arith, length-append xs (repeated k xs)))
      ∙ ap (get_elem? xs) (sym (mod-eq-sub-mod (ground arith)))
]

module _ (to_ms : String → Option ℤ) where
  -- The sums of durations and delays, where a list of delays that is too short starts again.
  abbrev pub cyclic_sums : List String → ℕ → List String → List Number
  cyclic_sums delays i [] = []
  cyclic_sums delays i (duration ∷ durations) =
      sum_ms (to_ms duration) (ms_at to_ms delays (i % length delays))
      ∷ cyclic_sums delays (suc i) durations

  sums-repeated :
      (k : ℕ) (delays : List String) (i : ℕ) (durations : List String)
      → i + length durations ≤ length (repeated k delays)
      → sums to_ms (repeated k delays) i durations ≡ cyclic_sums delays i durations
  unfolding sums
  sums-repeated k delays i [] h = refl
  sums-repeated k delays i (duration ∷ durations) h =
      ap₂ (λ n ns. n ∷ ns)
        (ap (sum_ms (to_ms duration)) (ap ms_of (get_elem?-repeated k delays i (omega arith))))
        (sums-repeated k delays (suc i) durations (omega (arith, h)))
    where
      ms_of : Option String → Option ℤ
      ms_of o = elim o [ some delay ↦ to_ms delay | none ↦ none ]

  -- Where there is a delay, `calculateTimeout` returns, and the result is the greatest sum of a
  -- duration and its delay, where a list of delays that is too short starts again, as in CSS.
  pub calculate_timeout-cyclic :
      (delays durations : List String)
      → 1 ≤ length delays
      → calculate_timeout to_ms delays durations
        ≡ some (math_max (cyclic_sums delays zero durations))
  unfolding calculate_timeout
  calculate_timeout-cyclic delays durations h =
      let once = append-nil delays in
      let size = ap length once in
      let (j, e, b) =
        extend-repeated (length durations) durations delays 1 (omega (arith, size, h))
          (omega (arith, size, h)) in
      ap (λ o. max_timeout to_ms o durations)
        (ap (extend (length durations) durations) (sym once) ∙ e)
      ∙ ap (λ ns. some (math_max ns)) (sums-repeated j delays zero durations (omega (arith, b)))

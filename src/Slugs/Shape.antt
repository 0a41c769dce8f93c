-- ===== src/Slugs/Shape.antt =====
-- src/helpers/classify.ts: what each replacement makes of a text.
use Prim.Native.Nat.{compare, Ordering}
use Prim.Native.Char.{Char, code}
use Prim.Native.String.{String, [], ◌∷◌}
use vitest_swup.Prelude.{
  ℕ, ◌+◌, ◌<◌, ◌≤◌, ◌==◌, nat_eq, string_eq, leb, Bool, true, false, not, ◌&&◌, ◌||◌, ◌≡◌, refl,
  ◌⊎◌, inl, inr, Bool-cases, if◌then◌else◌, arith,
}
use vitest_swup.Slugs.{
  of_code, of_ordering, lower, is_dash, is_word, dash, to_lower, replace_runs, remove_others,
  trim_start, trim_end,
}

abbrev pub is_upper : Char → Bool
is_upper c = leb 65 (code c) && leb (code c) 90

-- A small letter or a digit.
abbrev pub is_kept : Char → Bool
is_kept c = (leb 97 (code c) && leb (code c) 122) || (leb 48 (code c) && leb (code c) 57)

-- Small letters, digits and dashes, where no dash follows another one. The Boolean says whether a dash
-- stands before the text.
unfoldable pub is_shaped : Bool → String → Bool
is_shaped after [] = true
is_shaped after (c ∷ s) =
    let after_dash = is_shaped true s in
    let after_other = is_shaped false s in
    if is_dash c then not after && after_dash else is_kept c && after_other

-- And no dash at the end.
unfoldable pub is_closed : Bool → String → Bool
is_closed after [] = not after
is_closed after (c ∷ s) =
    let after_dash = is_closed true s in
    let after_other = is_closed false s in
    if is_dash c then not after && after_dash else is_kept c && after_other

-- The empty text, or words of small letters and digits with single dashes between them.
abbrev pub IsSlug : String → Type 0
IsSlug s = (s ≡ "") ⊎ (is_closed true s ≡ true)

abbrev pub Every : (Char → Bool) → String → Type 0
Every p [] = Unit
Every p (c ∷ s) = (p c ≡ true) × Every p s

code-of_code : (n : ℕ) → n < 55296 → code (of_code n) ≡ n
unfolding of_code
code-of_code n h = from_ordering (compare n 55296) refl
  where
    from_ordering : (o : Ordering) (e : compare n 55296 ≡ o) → code (of_ordering n o e) ≡ n
    from_ordering Ordering.lt e = refl
    from_ordering Ordering.eq e = ground arith
    from_ordering Ordering.gt e = ground arith

lower-upper : (c : Char) → not (is_upper (lower c)) ≡ true
unfolding lower
lower-upper c = elim (Bool-cases (is_upper c)) [
  | inl e ↦
      let below : code c ≤ 90 = ground (arith, e) in
      rw (e, lower, code-of_code (code c + 32) (omega (arith, below))) (ground (arith, e))
  | inr e ↦ elim (Bool-cases (code c == 304)) [
    | inl f ↦ rw (e, lower, f) refl
    | inr f ↦ elim (Bool-cases (code c == 8490)) [
      | inl g ↦ rw (e, lower, f, g) refl
      | inr g ↦ rw (e, lower, f, g, e) refl
    ]
  ]
]

pub to_lower-upper : (s : String) → Every (λ c. not (is_upper c)) (to_lower s)
unfolding to_lower
to_lower-upper [] = tt
to_lower-upper (c ∷ s) = (lower-upper c, to_lower-upper s)

module _ (p q r : Char → Bool) where
  -- What holds of all characters after a replacement.
  pub replace_runs-Every :
      ((c : Char) → q c ≡ true → p c ≡ false → r c ≡ true)
      → r dash ≡ true
      → (running : Bool) (s : String) → Every q s
      → Every r (replace_runs p running s)
  unfolding replace_runs
  replace_runs-Every keep d running [] h = tt
  replace_runs-Every keep d false (c ∷ s) h = elim (Bool-cases (p c)) [
    | inl e ↦ rw (e, replace_runs) (d, replace_runs-Every keep d true s h.1)
    | inr e ↦ rw (e, replace_runs) (keep c h.0 e, replace_runs-Every keep d false s h.1)
  ]
  replace_runs-Every keep d true (c ∷ s) h = elim (Bool-cases (p c)) [
    | inl e ↦ rw (e, replace_runs) (replace_runs-Every keep d true s h.1)
    | inr e ↦ rw (e, replace_runs) (keep c h.0 e, replace_runs-Every keep d false s h.1)
  ]

  pub remove_others-Every :
      ((c : Char) → q c ≡ true → (is_word c || is_dash c) ≡ true → r c ≡ true)
      → (s : String) → Every q s
      → Every r (remove_others s)
  unfolding remove_others
  remove_others-Every keep [] h = tt
  remove_others-Every keep (c ∷ s) h = elim (Bool-cases (is_word c || is_dash c)) [
    | inl e ↦ rw e (keep c h.0 e, remove_others-Every keep s h.1)
    | inr e ↦ rw e (remove_others-Every keep s h.1)
  ]

-- Runs of dashes become single dashes.
pub replace_runs-shaped :
    (running : Bool) (s : String)
    → Every (λ c. is_kept c || is_dash c) s
    → is_shaped running (replace_runs is_dash running s) ≡ true
unfolding replace_runs is_shaped
replace_runs-shaped running [] h = refl
replace_runs-shaped false (c ∷ s) h = elim (Bool-cases (is_dash c)) [
  | inl e ↦ rw (e, is_shaped, replace_runs) (replace_runs-shaped true s h.1)
  | inr e ↦
      rw (e, is_shaped, replace_runs) (ground (arith, h.0, e, replace_runs-shaped false s h.1))
]
replace_runs-shaped true (c ∷ s) h = elim (Bool-cases (is_dash c)) [
  | inl e ↦ rw (e, is_shaped, replace_runs) (replace_runs-shaped true s h.1)
  | inr e ↦
      rw (e, is_shaped, replace_runs) (ground (arith, h.0, e, replace_runs-shaped false s h.1))
]

pub trim_start-shaped :
    (after : Bool) (s : String) → is_shaped after s ≡ true → is_shaped true (trim_start s) ≡ true
unfolding is_shaped trim_start
trim_start-shaped after [] h = refl
trim_start-shaped after (c ∷ s) h = elim (Bool-cases (is_dash c)) [
  | inl e ↦ rw (e, trim_start) (trim_start-shaped true s (ground (arith, h, e)))
  | inr e ↦ rw (e, trim_start) (ground (arith, h, e))
]

pub trim_end-closed :
    (after : Bool) (s : String)
    → is_shaped after s ≡ true
    → (trim_end s ≡ "") ⊎ (is_closed after (trim_end s) ≡ true)
unfolding is_shaped is_closed trim_end
trim_end-closed after [] h = inl refl
trim_end-closed after (c ∷ s) h = elim (Bool-cases (is_dash c)) [
  | inl e ↦ at_dash e (trim_end-closed true s (ground (arith, h, e)))
  | inr e ↦ inr (
      rw (e, trim_end, is_closed, e)
        (at_other (ground (arith, h, e)) (trim_end-closed false s (ground (arith, h, e)))))
]
  where
    at_dash :
        is_dash c ≡ true
        → (trim_end s ≡ "") ⊎ (is_closed true (trim_end s) ≡ true)
        → (trim_end (c ∷ s) ≡ "") ⊎ (is_closed after (trim_end (c ∷ s)) ≡ true)
    at_dash e i = elim (Bool-cases (trim_end s == "")) [
      | inl f ↦ rw (e, f, trim_end) (inl refl)
      | inr f ↦ elim i [
        | inl empty ↦ absurd (cc (rw empty at f))
        | inr closed ↦ inr (rw (e, f, trim_end, is_closed, e) (ground (arith, h, e, closed)))
      ]
    ]

    at_other :
        is_kept c ≡ true
        → (trim_end s ≡ "") ⊎ (is_closed false (trim_end s) ≡ true)
        → (is_kept c && is_closed false (trim_end s)) ≡ true
    at_other k (inl i) = rw (i, k) refl
    at_other k (inr i) = rw (i, k) refl

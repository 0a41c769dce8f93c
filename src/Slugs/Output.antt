-- ===== src/Slugs/Output.antt =====
-- src/helpers/classify.ts: which names there are.
use Prim.Native.Char.{Char, code}
use text.Mathlib.TextEquality.{Char-path}
use Prim.Native.String.{String, [], ◌∷◌}
use vitest_swup.Prelude.{
  ◌==◌, nat_eq, string_eq, Bool, true, false, not, ◌&&◌, ◌||◌, ◌≡◌, refl, ◌∙◌, ap, ap₂, ◌⊎◌, inl,
  inr, Bool-cases, arith, sym,
}
use vitest_swup.Slugs.{
  lower, is_dash, is_separator, dash, to_lower, replace_runs, remove_others, trim_start, trim_end,
  slug,
}
use vitest_swup.Slugs.Shape.{
  is_upper, is_kept, is_closed, IsSlug, to_lower-upper, replace_runs-Every, remove_others-Every,
  replace_runs-shaped, trim_start-shaped, trim_end-closed,
}

-- What is there already is left alone.
to_lower-closed : (after : Bool) (s : String) → is_closed after s ≡ true → to_lower s ≡ s
unfolding to_lower is_closed
to_lower-closed after [] h = refl
to_lower-closed after (c ∷ s) h = elim (Bool-cases (is_dash c)) [
  | inl e ↦
      rw (to_lower-closed true s (ground (arith, h, e))) (ap (λ d. d ∷ s) (lower_kept c (inl e)))
  | inr e ↦
      rw (to_lower-closed false s (ground (arith, h, e)))
        (ap (λ d. d ∷ s) (lower_kept c (inr (ground (arith, h, e)))))
]
  where
    lower_kept : (d : Char) → (is_dash d ≡ true) ⊎ (is_kept d ≡ true) → lower d ≡ d
    lower_kept d h = unfold lower in ground (arith, h)

separators-closed :
    (after : Bool) (s : String) → is_closed after s ≡ true → replace_runs is_separator false s ≡ s
unfolding replace_runs is_closed
separators-closed after [] h = refl
separators-closed after (c ∷ s) h = elim (Bool-cases (is_dash c)) [
  | inl e ↦
      let other : is_separator c ≡ false = ground (arith, e) in
      rw (other, replace_runs) (ap (λ t. c ∷ t) (separators-closed true s (ground (arith, h, e))))
  | inr e ↦
      let other : is_separator c ≡ false = ground (arith, h, e) in
      rw (other, replace_runs) (ap (λ t. c ∷ t) (separators-closed false s (ground (arith, h, e))))
]

remove_others-closed : (after : Bool) (s : String) → is_closed after s ≡ true → remove_others s ≡ s
unfolding remove_others is_closed
remove_others-closed after [] h = refl
remove_others-closed after (c ∷ s) h =
    ground (arith, h, remove_others-closed true s, remove_others-closed false s)

dashes-closed :
    (after : Bool) (s : String) → is_closed after s ≡ true → replace_runs is_dash after s ≡ s
unfolding replace_runs is_closed
dashes-closed after [] h = refl
dashes-closed false (c ∷ s) h = elim (Bool-cases (is_dash c)) [
  | inl e ↦
      let same : dash ≡ c = Char-path dash c (sym ((nat_eq.same_iff (code c) 45).0 e)) in
      rw (e, replace_runs) (ap₂ (λ d t. d ∷ t) same (dashes-closed true s (ground (arith, h, e))))
  | inr e ↦ rw (e, replace_runs) (ap (λ t. c ∷ t) (dashes-closed false s (ground (arith, h, e))))
]
dashes-closed true (c ∷ s) h = elim (Bool-cases (is_dash c)) [
  | inl e ↦ absurd (ground (arith, h, e))
  | inr e ↦ rw (e, replace_runs) (ap (λ t. c ∷ t) (dashes-closed false s (ground (arith, h, e))))
]

trim_end-kept : (after : Bool) (s : String) → is_closed after s ≡ true → trim_end s ≡ s
unfolding trim_end is_closed
trim_end-kept after [] h = refl
trim_end-kept after (c ∷ s) h = elim (Bool-cases (is_dash c)) [
  | inl e ↦
      let closed : is_closed true s ≡ true = ground (arith, h, e) in
      let more : (s == "") ≡ false = elim (Bool-cases (s == "")) [
        | inl f ↦ absurd (cc (rw ((string_eq.same_iff s "").0 f) at closed))
        | inr f ↦ f
      ] in
      rw (e, trim_end, trim_end-kept true s closed, more) refl
  | inr e ↦ rw (e, trim_end) (ap (λ t. c ∷ t) (trim_end-kept false s (ground (arith, h, e))))
]

slug-closed : (s : String) → is_closed true s ≡ true → slug s ≡ s
unfolding slug is_closed trim_start
slug-closed s h =
    ap
      (λ t. trim_end (
        trim_start
          (replace_runs is_dash false (remove_others (replace_runs is_separator false t)))))
      (to_lower-closed true s h)
    ∙ ap (λ t. trim_end (trim_start (replace_runs is_dash false (remove_others t))))
        (separators-closed true s h)
    ∙ ap (λ t. trim_end (trim_start (replace_runs is_dash false t))) (remove_others-closed true s h)
    ∙ ap (λ t. trim_end (trim_start t)) (dashes-closed false s (inside s h))
    ∙ ap trim_end (at_start s h)
    ∙ trim_end-kept true s h
  where
    inside : (t : String) → is_closed true t ≡ true → is_closed false t ≡ true
    inside [] h = refl
    inside (c ∷ t) h = ground (arith, h)

    at_start : (t : String) → is_closed true t ≡ true → trim_start t ≡ t
    at_start [] h = refl
    at_start (c ∷ t) h = elim (Bool-cases (is_dash c)) [
      | inl e ↦ absurd (ground (arith, h, e))
      | inr e ↦ rw (e, trim_start) refl
    ]

-- Whatever the text is, its slug is empty, or words of small ASCII letters and digits with single dashes
-- between them; and the slug of a slug is the slug itself.
pub slug-IsSlug : (text : String) → IsSlug (slug text) × (slug (slug text) ≡ slug text)
unfolding slug
slug-IsSlug text =
    let lowered = to_lower-upper text in
    let parted =
      replace_runs-Every is_separator (λ c. not (is_upper c))
        (λ c. not (is_upper c) && (not (is_separator c) || is_dash c))
        (λ c h e. ground (arith, h, e)) refl false (to_lower text) lowered in
    let cleaned =
      remove_others-Every is_separator
        (λ c. not (is_upper c) && (not (is_separator c) || is_dash c)) (λ c. is_kept c || is_dash c)
        (λ c h e. ground (arith, h, e)) (replace_runs is_separator false (to_lower text)) parted in
    let single = replace_runs-shaped false _ cleaned in
    let started = trim_start-shaped false _ single in
    (trim_end-closed true _ started, kept (slug text) (trim_end-closed true _ started))
  where
    kept : (s : String) → IsSlug s → slug s ≡ s
    kept s (inl e) = rw e refl
    kept s (inr h) = slug-closed s h

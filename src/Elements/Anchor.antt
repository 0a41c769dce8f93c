-- ===== src/Elements/Anchor.antt =====
-- src/modules/getAnchorElement.ts: the element that a hash names, against what the HTML standard says.
use Prim.Native.Char.{Char, code}
use Prim.Native.String.{[], ◌∷◌}
use vitest_swup.Prelude.{
  ℕ, ◌+◌, ◌&&◌, ◌||◌, nat_eq, sym, ◌∙◌, ◌≡◌, refl, ap, ◌==◌, string_eq, String, Bool, true, false,
  ◌⊎◌, Option, none, some, inl, inr, Bool-cases, if◌then◌else◌,
}
use vitest_swup.Values.{string, Outcome, returns, throws}
use vitest_swup.State.{Swup, Host, Forest}
use vitest_swup.Elements.{or_else, without_mark, named, or_top, anchor_in, get_anchor_element}

abbrev pub is_found : Option ℕ → Bool
is_found none = false
is_found (some _) = true

-- "Find a potential indicated element" of the standard: the element with that id, or else the anchor
-- with that name.
abbrev pub potential : Host → String → Forest → Option ℕ
potential host fragment document =
    or_else (host.element_by_id fragment document) (named host fragment document)

-- "An ASCII case-insensitive match for the string `top`", character by character.
abbrev is_letter : ℕ → Char → Bool
is_letter small c = code c == small || code c + 32 == small

abbrev is_end : String → Bool
is_end [] = true
is_end (c ∷ s) = false

abbrev is_p : String → Bool
is_p [] = false
is_p (c ∷ s) = is_letter 112 c && is_end s

abbrev is_op : String → Bool
is_op [] = false
is_op (c ∷ s) = is_letter 111 c && is_p s

abbrev pub is_top : String → Bool
is_top [] = false
is_top (c ∷ s) = is_letter 116 c && is_op s

-- The top of the document, if the standard says so.
abbrev pub top_of : Host → Bool → Option ℕ
top_of host true = some host.body
top_of host false = none

-- The indicated part of the document: the potential element of the fragment, or else that of the
-- decoded fragment, or else the top of the document (the body), where the decoded fragment matches
-- `top` in small or capital letters; and no element for the empty fragment.
abbrev pub indicated : Host → String → String → Forest → Option ℕ
indicated host fragment decoded document =
    if fragment == ""
    then none
    else or_else (or_else (potential host fragment document) (potential host decoded document))
        (top_of host (is_top decoded))

-- The decoded fragment matches `top`, but the fragment itself is another text: the code finds nothing, and
-- the standard says the top of the document.
abbrev pub MissesTop : Host → String → String → (found reference : Option ℕ) → Type 0
MissesTop host fragment decoded found reference =
    ((fragment == "top") ≡ false)
    × (is_top decoded ≡ true)
    × (found ≡ none)
    × (reference ≡ some host.body)

-- The fragment is no id, but the decoded fragment is one, and an anchor has the fragment for its name: the
-- code takes the element with the id, and the standard the anchor.
abbrev pub TakesDecodedId : Host → String → String → Forest → (found reference : Option ℕ) → Type 0
TakesDecodedId host fragment decoded document found reference =
    (host.element_by_id fragment document ≡ none)
    × (el : ℕ) × (other : ℕ) × (host.element_by_id decoded document ≡ some el)
    × (named host fragment document ≡ some other)
    × (found ≡ some el)
    × (reference ≡ some other)

-- The two orders of search, of what the four searches find.
search-order :
    (a b c d : Option ℕ)
    → (or_else a (or_else b (or_else c d)) ≡ or_else (or_else a c) (or_else b d))
      ⊎ ((a ≡ none)
          × (el : ℕ) × (other : ℕ) × (b ≡ some el)
          × (c ≡ some other)
          × (or_else a (or_else b (or_else c d)) ≡ some el)
          × (or_else (or_else a c) (or_else b d) ≡ some other))
search-order (some e) b c d = inl refl
search-order none none c d = inl refl
search-order none (some el) none d = inl refl
search-order none (some el) (some other) d = inr (refl, el, other, refl, refl, refl, refl)

-- What is left, when neither the fragment nor the decoded fragment finds an element.
top-cases :
    (host : Host) (fragment decoded : String)
    → host.decode_uri_component fragment ≡ returns decoded
    → host.decode_uri_component "top" ≡ returns "top"
    → (or_top host fragment none ≡ top_of host (is_top decoded))
      ⊎ MissesTop host fragment decoded (or_top host fragment none) (top_of host (is_top decoded))
top-cases host fragment decoded e plain = elim (Bool-cases (fragment == "top")) [
  | inl t ↦
      let same : fragment ≡ "top" = (string_eq.same_iff fragment "top").0 t in
      let whole : decoded ≡ "top" =
        ap (λ o. text_in o) (sym e ∙ ap host.decode_uri_component same ∙ plain) in
      inl (rw t (rw whole refl))
  | inr t ↦ elim (Bool-cases (is_top decoded)) [
    | inl u ↦ inr (t, u, rw t refl, rw u refl)
    | inr u ↦ inl (rw (t, u) refl)
  ]
]
  where
    text_in : Outcome String → String
    text_in (returns text) = text
    text_in (throws error) = ""

pub get_anchor_element-indicated :
    (host : Host) (hash decoded : String) (s : Swup)
    → host.decode_uri_component (without_mark hash) ≡ returns decoded
    → host.decode_uri_component "top" ≡ returns "top"
    → let fragment = without_mark hash in
      let reference = indicated host fragment decoded s.document in
      (found : Option ℕ) × (get_anchor_element host (string hash) s ≡ (returns found, s))
      × ((found ≡ reference)
          ⊎ (TakesDecodedId host fragment decoded s.document found reference
              ⊎ MissesTop host fragment decoded found reference))
unfolding get_anchor_element anchor_in
get_anchor_element-indicated host hash decoded s e plain =
    elim (Bool-cases (without_mark hash == "")) [
      | inl blank ↦ (none, rw blank refl, inl (rw blank refl))
      | inr text ↦
          let a = host.element_by_id fragment document in
          let b = host.element_by_id decoded document in
          let c = named host fragment document in
          let d = named host decoded document in
          (
            or_top host fragment (or_else a (or_else b (or_else c d))),
            rw (text, e) refl,
            rw text (elim (search-order a b c d) [
              | inl same ↦
                  at_top (or_else a (or_else b (or_else c d))) (or_else (or_else a c) (or_else b d))
                    same
              | inr (no_id, el, other, is_b, is_c, first, second) ↦ inr (
                  inl (
                    no_id,
                    el,
                    other,
                    is_b,
                    is_c,
                    ap (or_top host fragment) first,
                    ap (λ o. or_else o (top_of host (is_top decoded))) second,
                  ))
            ]),
          )
    ]
  where
    fragment : String
    fragment = without_mark hash

    document : Forest
    document = s.document

    at_top :
        (x y : Option ℕ)
        → x ≡ y
        → let found = or_top host fragment x in
          let reference = or_else y (top_of host (is_top decoded)) in
          (found ≡ reference)
          ⊎ (TakesDecodedId host fragment decoded document found reference
              ⊎ MissesTop host fragment decoded found reference)
    at_top none none same = elim (top-cases host fragment decoded e plain) [
      | inl agrees ↦ inl agrees
      | inr misses ↦ inr (inr misses)
    ]
    at_top (some el) (some other) same = inl same
    at_top none (some other) same = absurd (cc same)
    at_top (some el) none same = absurd (cc same)

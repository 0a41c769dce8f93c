-- ===== src/Slugs.antt =====
-- src/helpers/classify.ts: a name as the end of a class.
pub mod Shape
pub mod Output
use Prim.Native.Nat.{compare, Ordering}
use Prim.Native.Char.{Char, char, code, nul}
use Prim.Native.String.{String, [], ◌∷◌}
use vitest_swup.Prelude.{
  ℕ, ◌+◌, ◌==◌, nat_eq, string_eq, leb, Bool, true, false, not, ◌&&◌, ◌||◌, ◌≡◌, refl,
  if◌then◌else◌,
}
use vitest_swup.Classes.{is_space}

-- The character with a number, where that is below the surrogates.
abbrev pub of_ordering : (n : ℕ) (o : Ordering) → compare n 55296 ≡ o → Char
of_ordering n Ordering.lt e = char n (rw e tt)
of_ordering n _ e = nul

unfoldable pub of_code : ℕ → Char
of_code n = of_ordering n (compare n 55296) refl

-- What `toLowerCase` makes of a character, as far as the result is an ASCII letter: it is that for the
-- capital letters, for the dotted capital I (whose dot is a character of its own, which is no word
-- character), and for the Kelvin sign.
unfoldable pub lower : Char → Char
unfolding of_code
lower c =
    if leb 65 (code c) && leb (code c) 90
    then of_code (code c + 32)
    else if code c == 304
    then of_code 105
    else if code c == 8490
    then of_code 107
    else c

abbrev pub is_dash : Char → Bool
is_dash c = code c == 45

-- `[\s/_.]`
abbrev pub is_separator : Char → Bool
is_separator c = is_space (code c) || code c == 47 || code c == 95 || code c == 46

-- `\w`
abbrev pub is_word : Char → Bool
is_word c =
    (leb 97 (code c) && leb (code c) 122)
    || (leb 65 (code c) && leb (code c) 90)
    || (leb 48 (code c) && leb (code c) 57)
    || code c == 95

abbrev pub dash : Char
dash = char 45 tt

-- `.toLowerCase()`
unfoldable pub to_lower : String → String
unfolding lower
to_lower [] = []
to_lower (c ∷ s) = lower c ∷ to_lower s

-- `.replace(/[p]+/g, '-')`, for a class `p` of characters; the Boolean says whether a run goes on.
unfoldable pub replace_runs : (Char → Bool) → Bool → String → String
replace_runs p running [] = []
replace_runs p false (c ∷ s) = elim (p c) [
  | true ↦ dash ∷ replace_runs p true s
  | false ↦ c ∷ replace_runs p false s
]
replace_runs p true (c ∷ s) = elim (p c) [
  | true ↦ replace_runs p true s
  | false ↦ c ∷ replace_runs p false s
]

-- `.replace(/[^\w-]+/g, '')`
unfoldable pub remove_others : String → String
remove_others [] = []
remove_others (c ∷ s) =
    let rest = remove_others s in if is_word c || is_dash c then c ∷ rest else rest

-- `.replace(/^-+/, '')` and `.replace(/-+$/, '')`
unfoldable pub trim_start : String → String
trim_start [] = []
trim_start (c ∷ s) = elim (is_dash c) [ true ↦ trim_start s | false ↦ c ∷ s ]

unfoldable pub trim_end : String → String
trim_end [] = []
trim_end (c ∷ s) = let rest = trim_end s in if is_dash c && rest == "" then "" else c ∷ rest

-- `classify(text)`; a repeated `-` is a run of dashes.
unfoldable pub slug : String → String
unfolding to_lower replace_runs remove_others trim_start trim_end
slug text = trim_end (
    trim_start (
      replace_runs is_dash false (remove_others (replace_runs is_separator false (to_lower text)))))

-- `output || fallback`
abbrev pub classify : String → String → String
classify text fallback = let output = slug text in if output == "" then fallback else output

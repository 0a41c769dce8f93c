-- ===== src/Classes.antt =====
-- src/modules/Classes.ts: the classes that mark the phases of a visit.
pub mod Clearing
use Prim.Native.Nat.{ℕ, zero, suc, ◌+◌}
use Prim.Native.Char.{code, len_utf8}
use Prim.Native.String.{len}
use text.Mathlib.Text.{starts_with, char_at?}
use vitest_swup.Prelude.{
  ◌&◌, ◌==◌, nat_eq, string_eq, leb, String, Bool, true, false, not, ◌&&◌, ◌||◌, Option, none, some,
  List, [], ◌∷◌, filter_by, ◌++◌, if◌then◌else◌,
}
use vitest_swup.Visit.{AnimationScope, html, containers, selectors}
use vitest_swup.State.{Swup, Host, update}

abbrev pub some_of : (String → Bool) → List String → Bool
some_of p [] = false
some_of p (x ∷ xs) = p x || some_of p xs

abbrev pub is_among : String → List String → Bool
is_among c = some_of (λ x. x == c)

-- White space, as `trim` takes it away.
abbrev pub is_space : ℕ → Bool
is_space n =
    (leb 9 n && leb n 13)
    || n == 32
    || n == 160
    || n == 5760
    || (leb 8192 n && leb n 8202)
    || n == 8232
    || n == 8233
    || n == 8239
    || n == 8287
    || n == 12288
    || n == 65279

-- From a position on, with at most as many characters left as the fuel says.
is_blank_from : ℕ → String → ℕ → Bool
is_blank_from zero s i = true
is_blank_from (suc fuel) s i = elim (char_at? s i) [
  | none ↦ true
  | some c ↦ is_space (code c) && is_blank_from fuel s (i + len_utf8 c)
]

-- `!s.trim()`; the bytes of a text are at least as many as its characters.
unfoldable pub is_blank : String → Bool
unfolding is_blank_from
is_blank s = is_blank_from (len s) s 0

-- `selectors.join(',')`
abbrev pub join : List String → String
join [] = ""
join (x ∷ []) = x
join (x ∷ y ∷ xs) = x & "," & join (y ∷ xs)

abbrev pub swup_classes : List String
swup_classes =
    "to-" ∷ "is-changing" ∷ "is-rendering" ∷ "is-popstate" ∷ "is-animating" ∷ "is-leaving" ∷ []

unfoldable pub is_swup_class : String → Bool
is_swup_class class_name = some_of (λ c. starts_with class_name c) swup_classes

-- The `selectors` of a scope.
abbrev pub selectors_of : AnimationScope → List String → List String
selectors_of containers names = names
selectors_of html names = "html" ∷ []
selectors_of (selectors scope) names = scope

-- `classList.add(...classes)` and `classList.remove(...classes)` on a list of classes.
abbrev pub add_to : List String → List String → List String
add_to [] list = list
add_to (c ∷ classes) list = add_to classes (if is_among c list then list else list ++ c ∷ [])

abbrev pub remove_from : List String → List String → List String
remove_from classes = filter_by (λ c. not (is_among c classes))

-- The loop over the targets.
unfoldable pub for_targets :
    (List String → List String) → List ℕ → (ℕ → List String) → ℕ → List String
unfolding update
for_targets f [] lists = lists
for_targets f (target ∷ targets) lists =
    for_targets f targets (update lists target (f (lists target)))

abbrev pub with_lists : (ℕ → List String) → Swup → Swup
with_lists lists s = record s { class_lists = lists }

module _ (host : Host) where
  unfoldable pub selector : Swup → String
  selector s =
      let visit = s.visits s.visit in join (selectors_of visit.animation.scope visit.containers)

  unfoldable pub targets : Swup → List ℕ
  unfolding selector is_blank
  targets s = if is_blank (selector s) then [] else host.query_all (selector s)

  unfoldable pub add : List String → Swup → Swup
  unfolding targets for_targets
  add classes s = with_lists (for_targets (add_to classes) (targets s) s.class_lists) s

  unfoldable pub remove : List String → Swup → Swup
  unfolding targets for_targets
  remove classes s = with_lists (for_targets (remove_from classes) (targets s) s.class_lists) s

  -- The classes of a target, split at spaces, that the library has given it are taken away.
  unfoldable pub clear : Swup → Swup
  unfolding targets for_targets is_swup_class
  clear s =
      with_lists
        (for_targets (λ list. remove_from (filter_by is_swup_class list) list) (targets s)
          s.class_lists)
        s

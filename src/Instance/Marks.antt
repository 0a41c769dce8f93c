-- ===== src/Instance/Marks.antt =====
-- src/Swup.ts: the classes that mark the document while the instance is enabled.
use vitest_swup.Prelude.{
  ℕ, ◌==◌, nat_eq, string_eq, String, Bool, true, false, Option, List, [], ◌∷◌, ◌++◌, ◌≡◌, refl,
  ◌∙◌, ap, inl, inr, Bool-cases, if◌then◌else◌, arith,
}
use vitest_swup.Values.{Value, VisitRef}
use vitest_swup.State.{Swup, Host, update}
use vitest_swup.Objects.Heap.{update_self}
use vitest_swup.Classes.{is_among, add_to, remove_from}
use vitest_swup.Instance.Lifetime.{mark_enabled, mark_disabled}

abbrev pub marks : List String
marks = "swup-enabled" ∷ "swup-native" ∷ []

-- A class list without the marks.
abbrev pub unmarked : List String → List String
unmarked = remove_from marks

unmarked-snoc :
    (c : String) (xs : List String)
    → is_among c marks ≡ true
    → unmarked (xs ++ c ∷ []) ≡ unmarked xs
unmarked-snoc c [] h = rw h refl
unmarked-snoc c (x ∷ xs) h = ground (arith, unmarked-snoc c xs h)

unmarked-add :
    (c : String) (xs : List String)
    → is_among c marks ≡ true
    → unmarked (add_to (c ∷ []) xs) ≡ unmarked xs
unmarked-add c xs h = elim (Bool-cases (is_among c xs)) [
  | inl e ↦ rw e refl
  | inr e ↦ rw e (unmarked-snoc c xs h)
]

unmarked-remove : (xs : List String) → unmarked (remove_from ("swup-native" ∷ []) xs) ≡ unmarked xs
unmarked-remove [] = refl
unmarked-remove (x ∷ xs) = ground (arith, unmarked-remove xs)

-- The default handlers of `enable` and of `disable`, one after the other, take the two marks from the class list
-- of the document, and leave the other classes there and the classes of the other elements as they
-- are.
pub mark_disabled-mark_enabled :
    (host : Host) (v w : Option VisitRef) (args args' : Value) (s : Swup)
    → let t = (mark_disabled host v args (mark_enabled host w args' s).1).1 in
      (t.class_lists host.document_element ≡ unmarked (s.class_lists host.document_element))
      × ((e : ℕ) → (host.document_element == e) ≡ false → t.class_lists e ≡ s.class_lists e)
unfolding mark_disabled mark_enabled update
mark_disabled-mark_enabled host v w args args' s = (
  update_self with_marks root (unmarked (with_marks root))
      ∙ ap unmarked (update_self s.class_lists root (chosen s.options.native))
      ∙ either s.options.native,
  λ e other. rw (other, update) refl,
)
  where
    root : ℕ
    root = host.document_element

    enabled : List String
    enabled = add_to ("swup-enabled" ∷ []) (s.class_lists root)

    chosen : Bool → List String
    chosen native =
        if native
        then add_to ("swup-native" ∷ []) enabled
        else remove_from ("swup-native" ∷ []) enabled

    with_marks : ℕ → List String
    with_marks = update s.class_lists root (chosen s.options.native)

    either : (native : Bool) → unmarked (chosen native) ≡ unmarked (s.class_lists root)
    either true =
        unmarked-add "swup-native" enabled refl
        ∙ unmarked-add "swup-enabled" (s.class_lists root) refl
    either false = unmarked-remove enabled ∙ unmarked-add "swup-enabled" (s.class_lists root) refl

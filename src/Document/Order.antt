-- ===== src/Document/Order.antt =====
-- The elements of a document in document order: what replacing an element by another does to it.
use vitest_swup.Prelude.{
  ℕ, suc, ◌+◌, ◌==◌, nat_eq, false, some, List, [], ◌∷◌, ◌++◌, ◌≡◌, refl, sym, ◌∙◌, ap, ap₂, ◌⊎◌,
  inl, inr, Bool-cases, arith,
}
use mathlib.Core.List.{append-nil, append_assoc}
use vitest_swup.State.{Forest, empty, tree}
use vitest_swup.Document.{append, subtree, replace_with, clone_node}
use vitest_swup.Document.Trees.{count, replace_absent}

-- The identities and kinds of the elements, in document order.
unfoldable pub elements : Forest → List (ℕ × ℕ)
elements empty = []
elements (tree e k children siblings) = (e, k) ∷ (elements children ++ elements siblings)

elements-append : (f g : Forest) → elements (append f g) ≡ elements f ++ elements g
unfolding elements append
elements-append empty g = refl
elements-append (tree e k children siblings) g =
    ap (λ xs. (e, k) ∷ xs)
      (ap (λ xs. elements children ++ xs) (elements-append siblings g)
        ∙ sym (append_assoc (elements children) (elements siblings) (elements g)))

-- In document order, the elements of `new` stand where those of the element `e` have stood, and all others
-- stay.
abbrev pub Exchanged : ℕ → (new before after : Forest) → Type 0
Exchanged e new before after =
    (sub : Forest) × (left : List (ℕ × ℕ)) × (right : List (ℕ × ℕ)) × (subtree e before ≡ some sub)
    × (elements before ≡ left ++ (elements sub ++ right))
    × (elements after ≡ left ++ (elements new ++ right))

pub replace_with-Exchanged :
    (e : ℕ) (new f : Forest) → count e f ≡ 1 → Exchanged e new f (replace_with e new f)
unfolding count replace_with subtree elements
replace_with-Exchanged e new empty h = absurd (omega (arith, h))
replace_with-Exchanged e new (tree d k children siblings) h = elim (Bool-cases (d == e)) [
  | inl p ↦ (
    tree d k children empty,
    [],
    elements siblings,
    rw (p, subtree) refl,
    ap (λ xs. (d, k) ∷ (xs ++ elements siblings)) (sym (append-nil (elements children))),
    rw (p, replace_with) (elements-append new siblings),
  )
  | inr p ↦ elim (in_one (count e children) (count e siblings) (ground (arith, p, h))) [
    | inl (c, s) ↦ in_children p (replace_with-Exchanged e new children c) s
    | inr (c, s) ↦ in_siblings p c (replace_with-Exchanged e new siblings s)
  ]
]
  where
    in_one : (m n : ℕ) → m + n ≡ 1 → ((m ≡ 1) × (n ≡ 0)) ⊎ ((m ≡ 0) × (n ≡ 1))
    in_one m n q = ground (arith, q)

    -- What is to the right of three parts.
    wider :
        (left middle right : List (ℕ × ℕ))
        → (left ++ (middle ++ right)) ++ elements siblings
          ≡ left ++ (middle ++ (right ++ elements siblings))
    wider left middle right =
        append_assoc left (middle ++ right) (elements siblings)
        ∙ ap (λ xs. left ++ xs) (append_assoc middle right (elements siblings))

    in_children :
        (d == e) ≡ false
        → Exchanged e new children (replace_with e new children)
        → count e siblings ≡ 0
        → Exchanged e new
            (tree d k children siblings)
            (replace_with e new (tree d k children siblings))
    in_children p (sub, left, right, found, before, after) s =
        let (same, none_there) = replace_absent e new siblings s in
        (
          sub,
          (d, k) ∷ left,
          right ++ elements siblings,
          rw (p, subtree, found) refl,
          ap (λ xs. (d, k) ∷ xs)
              (ap (λ xs. xs ++ elements siblings) before ∙ wider left (elements sub) right),
          rw (p, replace_with, same)
              (ap (λ xs. (d, k) ∷ xs)
                (ap (λ xs. xs ++ elements siblings) after ∙ wider left (elements new) right)),
        )

    in_siblings :
        (d == e) ≡ false
        → count e children ≡ 0
        → Exchanged e new siblings (replace_with e new siblings)
        → Exchanged e new
            (tree d k children siblings)
            (replace_with e new (tree d k children siblings))
    in_siblings p c (sub, left, right, found, before, after) =
        let (same, none_there) = replace_absent e new children c in
        let further = λ (middle : List (ℕ × ℕ)).
          sym (append_assoc (elements children) left (middle ++ right)) in
        (
          sub,
          (d, k) ∷ (elements children ++ left),
          right,
          rw (p, subtree, none_there, found) refl,
          ap (λ xs. (d, k) ∷ xs)
              (ap (λ xs. elements children ++ xs) before ∙ further (elements sub)),
          rw (p, replace_with, same)
              (ap (λ xs. (d, k) ∷ xs)
                (ap (λ xs. elements children ++ xs) after ∙ further (elements new))),
        )

-- Two forests of the same elements, but for their identities.
unfoldable pub shape : Forest → Forest
shape empty = empty
shape (tree e k children siblings) = tree 0 k (shape children) (shape siblings)

pub shape-clone_node : (next : ℕ) (f : Forest) → shape (clone_node next f).0 ≡ shape f
unfolding shape clone_node
shape-clone_node next empty = refl
shape-clone_node next (tree e k children siblings) =
    ap₂ (tree 0 k) (shape-clone_node (suc next) children)
      (shape-clone_node (clone_node (suc next) children).1 siblings)

-- ===== src/Document/Trees.antt =====
-- Trees of elements: how often an element is in a document.
use vitest_swup.Prelude.{
  ℕ, suc, ◌+◌, ◌<◌, ◌≤◌, ◌==◌, nat_eq, none, ◌≡◌, refl, inl, inr, Bool-cases, if◌then◌else◌, arith,
}
use vitest_swup.State.{Forest, empty, tree}
use vitest_swup.Document.{subtree, replace_with, clone_node}

-- How often an element is in a forest.
unfoldable pub count : ℕ → Forest → ℕ
count x empty = 0
count x (tree e k children siblings) =
    (if e == x then 1 else 0) + count x children + count x siblings

pub replace_absent :
    (e : ℕ) (new f : Forest) → count e f ≡ 0 → (replace_with e new f ≡ f) × (subtree e f ≡ none)
unfolding count replace_with subtree
replace_absent e new empty h = (refl, refl)
replace_absent e new (tree d k children siblings) h = elim (Bool-cases (d == e)) [
  | inl p ↦ absurd (ground (arith, p, h))
  | inr p ↦
      let c = replace_absent e new children (ground (arith, p, h)) in
      let s = replace_absent e new siblings (ground (arith, p, h)) in
      (rw (p, replace_with, c.0, s.0) refl, rw (p, subtree, c.1, s.1) refl)
]

-- A clone has new elements only.
pub clone_node-new :
    (next : ℕ) (f : Forest)
    → (next ≤ (clone_node next f).1) × ((x : ℕ) → x < next → count x (clone_node next f).0 ≡ 0)
unfolding count clone_node
clone_node-new next empty = (omega arith, λ x h. refl)
clone_node-new next (tree e k children siblings) =
    let c = clone_node-new (suc next) children in
    let s = clone_node-new (clone_node (suc next) children).1 siblings in
    (
      omega (arith, c.0, s.0),
      λ x h. ground (arith, h, c.0, c.1 x (omega (arith, h)), s.1 x (omega (arith, h, c.0))),
    )

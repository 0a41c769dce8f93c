-- ===== src/Document.antt =====
-- The elements of a document, as src/modules/replaceContent.ts moves them.
pub mod Trees
pub mod Order
use vitest_swup.Prelude.{
  ℕ, suc, ◌+◌, ◌==◌, nat_eq, Bool, true, false, ◌||◌, Option, none, some, if◌then◌else◌,
}
use vitest_swup.State.{Forest, empty, tree}

-- One forest after another.
unfoldable pub append : Forest → Forest → Forest
append empty g = g
append (tree e k children siblings) g = tree e k children (append siblings g)

unfoldable pub contains : ℕ → Forest → Bool
contains e empty = false
contains e (tree f k children siblings) = f == e || contains e children || contains e siblings

abbrev pub or_else : Option Forest → Option Forest → Option Forest
or_else (some f) o = some f
or_else none o = o

-- An element with all that is in it.
unfoldable pub subtree : ℕ → Forest → Option Forest
subtree e empty = none
subtree e (tree f k children siblings) =
    let rest = or_else (subtree e children) (subtree e siblings) in
    if f == e then some (tree f k children empty) else rest

-- `el.replaceWith(new)`
unfoldable pub replace_with : ℕ → Forest → Forest → Forest
unfolding append
replace_with e new empty = empty
replace_with e new (tree f k children siblings) =
    let inside = replace_with e new children in
    let after = replace_with e new siblings in
    if f == e then append new siblings else tree f k inside after

-- An element leaves its place, to be put in another.
unfoldable pub detach : ℕ → Forest → Forest
unfolding replace_with
detach e document = replace_with e empty document

-- `cloneNode(true)`: all elements are new, with the first free identities.
unfoldable pub clone_node : ℕ → Forest → Forest × ℕ
clone_node next empty = (empty, next)
clone_node next (tree e k children siblings) =
    let (children', next') = clone_node (suc next) children in
    let (siblings', next'') = clone_node next' siblings in (tree next k children' siblings', next'')

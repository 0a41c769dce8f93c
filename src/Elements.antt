-- ===== src/Elements.antt =====
-- src/utils/index.ts and src/modules/getAnchorElement.ts: what is read from elements, and the element that
-- a hash names.
pub mod Anchor
use Prim.Native.Char.{code}
use Prim.Native.String.{[], ◌∷◌}
use vitest_swup.Prelude.{
  ℕ, ◌&◌, ◌==◌, nat_eq, string_eq, String, true, Option, none, some, if◌then◌else◌,
}
use vitest_swup.Values.{Value, undefined, boolean, string, is_truthy, Outcome, returns, throws}
use vitest_swup.State.{Host, Forest, M, pure}
use vitest_swup.Objects.{throw}

-- `attribute || true`
abbrev text_or_true : String → Value
text_or_true text = if text == "" then boolean true else string text

-- `a || b`, of elements.
abbrev pub or_else : Option ℕ → Option ℕ → Option ℕ
or_else none other = other
or_else (some el) other = some el

-- The hash without a leading `#`.
abbrev pub without_mark : String → String
without_mark [] = []
without_mark (c ∷ hash) = if code c == 35 then hash else c ∷ hash

module _ (host : Host) where
  abbrev attribute_value : Option String → Value
  attribute_value none = undefined
  attribute_value (some text) = text_or_true text

  abbrev attribute_of : Option ℕ → String → Value
  attribute_of none attr = undefined
  attribute_of (some target) attr = attribute_value (host.get_attribute target attr)

  -- `getContextualAttr(el, attr)`
  unfoldable pub get_contextual_attr : Option ℕ → String → Value
  get_contextual_attr none attr = undefined
  get_contextual_attr (some el) attr = attribute_of (host.closest el ("[" & attr & "]")) attr

  -- ``query(`a[name='${CSS.escape(hash)}']`)``
  abbrev pub named : String → Forest → Option ℕ
  named hash document = host.query_selector ("a[name='" & host.css_escape hash & "']") document

  abbrev pub find_anchor : String → String → Forest → Option ℕ
  find_anchor hash decoded document = or_else (host.element_by_id hash document) (
      or_else (host.element_by_id decoded document)
        (or_else (named hash document) (named decoded document)))

  -- `if (!element && hash === 'top') element = document.body`
  abbrev pub or_top : String → Option ℕ → Option ℕ
  or_top hash none = if hash == "top" then some host.body else none
  or_top hash (some el) = some el

  -- The search, once the hash has been decoded.
  abbrev pub search : String → Forest → Outcome String → Outcome (Option ℕ)
  search hash document (returns decoded) = returns (or_top hash (find_anchor hash decoded document))
  search hash document (throws error) = throws error

  -- The element for a hash without a leading `#`.
  unfoldable pub anchor_in : String → Forest → Outcome (Option ℕ)
  anchor_in hash document =
      if hash == "" then returns none else search hash document (host.decode_uri_component hash)

  -- `getAnchorElement(hash)`; a value that is neither a text nor falsy has no method `charAt`.
  unfoldable pub get_anchor_element : Value → M (Option ℕ)
  unfolding anchor_in
  get_anchor_element (string hash) s = (anchor_in (without_mark hash) s.document, s)
  get_anchor_element value s = if is_truthy value then throw host.type_error s else pure none s

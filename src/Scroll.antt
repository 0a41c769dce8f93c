-- ===== src/Scroll.antt =====
-- src/modules/scrollToContent.ts: the scroll position after a page has been rendered.
pub mod Handlers
pub mod Calls
pub mod Default
use vitest_swup.Prelude.{
  ℕ, ◌==◌, string_eq, nat_eq, String, Bool, true, false, not, ◌&&◌, Option, none, some, List, [],
  ◌∷◌, if◌then◌else◌,
}
use vitest_swup.Prelude.Dict
use vitest_swup.Prelude.Dict.{Dict}
use vitest_swup.Values.{
  Value, undefined, boolean, number, string, visit, object, function, FunctionRef, VisitRef,
  returns, throws,
}
use vitest_swup.Visit.{Visit, ScrollTarget, unset, disabled, anchor}
use vitest_swup.State.{
  Swup, Host, ScrollPosition, element, window, M, ◌>>=◌, ◌>>◌, and_then, pure, gets, modify, alloc,
}
use vitest_swup.Hooks.Run.{call_sync}
use vitest_swup.Hooks.Run.Default.{Closure, with_closure}
use vitest_swup.Values.{is_truthy}
use vitest_swup.Elements.{get_anchor_element}
use vitest_swup.Objects.{spread, member, contents_of}

-- `target ?? visit.to.hash`, where `none` is no text.
abbrev pub target_or_hash : ScrollTarget → Option String → Option String
target_or_hash unset hash = hash
target_or_hash disabled hash = none
target_or_hash (anchor target) hash = some target

abbrev pub scroll_target : Visit → Option String
scroll_target v = target_or_hash v.scroll.target v.to.hash

abbrev pub scroll_into_view : Option ℕ → Dict String Value → M Value
scroll_into_view none options s = (returns (boolean false), s)
scroll_into_view (some el) options s =
    (returns (boolean true), record s { scroll_position = element el options })

module _ (host : Host) where
  -- The default handler of `scroll:anchor`.
  unfoldable pub scroll_anchor : Closure
  unfolding get_anchor_element
  scroll_anchor v args = do
    hash ← member host "hash" args
    options ← member host "options" args
    el ← get_anchor_element host hash
    content ← gets (contents_of options)
    scroll_into_view el content

  -- The default handler of `scroll:top`.
  unfoldable pub scroll_top : Closure
  unfolding spread
  scroll_top v args = do
    options ← member host "options" args
    content ← gets (contents_of options)
    modify (λ s. record s {
      scroll_position = window (spread (("top", number 0) ∷ ("left", number 0) ∷ []) content);
    })
    pure (boolean true)

  -- The call of `scroll:anchor`, where there is a target; `f` is the identity of the default handler.
  unfoldable pub try_anchor : FunctionRef → VisitRef → Option String → ℕ → M Value
  unfolding alloc scroll_anchor
  try_anchor f v none options = pure (boolean false)
  try_anchor f v (some target) options = if target == "" then pure (boolean false) else (do
    args ← alloc (("hash", string target) ∷ ("options", object options) ∷ [])
    call_sync (with_closure f scroll_anchor host) "scroll:anchor" (visit v) (object args)
        (function f))

  unfoldable pub try_top : FunctionRef → VisitRef → Bool → Value → ℕ → M Value
  unfolding alloc scroll_top
  try_top g v reset scrolled options =
      if reset && not (is_truthy scrolled)
      then (do
        args ← alloc (("options", object options) ∷ [])
        call_sync (with_closure g scroll_top host) "scroll:top" (visit v) (object args)
            (function g))
      else pure scrolled

  unfoldable pub scroll_to_content : FunctionRef → FunctionRef → VisitRef → M Value
  unfolding alloc try_anchor try_top
  scroll_to_content f g v = do
    options ← alloc (("behavior", string "auto") ∷ [])
    target ← gets (λ s. scroll_target (s.visits v))
    reset ← gets (λ s. (s.visits v).scroll.reset)
    scrolled ← try_anchor f v target options
    try_top g v reset scrolled options

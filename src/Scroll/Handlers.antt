-- ===== src/Scroll/Handlers.antt =====
-- src/modules/scrollToContent.ts: the default handlers of its two hooks.
use vitest_swup.Prelude.{
  ℕ, ◌+◌, ◌<◌, ◌≡◌, refl, ◌∙◌, ap, ap₂, ◌==◌, string_eq, nat_eq, String, Bool, true, false, Option,
  none, some, [], ◌∷◌, if◌then◌else◌,
}
use vitest_swup.Prelude.Dict
use vitest_swup.Prelude.Dict.{Dict}
use vitest_swup.Values.{Value, boolean, number, string, object, VisitRef, Outcome, returns, throws}
use vitest_swup.State.{Swup, Host, Forest, ScrollPosition, element, window, and_then, update}
use vitest_swup.Objects.{spread, property_of, contents_of}
use vitest_swup.Cache.Pages.{update_self, update_other}
use vitest_swup.Elements.{without_mark, anchor_in, get_anchor_element}
use vitest_swup.Elements.Anchor.{is_found}
use vitest_swup.Scroll.{scroll_into_view, scroll_anchor, scroll_top}

-- The element that a target names, if there is a target; or the error of a target that cannot be decoded.
abbrev pub anchor_for : Host → Option String → Forest → Outcome (Option ℕ)
anchor_for host none document = returns none
anchor_for host (some target) document =
    if target == "" then returns none else anchor_in host (without_mark target) document

abbrev pub to_anchor : Option ℕ → Dict String Value → ScrollPosition → ScrollPosition
to_anchor none options position = position
to_anchor (some el) options position = element el options

abbrev pub top_left : Dict String Value
top_left = ("top", number 0) ∷ ("left", number 0) ∷ []

-- The page after `scroll:top`, if that is called.
abbrev pub to_top : Bool → Dict String Value → ScrollPosition → ScrollPosition
to_top true options position = window (spread top_left options)
to_top false options position = position

abbrev pub auto : Dict String Value
auto = ("behavior", string "auto") ∷ []

abbrev pub value_of : Outcome (Option ℕ) → Option ℕ
value_of (returns found) = found
value_of (throws error) = none

-- The instance with another scroll position.
abbrev pub scrolled_to : ScrollPosition → Swup → Swup
scrolled_to position s = record s { scroll_position = position }

pub scroll_into_view_lem :
    (o : Option ℕ) (options : Dict String Value) (s : Swup)
    → scroll_into_view o options s
      ≡ (returns (boolean (is_found o)), scrolled_to (to_anchor o options s.scroll_position) s)
scroll_into_view_lem none options s = refl
scroll_into_view_lem (some el) options s = refl

-- An instance with one new object.
abbrev pub with_object : Dict String Value → Swup → Swup
with_object d s = record s { objects = update s.objects s.next d; next = s.next + 1 }

abbrev pub anchor_args : String → ℕ → Dict String Value
anchor_args target options = ("hash", string target) ∷ ("options", object options) ∷ []

-- The options are what their object holds when the element has been found.
scroll_with :
    (o : Outcome (Option ℕ)) (options : ℕ) (s : Swup) {content : Dict String Value}
    → s.objects options ≡ content
    → and_then (o, s) (λ el t. scroll_into_view el (contents_of (object options) t) t)
      ≡ and_then (o, s) (λ el. scroll_into_view el content)
scroll_with (returns found) options s e = ap (λ content. scroll_into_view found content s) e
scroll_with (throws error) options s e = refl

pub scroll_anchor_lem :
    (host : Host) (v : Option VisitRef) (target : String) (options : ℕ) (s : Swup)
    → options < s.next
    → scroll_anchor host v (object s.next) (with_object (anchor_args target options) s)
      ≡ and_then
          (
            anchor_in host (without_mark target) s.document,
            with_object (anchor_args target options) s,
          )
          (λ el. scroll_into_view el (s.objects options))
unfolding scroll_anchor get_anchor_element Dict.get
scroll_anchor_lem host v target options s below =
    let s' = with_object (anchor_args target options) s in
    let fields : s'.objects s.next ≡ anchor_args target options = update_self s.objects s.next _ in
    ap₂
      (λ hash o.
        and_then (get_anchor_element host hash s')
          (λ el t. scroll_into_view el (contents_of o t) t))
      (ap (λ d. property_of (Dict.get "hash" d)) fields)
      (ap (λ d. property_of (Dict.get "options" d)) fields)
    ∙ scroll_with (anchor_in host (without_mark target) s.document) options s'
        (update_other s.objects s.next options (anchor_args target options) below)

pub scroll_top_lem :
    (host : Host) (v : Option VisitRef) (options : ℕ) (s : Swup)
    → options < s.next
    → let s' = with_object (("options", object options) ∷ []) s in
      scroll_top host v (object s.next) s'
      ≡ (returns (boolean true), scrolled_to (window (spread top_left (s.objects options))) s')
unfolding scroll_top Dict.get
scroll_top_lem host v options s below =
    let args = ("options", object options) ∷ [] in
    let s' = with_object args s in
    let fields : s'.objects s.next ≡ args = update_self s.objects s.next _ in
    ap (λ content. (returns (boolean true), scrolled_to (window (spread top_left content)) s'))
      (ap (λ d. contents_of (property_of (Dict.get "options" d)) s') fields
        ∙ update_other s.objects s.next options args below)

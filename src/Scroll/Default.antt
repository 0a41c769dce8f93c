-- ===== src/Scroll/Default.antt =====
-- src/modules/scrollToContent.ts: where the page is scrolled to, where no handler has a say in it.
use vitest_swup.Prelude.{
  ℕ, ◌≡◌, refl, ◌∙◌, ap, ap₂, string_eq, nat_eq, String, Bool, false, not, ◌&&◌, ◌||◌, Option, some,
  [], arith,
}
use vitest_swup.Prelude.Dict
use vitest_swup.Prelude.Dict.{Dict}
use vitest_swup.Values.{Value, boolean, FunctionRef, VisitRef, Outcome, returns, throws}
use vitest_swup.State.{Swup, Host, HookEventDetail, ScrollPosition, and_then}
use vitest_swup.Hooks.Run.{is_done}
use vitest_swup.Cache.Pages.{update_self}
use vitest_swup.Elements.Anchor.{is_found}
use vitest_swup.Scroll.{scroll_target, try_top, scroll_to_content}
use vitest_swup.Scroll.Handlers.{anchor_for, to_anchor, to_top, auto, with_object}
use vitest_swup.Scroll.Calls.{try_anchor_lem, try_anchor-throws, try_top_lem}

-- The result of `scrollToContent`, and the page after it, by what the search has given.
abbrev pub result_for : Bool → Outcome (Option ℕ) → Outcome Value
result_for reset (returns found) = returns (boolean (is_found found || reset))
result_for reset (throws error) = throws error

abbrev pub position_for : Bool → Outcome (Option ℕ) → ScrollPosition → ScrollPosition
position_for reset (returns found) position =
    to_top (reset && not (is_found found)) auto (to_anchor found auto position)
position_for reset (throws error) position = position

module _ (host : Host) (f g : FunctionRef) (v : VisitRef)
    (calm : (name : String) (detail : HookEventDetail) (t : Swup)
      → host.dispatch name detail t ≡ t) where
  -- A call that returns a Boolean.
  -- For a visit that is not done, where the hooks `scroll:anchor` and `scroll:top` exist and have no
  -- handlers, and no listener for a DOM event does anything: the page is scrolled to the element that
  -- `getAnchorElement` finds for the target of the visit, or for its hash where it has none; if
  -- there is no such element, the page is scrolled to its top, if the visit resets the position,
  -- and stays where it is otherwise; the result says whether the page has been scrolled. If the target
  -- cannot be decoded, `scrollToContent` throws the error of the decoding, and the page is not scrolled.
  pub scroll_to_content-plain :
      (s : Swup)
      → Dict.get "scroll:anchor" s.registry ≡ some []
      → Dict.get "scroll:top" s.registry ≡ some []
      → is_done v s ≡ false
      → let found = anchor_for host (scroll_target (s.visits v)) s.document in
        let reset = (s.visits v).scroll.reset in
        (t : Swup) × (scroll_to_content host f g v s ≡ (result_for reset found, t))
        × (t.scroll_position ≡ position_for reset found s.scroll_position)
  unfolding scroll_to_content
  scroll_to_content-plain s e₁ e₂ d =
      by_outcome (anchor_for host (scroll_target (s.visits v)) s.document) refl
    where
      s' : Swup
      s' = with_object auto s

      reset : Bool
      reset = (s.visits v).scroll.reset

      options : s'.objects s.next ≡ auto
      options = update_self s.objects s.next auto

      then_top : Outcome Value × Swup → Outcome Value × Swup
      then_top x = and_then x (λ scrolled. try_top host g v reset scrolled s.next)

      by_outcome :
          (o : Outcome (Option ℕ))
          → anchor_for host (scroll_target (s.visits v)) s.document ≡ o
          → (t : Swup) × (scroll_to_content host f g v s ≡ (result_for reset o, t))
            × (t.scroll_position ≡ position_for reset o s.scroll_position)
      by_outcome (returns found) a =
          let (t, ran, registry, going, position, kept, below) =
            try_anchor_lem host f g v calm (scroll_target (s.visits v)) s.next found s'
              (omega arith) e₁ d a in
          let (u, ran', position') =
            try_top_lem host f g v calm reset (is_found found) s.next t below
              (ap (Dict.get "scroll:top") registry ∙ e₂) going in
          (
            u,
            ap then_top ran ∙ ran',
            position'
                ∙ ap₂ (to_top (reset && not (is_found found))) (kept ∙ options)
                    (position ∙ ap (λ o. to_anchor found o s.scroll_position) options),
          )
      by_outcome (throws error) a =
          let (t, ran, position) =
            try_anchor-throws host f g v calm (scroll_target (s.visits v)) s.next error s'
              (omega arith) e₁ d a in
          (t, ap then_top ran, position)

-- ===== src/Scroll/Calls.antt =====
-- src/modules/scrollToContent.ts: the calls of its two hooks, where no handler has a say in them.
use vitest_swup.Prelude.{
  ℕ, ◌<◌, ◌≡◌, refl, sym, ◌∙◌, ap, ◌==◌, string_eq, nat_eq, String, Bool, true, false, not, ◌&&◌,
  ◌||◌, Option, none, some, [], ◌∷◌, inl, inr, Bool-cases, arith,
}
use vitest_swup.Prelude.Dict
use vitest_swup.Prelude.Dict.{Dict}
use vitest_swup.Values.{
  Value, boolean, visit, object, function, FunctionRef, VisitRef, Outcome, returns, throws,
}
use vitest_swup.State.{Swup, Host, HookEventDetail, window, and_then}
use vitest_swup.Hooks.Run.{is_done, call_sync}
use vitest_swup.Hooks.Run.Default.{
  dispatch-calm, Closure, with_closure, finished, call_sync-default,
}
use vitest_swup.Objects.{spread}
use vitest_swup.Cache.Pages.{update_other}
use vitest_swup.Elements.Anchor.{is_found}
use vitest_swup.Scroll.{scroll_into_view, scroll_anchor, scroll_top, try_anchor, try_top}
use vitest_swup.Scroll.Handlers.{
  anchor_for, to_anchor, top_left, to_top, value_of, scrolled_to, scroll_into_view_lem, with_object,
  anchor_args, scroll_anchor_lem, scroll_top_lem,
}

module _ (host : Host) (f g : FunctionRef) (v : VisitRef)
    (calm : (name : String) (detail : HookEventDetail) (t : Swup)
      → host.dispatch name detail t ≡ t) where
  -- A call that returns a Boolean.
  call-boolean :
      (hook : String) (h : FunctionRef) (closure : Closure) (args : Value) (s t : Swup) (b : Bool)
      → Dict.get hook s.registry ≡ some []
      → is_done v s ≡ false
      → closure (some v) args s ≡ (returns (boolean b), t)
      → call_sync (with_closure h closure host) hook (visit v) args (function h) s
        ≡ (returns (boolean b), t)
  call-boolean hook h closure args s t b e d ran =
      call_sync-default host hook v args h closure s e d
      ∙ ap (finished (with_closure h closure host) hook v args) ran
      ∙ ap (λ u. (returns (boolean b), u))
          (dispatch-calm (with_closure h closure host) hook v args t calm)

  -- A call of `scroll:anchor` whose default handler throws.
  call-throws :
      (hook : String) (h : FunctionRef) (closure : Closure) (args error : Value) (s t : Swup)
      → Dict.get hook s.registry ≡ some []
      → is_done v s ≡ false
      → closure (some v) args s ≡ (throws error, t)
      → call_sync (with_closure h closure host) hook (visit v) args (function h) s
        ≡ (throws error, t)
  call-throws hook h closure args error s t e d ran =
      call_sync-default host hook v args h closure s e d
      ∙ ap (finished (with_closure h closure host) hook v args) ran

  -- What `scroll:anchor` leaves behind, where the target can be decoded.
  pub try_anchor_lem :
      (target : Option String) (options : ℕ) (found : Option ℕ) (s : Swup)
      → options < s.next
      → Dict.get "scroll:anchor" s.registry ≡ some []
      → is_done v s ≡ false
      → anchor_for host target s.document ≡ returns found
      → (t : Swup) × (try_anchor host f v target options s
          ≡ (returns (boolean (is_found found)), t))
        × (t.registry ≡ s.registry)
        × (is_done v t ≡ false)
        × (t.scroll_position ≡ to_anchor found (s.objects options) s.scroll_position)
        × (t.objects options ≡ s.objects options)
        × (options < t.next)
  unfolding try_anchor
  try_anchor_lem none options found s below e d a =
      let none_found : found ≡ none = sym (ap value_of a) in
      (
        s,
        ap (λ o. (returns (boolean (is_found o)), s)) (sym none_found),
        refl,
        d,
        ap (λ o. to_anchor o (s.objects options) s.scroll_position) (sym none_found),
        refl,
        below,
      )
  try_anchor_lem (some target) options found s below e d a = elim (Bool-cases (target == "")) [
    | inl i ↦
        let none_found : found ≡ none = sym (ap value_of (rw i at a)) in
        (
          s,
          rw i (ap (λ o. (returns (boolean (is_found o)), s)) (sym none_found)),
          refl,
          d,
          ap (λ o. to_anchor o (s.objects options) s.scroll_position) (sym none_found),
          refl,
          below,
        )
    | inr i ↦
        let s' = with_object (anchor_args target options) s in
        let into = λ (o : Outcome (Option ℕ)).
          and_then (o, s') (λ el. scroll_into_view el (s.objects options)) in
        (
          scrolled_to (to_anchor found (s.objects options) s.scroll_position) s',
          rw i (
              call-boolean "scroll:anchor" f (scroll_anchor host) (object s.next) s' _
                (is_found found) e d
                (scroll_anchor_lem host (some v) target options s below
                  ∙ ap into (rw i at a)
                  ∙ scroll_into_view_lem found (s.objects options) s')),
          refl,
          d,
          refl,
          update_other s.objects s.next options (anchor_args target options) below,
          omega (arith, below),
        )
  ]

  -- A target that cannot be decoded makes the call fail.
  pub try_anchor-throws :
      (target : Option String) (options : ℕ) (error : Value) (s : Swup)
      → options < s.next
      → Dict.get "scroll:anchor" s.registry ≡ some []
      → is_done v s ≡ false
      → anchor_for host target s.document ≡ throws error
      → (t : Swup) × (try_anchor host f v target options s ≡ (throws error, t))
        × (t.scroll_position ≡ s.scroll_position)
  unfolding try_anchor
  try_anchor-throws none options error s below e d a = absurd (cc a)
  try_anchor-throws (some target) options error s below e d a = elim (Bool-cases (target == "")) [
    | inl i ↦ absurd (cc (rw i at a))
    | inr i ↦
        let s' = with_object (anchor_args target options) s in
        let into = λ (o : Outcome (Option ℕ)).
          and_then (o, s') (λ el. scroll_into_view el (s.objects options)) in
        (
          s',
          rw i (
              call-throws "scroll:anchor" f (scroll_anchor host) (object s.next) error s' s' e d
                (scroll_anchor_lem host (some v) target options s below ∙ ap into (rw i at a))),
          refl,
        )
  ]

  pub try_top_lem :
      (reset found : Bool) (options : ℕ) (s : Swup)
      → options < s.next
      → Dict.get "scroll:top" s.registry ≡ some []
      → is_done v s ≡ false
      → (t : Swup) × (try_top host g v reset (boolean found) options s
          ≡ (returns (boolean (found || reset)), t))
        × (t.scroll_position ≡ to_top (reset && not found) (s.objects options) s.scroll_position)
  unfolding try_top
  try_top_lem true false options s below e d =
      let s' = with_object (("options", object options) ∷ []) s in
      (
        scrolled_to (window (spread top_left (s.objects options))) s',
        call-boolean "scroll:top" g (scroll_top host) (object s.next) s' _ true e d
            (scroll_top_lem host (some v) options s below),
        refl,
      )
  try_top_lem true true options s below e d = (s, refl, refl)
  try_top_lem false true options s below e d = (s, refl, refl)
  try_top_lem false false options s below e d = (s, refl, refl)

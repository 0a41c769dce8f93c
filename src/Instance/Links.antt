-- ===== src/Instance/Links.antt =====
-- src/Swup.ts: which clicks of links perform a visit.
use vitest_swup.Prelude.{
  ℕ, ◌+◌, ◌&◌, ◌==◌, nat_eq, string_eq, String, Bool, true, false, not, ◌&&◌, ◌||◌, Option, some,
  [], ◌∷◌, ◌≡◌, ◌↔◌, ◌≢◌, refl, sym, ◌∙◌, ap, inl, inr, Bool-cases, if◌then◌else◌,
}
use vitest_swup.Values.{
  Value, undefined, null, string, visit, object, function, Outcome, VisitRef, FunctionRef, returns,
  throws,
}
use vitest_swup.State.{
  Swup, Host, Functions, NavigationToSelfAction, navigate, scroll, M, and_then, pure, alloc, update,
  log,
}
use vitest_swup.Prelude.Dict
use vitest_swup.Objects.{read, property_of, set_property, attempted}
use vitest_swup.Objects.Heap.{update_self}
use vitest_swup.Hooks.Run.{is_done, is_promise, dispatch_dom_event, call_sync}
use vitest_swup.Hooks.Run.Frame.{IsKept, dispatch-Keeps}
use vitest_swup.Hooks.Run.Default.{Closure, with_closure, finished, call_sync-default}
use vitest_swup.ResolveUrl.{resolved, is_same_resolved_url}
use vitest_swup.ResolveUrl.Laws.{is_same_resolved_url_iff}
use vitest_swup.Navigation
use vitest_swup.Navigation.{Navigation}
use vitest_swup.Performing.Refinement.{view, perform_navigation-view}
use vitest_swup.Instance.{
  navigates_to_self, prevent_default, scroll_for, start, link_self, click_self, link_click,
}
use vitest_swup.Instance.Frame.{SeenAs, scroll_for-Keeps, link_anchor-Keeps}

undefined-null : undefined ≢ null
undefined-null e = absurd (cc e)

-- Whether a link to the page itself loads it again.
abbrev pub is_navigate : NavigationToSelfAction → Bool
is_navigate navigate = true
is_navigate scroll = false

-- Whether the URL is that of the page, or none.
abbrev pub is_own : (url from : String) → Bool
is_own url from = url == "" || url == from

-- Whether a click of a link performs a visit, by its URL, its hash, the URL of the page and the options.
abbrev pub performs : Host → (url hash from : String) → Swup → Bool
performs host url hash from s =
    if is_own url from
    then hash == "" && is_navigate s.options.link_to_self
    else not (resolved host s.options url == resolved host s.options from)

-- The navigation after a click that performs the visit or not.
abbrev pub performed_if : Bool → VisitRef → Navigation → Navigation
performed_if b v n = if b then Navigation.perform_navigation v n else n

-- A call of `performNavigation` that is not awaited, with no options.
start-view :
    (host : Host) (v : VisitRef) (s : Swup)
    → (t : Swup) × (start host v s ≡ (returns undefined, t))
      × (view t ≡ Navigation.perform_navigation v (view s))
unfolding start alloc Dict.get
start-view host v s =
    let (t, ran, seen) = perform_navigation-view host v s.next s' uncached in
    (t, ap heard ran, seen)
  where
    s' : Swup
    s' = record s { objects = update s.objects s.next []; next = s.next + 1 }

    nothing : M (Unit {0})
    nothing = pure tt

    heard : Outcome (Unit {0}) × Swup → Outcome Value × Swup
    heard x = and_then (and_then (attempted x) (λ _. nothing)) (λ _ t. (returns undefined, t))

    uncached : read "cache" (object s.next) s' ≢ null
    uncached e =
        undefined-null
          (sym (ap (λ d. property_of (Dict.get "cache" d)) (update_self s.objects s.next [])) ∙ e)

module _ (host : Host) (f : Functions) (v : VisitRef)
    (kept : (n : Navigation) → IsKept host (SeenAs n)) where
  -- The default handler of `link:self`.
  link_self-view :
      (url : String) (w : Option VisitRef) (args : Value) (s : Swup)
      → view (link_self host f v url w args s).1
        ≡ performed_if (is_navigate s.options.link_to_self) v (view s)
  unfolding link_self
  link_self-view url w args s = either s.options.link_to_self
    where
      either :
          (action : NavigationToSelfAction)
          → view
              ((if navigates_to_self action then start host v else scroll_for host f v url w args)
                s).1
            ≡ performed_if (is_navigate action) v (view s)
      either navigate = let (t, ran, seen) = start-view host v s in ap (λ x. view x.1) ran ∙ seen
      either scroll = scroll_for-Keeps host (view s) (kept (view s)) f v url w args s refl

  -- The listeners leave the visits alone.
  finished-view :
      (g : FunctionRef) (closure : Closure) (hook : String) (args : Value)
      (x : Outcome Value × Swup)
      → view (finished (with_closure g closure host) hook v args x).1 ≡ view x.1
  unfolding dispatch_dom_event
  finished-view g closure hook args (throws error, s) = refl
  finished-view g closure hook args (returns result, s) =
      dispatch-Keeps host (SeenAs (view s)) (kept (view s)) hook (some v) args
        (if is_promise host result then log message s else s) (logged (is_promise host result))
    where
      message : String
      message = "Swup will not await Promises in handler for synchronous hook '" & hook & "'."

      logged : (b : Bool) → view (if b then log message s else s) ≡ view s
      logged true = refl
      logged false = refl

  ended-view : (x : Outcome Value × Swup) → view (and_then x (λ _. pure undefined)).1 ≡ view x.1
  ended-view (returns result, s) = refl
  ended-view (throws error, s) = refl

  -- A link to the page itself, where no handler has a say in `link:self`.
  click_self-view :
      (url hash : String) (s : Swup)
      → Dict.get "link:self" s.registry ≡ some []
      → is_done v s ≡ false
      → view (click_self host f v url hash s).1
        ≡ performed_if (hash == "" && is_navigate s.options.link_to_self) v (view s)
  unfolding click_self alloc
  click_self-view url hash s e d = elim (Bool-cases (hash == "")) [
    | inl blank ↦
        rw (blank, click_self)
          (ended-view (
              call_sync (with_closure f.link_self (link_self host f v url) host) "link:self"
                (visit v) undefined (function f.link_self) s)
            ∙ ap (λ x. view x.1)
                (call_sync-default host "link:self" v undefined f.link_self (link_self host f v url)
                  s e d)
            ∙ finished-view f.link_self (link_self host f v url) "link:self" undefined
                (link_self host f v url (some v) undefined s)
            ∙ link_self-view url (some v) undefined s)
    | inr text ↦
        let s' = record s {
          objects = update s.objects s.next (("hash", string hash) ∷ []);
          next = s.next + 1;
        } in
        rw (text, click_self)
          (ended-view (
              call_sync (with_closure f.link_anchor (scroll_for host f v (url & hash)) host)
                "link:anchor" (visit v) (object s.next) (function f.link_anchor) s')
            ∙ link_anchor-Keeps host (view s) (kept (view s)) f v (url & hash) (object s.next) s'
                refl)
  ]

  -- The default handler of `link:click`, of a visit that is not done, where the hook `link:self` exists and has
  -- no handlers, and where other handlers, other tasks and listeners leave the visits as they find them: a
  -- link to the page itself performs the visit exactly if it has no hash and the options say that such a
  -- link navigates; any other link performs it exactly if its URL and that of the page do not resolve
  -- to the same location. To perform the visit is what the state machine of visits does: it begins, is
  -- queued behind the current visit, or waits for the current visit to be aborted. If it is not
  -- performed, the navigation is as it was before.
  pub link_click-view :
      (url hash : String) (event : ℕ) (w : Option VisitRef) (args : Value) (s : Swup)
      → Dict.get "link:self" s.registry ≡ some []
      → is_done v s ≡ false
      → view (link_click host f v url hash event w args s).1
        ≡ performed_if (performs host url hash (s.visits v).from.url s) v (view s)
  unfolding link_click set_property
  link_click-view url hash event w args s e d = elim (Bool-cases (is_own url from)) [
    | inl own ↦ rw (own, link_click) (click_self-view url hash prevented e d)
    | inr other ↦ elim (Bool-cases found.0) [
      | inl same ↦
          let agree = (string_eq.same_iff here there).1 (moved.0.0 same) in
          rw (other, link_click, same, agree) (ap view moved.1)
      | inr differs ↦
          let (t, ran, seen) = start-view host v found.1 in
          rw (other, link_click, differs, apart differs)
            (ap (λ x. view x.1) ran
              ∙ seen
              ∙ ap (λ u. Navigation.perform_navigation v (view u)) moved.1)
    ]
  ]
    where
      from : String
      from = (s.visits v).from.url

      prevented : Swup
      prevented = prevent_default event s

      found : Bool × Swup
      found = is_same_resolved_url host url from prevented

      moved :
          ((found.0 ≡ true) ↔ (resolved host s.options url ≡ resolved host s.options from))
          × (found.1 ≡ record prevented { console = found.1.console })
      moved = is_same_resolved_url_iff host url from prevented

      here : String
      here = resolved host s.options url

      there : String
      there = resolved host s.options from

      apart : found.0 ≡ false → (here == there) ≡ false
      apart e = elim (Bool-cases (here == there)) [
        | inl same ↦ absurd (cc (moved.0.1 ((string_eq.same_iff here there).0 same), e))
        | inr other ↦ other
      ]

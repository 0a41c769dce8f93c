-- ===== src/Rendering.antt =====
-- src/modules/replaceContent.ts and src/modules/renderPage.ts: the content of the page that has been
-- loaded takes the place of the current one.
pub mod Content
use vitest_swup.Prelude.{
  ℕ, ◌&◌, ◌==◌, nat_eq, string_eq, String, Bool, true, false, not, ◌&&◌, Option, none, some, List,
  [], ◌∷◌, length, filter_by, if◌then◌else◌,
}
use vitest_swup.Values.{
  Value, undefined, string, visit, object, function, VisitRef, returns, throws,
}
use vitest_swup.Visit.{Visit, entering, advance, done}
use vitest_swup.State.{
  Swup, Host, Functions, Forest, M, ◌>>=◌, ◌>>◌, and_then, pure, gets, modify, alloc, log,
}
use vitest_swup.Objects.{set_visit, throw_error, member, given}
use vitest_swup.Document.{subtree, replace_with, detach, clone_node, or_else}
use vitest_swup.Hooks.Run.{call, await}
use vitest_swup.Hooks.Run.Default.{Closure, with_closure}
use vitest_swup.ResolveUrl.{location_url, is_same_resolved_url}
use vitest_swup.Cache.{from_url}
use vitest_swup.Classes
use vitest_swup.Slugs.{classify}
use vitest_swup.History.{get_current_url, update_history_record}
use vitest_swup.Fetch.{text_of}
use vitest_swup.Scroll.{scroll_to_content}

abbrev pub set_document : Forest → Swup → Swup
set_document document s = record s { document = document }

abbrev pub or_blank : Option String → String
or_blank none = ""
or_blank (some text) = text

-- The warnings for a container that is missing in either document.
abbrev pub warn_missing : String → Option ℕ → Option ℕ → Swup → Swup
warn_missing selector none none s =
    log ("[swup] Container missing in incoming document: " & selector)
      (log ("[swup] Container missing in current document: " & selector) s)
warn_missing selector none (some incoming) s =
    log ("[swup] Container missing in current document: " & selector) s
warn_missing selector (some current) none s =
    log ("[swup] Container missing in incoming document: " & selector) s
warn_missing selector (some current) (some incoming) s = s

-- `currentEl.replaceWith(incomingEl.cloneNode(true))`
abbrev pub put_clone : ℕ → Option Forest → Swup → Swup
put_clone current none s = s
put_clone current (some incoming) s =
    let (new, next) = clone_node s.next incoming in
    record s { document = replace_with current new s.document; next = next }

-- One container: it is replaced if it is there in both documents.
unfoldable pub replace_container : String → Option ℕ → Option ℕ → Forest → Swup → Bool × Swup
unfolding clone_node replace_with subtree
replace_container selector (some current) (some incoming) document s =
    (true, put_clone current (subtree incoming document) s)
replace_container selector current incoming document s =
    (false, warn_missing selector current incoming s)

-- A persisted element is put in the place of `replacement`.
abbrev pub put_back : ℕ → ℕ → Option Forest → Swup → Swup
put_back existing replacement none s = s
put_back existing replacement (some node) s =
    set_document (replace_with replacement node (detach existing s.document)) s

-- A persisted element takes the place of the one that has come for it; `saved` is the document before.
unfoldable pub restore : Forest → ℕ → Option ℕ → Swup → Swup
unfolding replace_with detach subtree
restore saved existing none s = s
restore saved existing (some replacement) s =
    if replacement == existing
    then s
    else put_back existing replacement
        (or_else (subtree existing s.document) (subtree existing saved)) s

abbrev pub key_or_null : Option String → String
key_or_null none = "null"
key_or_null (some key) = key

-- `.filter(Boolean)`
abbrev pub successes : List Bool → List Bool
successes = filter_by (λ b. b)

-- `to-` and the slug of the name of an animation, if it has one.
abbrev pub name_class : Option String → List String
name_class none = []
name_class (some name) = if name == "" then [] else ("to-" & classify name "") ∷ []

module _ (host : Host) where
  -- The loop over the containers, in an incoming document of these elements.
  unfoldable pub replace_all : Forest → List String → Swup → List Bool × Swup
  unfolding replace_container
  replace_all incoming [] s = ([], s)
  replace_all incoming (selector ∷ selectors) s =
      let (b, s') =
        replace_container selector (host.query_selector selector s.document)
          (host.query_selector selector incoming) incoming s in
      let (bs, s'') = replace_all incoming selectors s' in (b ∷ bs, s'')

  unfoldable pub restore_all : Forest → List ℕ → Swup → Swup
  unfolding restore
  restore_all saved [] s = s
  restore_all saved (existing ∷ elements) s =
      let key = key_or_null (host.get_attribute existing "data-swup-persist") in
      restore_all saved elements (
        restore saved existing
          (host.query_selector ("[data-swup-persist=\"" & key & "\"]") s.document) s)

  -- The part of `replaceContent` for an incoming document.
  unfoldable pub replace_from : ℕ → List String → Swup → Bool × Swup
  unfolding replace_all restore_all
  replace_from incoming containers s =
      let s₁ = record s {
        browser = record s.browser { title = or_blank (host.title_of incoming) };
      } in
      let persisted =
        host.query_selector_all "[data-swup-persist]:not([data-swup-persist=\"\"])" s₁.document in
      let (replaced, s₂) = replace_all (host.elements_of incoming) containers s₁ in
      (length (successes replaced) == length containers, restore_all s₁.document persisted s₂)

  unfoldable pub replace_content_with : Option ℕ → List String → Swup → Bool × Swup
  unfolding replace_from
  replace_content_with none containers s = (false, s)
  replace_content_with (some incoming) containers s = replace_from incoming containers s

  -- `replaceContent(visit)`
  unfoldable pub replace_content : VisitRef → Swup → Bool × Swup
  unfolding replace_content_with
  replace_content v s = replace_content_with (s.visits v).to.document (s.visits v).containers s

  -- The default handler of `content:replace`.
  unfoldable pub content_replace : Closure
  unfolding Classes.add Classes.remove replace_content throw_error
  content_replace w args = do
    _ ← member host "page" args
    given host w λ v. do
      modify (Classes.remove host ("is-leaving" ∷ []))
      animate ← gets (λ s. (s.visits v).animation.animate)
      modify (if animate then Classes.add host ("is-rendering" ∷ []) else (λ s. s))
      success ← (λ s. let (b, t) = replace_content v s in (returns b, t))
      if success
          then (do
            animation ← gets (λ s. (s.visits v).animation)
            modify (
                if animation.animate
                then (λ s.
                    Classes.add host (name_class animation.name)
                      (Classes.add host ("is-changing" ∷ "is-animating" ∷ "is-rendering" ∷ []) s))
                else (λ s. s))
            pure undefined)
          else throw_error "[swup] Container mismatch, aborting"

  -- The default handler of `content:scroll`.
  unfoldable pub content_scroll : Functions → VisitRef → Closure
  unfolding scroll_to_content
  content_scroll f v w args = scroll_to_content host f.scroll_anchor f.scroll_top v

  -- The location and the history follow a redirect.
  unfoldable pub follow : VisitRef → String → M (Unit {0})
  unfolding is_same_resolved_url get_current_url update_history_record set_visit
  follow v url = do
    same ← (λ s.
        let (b, t) = is_same_resolved_url host (get_current_url false s) url s in (returns b, t))
    if same then pure tt else (do
      update_history_record host url []
      location ← from_url host url
      modify (λ s. record s { location = location })
      modify (
          set_visit v (λ w. record w {
            to = record w.to { url = location_url location; hash = some location.hash };
          })))

  -- `renderPage(visit, page)`, of a visit that is not done.
  unfoldable pub render_live : Functions → VisitRef → Value → M (Unit {0})
  unfolding alloc follow content_replace content_scroll advance set_visit
  render_live f v page = do
    modify (set_visit v (advance entering))
    url ← member host "url" page
    follow v (text_of url)
    args ← alloc (("page", page) ∷ [])
    _ ← await host (
        call (with_closure f.content_replace content_replace host) "content:replace" (visit v)
          (object args) (function f.content_replace))
    _ ← await host (
        call (with_closure f.content_scroll (content_scroll f v) host) "content:scroll" (visit v)
          undefined (function f.content_scroll))
    url' ← gets (λ s. location_url s.location)
    title ← gets (λ s. s.browser.title)
    view ← alloc (("url", string url') ∷ ("title", string title) ∷ [])
    _ ← await host (call host "page:view" (visit v) (object view) undefined)
    pure tt

  unfoldable pub render_page : Functions → VisitRef → Value → M (Unit {0})
  unfolding render_live done
  render_page f v page = do
    over ← gets (λ s. done (s.visits v))
    if over then pure tt else render_live f v page

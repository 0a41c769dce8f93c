-- ===== src/Fetch/Caching.antt =====
-- src/modules/fetchPage.ts: when a page that has been loaded is in the cache.
use vitest_swup.Prelude.{
  ℕ, ◌+◌, ◌<◌, ◌==◌, nat_eq, string_eq, String, Bool, true, false, ◌&&◌, some, [], ◌∷◌, ◌≡◌, refl,
  ◌∙◌, ap, ap₂, if◌then◌else◌,
}
use vitest_swup.Prelude.Dict
use vitest_swup.Prelude.Dict.{Dict}
use vitest_swup.Values.{Value, string, object, Outcome, returns, throws}
use vitest_swup.State.{Swup, Host, Location, ◌>>◌, and_then, pure, update}
use vitest_swup.Objects.{read, property_of}
use vitest_swup.Hooks.Run.Frame.{IsKept}
use vitest_swup.ResolveUrl.{location_url}
use vitest_swup.Cache
use vitest_swup.Cache.Pages.{
  page_at, IsHeap, cache_key, content_of-update, page_below, raised, update_self, update_other,
}
use vitest_swup.Cache.Writes.{SamePages, page_at-set}
use vitest_swup.Fetch.{Request, is_500, may_cache, is_safe, keep_page, accept_page, receive}

-- The page object that `fetchPage` makes, as the cache stores it under a key.
abbrev pub fetched : String → String → Dict String Value
fetched key html = ("url", string key) ∷ ("html", string html) ∷ []

-- An instance with one new object.
abbrev with_page : String → String → Swup → Swup
with_page url html s = record s {
  objects = update s.objects s.next (fetched url html);
  next = s.next + 1;
}

with_page-page_at :
    (url html : String) (s : Swup)
    → IsHeap s
    → (q : String) → page_at q (with_page url html s) ≡ page_at q s
with_page-page_at url html s heap q =
    content_of-update s.objects s.next (fetched url html) (Dict.get q s.pages) (page_below q s heap)

state_of : {A B : Type 0} (x : Outcome A × Swup) (b : B) → (and_then x (λ _. pure b)).1 ≡ x.1
state_of (returns a, t) b = refl
state_of (throws e, t) b = refl

-- The page is written to the cache, or it is not.
keep_page-page_at :
    (host : Host) (r : Request) (url html : String) (s : Swup) {key : String}
    → cache_key host s.options url ≡ returns key
    → IsHeap s
    → r.options < s.next
    → ((t : Swup) → IsKept host (SamePages t))
    → (q : String)
    → page_at q (keep_page host r url html s).1
      ≡ (if may_cache r url s && key == q then some (fetched key html) else page_at q s)
unfolding keep_page
keep_page-page_at host r url html s {key} keyed heap below kept q =
    written (may_cache r url s')
    ∙ ap (λ b. if b && key == q then some (fetched key html) else page_at q s) allowed
  where
    s' : Swup
    s' = with_page url html s

    allowed : may_cache r url s' ≡ may_cache r url s
    allowed =
        ap
          (λ d.
            (s.visits r.visit).cache.write
            && is_safe (property_of (Dict.get "method" d))
            && (r.url == url))
          (update_other s.objects s.next r.options (fetched url html) below)

    stored : Dict.set "url" (string key) (s'.objects s.next) ≡ fetched key html
    stored =
        unfold Dict.set in
        ap (Dict.set "url" (string key)) (update_self s.objects s.next (fetched url html))

    written :
        (b : Bool)
        → page_at q ((if b then Cache.set host url s.next >> pure s.next else pure s.next) s').1
          ≡ (if b && key == q then some (fetched key html) else page_at q s)
    written false = with_page-page_at url html s heap q
    written true =
        ap (page_at q) (state_of (Cache.set host url s.next s') s.next)
        ∙ page_at-set host url s.next s' keyed (raised s.pages s.next heap) kept q
        ∙ ap₂ (λ stored old. if key == q then some stored else old) stored
            (with_page-page_at url html s heap q)

-- `fetchPage` once the response is there, where its status is not 500, its text is not empty, its URL can be
-- parsed, all pages are objects of the heap, and the handlers of hooks and the listeners for DOM events leave
-- all pages as they find them: if the visit may write to the cache, the method is GET or not given, and the
-- URL of the response is the one that was asked for, then the page under the key of that URL has the key and
-- the text of the response, and the pages under other keys are as before; otherwise all pages are as before.
pub page_at-receive :
    (host : Host) (r : Request) (response : ℕ) (status : Value) (url html : String) (s t : Swup)
    (location : Location) {key : String}
    → read "status" (object response) s ≡ status
    → is_500 status ≡ false
    → read "url" (object response) s ≡ string url
    → host.text (object response) s ≡ (returns html, t)
    → (html == "") ≡ false
    → host.parse_url url ≡ returns location
    → let u = host.pass t in
      cache_key host u.options (location_url location) ≡ returns key
      → IsHeap u
      → r.options < u.next
      → ((w : Swup) → IsKept host (SamePages w))
      → (q : String)
      → page_at q (receive host r (object response) s).1 ≡ (
          if may_cache r (location_url location) u && key == q
          then some (fetched key html)
          else page_at q u)
unfolding receive accept_page
page_at-receive host r response status url html s t location {key} st ok ur text full parsed keyed
      heap below kept q =
    ap (λ x. page_at q x.1)
      (ap
          (λ x. and_then (awaited x) (λ html.
            accept_page host r (object response) (read "status" (object response) s)
              (read "url" (object response) s) html))
          text
        ∙ ap₂ (λ st ur. accept_page host r (object response) st ur html u) st ur
        ∙ accepted)
    ∙ keep_page-page_at host r (location_url location) html u keyed heap below kept q
  where
    u : Swup
    u = host.pass t

    awaited : Outcome String × Swup → Outcome String × Swup
    awaited x = (x.0, host.pass x.1)

    accepted :
        accept_page host r (object response) status (string url) html u
        ≡ keep_page host r (location_url location) html u
    accepted = rw (ok, full, accept_page, parsed) refl

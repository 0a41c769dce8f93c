-- ===== src/Performing/Cached.antt =====
-- src/modules/navigate.ts: a page that is in the cache is not fetched.
use vitest_swup.Prelude.{
  ℕ, ◌+◌, ◌<◌, nat_eq, string_eq, String, true, Option, some, ◌≡◌, refl, ◌∙◌, ap,
}
use vitest_swup.Prelude.Dict
use vitest_swup.Values.{Value, boolean, object, VisitRef, returns}
use vitest_swup.State.{Swup, Host, Functions, M, ◌>>=◌, ◌>>◌, and_then, update}
use vitest_swup.Objects.{read, set_property, member, assign}
use vitest_swup.Objects.Heap.{update_self, update_above, read-set_property, read-set_property_other}
use vitest_swup.Cache
use vitest_swup.Cache.Pages.{cache_key, after_resolve, resolve-key}
use vitest_swup.Performing.Loading.{cached_or_fetched, is_cached, page_load}

-- An instance in which the arguments of the hook name a page of the cache.
abbrev answered : ℕ → ℕ → Swup → Swup
answered args page s =
    set_property args "cache" (boolean true) (set_property args "page" (object page) s)

-- The default handler of `page:load`, for a visit that may read from the cache, which has a page under the key of its
-- URL: it returns a new object with the content of that page, which is the page in the arguments of the hook
-- as well, and these say that it comes from the cache; the cache is as before. So nothing is fetched.
pub page_load-cached :
    (host : Host) (f : Functions) (v : VisitRef) (args page : ℕ) (s : Swup) {key : String}
    → (s.visits v).cache.read ≡ true
    → cache_key host s.options (s.visits v).to.url ≡ returns key
    → Dict.get key s.pages ≡ some page
    → args < s.next
    → (t : Swup) × (page_load host f (some v) (object args) s ≡ (returns (object s.next), t))
      × (t.objects s.next ≡ s.objects page)
      × (read "page" (object args) t ≡ object s.next)
      × (read "cache" (object args) t ≡ boolean true)
      × (t.pages ≡ s.pages)
unfolding page_load Cache.get set_property
page_load-cached host f v args page s {key} may keyed there below = (
  t,
  rw may (ap (λ x. and_then x go_on) found) ∙ ap (λ value. (returns value, t)) named,
  update_above named_page.objects args s.next _ below
      ∙ update_above copied.objects args s.next _ below
      ∙ update_self s.objects s.next (s.objects page),
  named,
  read-set_property args "cache" (boolean true) named_page,
  refl,
)
  where
    copied : Swup
    copied = record (after_resolve host (s.visits v).to.url s) {
      objects = update s.objects s.next (s.objects page);
      next = s.next + 1;
    }

    named_page : Swup
    named_page = set_property args "page" (object s.next) copied

    t : Swup
    t = answered args s.next copied

    found : Cache.get host (s.visits v).to.url s ≡ (returns (some s.next), copied)
    found = rw (resolve-key host (s.visits v).to.url s, keyed) (rw there refl)

    go_on : Option ℕ → M Value
    go_on cached = cached_or_fetched host f v (object args) cached >>= λ page.
        assign host "page" (object page) (object args)
        >> (assign host "cache" (boolean (is_cached host cached)) (object args)
            >> member host "page" (object args))

    named : read "page" (object args) t ≡ object s.next
    named =
        read-set_property_other args args "cache" "page" (boolean true) named_page refl
        ∙ read-set_property args "page" (object s.next) copied

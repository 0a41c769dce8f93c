-- ===== src/Cache/Writes.antt =====
-- src/modules/Cache.ts: what `set` and `update` write.
use vitest_swup.Prelude.{
  ℕ, ◌+◌, ◌<◌, ◌≡◌, refl, ◌∙◌, ap, String, Option, none, some, [], ◌∷◌, ◌==◌, inl, inr,
  Option-cases, if◌then◌else◌, string_eq, nat_eq,
}
use vitest_swup.Prelude.Dict
use vitest_swup.Prelude.Dict.{Dict, Entries}
use vitest_swup.Values.{undefined, string, object, returns}
use vitest_swup.State.{Swup, Host, update}
use vitest_swup.Hooks.Run.Frame.{IsFramed, IsKept, call-Keeps}
use vitest_swup.Cache
use vitest_swup.Objects.{spread}
use vitest_swup.Cache.{put}
use vitest_swup.Cache.Pages.{
  page_at, IsHeap, cache_key, after_resolve, resolve-key, content_of-update, page_below,
  update_self, update_other, page_at-put, put-IsHeap, raised,
}

-- The pages of an instance read as they do in another.
abbrev pub SamePages : Swup → Swup → Type 0
SamePages s t = (q : String) → page_at q t ≡ page_at q s

pub SamePages-IsFramed : (s : Swup) → IsFramed (SamePages s)
SamePages-IsFramed s = record { console = λ t c same. same; registry = λ t r same. same }

module _ (host : Host) (url : String) (page : ℕ) (s : Swup) {key : String}
    (keyed : cache_key host s.options url ≡ returns key) (heap : IsHeap s) where
  -- The page as `set` stores it.
  abbrev pub stored : Cache.CacheData
  stored = Dict.set "url" (string key) (s.objects page)

  -- The instance when `set` calls its hook.
  abbrev before_hook : Swup
  before_hook =
      let t = (put key (s.objects page) (after_resolve host url s)).1 in
      record t {
        objects = update t.objects t.next (("page", object s.next) ∷ []);
        next = t.next + 1;
      }

  before_hook-page_at :
      (q : String) → page_at q before_hook ≡ (if key == q then some stored else page_at q s)
  before_hook-page_at q =
      let s' = after_resolve host url s in
      let t = (put key (s.objects page) s').1 in
      content_of-update t.objects t.next (("page", object s.next) ∷ []) (Dict.get q t.pages)
        (page_below q t (put-IsHeap key (s.objects page) s' heap))
      ∙ page_at-put key q (s.objects page) s' heap

  -- Where the URL can be parsed, all pages are objects of the heap, and the handlers of hooks and
  -- the listeners for DOM events leave all pages as they find them: after `set` the page under the
  -- key of the URL is the given one with the key for its `url`, and the pages under other keys are
  -- as before.
  pub page_at-set :
      ((t : Swup) → IsKept host (SamePages t))
      → (q : String)
      → page_at q (Cache.set host url page s).1 ≡ (if key == q then some stored else page_at q s)
  unfolding Cache.set put
  page_at-set kept q =
      let args = object (s.next + 1) in
      let after =
        (call-Keeps host (SamePages before_hook) (kept before_hook) "cache:set" undefined args
            undefined).0
          before_hook (λ q. refl) in
      rw (resolve-key host url s, keyed) (after q) ∙ before_hook-page_at q

-- The content of a page, or nothing to spread.
abbrev pub or_empty : Option Cache.CacheData → Cache.CacheData
or_empty none = []
or_empty (some content) = content

-- `get` under a key, as `update` calls it: the copy, and what is left of the instance.
get_state :
    (host : Host) (url : String) (s : Swup) {key : String}
    → cache_key host s.options url ≡ returns key
    → IsHeap s
    → (payload : ℕ) → payload < s.next
    → (copy : Option ℕ) × (t : Swup) × (Cache.get host url s ≡ (returns copy, t))
      × (Cache.contents copy t ≡ or_empty (page_at key s))
      × (t.objects payload ≡ s.objects payload)
      × IsHeap t
      × ((q : String) → page_at q t ≡ page_at q s)
unfolding Cache.get
get_state host url s {key} keyed heap payload below = elim (Option-cases (Dict.get key s.pages)) [
  | inl e ↦ (
    none,
    after_resolve host url s,
    rw (resolve-key host url s, keyed) (rw e refl),
    rw e refl,
    refl,
    heap,
    λ q. refl,
  )
  | inr (page, e) ↦ (
    some s.next,
    record (after_resolve host url s) {
      objects = update s.objects s.next (s.objects page);
      next = s.next + 1;
    },
    rw (resolve-key host url s, keyed) (rw e refl),
    rw e (update_self s.objects s.next (s.objects page)),
    update_other s.objects s.next payload (s.objects page) below,
    raised s.pages s.next heap,
    λ q.
        content_of-update s.objects s.next (s.objects page) (Dict.get q s.pages)
          (page_below q s heap),
  )
]

-- Where the URL and its key can be parsed, and all pages and the payload are objects of the heap:
-- `update` writes one page. The page under the key of the URL gets the entries of the page that is
-- found under the key of that key, then those of the payload, then the key for its `url`; the
-- pages under other keys are as before. So where the key resolves to itself, it is the page with
-- the payload put over it.
pub page_at-update :
    (host : Host) (url : String) (payload : ℕ) (s : Swup) {key key' : String}
    → cache_key host s.options url ≡ returns key
    → cache_key host s.options key ≡ returns key'
    → IsHeap s
    → payload < s.next
    → (q : String)
    → page_at q (Cache.update host url payload s).1 ≡ (
        if key == q
        then some
            (Dict.set "url" (string key) (spread (or_empty (page_at key' s)) (s.objects payload)))
        else page_at q s)
unfolding Cache.update put
page_at-update host url payload s {key} {key'} keyed again heap below q =
    let s' = after_resolve host url s in
    let (copy, t, done, old, new, heap', same) = get_state host key s' again heap payload below in
    let content = spread (or_empty (page_at key' s)) (s.objects payload) in
    rw (resolve-key host url s, keyed, done, old, new)
      (page_at-put key q content t heap'
        ∙ ap (λ o. if key == q then some (Dict.set "url" (string key) content) else o) (same q))

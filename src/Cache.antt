-- ===== src/Cache.antt =====
-- src/modules/Cache.ts: the page cache. The map holds references of page objects, so that a copy of a
-- page and the page itself are told apart.
pub mod Pages
pub mod Reads
pub mod Writes
pub mod Prune
use vitest_swup.Prelude.{
  ℕ, String, Bool, true, false, Option, none, some, List, [], ◌∷◌, length, map, string_eq,
  if◌then◌else◌,
}
use vitest_swup.Prelude.Dict
use vitest_swup.Prelude.Dict.{Dict}
use vitest_swup.Values.{Value, undefined, string, object, Outcome, returns, throws}
use vitest_swup.State.{Swup, Host, Location, M, ◌>>=◌, ◌>>◌, and_then, pure, gets, modify, alloc}
use vitest_swup.Objects.{spread}
use vitest_swup.Hooks.Run.{call_sync}
use vitest_swup.ResolveUrl.{location_url, resolve_url}

-- A page object: `url`, `html` and what plugins have added.
abbrev pub CacheData : Type 0
CacheData = Dict String Value

-- What an optional object spreads to: `{ ...undefined }` is empty.
abbrev pub contents : Option ℕ → Swup → CacheData
contents none s = []
contents (some page) s = s.objects page

-- `pages.get`, `pages.set` and `pages.delete` on the map itself.
abbrev pub set_page : String → ℕ → M (Unit {0})
set_page key page = modify (λ s. record s { pages = Dict.set key page s.pages })

abbrev pub delete_page : String → M (Unit {0})
delete_page key = modify (λ s. record s { pages = Dict.delete key s.pages })

-- The shallow copy that `get` returns.
copy_page : Option ℕ → M (Option ℕ)
unfolding alloc
copy_page none = pure none
copy_page (some page) = do
  content ← gets (λ s. s.objects page)
  copy ← alloc content
  pure (some copy)

unfoldable pub size : Swup → ℕ
size s = length s.pages

-- The copies of `all`, in the order of the map.
copy_all : Dict String ℕ → M (Dict String ℕ)
unfolding alloc
copy_all [] = pure []
copy_all ((key, page) ∷ pages) = do
  content ← gets (λ s. s.objects page)
  copy ← alloc content
  rest ← copy_all pages
  pure ((key, copy) ∷ rest)

unfoldable pub all : M (Dict String ℕ)
unfolding copy_all
all s = copy_all s.pages s

-- The first part of `set`: the new page object is in the map.
unfoldable pub put : String → CacheData → M ℕ
unfolding alloc
put key content = do
  page ← alloc (Dict.set "url" (string key) content)
  set_page key page
  pure page

module _ (host : Host) where
  -- `Location.fromUrl(url)`
  abbrev pub from_url : String → M Location
  from_url url s = (host.parse_url url, s)

  unfoldable pub resolve : String → M String
  resolve url = do
    location ← from_url url
    λ s. let (key, s') = resolve_url host (location_url location) s in (returns key, s')

  unfoldable pub has : String → M Bool
  has url = do key ← resolve url; gets (λ s. Dict.has key s.pages)

  unfoldable pub get : String → M (Option ℕ)
  unfolding copy_page
  get url = do key ← resolve url; page ← gets (λ s. Dict.get key s.pages); copy_page page

  unfoldable pub set : String → ℕ → M Value
  set url page = do
    key ← resolve url
    content ← gets (λ s. s.objects page)
    page' ← put key content
    args ← alloc (("page", object page') ∷ [])
    call_sync host "cache:set" undefined (object args) undefined

  -- The old page is looked up under the URL that has been resolved already; the write is that of `set`.
  unfoldable pub update : String → ℕ → M (Unit {0})
  update url payload = do
    key ← resolve url
    current ← get key
    old ← gets (contents current)
    new ← gets (λ s. s.objects payload)
    put key (spread old new) >> pure tt

  unfoldable pub delete : String → M (Unit {0})
  delete url = do key ← resolve url; delete_page key

  unfoldable pub clear : M Value
  clear = do
    modify (λ s. record s { pages = [] })
    call_sync host "cache:clear" undefined undefined undefined

  -- One round of `prune` at a key: an entry that is not there any more is passed over.
  pub prune_found : (String → CacheData → Bool) → String → Option ℕ → M (Unit {0})
  unfolding delete
  prune_found predicate key none s = pure tt s
  prune_found predicate key (some page) s = elim (predicate key (s.objects page)) [
    | true ↦ delete key s
    | false ↦ pure tt s
  ]

  -- `pages.forEach` goes through the entries in the order of the map.
  pub prune_loop : (String → CacheData → Bool) → List String → M (Unit {0})
  unfolding prune_found
  prune_loop predicate [] = pure tt
  prune_loop predicate (key ∷ keys) = do
    page ← gets (λ s. Dict.get key s.pages)
    prune_found predicate key page
    prune_loop predicate keys

  unfoldable pub prune : (String → CacheData → Bool) → M (Unit {0})
  unfolding prune_loop
  prune predicate = do keys ← gets (λ s. map (λ e. e.0) s.pages); prune_loop predicate keys

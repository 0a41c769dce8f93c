-- ===== src/Cache/Pages.antt =====
-- src/modules/Cache.ts: the cache as a map from resolved URLs to page contents.
use vitest_swup.Prelude.{
  ℕ, ◌+◌, ◌<◌, ◌≡◌, refl, ap, String, Bool, true, false, Option, none, some, List, [], ◌∷◌, ◌==◌,
  inl, inr, Bool-cases, beq_refl, if◌then◌else◌, string_eq, nat_eq, arith,
}
use vitest_swup.Prelude.Dict
use vitest_swup.Prelude.Dict.{Dict, Entries, Distinct}
use vitest_swup.Values.{string, Outcome, returns, throws}
use vitest_swup.State.{Swup, Host, Options, Location, M, ◌>>=◌, and_then, update}
use vitest_swup.ResolveUrl.{location_url, resolved, resolve_url}
use vitest_swup.ResolveUrl.Laws.{resolve_url-resolved}
use vitest_swup.Cache

-- The abstract view: the content of the page under a key.
abbrev pub content_of : (ℕ → Cache.CacheData) → Option ℕ → Option Cache.CacheData
content_of objects none = none
content_of objects (some page) = some (objects page)

abbrev pub page_at : String → Swup → Option Cache.CacheData
page_at key s = content_of s.objects (Dict.get key s.pages)

-- Every page is an object of the heap.
abbrev pub IsHeap : Swup → Type 0
IsHeap s = Entries (λ key page. page < s.next) s.pages

-- The key of a URL: its local part, resolved.
abbrev pub key_of_location : Host → Options → Outcome Location → Outcome String
key_of_location host options (returns l) = returns (resolved host options (location_url l))
key_of_location host options (throws error) = throws error

abbrev pub cache_key : Host → Options → String → Outcome String
cache_key host options url = key_of_location host options (host.parse_url url)

-- An instance with another console.
abbrev pub with_console : List String → Swup → Swup
with_console c s = record s { console = c }

pub update_self : (h : ℕ → Cache.CacheData) (r : ℕ) (a : Cache.CacheData) → update h r a r ≡ a
unfolding update
update_self h r a = rw (beq_refl r)

pub update_other :
    (h : ℕ → Cache.CacheData) (r q : ℕ) (a : Cache.CacheData) → q < r → update h r a q ≡ h q
unfolding update
update_other h r q a less = ground arith

-- A new object changes no page.
pub content_of-update :
    (objects : ℕ → Cache.CacheData) (next : ℕ) (a : Cache.CacheData) (o : Option ℕ)
    → ((page : ℕ) → o ≡ some page → page < next)
    → content_of (update objects next a) o ≡ content_of objects o
content_of-update objects next a none h = refl
content_of-update objects next a (some page) h =
    ap some (update_other objects next page a (h page refl))

-- The pages of a heap lie below its next free reference.
pub page_below :
    (q : String) (s : Swup) → IsHeap s → (page : ℕ) → Dict.get q s.pages ≡ some page → page < s.next
page_below q s h page e = Dict.Entries-get (λ _ page. page < s.next) q s.pages e h

-- The two parts of `resolve`.
resolve_located :
    (host : Host) (o : Outcome Location) (s : Swup)
    → let r =
        and_then
          (o, s)
          (λ location s'. (
            returns (resolve_url host (location_url location) s').0,
            (resolve_url host (location_url location) s').1,
          )) in
      r ≡ (key_of_location host s.options o, with_console r.1.console s)
resolve_located host (returns l) s =
    let (value, rest) = resolve_url-resolved host (location_url l) s in
    λ i. (returns (value i), rest i)
resolve_located host (throws error) s = refl

-- `put`, the write of `set`, changes the page of that key and no other.
pub page_at-put :
    (key q : String) (content : Cache.CacheData) (s : Swup)
    → IsHeap s
    → page_at q (Cache.put key content s).1
      ≡ (if key == q then some (Dict.set "url" (string key) content) else page_at q s)
unfolding Cache.put
page_at-put key q content s h = elim (Bool-cases (key == q)) [
  | inl p ↦ rw (Dict.get-set key q s.next s.pages, p) (ap some (update_self s.objects s.next _))
  | inr p ↦
      rw (Dict.get-set key q s.next s.pages, p)
        (content_of-update s.objects s.next _ (Dict.get q s.pages) (page_below q s h))
]

-- A free reference more.
pub raised :
    (m : Dict String ℕ) (next : ℕ)
    → Entries (λ key page. page < next) m
    → Entries (λ key page. page < next + 1) m
raised [] next h = tt
raised ((key, page) ∷ m) next h = (omega (arith, h.0), raised m next h.1)

pub put-IsHeap :
    (key : String) (content : Cache.CacheData) (s : Swup)
    → IsHeap s
    → IsHeap (Cache.put key content s).1
unfolding Cache.put
put-IsHeap key content s h =
    Dict.Entries-set (λ _ page. page < s.next + 1) key s.next s.pages (omega arith)
      (raised s.pages s.next h)

module _ (host : Host) where
  -- `resolve` gives the key, or the error of the URL parser, and touches nothing but the console.
  pub resolve-key :
      (url : String) (s : Swup)
      → Cache.resolve host url s
        ≡ (cache_key host s.options url, with_console (Cache.resolve host url s).1.console s)
  unfolding Cache.resolve
  resolve-key url s = resolve_located host (host.parse_url url) s

  -- The instance after `resolve`.
  abbrev pub after_resolve : String → Swup → Swup
  after_resolve url s = with_console (Cache.resolve host url s).1.console s

  -- A call that begins with `resolve`.
  pub resolve-bind {ℓ} :
      {A : Type ℓ} (url : String) (f : String → M A) (s : Swup) {key : String}
      → cache_key host s.options url ≡ returns key
      → (Cache.resolve host url >>= f) s ≡ f key (after_resolve url s)
  resolve-bind url f s e = rw (resolve-key url s, e)

  -- Where the URL can be parsed, `delete` takes away the page under its key, and leaves those
  -- under other keys.
  pub page_at-delete :
      (url q : String) (s : Swup) {key : String}
      → cache_key host s.options url ≡ returns key
      → page_at q (Cache.delete host url s).1 ≡ (if key == q then none else page_at q s)
  unfolding Cache.delete
  page_at-delete url q s {key} e =
      rw (resolve-key url s, e, Dict.get-delete key q s.pages) (under (key == q))
    where
      under :
          (b : Bool)
          → content_of s.objects (if b then none else Dict.get q s.pages)
            ≡ (if b then none else page_at q s)
      under true = refl
      under false = refl

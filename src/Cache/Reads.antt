-- ===== src/Cache/Reads.antt =====
-- src/modules/Cache.ts: what `has` and `get` answer.
use vitest_swup.Prelude.{
  ℕ, ◌+◌, ◌<◌, ◌≡◌, refl, ◌∙◌, ap, String, Bool, true, false, Option, none, some, [], ◌∷◌, ◌==◌,
  inl, inr, Bool-cases, string_eq, nat_eq,
}
use vitest_swup.Prelude.Dict
use vitest_swup.Prelude.Dict.{Dict, Entries}
use vitest_swup.Values.{returns}
use vitest_swup.State.{Swup, Host, update}
use vitest_swup.Cache
use vitest_swup.Cache.{copy_page}
use vitest_swup.Cache.Pages.{
  content_of, page_at, IsHeap, cache_key, after_resolve, resolve-key, content_of-update, page_below,
  update_self,
}

-- `has` on the abstract view.
abbrev pub is_cached : Option Cache.CacheData → Bool
is_cached none = false
is_cached (some _) = true

has-content_of :
    (key : String) (objects : ℕ → Cache.CacheData) (m : Dict String ℕ)
    → Dict.has key m ≡ is_cached (content_of objects (Dict.get key m))
unfolding Dict.has Dict.get
has-content_of key objects [] = refl
has-content_of key objects ((k, page) ∷ m) = elim (Bool-cases (k == key)) [
  | inl p ↦ rw p
  | inr p ↦ rw p (has-content_of key objects m)
]

-- The instance after a write to the copy that `get` has returned.
abbrev pub write_to : Option ℕ → Cache.CacheData → Swup → Swup
write_to none content t = t
write_to (some copy) content t = record t { objects = update t.objects copy content }

module _ (host : Host) (url : String) (s : Swup) {key : String}
    (keyed : cache_key host s.options url ≡ returns key) where
  -- Where the URL can be parsed, `has` returns, and says whether there is a page under the key of
  -- the URL.
  pub has-page_at : (Cache.has host url s).0 ≡ returns (is_cached (page_at key s))
  unfolding Cache.has
  has-page_at =
      rw (resolve-key host url s, keyed) (ap returns (has-content_of key s.objects s.pages))

  -- What `copy_page` leaves behind.
  copy_page_lem :
      (o : Option ℕ)
      → ((page : ℕ) → o ≡ some page → page < s.next)
      → IsHeap s
      → (copy : Option ℕ) × (t : Swup) × (copy_page o (after_resolve host url s)
          ≡ (returns copy, t))
        × (content_of t.objects copy ≡ content_of s.objects o)
        × ((a : Cache.CacheData) (q : String) → page_at q (write_to copy a t) ≡ page_at q s)
  unfolding copy_page
  copy_page_lem none below h = (none, after_resolve host url s, refl, refl, λ a q. refl)
  copy_page_lem (some page) below h = (
    some s.next,
    record (after_resolve host url s) {
      objects = update s.objects s.next (s.objects page);
      next = s.next + 1;
    },
    refl,
    ap some (update_self s.objects s.next (s.objects page)),
    λ a q.
        let pages = update s.objects s.next (s.objects page) in
        content_of-update pages s.next a (Dict.get q s.pages) (page_below q s h)
        ∙ content_of-update s.objects s.next (s.objects page) (Dict.get q s.pages)
            (page_below q s h),
  )

  -- Where the URL can be parsed and all pages are objects of the heap, `get` returns: nothing, if
  -- there is no page under the key of the URL, or else a new object with the content of that page;
  -- whatever is then written to that object, all pages of the cache stay as they were.
  pub get-copies :
      IsHeap s
      → (copy : Option ℕ) × (t : Swup) × (Cache.get host url s ≡ (returns copy, t))
        × (content_of t.objects copy ≡ page_at key s)
        × ((a : Cache.CacheData) (q : String) → page_at q (write_to copy a t) ≡ page_at q s)
  unfolding Cache.get
  get-copies h =
      let (copy, t, done, content, apart) =
        copy_page_lem (Dict.get key s.pages) (page_below key s h) h in
      (copy, t, rw (resolve-key host url s, keyed) done, content, apart)

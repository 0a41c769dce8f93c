-- ===== src/Tests/Cache.antt =====
-- The cache and the resolution of URLs on concrete instances.
use vitest_swup.Prelude.{ℕ, ◌≡◌, refl, ◌≢◌, String, true, Option, some, [], ◌∷◌, string_eq, arith}
use text.Mathlib.TextEquality.{eq_iff}
use vitest_swup.Prelude.Dict
use vitest_swup.Values.{string, function, returns}
use vitest_swup.State.{Swup}
use vitest_swup.Hooks.Run.Frame.{IsKept}
use vitest_swup.Objects
use vitest_swup.Cache
use vitest_swup.Cache.Pages.{content_of, page_at, IsHeap}
use vitest_swup.Cache.Reads.{write_to, get-copies}
use vitest_swup.Cache.Writes.{SamePages, SamePages-IsFramed, page_at-set, page_at-update}
use vitest_swup.Cache.Prune.{kept, prune-kept}
use vitest_swup.ResolveUrl.{resolved, resolve_url}
use vitest_swup.Tests.{quiet, fresh, options}

program : Unit {0}
unfolding Cache.set Cache.get Cache.has Cache.update Cache.delete Cache.clear Cache.prune Cache.put
    Cache.resolve Dict.get Dict.set Dict.has Dict.delete resolved resolve_url
program = tt

-- One page, at `/page`.
abbrev filled : Swup
filled = record fresh { pages = ("/page", 2) ∷ [] }

-- The same, where every URL is resolved to `/all`.
abbrev merged : Swup
merged = record filled { options = record options { resolve_url = function 1 } }

abbrev content : Cache.CacheData
content = ("url", string "/page") ∷ ("html", string "<html>") ∷ []

filled-IsHeap : IsHeap filled
filled-IsHeap = (omega arith, tt)

get-copies_example :
    (copy : Option ℕ) × (t : Swup) × (Cache.get quiet "/page" filled ≡ (returns copy, t))
    × (content_of t.objects copy ≡ page_at "/page" filled)
    × ((a : Cache.CacheData) (q : String) → page_at q (write_to copy a t) ≡ page_at q filled)
unfolding program
get-copies_example = get-copies quiet "/page" filled refl filled-IsHeap

pub same-IsKept : (t : Swup) → IsKept quiet (SamePages t)
same-IsKept t = record {
  framed = SamePages-IsFramed t;
  invoke = λ f v args d s p. p;
  settle = λ v s p. p;
  pass = λ s p. p;
  dispatch = λ name detail s p. p;
}

page_at-set_example :
    page_at "/new" (Cache.set quiet "/new" 3 filled).1
    ≡ some (("url", string "/new") ∷ ("html", string "<html>") ∷ [])
unfolding program
page_at-set_example = page_at-set quiet "/new" 3 filled refl filled-IsHeap same-IsKept "/new"

page_at-update_example : page_at "/page" (Cache.update quiet "/page" 3 filled).1 ≡ some content
unfolding program Objects.spread
page_at-update_example =
    page_at-update quiet "/page" 3 filled refl refl filled-IsHeap (omega arith) "/page"

prune-kept_example :
    (t : Swup) × (Cache.prune quiet (λ url page. true) filled ≡ (returns tt, t))
    × ((q : String) → page_at q t ≡ kept (λ url page. true) q (page_at q filled))
unfolding program
prune-kept_example = prune-kept quiet (λ url page. true) filled (refl, tt)

all-ne-page : (a b : String) → a ≡ "/all" → b ≡ "/page" → a ≢ b
all-ne-page a b p q e = absurd (cc (rw p at (rw q at ((eq_iff a b).1 e))))

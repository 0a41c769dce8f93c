-- ===== src/Visit/Create.antt =====
-- src/modules/Visit.ts: the constructor of visits and `createVisit`.
use vitest_swup.Prelude.{ℕ, ◌+◌, String, true, false, Option, none, some, [], nat_eq}
use vitest_swup.Values.{VisitRef, returns}
use vitest_swup.Visit.{Visit, VisitInitOptions, HistoryAction, ScrollTarget, created}
use vitest_swup.State.{Swup, M, update}
use vitest_swup.ResolveUrl.{location_url}

-- `from ?? swup.location.url`
abbrev pub url_or_current : Option String → Swup → String
url_or_current none s = location_url s.location
url_or_current (some url) s = url

-- `new Visit(swup, options)`; the argument is what `Math.random()` gives.
abbrev pub new_visit : ℕ → VisitInitOptions → Swup → Visit
new_visit random o s = record {
  id = random;
  state = created;
  from = record { url = url_or_current o.from s; hash = some s.location.hash };
  to = record { url = o.to; hash = o.hash; html = none; document = none };
  containers = s.options.containers;
  animation = record {
    animate = true;
    wait = false;
    name = none;
    native = s.options.native;
    scope = s.options.animation_scope;
    selector = s.options.animation_selector;
  };
  trigger = record { el = o.el; event = o.event };
  cache = record { read = s.options.cache; write = s.options.cache };
  history = record { action = HistoryAction.push; popstate = false; direction = none };
  scroll = record { reset = true; target = ScrollTarget.unset };
  meta = [];
}

unfoldable pub create_visit : ℕ → VisitInitOptions → M VisitRef
unfolding update
create_visit random o s = (
  returns s.next,
  record s { visits = update s.visits s.next (new_visit random o s); next = s.next + 1 },
)

-- ===== src/Lib.antt =====
-- The page transition library swup, as far as its core goes.
--
-- A `Swup` instance owns a registry of hooks, a cache of pages, options, plugins and the current
-- visit. A visit is started by a click, by the browser's history or by a call of `navigate`, and
-- every step of it is a call of a hook, so that handlers of users and plugins can run before, in
-- place of or after what the library does by default. The pages that are loaded go into the cache,
-- under URLs that `options.resolveUrl` has made comparable.
--
-- Which file models what (paths from the root of the repository):
-- - Values: dynamic values, with the run-time tests that src/modules/Hooks.ts makes of them.
-- - State: the fields of the instance (src/Swup.ts), options, plugins, registrations of handlers
--   (src/modules/Hooks.ts), and the monad of computations that read and write the instance and may
--   throw.
-- - Visit: src/modules/Visit.ts. Visit/Create: the constructor; Visit/Lifecycle: how its state
--   changes.
-- - Hooks/Registry: `create`, `exists`, `get`, `clear`, `on`, `before`, `replace`, `once`, `off`
--   of src/modules/Hooks.ts, with Registry/Laws (what is registered afterwards), Registry/Invariant
--   (what each operation keeps) and Registry/Operations (rows of them).
-- - Hooks/Names: `parseName`.
-- - Hooks/Order: `sortRegistrations`; Order/Sorted: its order.
-- - Hooks/Handlers: `getHandlers`, with Handlers/Partition (every handler is in one place),
--   Handlers/Chain (replaced default handlers) and Handlers/Registration (where a new handler runs).
-- - Hooks/Run: `parseCallArgs`, `run`, `runSync`, `call`, `callSync`, `dispatchDomEvent`, and
--   `isPromise` and `runAsPromise` of src/utils/index.ts, with Run/Loop, Run/Calls (paths of a
--   call), Run/Once (handlers that run once), Run/Frame (what a call leaves alone), and Run/Default
--   and Run/Later (calls with a default handler of the library's, for hooks without handlers).
-- - ResolveUrl: src/modules/resolveUrl.ts and `url` of src/helpers/Location.ts.
-- - Cache: src/modules/Cache.ts, with Cache/Pages (the abstract view: contents by key),
--   Cache/Reads, Cache/Writes and Cache/Prune.
-- - Plugins: src/modules/plugins.ts, with Plugins/Mounting.
-- - Animations: src/modules/awaitAnimations.ts, with Animations/Timeouts (the loop over delays),
--   Animations/Ends (when an element's promise is resolved) and Animations/Awaits.
-- - Classes: src/modules/Classes.ts, with Classes/Clearing (what `clear` leaves).
-- - Objects: objects of the language, with Objects/Heap and Objects/Spread (what is read after a
--   write, and what a spread object has).
-- - Slugs: src/helpers/classify.ts, with Slugs/Shape (what each replacement makes of a text),
--   Slugs/Output (which slugs there are).
-- - History: src/helpers/history.ts and src/helpers/getCurrentUrl.ts; History/Records: what a record
--   holds.
-- - Elements: `getContextualAttr` of src/utils/index.ts and src/modules/getAnchorElement.ts, with
--   Elements/Anchor (against the HTML standard). MatchPath: src/helpers/matchPath.ts.
-- - Fetch: src/modules/fetchPage.ts, with Fetch/Requests, Fetch/Errors, Fetch/Skipped (a
--   request for a visit that is done) and Fetch/Caching.
-- - Document: trees of elements, with Document/Trees and Document/Order (what replacing
--   an element does in document order). Rendering: src/modules/renderPage.ts and
--   src/modules/replaceContent.ts, with Rendering/Content.
-- - Transition: src/modules/animatePageOut.ts, src/modules/animatePageIn.ts, and the default handler
--   of `visit:transition` in src/modules/navigate.ts.
-- - Performing: `performNavigation` of src/modules/navigate.ts on the instance up to its first
--   `await`; Performing/Loading: the loading of the page and the history record; Performing/Tasks:
--   the rest. Performing/Refinement and Performing/Ending relate it to Navigation; Performing/Cached:
--   pages of the cache.
-- - Ignoring: `shouldIgnoreVisit` of src/Swup.ts and `navigate` of src/modules/navigate.ts, with
--   Ignoring/Navigate.
-- - Instance: `handleLinkClick` of src/Swup.ts, with Instance/Popstate (`handlePopState`),
--   Instance/Lifetime (`enable`, `destroy`), Instance/Options (defaults and the constructor), and
--   the theorems in Instance/Clicks, Instance/Links, Instance/Frame (what leaves the visits alone),
--   Instance/Entries, Instance/Leaving and Instance/Marks.
-- - Scroll: src/modules/scrollToContent.ts, with Scroll/Handlers, Scroll/Calls (its two hooks) and
--   Scroll/Default (where no handler has a say).
-- - Navigation: `performNavigation` of src/modules/navigate.ts, with Navigation/Running,
--   Navigation/Segments and Navigation/Exclusion (which visits go on at a time) and
--   Navigation/Outcomes (how they end).
-- - Prelude: shared names, Boolean tests, lists, integers, and maps with the order of insertion.
-- - Tests: concrete instances, runs, and the theorems at concrete inputs.
--
-- How the code is modelled. The methods of the classes are functions on the instance `Swup`, which
-- holds the registry and the cache as well, since all classes refer to one instance. Objects that
-- are shared are references into a heap: visits, plugins, page objects and the objects that hooks
-- are given. A JavaScript `Map` is a list of entries in the order of insertion, where setting a
-- key that is there keeps its place. Functions that users pass in are known by their identity,
-- which is what `Map` and `===` see of them. What they do is a parameter, `Host`: a call may do
-- anything to the instance and may throw. So may other tasks while an `await` is pending
-- (`Host.pass`), a promise when it settles, and listeners on the document. `new URL` is a
-- parameter as well, and the callback `options.resolveUrl` is taken to be a pure function of the
-- URL, and the predicate of `prune` a pure function of its URL and content. Names of hooks and
-- keys are strings; priorities are integers. The loops go over lists, so that no fuel is needed, but for
-- three: the loop of `calculateTimeout` that doubles a list has the number of durations for its
-- fuel, which is enough where there is a delay at all; and `split` and the test for white space
-- have the number of bytes of the text, which is at least the number of its characters. Times are
-- whole numbers of milliseconds or NaN; `parseFloat`, computed styles and `queryAll` are
-- parameters there, and the events of an element and its timer are a sequence of steps.
--
-- `performNavigation` runs for several visits at a time. Its state is `Navigation`: the fields of
-- the instance that it reads and writes, the state of each visit, and the `await` at which each
-- visit stands. The segments between two `await`s are functions, and `step` is what can happen
-- next: a call, the end of an `await` with or without an error, a change of a visit's state by a
-- handler or by the rendering of its page. So a sequence of actions is an interleaving. Those
-- segments leave out the options of a visit, the loading of the page itself, history records, the
-- location and class lists. All of that is in Performing, on the instance: there a call runs up to
-- its first `await`, and what is left of it becomes a task in the instance, which `run_next` takes
-- up and runs to its end, with `Host.pass` for all other tasks at each `await`. A call that is not
-- awaited runs at once, and its errors are dropped; of the calls that are awaited later
-- (`page:load`, and `animation:in:await`) the body has run by then. So Performing has the data of
-- a visit, and Navigation has all interleavings. The call of `visit:start` or `visit:abort`, whose
-- first handler the code runs before it waits, belongs to the task as a whole.
--
-- The options of a request, its response, errors, events, and the arguments of hooks are objects
-- of the heap, as are the variables that the callback of a timer writes. The history of the tab is
-- the list of its entries up to the current one; `pushState` and `replaceState` refuse a URL that
-- cannot be parsed or is of another origin; that they refuse data which cannot be cloned is left
-- out. `history.back` and `location.assign` are recorded, and the browser's answer to them is a
-- later event. Of `toLowerCase` there is what can lead to a letter from a to z; the other
-- characters are removed from a slug.
--
-- An element of the document is a number, and a document is a forest of elements; the class
-- attribute of an element is the list of its classes, as with one space between them. Which
-- element a selector or an id finds is a parameter. The default handlers that the library hands to
-- a call are closures: `with_closure` adds one to the host under an identity.
--
-- `array.sort` is modelled by insertion sort: both are stable, and a stable sort by one comparison
-- has one result. Console output is a list of the messages' fixed parts. Not modelled: the helpers
-- that call the DOM or a package only (`query`, `queryAll`, `forceReflow`, `delegateEvent`), whose
-- results are parameters; and re-exports.
pub mod Prelude
pub mod Values
pub mod Objects
pub mod Visit
pub mod State
pub mod Hooks
pub mod ResolveUrl
pub mod Cache
pub mod Plugins
pub mod Animations
pub mod Classes
pub mod Slugs
pub mod Scroll
pub mod History
pub mod Elements
pub mod MatchPath
pub mod Fetch
pub mod Document
pub mod Rendering
pub mod Transition
pub mod Performing
pub mod Ignoring
pub mod Instance
pub mod Navigation
pub mod Tests

-- ===== src/Performing/Loading.antt =====
-- src/modules/navigate.ts: how the page of a visit is loaded, and its record in the history.
use vitest_swup.Prelude.{
  ℕ, ◌+◌, ◌&◌, ◌==◌, nat_eq, string_eq, String, Bool, true, false, ◌||◌, Option, none, some, [],
  ◌∷◌, if◌then◌else◌,
}
use vitest_swup.Values.{
  Value, undefined, boolean, number, object, VisitRef, Outcome, returns, throws,
}
use vitest_swup.Visit.{HistoryAction, push, replace, loaded, advance}
use vitest_swup.State.{Host, Functions, M, ◌>>=◌, ◌>>◌, pure, gets, modify, alloc}
use vitest_swup.Objects.{set_property, set_visit, throw, member, assign, given, unawaited}
use vitest_swup.Hooks.Run.{await}
use vitest_swup.Hooks.Run.Default.{Closure}
use vitest_swup.ResolveUrl.{location_url}
use vitest_swup.Cache
use vitest_swup.Cache.{from_url}
use vitest_swup.Fetch.{fetch_page, text_of}
use vitest_swup.History.{create_history_record, update_history_record}

-- A hash in a text: `undefined` becomes its name.
abbrev pub hash_text : Option String → String
hash_text none = "undefined"
hash_text (some hash) = hash

abbrev pub is_replace : HistoryAction → Bool
is_replace replace = true
is_replace push = false

module _ (host : Host) where
  -- A page of the cache, or one that is fetched with the options in the arguments.
  abbrev pub options_ref : Value → M ℕ
  options_ref undefined = alloc []
  options_ref (object r) = pure r
  options_ref _ = throw host.type_error

  unfoldable pub fetch_uncached : Functions → VisitRef → Value → M ℕ
  unfolding alloc fetch_page
  fetch_uncached f v args = do
    url ← gets (λ s. (s.visits v).to.url)
    options ← member host "options" args
    o ← options_ref options
    await host (fetch_page host f.fetch_request url o)

  abbrev pub cached_or_fetched : Functions → VisitRef → Value → Option ℕ → M ℕ
  cached_or_fetched f v args (some page) = pure page
  cached_or_fetched f v args none = fetch_uncached f v args

  abbrev pub is_cached : Option ℕ → Bool
  is_cached none = false
  is_cached (some _) = true

  -- The default handler of `page:load`.
  unfoldable pub page_load : Functions → Closure
  unfolding Cache.get fetch_uncached set_property
  page_load f w args = given host w λ v. do
    may_read ← gets (λ s. (s.visits v).cache.read)
    url ← gets (λ s. (s.visits v).to.url)
    cached ← (if may_read then Cache.get host url else pure none)
    page ← cached_or_fetched f v args cached
    assign host "page" (object page) args
    assign host "cache" (boolean (is_cached cached)) args
    member host "page" args

  -- What follows on the loading of the page: it is parsed into a document.
  unfoldable pub page_loaded : VisitRef → Value → M (Unit {0})
  unfolding set_visit advance
  page_loaded v page = do
    html ← member host "html" page
    modify (
        set_visit v (λ w.
          let w' = advance loaded w in
          record w' {
            to = record w'.to {
              html = some (text_of html);
              document = some (host.parse_document (text_of html));
            };
          }))

  -- The part of `page.then(…)` once the call of `page:load` has ended.
  abbrev pub then_loaded : VisitRef → Outcome Value → M (Unit {0})
  then_loaded v (returns page) = unawaited (page_loaded v page)
  then_loaded v (throws error) = pure tt

  -- The history record of the visit.
  unfoldable pub enter_history : VisitRef → M (Unit {0})
  unfolding update_history_record create_history_record
  enter_history v = do
    w ← gets (λ s. s.visits v)
    let new_url = w.to.url & hash_text w.to.hash
    same ← gets (λ s. w.to.url == location_url s.location)
    if w.history.popstate
        then pure tt
        else if is_replace w.history.action || same
        then update_history_record host new_url []
        else (do
          modify (λ s. record s { current_history_index = s.current_history_index + 1 })
          index ← gets (λ s. s.current_history_index)
          create_history_record host new_url (("index", number index) ∷ []))
    location ← from_url host new_url
    modify (λ s. record s { location = location })

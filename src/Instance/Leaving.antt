-- ===== src/Instance/Leaving.antt =====
-- src/modules/navigate.ts and src/Swup.ts: how a visit that has failed leaves the page.
use vitest_swup.Prelude.{
  ℕ, suc, ◌&◌, nat_eq, beq_refl, String, true, false, Option, none, some, ◌≡◌, refl, sym, ◌∙◌, ap,
}
use vitest_swup.Values.{Value, object, boolean, VisitRef, is_truthy, returns}
use vitest_swup.Visit.{Visit, failed}
use vitest_swup.State.{Swup, Host, Functions, Window, M, and_then, log}
use vitest_swup.Objects.{read, set_visit}
use vitest_swup.Objects.Heap.{update_self}
use vitest_swup.History.{window_location}
use vitest_swup.Ignoring.{assign_location}
use vitest_swup.Performing.Loading.{hash_text}
use vitest_swup.Performing.Tasks.{navigation_failed, leave_page, set_state}
use vitest_swup.Instance.Popstate.{
  handle_unless, handle_pop_state, skip_handling, leave, href_or_current,
}

-- The URL of a visit with its hash, as `+` joins them: a hash that is not there becomes the text `undefined`.
abbrev pub url_with : String → Option String → String
url_with url none = url & "undefined"
url_with url (some hash) = url & hash

abbrev pub target_url : Visit → String
target_url w = url_with w.to.url w.to.hash

target_url-hash_text : (w : Visit) → w.to.url & hash_text w.to.hash ≡ target_url w
target_url-hash_text w = either w.to.hash
  where
    either : (hash : Option String) → w.to.url & hash_text hash ≡ url_with w.to.url hash
    either none = refl
    either (some hash) = refl

-- The instance once the browser has gone to another entry of its history.
abbrev pub in_window : Window → Swup → Swup
in_window browser t = record t { browser = browser }

-- After an error that is neither empty nor that of an aborted request, the visit has failed, and the history
-- goes back once. When the browser then reports the entry that it has gone back to, whatever entry it stands
-- at by then, it is sent to the URL of the visit with its hash (the text `undefined` where the visit has
-- no hash), and nothing else is done: no visit is created for the entry.
pub handle_pop_state-failed :
    (host : Host) (f : Functions) (v : VisitRef) (error : Value) (event : ℕ) (browser : Window)
    (s : Swup)
    → is_truthy error ≡ true
    → is_truthy (read "aborted" error s) ≡ false
    → let t = (navigation_failed host f v error s).1 in
      let u = in_window browser t in
      (t.browser.backs ≡ suc s.browser.backs)
      × ((t.visits v).state ≡ failed)
      × (handle_pop_state host f event u
          ≡ (returns tt, assign_location (target_url (s.visits v)) u))
unfolding navigation_failed set_visit handle_pop_state skip_handling leave
handle_pop_state-failed host f v error event browser s thrown other =
    let w : (t.visits v) ≡ record (s.visits v) { state = failed } = update_self s.visits v _ in
    let ran : (navigation_failed host f v error s).1 ≡ t =
      rw (thrown, other, navigation_failed) refl in
    (
      ap (λ u. u.browser.backs) ran,
      ap (λ u. (u.visits v).state) ran ∙ ap (λ w. w.state) w,
      ap (λ t. handle_pop_state host f event (in_window browser t)) ran
          ∙ ap (λ x. and_then x skip_or_go) left
          ∙ ap (λ u. (returns tt, assign_location (u.to.url & hash_text u.to.hash) arrived)) w
          ∙ ap (λ url. (returns tt, assign_location url arrived))
              (target_url-hash_text (s.visits v))
          ∙ ap (λ u. (returns tt, assign_location (target_url (s.visits v)) (in_window browser u)))
              (sym ran),
    )
  where
    t : Swup
    t = leave_page f v (log "error" (set_state v failed s))

    arrived : Swup
    arrived = in_window browser t

    left : skip_handling host f (object event) arrived ≡ (
      returns (boolean true),
      assign_location ((t.visits v).to.url & hash_text (t.visits v).to.hash) arrived,
    )
    left = rw (beq_refl f.leave, skip_handling) refl

    skip_or_go : Value → M (Unit {0})
    skip_or_go skipped =
        handle_unless host (is_truthy skipped) f
          (href_or_current (read "url" (read "state" (object event) arrived) arrived)
            (window_location arrived).href)
          (read "state" (object event) arrived) event

-- ===== src/Performing.antt =====
-- src/modules/navigate.ts: `navigate` and `performNavigation` on the instance itself. A call runs up to
-- its first `await`; what is left of it is a task.
pub mod Loading
pub mod Tasks
pub mod Refinement
pub mod Ending
pub mod Cached
use vitest_swup.Prelude.{
  ℕ, ◌+◌, ◌&◌, ◌==◌, nat_eq, string_eq, leb, String, Bool, true, false, not, ◌&&◌, ◌||◌, Option,
  none, some, List, [], ◌∷◌, ◌++◌, if◌then◌else◌,
}
use vitest_swup.Prelude.Dict
use vitest_swup.Values.{
  Value, undefined, null, boolean, number, string, visit, object, function, VisitRef, Outcome,
  is_truthy, is_object, returns, throws,
}
use vitest_swup.Visit.{
  Visit, HistoryAction, push, replace, rank, entering, queued, started, loaded, completed, aborted,
  failed, advance, done,
}
use vitest_swup.State.{
  Swup, Host, Functions, Task, aborting, starting, M, ◌>>=◌, ◌>>◌, and_then, pure, gets, modify,
  alloc, log,
}
use vitest_swup.Objects.{
  read, contents_of, set_property, delete_property, set_visit, throw, throw_error, member, assign,
  given, attempt, awaited, unawaited, or_catch,
}
use vitest_swup.Hooks.Run.{call, await}
use vitest_swup.Hooks.Run.Default.{Closure, with_closure}
use vitest_swup.ResolveUrl.{location_url}
use vitest_swup.Cache
use vitest_swup.Cache.{from_url}
use vitest_swup.Classes
use vitest_swup.Elements.{get_contextual_attr}
use vitest_swup.Fetch.{fetch_page, text_of}
use vitest_swup.History.{create_history_record, update_history_record}
use vitest_swup.Rendering.{name_class, or_blank}
use vitest_swup.Transition.{visit_transition}

-- `a || b` of two values.
abbrev pub or_value : Value → Value → Value
or_value a b = if is_truthy a then a else b

-- A history action that is named, or the one that is there.
abbrev pub action_of : Value → HistoryAction → HistoryAction
action_of (string action) old =
    if action == "push" then push else if action == "replace" then replace else old
action_of _ old = old

abbrev pub name_of : Value → Option String → Option String
name_of (string name) old = some name
name_of _ old = old

-- `a ?? b`, as a Boolean.
abbrev pub coalesce : Value → Bool → Bool
coalesce undefined b = b
coalesce null b = b
coalesce value b = is_truthy value

-- `options.animate === false`
abbrev pub is_false : Value → Bool
is_false (boolean b) = not b
is_false _ = false

abbrev pub is_undefined : Value → Bool
is_undefined undefined = true
is_undefined _ = false

abbrev pub add_task : Task → Swup → Swup
add_task task s = record s { tasks = s.tasks ++ task ∷ [] }

abbrev pub unanimated : Visit → Visit
unanimated w = record w { animation = record w.animation { animate = false } }

-- `visit.cache`, from the options that are there, or from one Boolean.
abbrev pub set_cache_options : Value → Value → Visit → Visit
set_cache_options read_option write_option w = record w {
  cache = record {
    read = coalesce read_option w.cache.read;
    write = coalesce write_option w.cache.write;
  };
}

abbrev pub set_cache : Bool → Visit → Visit
set_cache b w = record w { cache = record { read = b; write = b } }

-- A visit waits in place of any that has waited before.
abbrev pub queue : VisitRef → ℕ → Swup → Swup
queue v o s = record s { on_visit_end = some (v, o) }

module _ (host : Host) where
  -- `options.cache`, which is an object, a Boolean, or not there.
  unfoldable pub sanitize_cache : VisitRef → Value → M (Unit {0})
  unfolding set_visit
  sanitize_cache v cache =
      if is_object cache
      then (do
        read_option ← member host "read" cache
        write_option ← member host "write" cache
        modify (set_visit v (set_cache_options read_option write_option)))
      else if is_undefined cache
      then pure tt
      else modify (set_visit v (set_cache (is_truthy cache)))

  -- `options.referrer = options.referrer || this.location.url`
  unfoldable pub set_referrer : ℕ → Swup → Swup
  unfolding set_property
  set_referrer o s =
      set_property o "referrer"
        (or_value (read "referrer" (object o) s) (string (location_url s.location))) s

  -- `if (options.animate === false)`
  unfoldable pub disable_animation : VisitRef → ℕ → Swup → Swup
  unfolding set_visit
  disable_animation v o s =
      if is_false (read "animate" (object o) s) then set_visit v unanimated s else s

  -- `if (!visit.animation.animate)`
  unfoldable pub clear_unanimated : VisitRef → Swup → Swup
  unfolding Classes.clear
  clear_unanimated v s = if (s.visits v).animation.animate then s else Classes.clear host s

  -- The history action, the name of the animation and further data, of the options or of the element
  -- that has triggered the visit.
  unfoldable pub with_details : ℕ → Swup → Visit → Visit
  unfolding get_contextual_attr
  with_details o s w = record w {
    history = record w.history {
      action =
          action_of
            (or_value (read "history" (object o) s)
              (get_contextual_attr host w.trigger.el "data-swup-history"))
            w.history.action;
    };
    animation = record w.animation {
      name =
          name_of
            (or_value (read "animation" (object o) s)
              (get_contextual_attr host w.trigger.el "data-swup-animation"))
            w.animation.name;
    };
    meta = contents_of (read "meta" (object o) s) s;
  }

  -- The options are applied to the visit.
  unfoldable pub apply_options : VisitRef → ℕ → Swup → Swup
  unfolding set_referrer disable_animation clear_unanimated with_details set_visit
  apply_options v o s =
      let t = clear_unanimated v (disable_animation v o (set_referrer o s)) in
      set_visit v (with_details o t) t

  -- A visit begins: it is the current one, its options are applied, and its hook `visit:start` is next.
  unfoldable pub begin : VisitRef → ℕ → M (Unit {0})
  unfolding apply_options sanitize_cache delete_property
  begin v o = do
    modify (λ s. apply_options v o (record s { navigating = true; visit = v }))
    cache ← gets (read "cache" (object o))
    sanitize_cache v cache
    modify (delete_property o "cache")
    modify (add_task (starting v o))

  -- While a visit is under way: queue behind it, or abort it.
  unfoldable pub interrupt : VisitRef → ℕ → M (Unit {0})
  unfolding set_visit
  interrupt v o = do
    current ← gets (λ s. s.visit)
    state ← gets (λ s. (s.visits current).state)
    if leb (rank entering) (rank state)
        then (do modify (set_visit v (λ w. record w { state = queued })); modify (queue v o))
        else modify (add_task (aborting current v o))

  -- `performNavigation(visit, options)`, up to its first `await`.
  unfoldable pub perform_navigation : VisitRef → ℕ → M (Unit {0})
  unfolding interrupt begin
  perform_navigation v o = do
    navigating ← gets (λ s. s.navigating)
    if navigating then interrupt v o else begin v o

-- ===== src/Tests/Parts.antt =====
-- Visits, plugins and animations on concrete inputs.
use vitest_swup.Prelude.{
  ℕ, ◌⊎◌, ◌≡◌, refl, ◌==◌, nat_eq, string_eq, String, true, false, Option, none, some, List, [],
  ◌∷◌, ◌++◌, All, arith, if◌then◌else◌,
}
use vitest_swup.Prelude.Int.{ℤ, pos, negsuc}
use vitest_swup.State.{Swup}
use vitest_swup.Plugins.{plugin, find_plugin, use_plugin, unuse}
use vitest_swup.Plugins.Mounting.{unuse-use_plugin}
use vitest_swup.Animations.{
  ms, calculate_timeout, ComputedStyle, get_style_properties, transition, animation, Event, ended,
  timer, start, run_events, Awaited, await_animations,
}
use vitest_swup.Animations.Timeouts.{calculate_timeout-cyclic}
use vitest_swup.Animations.Ends.{number_of, start-resolved_iff}
use vitest_swup.Animations.Awaits.{await_animations-resolved}
use vitest_swup.Tests.{quiet, fresh}
use vitest_swup.Prelude.Dict
use vitest_swup.Values.{boolean, string, returns, throws}
use vitest_swup.State.{element, ScrollPosition}
use vitest_swup.Hooks.Run.{call_sync}
use vitest_swup.Scroll.{scroll_to_content}
use vitest_swup.Scroll.Handlers.{auto}
use vitest_swup.Scroll.Default.{scroll_to_content-plain}
use vitest_swup.Elements.{anchor_in, get_anchor_element}
use vitest_swup.Elements.Anchor.{TakesDecodedId, MissesTop, get_anchor_element-indicated}
use vitest_swup.Visit
use vitest_swup.Tests.{visit_in}
use vitest_swup.Classes
use vitest_swup.Classes.Clearing.{clear-class_lists}

program : Unit {0}
unfolding use_plugin find_plugin unuse calculate_timeout run_events number_of await_animations
    Classes.targets Classes.selector Classes.is_blank Classes.clear Classes.add
    Classes.is_swup_class Classes.for_targets Dict.get Visit.done call_sync anchor_in
program = tt

-- An instance with one plugin, number 1.
abbrev one : Swup
one = record fresh { plugins = 1 ∷ [] }

unuse-use_plugin_example :
    (unuse quiet (plugin 2) (use_plugin quiet (some 2) one).1).1.plugins ≡ 1 ∷ []
unfolding program
unuse-use_plugin_example = unuse-use_plugin quiet (λ f s. refl) 2 one refl refl refl

-- Times of the tests, in milliseconds.
abbrev to_ms : String → Option ℤ
to_ms time =
    if time == "0.5s"
    then some (pos 500)
    else if time == "1s"
    then some (pos 1000)
    else if time == "-1s"
    then some (negsuc 999)
    else none

calculate_timeout-cyclic_example :
    calculate_timeout to_ms ("1s" ∷ "-1s" ∷ []) ("0.5s" ∷ "1s" ∷ "1s" ∷ []) ≡ some (ms (pos 2000))
unfolding program
calculate_timeout-cyclic_example =
    calculate_timeout-cyclic to_ms ("1s" ∷ "-1s" ∷ []) ("0.5s" ∷ "1s" ∷ "1s" ∷ []) (omega arith)

-- Two properties: the end on a child does not count, nor does one that began before.
abbrev events : List Event
events =
    ended transition 4 10 5
    ∷ ended transition 3 10 5
    ∷ ended transition 3 10 20
    ∷ ended animation 3 10 5
    ∷ ended transition 3 30 20
    ∷ []

start-resolved_iff_example : (run_events events (start 3 transition 2)).resolved ≡ true
unfolding program
start-resolved_iff_example = start-resolved_iff 3 transition 2 events (omega arith)

-- One event fewer is not enough, and then the timer ends the wait.
timer_ends :
    ((run_events (ended transition 3 10 5 ∷ []) (start 3 transition 2)).resolved ≡ false)
    × ((run_events (ended transition 3 10 5 ∷ timer ∷ []) (start 3 transition 2)).resolved ≡ true)
unfolding program
timer_ends = (refl, refl)

abbrev slow : ComputedStyle
slow = record {
  transition_delay = "0.5s";
  transition_duration = "1s, 0.5s";
  animation_delay = "0.5s";
  animation_duration = "0.5s";
}

await_animations-resolved_example :
    (a : Awaited) × (await_animations to_ms (λ e. slow) (λ q. 3 ∷ 4 ∷ []) (some ".fade") none
      ≡ some a)
    × All (λ w. (run_events (events ++ timer ∷ []) w).resolved ≡ true) a.waits
unfolding program
await_animations-resolved_example =
    await_animations-resolved to_ms (λ e. slow) (λ q. 3 ∷ 4 ∷ []) (λ w. events ++ timer ∷ [])
      (λ w. refl) (some ".fade") none

-- The element 0, which `html` finds, and its classes.
abbrev marked : Swup
marked = record fresh { class_lists = λ e. "is-animating" ∷ "no-js" ∷ "to-slide" ∷ [] }

clear-class_lists_example : (Classes.clear quiet marked).class_lists 0 ≡ "no-js" ∷ []
unfolding program
clear-class_lists_example = clear-class_lists quiet marked 0

-- Another element is left alone.
clear_outside : (Classes.clear quiet marked).class_lists 1 ≡ marked.class_lists 1
unfolding program
clear_outside = clear-class_lists quiet marked 1

-- The visit goes to a place of the page, and the hooks have no handlers.
abbrev arriving_at : String → Swup
arriving_at hash = record fresh {
  visits = λ v. record (visit_in Visit.created) {
    to = record { url = "/page"; hash = some hash; html = none; document = none };
  };
  registry = ("scroll:anchor", []) ∷ ("scroll:top", []) ∷ ("enable", []) ∷ [];
}

scroll_to_content-plain_example :
    (t : Swup) × (scroll_to_content quiet 50 51 0 (arriving_at "#intro")
      ≡ (returns (boolean true), t))
    × (t.scroll_position ≡ element 3 auto)
unfolding program
scroll_to_content-plain_example =
    scroll_to_content-plain quiet 50 51 0 (λ name detail t. refl) (arriving_at "#intro") refl refl
      refl

-- The hash of the visit cannot be decoded: scrolling to it fails.
undecodable_hash :
    (t : Swup) × (scroll_to_content quiet 50 51 0 (arriving_at "#%")
      ≡ (throws (string "URIError"), t))
    × (t.scroll_position ≡ ScrollPosition.untouched)
unfolding program
undecodable_hash =
    scroll_to_content-plain quiet 50 51 0 (λ name detail t. refl) (arriving_at "#%") refl refl refl

get_anchor_element-indicated_example :
    (found : Option ℕ) × (get_anchor_element quiet (string "#%69ntro") fresh
      ≡ (returns found, fresh))
    × ((found ≡ some 3)
        ⊎ (TakesDecodedId quiet "%69ntro" "intro" fresh.document found (some 3)
            ⊎ MissesTop quiet "%69ntro" "intro" found (some 3)))
unfolding program
get_anchor_element-indicated_example =
    get_anchor_element-indicated quiet "#%69ntro" "intro" fresh refl refl

properties_split : get_style_properties "1s, 0.5s" ≡ "1s" ∷ "0.5s" ∷ []
unfolding get_style_properties
properties_split = refl

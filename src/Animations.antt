-- ===== src/Animations.antt =====
-- src/modules/awaitAnimations.ts: how long the library waits for the animations of an element.
pub mod Timeouts
pub mod Ends
pub mod Awaits
use vitest_swup.Prelude.{
  ℕ, zero, suc, ◌+◌, ◌&◌, ◌==◌, nat_eq, string_eq, ltb, leb, String, Bool, true, false, not, ◌&&◌,
  Option, none, some, List, [], ◌∷◌, ◌++◌, length, split, get_elem?, if◌then◌else◌,
}
use vitest_swup.Prelude.Int.{ℤ, pos, negsuc, pos_part, neg_part, sub_ℕ, is_zero}
use vitest_swup.Visit.{AnimationSelector}

-- A number of milliseconds; `Math.max()` of no numbers is minus infinity.
pub data Number : Type 0 where
  nan neg_infinity : Number
  ms : ℤ → Number

-- `a + b` of two numbers of milliseconds, where `none` is `NaN`.
abbrev pub sum_ms : Option ℤ → Option ℤ → Number
sum_ms (some a) (some b) = ms (sub_ℕ (pos_part a + pos_part b) (neg_part a + neg_part b))
sum_ms _ _ = nan

-- `a > b`, which does not hold of `NaN`.
abbrev pub is_greater : Number → Number → Bool
is_greater (ms a) (ms b) = ltb (pos_part b + neg_part a) (pos_part a + neg_part b)
is_greater (ms a) neg_infinity = true
is_greater _ _ = false

-- `Math.max`
abbrev pub max_of : Number → Number → Number
max_of nan b = nan
max_of a nan = nan
max_of a b = if is_greater a b then a else b

unfoldable pub math_max : List Number → Number
math_max [] = neg_infinity
math_max (n ∷ ns) = max_of n (math_max ns)

-- The loop that doubles the delays until there is one for each duration; `none` where the fuel does
-- not do.
pub extend : ℕ → List String → List String → Option (List String)
extend zero durations delays = if ltb (length delays) (length durations) then none else some delays
extend (suc fuel) durations delays = elim (ltb (length delays) (length durations)) [
  | true ↦ extend fuel durations (delays ++ delays)
  | false ↦ some delays
]

module _ (to_ms : String → Option ℤ) where
  -- `toMs(delays[i])`
  abbrev pub ms_at : List String → ℕ → Option ℤ
  ms_at delays i = elim (get_elem? delays i) [ some delay ↦ to_ms delay | none ↦ none ]

  -- `durations.map((duration, i) => toMs(duration) + toMs(delays[i]))`, from the index on.
  unfoldable pub sums : List String → ℕ → List String → List Number
  sums delays i [] = []
  sums delays i (duration ∷ durations) =
      sum_ms (to_ms duration) (ms_at delays i) ∷ sums delays (suc i) durations

  abbrev sums_of : Option (List String) → List String → Option (List Number)
  sums_of none durations = none
  sums_of (some delays) durations = some (sums delays zero durations)

  abbrev pub max_timeout : Option (List String) → List String → Option Number
  max_timeout none durations = none
  max_timeout (some delays) durations = some (math_max (sums delays zero durations))

  unfoldable pub calculate_timeout : List String → List String → Option Number
  unfolding extend math_max sums
  calculate_timeout delays durations =
      max_timeout (extend (length durations) durations delays) durations

pub data AnimationType : Type 0 where
  transition animation : AnimationType

-- `getStyleProperties`; a property that is not there is the empty text.
unfoldable pub get_style_properties : String → List String
unfolding split
get_style_properties value = split ", " value

-- The computed style of an element.
pub record ComputedStyle : Type 0 where
  pub transition_delay : String
  pub transition_duration : String
  pub animation_delay : String
  pub animation_duration : String

pub record TransitionInfo : Type 0 where
  pub type : Option AnimationType
  pub timeout : Number
  pub prop_count : ℕ

-- What `getTransitionInfo` makes of the two timeouts.
abbrev pub type_of : Number → Number → Option AnimationType
type_of t a =
    if is_greater (max_of t a) (ms (pos 0))
    then some (if is_greater t a then transition else animation)
    else none

abbrev pub prop_count_of : Option AnimationType → ComputedStyle → ℕ
prop_count_of none style = 0
prop_count_of (some transition) style = length (get_style_properties style.transition_duration)
prop_count_of (some animation) style = length (get_style_properties style.animation_duration)

abbrev pub info_of : Option Number → Option Number → ComputedStyle → Option TransitionInfo
info_of (some t) (some a) style = some (record {
  type = type_of t a;
  timeout = max_of t a;
  prop_count = prop_count_of (type_of t a) style;
})
info_of _ _ style = none

unfoldable pub get_transition_info : (String → Option ℤ) → ComputedStyle → Option TransitionInfo
unfolding calculate_timeout
get_transition_info to_ms style =
    info_of
      (calculate_timeout to_ms (get_style_properties style.transition_delay)
        (get_style_properties style.transition_duration))
      (calculate_timeout to_ms (get_style_properties style.animation_delay)
        (get_style_properties style.animation_duration))
      style

-- What happens while an element is waited for: the end of an animation of a type, at an element,
-- with the time since the wait began and the `elapsedTime` of the event; or the timer goes off.
pub data Event : Type 0 where
  ended : AnimationType → (target elapsed elapsed_time : ℕ) → Event
  timer : Event

abbrev pub is_type : AnimationType → AnimationType → Bool
is_type transition transition = true
is_type animation animation = true
is_type _ _ = false

-- The variables of the closures of `awaitAnimationsOnElement`, and whether the promise is resolved.
pub record Wait : Type 0 where
  pub element : ℕ
  pub type : AnimationType
  pub prop_count : ℕ
  pub props_transitioned : ℕ
  pub listening : Bool
  pub resolved : Bool

abbrev pub start : ℕ → AnimationType → ℕ → Wait
start element type prop_count = record {
  element = element;
  type = type;
  prop_count = prop_count;
  props_transitioned = 0;
  listening = true;
  resolved = false;
}

abbrev pub end : Wait → Wait
end w = record w { listening = false; resolved = true }

-- `onEnd`: events of children, and of what began before, are passed over.
unfoldable pub on_end : ℕ → ℕ → ℕ → Wait → Wait
on_end target elapsed elapsed_time w =
    if not (target == w.element)
    then w
    else if ltb elapsed elapsed_time
    then w
    else (let w' = record w { props_transitioned = w.props_transitioned + 1 } in
        if leb w'.prop_count w'.props_transitioned then end w' else w')

-- The callback of `setTimeout`.
unfoldable pub on_timeout : Wait → Wait
on_timeout w = if ltb w.props_transitioned w.prop_count then end w else w

unfoldable pub step : Event → Wait → Wait
unfolding on_end on_timeout
step (ended type target elapsed elapsed_time) w =
    if w.listening && is_type type w.type then on_end target elapsed elapsed_time w else w
step timer w = on_timeout w

unfoldable pub run_events : List Event → Wait → Wait
unfolding step
run_events [] w = w
run_events (e ∷ es) w = run_events es (step e w)

-- `!value` of a number
abbrev pub is_falsy : Number → Bool
is_falsy nan = true
is_falsy neg_infinity = false
is_falsy (ms n) = is_zero n

-- `awaitAnimationsOnElement`; `none` is `false`.
abbrev pub wait_as : ℕ → Option AnimationType → Number → ℕ → Option Wait
wait_as element none timeout prop_count = none
wait_as element (some type) timeout prop_count =
    if is_falsy timeout then none else some (start element type prop_count)

abbrev pub wait_of : ℕ → TransitionInfo → Option Wait
wait_of element info = wait_as element info.type info.timeout info.prop_count

-- `awaitedAnimations.filter(Boolean)`, from the front.
abbrev pub add_wait : Option Wait → List Wait → List Wait
add_wait none ws = ws
add_wait (some w) ws = w ∷ ws

abbrev pub waits_with : ℕ → Option TransitionInfo → Option (List Wait) → Option (List Wait)
waits_with element (some info) (some ws) = some (add_wait (wait_of element info) ws)
waits_with element _ _ = none

-- What `awaitAnimations` does: a warning, and the promises that it waits for.
pub record Awaited : Type 0 where
  pub warning : Option String
  pub waits : List Wait

abbrev pub selector_warning : AnimationSelector → Option String
selector_warning none = none
selector_warning (some selector) =
    if selector == ""
    then none
    else some ("[swup] No CSS animation duration defined on elements matching `" & selector & "`")

abbrev pub awaited_of : AnimationSelector → Option (List Wait) → Option Awaited
awaited_of selector none = none
awaited_of selector (some []) = some (record { warning = selector_warning selector; waits = [] })
awaited_of selector (some (w ∷ ws)) = some (record { warning = none; waits = w ∷ ws })

-- The parameters are `parseFloat` with its scale, computed styles, and `queryAll` in the body.
module _ (to_ms : String → Option ℤ) (style : ℕ → ComputedStyle) (query : String → List ℕ) where
  unfoldable pub waits_of : List ℕ → Option (List Wait)
  unfolding get_transition_info
  waits_of [] = some []
  waits_of (element ∷ elements) =
      waits_with element (get_transition_info to_ms (style element)) (waits_of elements)

  -- The elements that a selector finds, or the warning that there are none.
  abbrev pub await_found : String → List ℕ → Option Awaited
  await_found selector [] = some (record {
    warning = some ("[swup] No elements found matching animationSelector `" & selector & "`");
    waits = [];
  })
  await_found selector (element ∷ elements) =
      awaited_of (some selector) (waits_of (element ∷ elements))

  unfoldable pub await_animations : AnimationSelector → Option (List ℕ) → Option Awaited
  unfolding waits_of
  await_animations selector (some elements) = awaited_of selector (waits_of elements)
  await_animations none none = some (record { warning = none; waits = [] })
  await_animations (some selector) none =
      if selector == ""
      then some (record { warning = none; waits = [] })
      else await_found selector (query selector)

-- ===== src/Animations/Awaits.antt =====
-- src/modules/awaitAnimations.ts: all that is waited for comes to an end.
use vitest_swup.Prelude.{
  ℕ, zero, ◌≤◌, ◌≡◌, refl, ◌==◌, string_eq, ◌∙◌, ap, ap₂, String, Bool, true, false, Option, none,
  some, List, [], ◌∷◌, All, All-map, length, length-split-pos, inl, inr, Bool-cases, if◌then◌else◌,
}
use vitest_swup.Prelude.Int.{ℤ}
use vitest_swup.Visit.{AnimationSelector}
use vitest_swup.Animations.{
  Number, AnimationType, transition, animation, ComputedStyle, get_style_properties, Event, Wait,
  start, type_of, prop_count_of, info_of, get_transition_info, is_falsy, wait_as, add_wait,
  waits_with, waits_of, awaited_of, await_found, await_animations, Awaited, run_events, math_max,
}
use vitest_swup.Animations.Ends.{has_timer, start-resolved_iff}
use vitest_swup.Animations.Timeouts.{cyclic_sums, calculate_timeout-cyclic}

-- Every list of a computed style has an entry: a string that is split has at least one part.
abbrev IsSplit : ComputedStyle → Type 0
IsSplit style =
    (1 ≤ length (get_style_properties style.transition_delay))
    × (1 ≤ length (get_style_properties style.transition_duration))
    × (1 ≤ length (get_style_properties style.animation_delay))
    × (1 ≤ length (get_style_properties style.animation_duration))

get_style_properties-IsSplit : (style : ComputedStyle) → IsSplit style
unfolding get_style_properties
get_style_properties-IsSplit style = (
  length-split-pos ", " style.transition_delay,
  length-split-pos ", " style.transition_duration,
  length-split-pos ", " style.animation_delay,
  length-split-pos ", " style.animation_duration,
)

-- A wait that has just begun, for at least one property.
abbrev pub IsStarted : Wait → Type 0
IsStarted w = (w ≡ start w.element w.type w.prop_count) × (1 ≤ w.prop_count)

prop_count-pos :
    (type : AnimationType) (style : ComputedStyle)
    → IsSplit style
    → 1 ≤ prop_count_of (some type) style
prop_count-pos transition style h = h.1
prop_count-pos animation style h = h.3

add_wait-IsStarted :
    (element : ℕ) (type : Option AnimationType) (timeout : Number) (style : ComputedStyle)
    (ws : List Wait)
    → IsSplit style
    → All IsStarted ws
    → All IsStarted (add_wait (wait_as element type timeout (prop_count_of type style)) ws)
add_wait-IsStarted element none timeout style ws h a = a
add_wait-IsStarted element (some type) timeout style ws h a = elim (Bool-cases (is_falsy timeout)) [
  | inl f ↦ rw f a
  | inr f ↦ rw f ((refl, prop_count-pos type style h), a)
]

module _ (to_ms : String → Option ℤ) where
  -- The greatest sum of a duration and its delay.
  abbrev timeout_of : List String → List String → Number
  timeout_of delays durations = math_max (cyclic_sums to_ms delays zero durations)

  info_lem :
      (style : ComputedStyle)
      → IsSplit style
      → (t a : Number) × (get_transition_info to_ms style ≡ info_of (some t) (some a) style)
  unfolding get_transition_info
  info_lem style h = (
    timeout_of (get_style_properties style.transition_delay)
        (get_style_properties style.transition_duration),
    timeout_of (get_style_properties style.animation_delay)
        (get_style_properties style.animation_duration),
    ap₂ (λ t a. info_of t a style)
        (calculate_timeout-cyclic to_ms (get_style_properties style.transition_delay)
          (get_style_properties style.transition_duration) h.0)
        (calculate_timeout-cyclic to_ms (get_style_properties style.animation_delay)
          (get_style_properties style.animation_duration) h.2),
  )

  waits_of-IsStarted :
      (style : ℕ → ComputedStyle) (query : String → List ℕ)
      → (elements : List ℕ)
      → (ws : List Wait) × (waits_of to_ms style query elements ≡ some ws) × All IsStarted ws
  unfolding waits_of
  waits_of-IsStarted style query [] = ([], refl, tt)
  waits_of-IsStarted style query (element ∷ elements) =
      let (t, a, e) = info_lem (style element) (get_style_properties-IsSplit (style element)) in
      let (ws, e', all) = waits_of-IsStarted style query elements in
      (
        add_wait (wait_as element (type_of t a) _ (prop_count_of (type_of t a) (style element))) ws,
        ap₂ (waits_with element) e e',
        add_wait-IsStarted element (type_of t a) _ (style element) ws
            (get_style_properties-IsSplit (style element)) all,
      )

  -- A wait that has begun ends when its timer goes off.
  started-resolved :
      (es : Wait → List Event)
      → ((w : Wait) → has_timer (es w) ≡ true)
      → (w : Wait) → IsStarted w
      → (run_events (es w) w).resolved ≡ true
  started-resolved es timed w (begun, p) =
      ap (λ x. (run_events (es w) x).resolved) begun
      ∙ start-resolved_iff w.element w.type w.prop_count (es w) p
      ∙ rw (timed w) refl

  awaited-resolved :
      (es : Wait → List Event)
      → ((w : Wait) → has_timer (es w) ≡ true)
      → (selector : AnimationSelector) (ws : List Wait) → All IsStarted ws
      → (a : Awaited) × (awaited_of selector (some ws) ≡ some a)
        × All (λ w. (run_events (es w) w).resolved ≡ true) a.waits
  awaited-resolved es timed selector [] all = (_, refl, tt)
  awaited-resolved es timed selector (w ∷ ws) all =
      (_, refl, All-map (w ∷ ws) (started-resolved es timed) all)

  pub await_animations-resolved :
      (style : ℕ → ComputedStyle) (query : String → List ℕ)
      → (es : Wait → List Event) → ((w : Wait) → has_timer (es w) ≡ true)
      → (selector : AnimationSelector) (elements : Option (List ℕ))
      → (a : Awaited) × (await_animations to_ms style query selector elements ≡ some a)
        × All (λ w. (run_events (es w) w).resolved ≡ true) a.waits
  unfolding await_animations
  await_animations-resolved style query es timed selector (some elements) =
      let (ws, e, all) = waits_of-IsStarted style query elements in
      let (a, e', done) = awaited-resolved es timed selector ws all in
      (a, ap (awaited_of selector) e ∙ e', done)
  await_animations-resolved style query es timed none none = (_, refl, tt)
  await_animations-resolved style query es timed (some selector) none =
      found (query selector) (selector == "")
    where
      found :
          (elements : List ℕ) (b : Bool)
          → (a : Awaited) × ((if b
                then some (record { warning = none; waits = [] })
                else await_found to_ms style query selector elements)
              ≡ some a)
            × All (λ w. (run_events (es w) w).resolved ≡ true) a.waits
      found elements true = (_, refl, tt)
      found [] false = (_, refl, tt)
      found (element ∷ elements) false =
          let (ws, e, all) = waits_of-IsStarted style query (element ∷ elements) in
          let (a, e', done) = awaited-resolved es timed (some selector) ws all in
          (a, ap (awaited_of (some selector)) e ∙ e', done)

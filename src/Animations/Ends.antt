-- ===== src/Animations/Ends.antt =====
-- src/modules/awaitAnimations.ts: when the promise of an element is resolved.
use vitest_swup.Prelude.{
  ℕ, suc, ◌+◌, ◌≤◌, ◌<◌, ◌≡◌, refl, ◌==◌, nat_eq, ltb, leb, Bool, true, false, not, ◌&&◌, ◌||◌,
  List, [], ◌∷◌, if◌then◌else◌, arith, inl, inr, Bool-cases, ap, ◌∙◌, ◌⊎◌,
}
use vitest_swup.Animations.{
  AnimationType, Event, ended, timer, is_type, Wait, start, end, on_end, on_timeout, step,
  run_events,
}

-- An event that counts: of the type that is waited for, at the element itself, and begun since.
abbrev pub counts : ℕ → AnimationType → Event → Bool
counts element type (ended type' target elapsed elapsed_time) =
    is_type type' type && (target == element && not (ltb elapsed elapsed_time))
counts element type timer = false

abbrev pub is_timer : Event → Bool
is_timer timer = true
is_timer (ended _ _ _ _) = false

unfoldable pub number_of : (Event → Bool) → List Event → ℕ
number_of p [] = 0
number_of p (e ∷ es) = let rest = number_of p es in if p e then suc rest else rest

-- A wait that has ended stays resolved.
step_resolved :
    (e : Event) (w : Wait)
    → w.listening ≡ false
    → w.resolved ≡ true
    → ((step e w).listening ≡ false) × ((step e w).resolved ≡ true)
unfolding step on_timeout
step_resolved (ended type target elapsed elapsed_time) w l r = ground arith
step_resolved timer w l r = ground arith

run_resolved :
    (es : List Event) (w : Wait)
    → w.listening ≡ false
    → w.resolved ≡ true
    → (run_events es w).resolved ≡ true
unfolding run_events
run_resolved [] w l r = r
run_resolved (e ∷ es) w l r =
    run_resolved es (step e w) (step_resolved e w l r).0 (step_resolved e w l r).1

-- The wait after `n` events that count, while it goes on.
abbrev waiting : ℕ → AnimationType → ℕ → ℕ → Wait
waiting element type prop_count n = record (start element type prop_count) {
  props_transitioned = n;
}

step-waiting :
    (element : ℕ) (type : AnimationType) (prop_count n : ℕ) (e : Event)
    → n < prop_count
    → step e (waiting element type prop_count n) ≡ (
        if is_timer e
        then end (waiting element type prop_count n)
        else if counts element type e
        then (if leb prop_count (n + 1)
            then end (waiting element type prop_count (n + 1))
            else waiting element type prop_count (n + 1))
        else waiting element type prop_count n)
unfolding step on_end on_timeout
step-waiting element type prop_count n (ended type' target elapsed elapsed_time) h = ground arith
step-waiting element type prop_count n timer h = ground arith

abbrev pub has_timer : List Event → Bool
has_timer [] = false
has_timer (e ∷ es) = is_timer e || has_timer es

-- What a wait that has gone on to `n` says after more events.
run_waiting :
    (element : ℕ) (type : AnimationType) (prop_count n : ℕ) (es : List Event)
    → n < prop_count
    → (run_events es (waiting element type prop_count n)).resolved
      ≡ (has_timer es || leb prop_count (n + number_of (counts element type) es))
unfolding run_events number_of
run_waiting element type prop_count n [] h = ground arith
run_waiting element type prop_count n (e ∷ es) h =
    ap (λ x. (run_events es x).resolved) (step-waiting element type prop_count n e h)
    ∙ (by_event (is_timer e) (counts element type e) (Bool-cases (leb prop_count (n + 1)))
        (λ l. run_waiting element type prop_count (n + 1) es l)
        (run_waiting element type prop_count n es h))
  where
    w : ℕ → Wait
    w = waiting element type prop_count

    rest : ℕ
    rest = number_of (counts element type) es

    says : ℕ → ℕ → Type 0
    says m k = (run_events es (w m)).resolved ≡ (has_timer es || leb prop_count (m + k))

    enough : (t b : Bool) → b ≡ true → true ≡ (t || b)
    enough t b p = ground arith

    by_event :
        (t c : Bool)
        → (leb prop_count (n + 1) ≡ true) ⊎ (leb prop_count (n + 1) ≡ false)
        → (n + 1 < prop_count → says (n + 1) rest)
        → says n rest
        → (run_events es (
            if t
            then end (w n)
            else if c
            then (if leb prop_count (n + 1) then end (w (n + 1)) else w (n + 1))
            else w n)).resolved
          ≡ ((t || has_timer es) || leb prop_count (n + (if c then suc rest else rest)))
    by_event true c l more same = run_resolved es (end (w n)) refl refl
    by_event false true (inl l) more same = rw l (
        run_resolved es (end (w (n + 1))) refl refl
        ∙ enough (has_timer es) (leb prop_count (n + suc rest)) (ground arith))
    by_event false true (inr l) more same = rw l (
        more (ground arith)
        ∙ ap (λ k. has_timer es || leb prop_count k) {x = n + 1 + rest} (omega arith))
    by_event false false l more same = same

-- For an element that has at least one property to wait for: after any sequence of events, its
-- promise is resolved exactly if the timer has gone off, or at least as many events that count have
-- come as there are properties.
pub start-resolved_iff :
    (element : ℕ) (type : AnimationType) (prop_count : ℕ) (es : List Event)
    → 1 ≤ prop_count
    → (run_events es (start element type prop_count)).resolved
      ≡ (has_timer es || leb prop_count (number_of (counts element type) es))
start-resolved_iff element type prop_count es h =
    run_waiting element type prop_count 0 es (omega (arith, h))
    ∙ ap (λ n. has_timer es || leb prop_count n) (omega arith)

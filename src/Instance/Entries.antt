-- ===== src/Instance/Entries.antt =====
-- src/Swup.ts: the visit that is made of an entry of the history.
use vitest_swup.Prelude.{
  ℕ, Option, refl, ltb, arith, ◌+◌, ◌<◌, ◌==◌, nat_eq, String, Bool, true, false, not, ◌&&◌, none,
  some, ◌≡◌, ◌∙◌, ap, ap₂, if◌then◌else◌,
}
use vitest_swup.Values.{VisitRef, returns}
use vitest_swup.Visit.{Visit, HistoryDirection, forwards, backwards, disabled}
use vitest_swup.Visit.Create.{create_visit, new_visit}
use vitest_swup.State.{Swup, Host, Location, update}
use vitest_swup.Objects.{set_visit}
use vitest_swup.Objects.Heap.{update_self, update_below}
use vitest_swup.ResolveUrl.{location_url}
use vitest_swup.Instance.{direction_of}
use vitest_swup.Instance.Popstate.{
  set_popstate, set_direction, follow_index, set_history_visit, create_entry,
}

-- Whether the index of an entry is known and not the current one.
abbrev pub is_moved : ℕ → ℕ → Bool
is_moved index current = not (index == 0) && not (index == current)

-- The visit as it is created.
abbrev pub entry_visit : Host → Location → ℕ → Swup → Visit
entry_visit host location event s =
    new_visit (host.random s)
      (record {
        to = location_url location;
        from = none;
        hash = some location.hash;
        el = none;
        event = some event;
      })
      s

-- What the direction of the entry makes of the visit.
abbrev directed : Bool → ℕ → ℕ → Visit → Visit
directed true index current w = set_direction (direction_of index current) w
directed false index current w = w

follow_index-visits :
    (v : VisitRef) (index : ℕ) (s : Swup)
    → let moved = is_moved index s.current_history_index in
      let t = follow_index v index s in
      (t.visits v ≡ directed moved index s.current_history_index (s.visits v))
      × (t.current_history_index ≡ (if moved then index else s.current_history_index))
      × ((u : VisitRef) → u < v → t.visits u ≡ s.visits u)
      × (t.options ≡ s.options)
unfolding follow_index set_visit
follow_index-visits v index s = followed (is_moved index s.current_history_index)
  where
    followed :
        (moved : Bool)
        → let current = s.current_history_index in
          let t =
            if moved
            then record (set_visit v (set_direction (direction_of index current)) s) {
              current_history_index = index;
            }
            else s in
          (t.visits v ≡ directed moved index current (s.visits v))
          × (t.current_history_index ≡ (if moved then index else current))
          × ((u : VisitRef) → u < v → t.visits u ≡ s.visits u)
          × (t.options ≡ s.options)
    followed true = (update_self s.visits v _, refl, λ u h. update_below s.visits v u _ h, refl)
    followed false = (refl, refl, λ u h. refl, refl)

-- The visit, as the code composes it.
create_entry-made :
    (host : Host) (href : String) (index event : ℕ) (s : Swup) (location : Location)
    → host.parse_url href ≡ returns location
    → let current = s.current_history_index in
      let moved = is_moved index current in
      let animated = s.options.animate_history_browsing in
      (t : Swup) × (create_entry host href index event s ≡ (returns s.next, t))
      × (t.visits s.next
          ≡ set_history_visit animated
              (directed moved index current (set_popstate (entry_visit host location event s))))
      × (t.current_history_index ≡ (if moved then index else current))
      × ((u : VisitRef) → u < s.next → t.visits u ≡ s.visits u)
unfolding create_entry create_visit set_visit
create_entry-made host href index event s location parsed =
    let v = s.next in
    let w = entry_visit host location event s in
    let s₀ = record s { visits = update s.visits v w; next = s.next + 1 } in
    let s₁ = set_visit v set_popstate s₀ in
    let t₁ = follow_index v index s₁ in
    let (made, known, others, options) = follow_index-visits v index s₁ in
    let animated : t₁.options.animate_history_browsing ≡ s.options.animate_history_browsing =
      ap (λ o. o.animate_history_browsing) options in
    let popstate : s₁.visits v ≡ set_popstate w =
      update_self s₀.visits v (set_popstate (s₀.visits v))
      ∙ ap set_popstate (update_self s.visits v w) in
    (
      set_visit v (set_history_visit t₁.options.animate_history_browsing) t₁,
      rw parsed refl,
      update_self t₁.visits v (set_history_visit t₁.options.animate_history_browsing (t₁.visits v))
          ∙ ap₂ set_history_visit animated (
              made
              ∙ ap (directed (is_moved index s.current_history_index) index s.current_history_index)
                  popstate),
      known,
      λ u h.
          update_below t₁.visits v u _ h
          ∙ others u h
          ∙ update_below s₀.visits v u _ h
          ∙ update_below s.visits v u w h,
    )

-- The direction from the current entry of the history to another one, if that is known.
abbrev pub direction_to : (index current : ℕ) → Option HistoryDirection
direction_to index current =
    if index == 0
    then none
    else if ltb current index
    then some forwards
    else if ltb index current
    then some backwards
    else none

-- What becomes of the fields of the visit and of the current index.
directed-direction :
    (index current : ℕ) (w : Visit)
    → w.history.direction ≡ none
    → (directed (is_moved index current) index current w).history.direction
      ≡ direction_to index current
directed-direction index current w unset = ground (arith, unset)

moved-index :
    (index current : ℕ)
    → (if is_moved index current then index else current) ≡ (if index == 0 then current else index)
moved-index index current = ground arith

-- The direction is all that `directed` writes.
abbrev SameButDirection : Visit → Visit → Type 0
SameButDirection w u =
    (u.from ≡ w.from)
    × (u.to ≡ w.to)
    × (u.trigger ≡ w.trigger)
    × (u.history.popstate ≡ w.history.popstate)

directed-same :
    (moved : Bool) (index current : ℕ) (w : Visit)
    → SameButDirection w (directed moved index current w)
directed-same true index current w = (refl, refl, refl, refl)
directed-same false index current w = (refl, refl, refl, refl)

-- The visit of an entry with an index (0 where it is not known) whose URL the browser can parse is a new
-- one, and the other visits stay as they are. The visit goes from the current location to the URL and the
-- hash of the entry; the event has triggered it; it is one of the history; it is animated and resets
-- the scroll position exactly if the options animate the visits of the history, and it scrolls to no
-- target. It goes forwards where the index of the entry is greater than the current one, backwards
-- where it is smaller, and in no direction where the two are equal or the index is not known. The index becomes
-- the current one, if it is known.
pub create_entry-visit :
    (host : Host) (href : String) (index event : ℕ) (s : Swup) (location : Location)
    → host.parse_url href ≡ returns location
    → let animated = s.options.animate_history_browsing in
      (t : Swup) × (create_entry host href index event s ≡ (returns s.next, t))
      × (w : Visit) × (t.visits s.next ≡ w)
      × (w.from.url ≡ location_url s.location)
      × (w.to.url ≡ location_url location)
      × (w.to.hash ≡ some location.hash)
      × (w.trigger.event ≡ some event)
      × (w.history.popstate ≡ true)
      × (w.history.direction ≡ direction_to index s.current_history_index)
      × (w.animation.animate ≡ animated)
      × (w.scroll.reset ≡ animated)
      × (w.scroll.target ≡ disabled)
      × (t.current_history_index ≡ (if index == 0 then s.current_history_index else index))
      × ((u : VisitRef) → u < s.next → t.visits u ≡ s.visits u)
unfolding set_history_visit
create_entry-visit host href index event s location parsed =
    let current = s.current_history_index in
    let moved = is_moved index current in
    let w = set_popstate (entry_visit host location event s) in
    let (t, ran, made, known, others) = create_entry-made host href index event s location parsed in
    let (from, to, trigger, popstate) = directed-same moved index current w in
    (
      t,
      ran,
      set_history_visit s.options.animate_history_browsing (directed moved index current w),
      made,
      ap (λ x. x.url) from,
      ap (λ x. x.url) to,
      ap (λ x. x.hash) to,
      ap (λ x. x.event) trigger,
      popstate,
      directed-direction index current w refl,
      refl,
      refl,
      refl,
      known ∙ moved-index index current,
      others,
    )

-- ===== src/Navigation/Running.antt =====
-- src/modules/navigate.ts: which visits go on, and what a change of one visit does to that.
use vitest_swup.Prelude.{
  ◌≡◌, refl, sym, ◌∙◌, subst, ◌==◌, nat_eq, nat_beq_iff, Bool, true, false, not, inl, inr,
  Bool-cases, beq_refl, arith,
}
use vitest_swup.Values.{VisitRef}
use vitest_swup.Visit.{VisitState}
use vitest_swup.State.{update}
use vitest_swup.Navigation.{
  Position, starting, loading, transitioning, ending, Navigation, set_state, set_position, is_over,
  begin,
}

-- A visit in the hooks `visit:start` and `visit:end` goes on whatever its state is by then.
abbrev pub is_fixed : Position → Bool
is_fixed starting = true
is_fixed ending = true
is_fixed _ = false

-- A visit that goes on: in one of these hooks, or on its way and not done.
abbrev pub goes_on : Position → VisitState → Bool
goes_on starting state = true
goes_on ending state = true
goes_on loading state = not (is_over state)
goes_on transitioning state = not (is_over state)
goes_on _ state = false

abbrev pub running : Navigation → VisitRef → Bool
running s v = goes_on (s.positions v) (s.states v)

-- Only the current visit goes on, and `navigating` says so.
abbrev pub IsExclusive : Navigation → Type 0
IsExclusive s = (v : VisitRef) → running s v ≡ true → (v ≡ s.visit) × (s.navigating ≡ true)

-- A visit's place and state after a change of one visit.
pub at_change :
    (v u : VisitRef) (p : Position) (positions : VisitRef → Position)
    (states states' : VisitRef → VisitState)
    → ((v == u) ≡ false → states' u ≡ states u)
    → (goes_on p (states' v) ≡ true → goes_on (positions v) (states v) ≡ true)
    → goes_on (update positions v p u) (states' u) ≡ true
    → goes_on (positions u) (states u) ≡ true
unfolding update
at_change v u p positions states states' same before h = elim (Bool-cases (v == u)) [
  | inl e ↦
      let eq : v ≡ u = (nat_beq_iff v u).0 e in
      subst (λ w. goes_on (positions w) (states w) ≡ true) eq
        (before (subst (λ w. goes_on p (states' w) ≡ true) (sym eq) (rw e at h)))
  | inr e ↦ rw (← same e) (rw e at h)
]

-- The same current visit, and no visit that goes on now and did not before.
pub kept :
    (s s' : Navigation)
    → s'.visit ≡ s.visit
    → s'.navigating ≡ s.navigating
    → ((v : VisitRef) → running s' v ≡ true → running s v ≡ true)
    → IsExclusive s
    → IsExclusive s'
kept s s' v n fewer x u r =
    let (current, navigating) = x u (fewer u r) in (current ∙ sym v, n ∙ navigating)

-- To put a visit at another place, where it goes on only if it did.
pub placed :
    (v : VisitRef) (p : Position) (s : Navigation)
    → (goes_on p (s.states v) ≡ true → running s v ≡ true)
    → IsExclusive s
    → IsExclusive (set_position v p s)
placed v p s before x =
    kept s (set_position v p s) refl refl
      (λ u h. at_change v u p s.positions s.states s.states (λ _. refl) before h) x

pub update-same :
    {A : Type 0} (h : VisitRef → A) (v : VisitRef) (state : A) → update h v state v ≡ state
unfolding update
update-same h v state = rw (beq_refl v) refl

pub update-other :
    {A : Type 0} (h : VisitRef → A) (v u : VisitRef) (state : A)
    → (v == u) ≡ false
    → update h v state u ≡ h u
unfolding update
update-other h v u state e = rw e refl

-- To change the state of a visit, which goes on afterwards only if it did.
pub changed :
    (v : VisitRef) (state : VisitState) (s : Navigation)
    → (goes_on (s.positions v) state ≡ true → running s v ≡ true)
    → (u : VisitRef) → running (set_state v state s) u ≡ true
    → running s u ≡ true
unfolding update
changed v state s before u h = elim (Bool-cases (v == u)) [
  | inl e ↦
      let eq : v ≡ u = (nat_beq_iff v u).0 e in
      subst (λ w. running s w ≡ true) eq
        (before (subst (λ w. goes_on (s.positions w) state ≡ true) (sym eq) (rw e at h)))
  | inr e ↦ rw e at h
]

-- A visit begins where no other goes on.
pub begun :
    (v : VisitRef) (s : Navigation)
    → ((u : VisitRef) → running s u ≡ true → v ≡ u)
    → IsExclusive (begin v s)
unfolding update
begun v s none_other u h = elim (Bool-cases (v == u)) [
  | inl e ↦ (sym ((nat_beq_iff v u).0 e), refl)
  | inr e ↦ (sym (none_other u (rw e at h)), refl)
]

-- Where `navigating` is not set, no visit goes on.
pub quiet :
    (s : Navigation)
    → IsExclusive s
    → s.navigating ≡ false
    → (v u : VisitRef) → running s u ≡ true
    → v ≡ u
quiet s x n v u h = absurd (cc (n, (x u h).1))

pub is_over-idle :
    (p : Position) (state : VisitState)
    → is_over state ≡ true
    → is_fixed p ≡ false
    → goes_on p state ≡ false
is_over-idle p state o f = ground arith

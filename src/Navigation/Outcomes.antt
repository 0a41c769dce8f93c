-- ===== src/Navigation/Outcomes.antt =====
-- src/modules/navigate.ts: how navigations end, and what becomes of those that come after.
use vitest_swup.Prelude.{
  ◌≡◌, refl, subst, sym, ◌∙◌, ap, ◌≢◌, ◌==◌, nat_eq, nat_beq_iff, ltb, leb, true, false, Option,
  none, some, List, [], ◌∷◌, inl, inr, Bool-cases, beq_ne, fun_ext, if◌then◌else◌, arith,
}
use vitest_swup.Values.{VisitRef}
use vitest_swup.Visit.{VisitState, rank, started, completed, aborted, failed, queued, entering}
use vitest_swup.State.{update}
use vitest_swup.Navigation.{
  Position, idle, starting, loading, transitioning, ending, Failure, aborted_request, other_error,
  fail, Navigation, set_state, set_position, is_over, perform_navigation, after_end, after_start,
  run_queued, Action, navigate, abort_returned, abort_threw, returned, threw, advanced, cancelled,
  called, abort_resumed, abort_rejected, resumed, rejected, step, run,
}
use vitest_swup.Navigation.Running.{update-same, update-other}

-- `navigating` is set, but the current visit is done, and nothing is under way.
pub record IsStuck (s : Navigation) : Type 0 where
  pub navigating : s.navigating ≡ true
  pub over : is_over (s.states s.visit) ≡ true
  pub resting : (v : VisitRef) → s.positions v ≡ idle

-- The actions perform other visits than the given one: a visit is performed once.
abbrev pub IsOther : VisitRef → Action → Type 0
IsOther v (navigate w) = w ≢ v
IsOther v _ = Unit

abbrev pub AreOthers : VisitRef → List Action → Type 0
AreOthers v [] = Unit
AreOthers v (a ∷ actions) = IsOther v a × AreOthers v actions

over_update :
    (states : VisitRef → VisitState) (v u : VisitRef) (state : VisitState)
    → is_over state ≡ true
    → is_over (states u) ≡ true
    → is_over (update states v state u) ≡ true
unfolding update
over_update states v u state o h = elim (Bool-cases (v == u)) [ inl e ↦ rw e o | inr e ↦ rw e h ]

over_entering :
    (state : VisitState) → is_over state ≡ true → leb (rank entering) (rank state) ≡ true
over_entering state o = ground arith

over_later :
    (state later : VisitState)
    → ltb (rank state) (rank later) ≡ true
    → is_over state ≡ true
    → is_over later ≡ true
over_later state later l h = ground arith

over_advanced :
    (states : VisitRef → VisitState) (v u : VisitRef) (state : VisitState)
    → ltb (rank (states v)) (rank state) ≡ true
    → is_over (states u) ≡ true
    → is_over (update states v state u) ≡ true
unfolding update
over_advanced states v u state l h = elim (Bool-cases (v == u)) [
  | inl e ↦
      let eq : v ≡ u = (nat_beq_iff v u).0 e in
      rw e (over_later (states v) state l (ap (λ w. is_over (states w)) eq ∙ h))
  | inr e ↦ rw e h
]

IsStuck-changed :
    (v : VisitRef) (state : VisitState) (s : Navigation)
    → IsStuck s
    → is_over (update s.states v state s.visit) ≡ true
    → IsStuck (set_state v state s)
IsStuck-changed v state s k o = record { navigating = k.navigating; over = o; resting = k.resting }

IsStuck-step :
    (a : Action) (s : Navigation)
    → IsStuck s
    → IsOther s.visit a
    → IsStuck (step a s) × ((step a s).visit ≡ s.visit)
unfolding step perform_navigation
IsStuck-step (navigate v) s k other =
    rw (k.resting v, called, k.navigating, at_end)
      (
        record {
          navigating = refl;
          over =
              ap is_over (update-other s.states v s.visit queued (beq_ne v s.visit other)) ∙ k.over;
          resting = k.resting;
        },
        refl,
      )
  where
    at_end : leb (rank entering) (rank (s.states s.visit)) ≡ true
    at_end = over_entering (s.states s.visit) k.over
IsStuck-step (abort_returned v) s k other = rw (k.resting v, abort_resumed) (k, refl)
IsStuck-step (abort_threw v) s k other = rw (k.resting v, abort_rejected) (k, refl)
IsStuck-step (returned v) s k other = rw (k.resting v, resumed) (k, refl)
IsStuck-step (threw v failure) s k other = rw (k.resting v, rejected) (k, refl)
IsStuck-step (advanced v state) s k other =
    elim (Bool-cases (ltb (rank (s.states v)) (rank state))) [
      | inl l ↦
          rw l (IsStuck-changed v state s k (over_advanced s.states v s.visit state l k.over), refl)
      | inr l ↦ rw l (k, refl)
    ]
IsStuck-step (cancelled v) s k other =
    (IsStuck-changed v aborted s k (over_update s.states v s.visit aborted refl k.over), refl)

-- Once `navigating` is set while the current visit is done and nothing is under way, as after a
-- visit that a handler has aborted during its transition, or one that has failed: whatever visits
-- other than the current one are performed then, and whatever else happens, the current visit
-- stays the same, `navigating` stays set, the visit is done, and nothing is under way, so that no
-- visit ever begins again.
pub IsStuck-run :
    (actions : List Action) (s : Navigation)
    → IsStuck s
    → AreOthers s.visit actions
    → IsStuck (run actions s) × ((run actions s).visit ≡ s.visit)
unfolding run
IsStuck-run [] s k others = (k, refl)
IsStuck-run (a ∷ actions) s k others =
    let (k', same) = IsStuck-step a s k others.0 in
    let (k'', same') =
      IsStuck-run actions (step a s) k' (subst (λ v. AreOthers v actions) (sym same) others.1) in
    (k'', same' ∙ same)

-- Where the current visit alone is under way.
pub record IsAlone (v : VisitRef) (p : Position) (s : Navigation) : Type 0 where
  pub navigating : s.navigating ≡ true
  pub current : s.visit ≡ v
  pub position : s.positions v ≡ p
  pub others : (u : VisitRef) → (v == u) ≡ false → s.positions u ≡ idle

update-resting :
    (v : VisitRef) (positions : VisitRef → Position)
    → ((u : VisitRef) → (v == u) ≡ false → positions u ≡ idle)
    → (u : VisitRef) → update positions v idle u ≡ idle
unfolding update
update-resting v positions others u = elim (Bool-cases (v == u)) [
  | inl e ↦ rw e refl
  | inr e ↦ rw e (others u e)
]

failed-IsStuck :
    (v : VisitRef) (p : Position) (state : VisitState) (s : Navigation)
    → is_over state ≡ true
    → IsAlone v p s
    → IsStuck (set_position v idle (set_state v state s))
failed-IsStuck v p state s o k = record {
  navigating = k.navigating;
  over = rw k.current (ap is_over (update-same s.states v state) ∙ o);
  resting = update-resting v s.positions k.others;
}

-- Where the current visit alone is under way, in its transition: if a handler aborts the visit and the
-- hook `visit:transition` then returns, or if the hook throws, then `navigating` stays set though the
-- visit is done and nothing is under way.
pub transition-IsStuck :
    (v : VisitRef) (failure : Failure) (s : Navigation)
    → IsAlone v transitioning s
    → IsStuck (step (returned v) (step (cancelled v) s)) × IsStuck (step (threw v failure) s)
unfolding step fail
transition-IsStuck v failure s k = (
  rw (k.position, resumed)
      (rw (ap is_over (update-same s.states v aborted))
        (failed-IsStuck v transitioning aborted s refl k)),
  rw (k.position, rejected) (by_failure failure),
)
  where
    by_failure : (f : Failure) → IsStuck (fail v f s)
    by_failure aborted_request = failed-IsStuck v transitioning aborted s refl k
    by_failure other_error = failed-IsStuck v transitioning failed s refl k

-- When the hook `visit:start` returns, it makes no difference whether the visit has been aborted in the
-- meantime, by a handler or by another navigation: it goes on as if it had not been.
pub returned-cancelled :
    (v : VisitRef) (s : Navigation)
    → s.positions v ≡ starting
    → step (returned v) (step (cancelled v) s) ≡ step (returned v) s
unfolding step after_start update
returned-cancelled v s e = rw (e, resumed) (ap (λ h. after h) (fun_ext (λ u. update_twice u)))
  where
    after : (VisitRef → VisitState) → Navigation
    after h =
        let s' = record s { states = h } in
        if s.waits v
        then set_position v loading s'
        else if is_over (h v)
        then set_position v idle s'
        else set_position v transitioning s'

    update_twice :
        (u : VisitRef)
        → update (update s.states v aborted) v started u ≡ update s.states v started u
    update_twice u = elim (Bool-cases (v == u)) [ inl i ↦ rw i refl | inr i ↦ rw i refl ]

-- What follows the end of a visit, where a visit has been queued or not.
abbrev pub Follows : Option VisitRef → VisitRef → Navigation → Type 0
Follows none current s = (s.navigating ≡ false) × (s.visit ≡ current)
Follows (some w) current s = (s.navigating ≡ true) × (s.visit ≡ w) × (s.positions w ≡ starting)

-- When the hook `visit:end` of a visit returns, the visit is completed and nothing is queued any more.
-- If a visit was queued, it is the current one then and has begun, and `navigating` is set; otherwise
-- `navigating` is not set, and the current visit is the same.
pub returned-ending :
    (v : VisitRef) (s : Navigation)
    → s.positions v ≡ ending
    → let s' = step (returned v) s in
      (s'.states v ≡ completed) × (s'.on_visit_end ≡ none) × Follows s.on_visit_end s.visit s'
unfolding step after_end perform_navigation
returned-ending v s e = rw (e, resumed) (by_queue s.on_visit_end refl)
  where
    ended : Navigation
    ended = record s {
      states = update s.states v completed;
      navigating = false;
      positions = update s.positions v idle;
    }

    by_queue :
        (o : Option VisitRef)
        → s.on_visit_end ≡ o
        → ((run_queued o ended).states v ≡ completed)
          × ((run_queued o ended).on_visit_end ≡ none)
          × Follows o s.visit (run_queued o ended)
    by_queue none q = (update-same s.states v completed, q, (refl, refl))
    by_queue (some w) q = (
      update-same s.states v completed,
      refl,
      (refl, refl, update-same (update s.positions v idle) w starting),
    )

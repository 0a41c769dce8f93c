-- ===== src/Visit/Lifecycle.antt =====
-- How the state of a visit can change (modules/Visit.ts).
use vitest_swup.Prelude.{◌≤◌, ◌≡◌, true, arith}
use Prim.Native.Nat.{max}
use vitest_swup.Visit.{Visit, VisitState, advance, done, rank, completed}

-- The numbers of the states are different.
pub rank-injective : (a b : VisitState) → rank a ≡ rank b → a ≡ b
rank-injective a b h = ground arith

-- `advance` goes to the later of the two states, and changes nothing else of the visit.
pub advance-max :
    (state : VisitState) (v : Visit)
    → (rank (advance state v).state ≡ max (rank v.state) (rank state))
      × (advance state v ≡ record v { state = (advance state v).state })
unfolding advance
advance-max state v = ground arith

-- A visit that is completed, aborted or failed stays as it is under `advance` to any state up to
-- the completed one, so no step of a transition brings it back.
pub advance-done :
    (state : VisitState) (v : Visit)
    → done v ≡ true
    → (rank state ≤ rank completed)
    → advance state v ≡ v
unfolding advance done
advance-done state v d h = ground arith

-- The order of two advances does not matter.
pub advance_comm :
    (a b : VisitState) (v : Visit) → advance a (advance b v) ≡ advance b (advance a v)
unfolding advance
advance_comm a b v = ground arith

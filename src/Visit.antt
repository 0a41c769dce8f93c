-- ===== src/Visit.antt =====
-- src/modules/Visit.ts: the visit object and its life cycle.
pub mod Lifecycle
pub mod Create
use vitest_swup.Prelude.{
  ℕ, String, Bool, true, false, Option, none, some, List, [], ltb, leb, if◌then◌else◌,
}
use vitest_swup.Prelude.Dict.{Dict}
use vitest_swup.Values.{Value}

-- src/modules/navigate.ts: HistoryAction and HistoryDirection.
pub data HistoryAction : Type 0 where
  push replace : HistoryAction

pub data HistoryDirection : Type 0 where
  forwards backwards : HistoryDirection

pub record VisitFrom : Type 0 where
  pub url : String
  pub hash : Option String

pub record VisitTo : Type 0 where
  pub url : String
  pub hash : Option String
  pub html : Option String
  -- The parsed document is an object of the host.
  pub document : Option ℕ

pub data AnimationScope : Type 0 where
  html containers : AnimationScope
  selectors : List String → AnimationScope

-- `string | false`, where `none` is `false`.
abbrev pub AnimationSelector : Type 0
AnimationSelector = Option String

pub record VisitAnimation : Type 0 where
  pub animate : Bool
  pub wait : Bool
  pub name : Option String
  pub native : Bool
  pub scope : AnimationScope
  pub selector : AnimationSelector

-- `string | false | undefined`
pub data ScrollTarget : Type 0 where
  unset disabled : ScrollTarget
  anchor : String → ScrollTarget

pub record VisitScroll : Type 0 where
  pub reset : Bool
  pub target : ScrollTarget

pub record VisitTrigger : Type 0 where
  pub el : Option ℕ
  pub event : Option ℕ

pub record VisitCache : Type 0 where
  pub read : Bool
  pub write : Bool

pub record VisitHistory : Type 0 where
  pub action : HistoryAction
  pub popstate : Bool
  pub direction : Option HistoryDirection

pub record VisitInitOptions : Type 0 where
  pub to : String
  pub from : Option String
  pub hash : Option String
  pub el : Option ℕ
  pub event : Option ℕ

pub data VisitState : Type 0 where
  created queued started leaving loaded entering completed aborted failed : VisitState

-- The number that the source gives each state.
abbrev pub rank : VisitState → ℕ
rank created = 1
rank queued = 2
rank started = 3
rank leaving = 4
rank loaded = 5
rank entering = 6
rank completed = 7
rank aborted = 8
rank failed = 9

pub record Visit : Type 0 where
  pub id : ℕ
  pub state : VisitState
  pub from : VisitFrom
  pub to : VisitTo
  pub containers : List String
  pub animation : VisitAnimation
  pub trigger : VisitTrigger
  pub cache : VisitCache
  pub history : VisitHistory
  pub scroll : VisitScroll
  pub meta : Dict String Value

unfoldable pub advance : VisitState → Visit → Visit
advance state v = if ltb (rank v.state) (rank state) then record v { state = state } else v

unfoldable pub abort : Visit → Visit
abort v = record v { state = aborted }

-- Completed, failed or aborted.
unfoldable pub done : Visit → Bool
done v = leb (rank completed) (rank v.state)

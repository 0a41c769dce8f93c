-- ===== src/State/Types.antt =====
-- The data that the modules of src/ hand each other: options, locations, plugins, registrations of
-- handlers; and the state of the browser's window that they write.
use vitest_swup.Prelude.{ℕ, String, Bool, Option, List}
use vitest_swup.Prelude.Dict.{Dict}
use vitest_swup.Prelude.Int.{ℤ}
use vitest_swup.Values.{Value, FunctionRef, VisitRef}
use vitest_swup.Visit.{AnimationScope, AnimationSelector}

-- src/modules/navigate.ts: NavigationToSelfAction.
pub data NavigationToSelfAction : Type 0 where
  scroll navigate : NavigationToSelfAction

-- A `Plugin` object, by its identity.
abbrev pub PluginRef : Type 0
PluginRef = ℕ

pub record Options : Type 0 where
  pub animate_history_browsing : Bool
  pub animation_selector : AnimationSelector
  pub animation_scope : AnimationScope
  pub cache : Bool
  pub containers : List String
  pub ignore_visit : FunctionRef
  pub link_selector : String
  pub link_to_self : NavigationToSelfAction
  pub native : Bool
  pub hooks : Dict String FunctionRef
  pub plugins : List PluginRef
  pub request_headers : Dict String String
  -- A dynamic value: the code tests whether it is a function.
  pub resolve_url : Value
  pub skip_pop_state_handling : FunctionRef
  pub timeout : ℕ

-- src/helpers/Location.ts: the parts of a parsed URL that the code reads.
pub record Location : Type 0 where
  pub href : String
  pub origin : String
  pub pathname : String
  pub search : String
  pub hash : String

pub record Plugin : Type 0 where
  pub is_swup_plugin : Bool
  pub name : String
  pub version : Option String
  -- Whether `plugin.swup` has been set to this instance.
  pub swup : Bool
  pub mount : FunctionRef
  pub unmount : FunctionRef
  pub before_mount : Option FunctionRef
  pub after_unmount : Option FunctionRef
  pub check_requirements : Option FunctionRef

pub record HookOptions : Type 0 where
  pub once : Bool
  pub before : Bool
  pub priority : Option ℤ
  pub replace : Bool

-- What a handler is given as its default handler: a function, or the closure that calls `handler`
-- with a default handler of its own.
pub data Callee : Type 0 where
  direct : FunctionRef → Callee
  nested : FunctionRef → Callee → Callee

pub record HookRegistration : Type 0 where
  pub id : ℕ
  pub hook : String
  pub handler : FunctionRef
  pub default_handler : Option Callee
  pub options : HookOptions
  pub open options use *

abbrev pub HookLedger : Type 0
HookLedger = Dict FunctionRef HookRegistration

abbrev pub HookRegistry : Type 0
HookRegistry = Dict String HookLedger

pub record HookEventDetail : Type 0 where
  pub hook : String
  pub args : Value
  pub visit : VisitRef

-- Where the last scrolling has gone, with its options: to an element, or to a place of the window.
pub data ScrollPosition : Type 0 where
  untouched : ScrollPosition
  element : ℕ → Dict String Value → ScrollPosition
  window : Dict String Value → ScrollPosition

-- One entry of the history of a tab: the state that has been stored with it, and its URL.
pub record HistoryEntry : Type 0 where
  pub state : Option (Dict String Value)
  pub location : Location

-- The window: the entries of its history up to the current one, the documents that it has been sent to by
-- `location.assign`, the calls of `history.back`, and the title and the other settings that are written.
pub record Window : Type 0 where
  pub past : List HistoryEntry
  pub entry : HistoryEntry
  pub assigned : List String
  pub backs : ℕ
  pub title : String
  pub manual_restoration : Bool
  pub listens_popstate : Bool
  pub listens_click : Bool

-- A pending `setTimeout`: its delay, and the objects that its callback writes.
pub record Timer : Type 0 where
  pub delay : ℕ
  pub variables : ℕ
  pub signal : ℕ

-- What is left of a call of `performNavigation` at its first `await`: that of the hook `visit:abort`,
-- or that of the hook `visit:start`. The last reference is the object with the options.
pub data Task : Type 0 where
  aborting : (current v : VisitRef) → ℕ → Task
  starting : VisitRef → ℕ → Task

-- The elements of a document: each has an identity, the number of what it is (its tag and attributes),
-- its children, and the elements after it.
pub data Forest : Type 0 where
  empty : Forest
  tree : (identity kind : ℕ) (children siblings : Forest) → Forest

-- The identities of the functions that the library hands out: its default handlers of hooks, by the hook,
-- and those in its options.
pub record Functions : Type 0 where
  pub enable : FunctionRef
  pub disable : FunctionRef
  pub fetch_request : FunctionRef
  pub page_load : FunctionRef
  pub visit_transition : FunctionRef
  pub visit_end : FunctionRef
  pub content_replace : FunctionRef
  pub content_scroll : FunctionRef
  pub scroll_anchor : FunctionRef
  pub scroll_top : FunctionRef
  pub animation_out_start : FunctionRef
  pub animation_out_await : FunctionRef
  pub animation_in_start : FunctionRef
  pub animation_in_await : FunctionRef
  pub link_click : FunctionRef
  pub link_anchor : FunctionRef
  pub link_self : FunctionRef
  pub history_popstate : FunctionRef
  -- `defaults.ignoreVisit`, `defaults.skipPopStateHandling`, `defaults.resolveUrl`, and the closure that
  -- a failed visit puts in the place of the second one.
  pub ignore_visit : FunctionRef
  pub skip_pop_state_handling : FunctionRef
  pub resolve_url : FunctionRef
  pub leave : FunctionRef

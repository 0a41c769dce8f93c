-- ===== src/State.antt =====
-- The state that the modules of src/ share through `this` (a `Swup` instance), and what stands
-- around it: the functions that users pass in, other tasks, and the browser.
use vitest_swup.Prelude.{
  ℕ, ◌+◌, String, Bool, Option, List, [], ◌∷◌, ◌++◌, ◌==◌, nat_eq, if◌then◌else◌, ◌≡◌, refl, ◌⊎◌,
  inl, inr,
}
use vitest_swup.Prelude.Dict.{Dict}
use vitest_swup.Values.{Value, FunctionRef, VisitRef, Outcome, returns, throws}
use vitest_swup.Prelude.Int.{ℤ}
use vitest_swup.Visit.{Visit}
use vitest_swup.Animations.{ComputedStyle}
mod Types
pub use Types.*

-- The instance. `visits` and `objects` are the heap: what a reference stands for.
pub record Swup : Type 0 where
  pub options : Options
  pub plugins : List PluginRef
  pub plugin_objects : PluginRef → Plugin
  pub visit : VisitRef
  pub visits : VisitRef → Visit
  pub objects : ℕ → Dict String Value
  -- The next free reference of the heap.
  pub next : ℕ
  -- `cache.pages`: page objects by URL.
  pub pages : Dict String ℕ
  -- `hooks.registry`
  pub registry : HookRegistry
  pub location : Location
  pub current_history_index : ℕ
  pub navigating : Bool
  -- The visit that `onVisitEnd` performs, with its options.
  pub on_visit_end : Option (VisitRef × ℕ)
  -- The calls of `performNavigation` that wait at their first `await`.
  pub tasks : List Task
  pub timers : Dict ℕ Timer
  -- The visit in the closure that a failed visit has put into `options.skipPopStateHandling`.
  pub left_visit : VisitRef
  pub browser : Window
  -- The elements of the current document.
  pub document : Forest
  -- The classes of the elements of the document.
  pub class_lists : ℕ → List String
  pub scroll_position : ScrollPosition
  pub console : List String

-- A computation on the instance that may throw.
abbrev pub M {ℓ} : Type ℓ → Type ℓ
M A = Swup → Outcome A × Swup

abbrev pub and_then {ℓ κ} :
    {A : Type ℓ} {B : Type κ} → Outcome A × Swup → (A → M B) → Outcome B × Swup
and_then (returns a, s) f = f a s
and_then (throws e, s) f = (throws e, s)

-- Every outcome is one of the two.
pub Outcome-cases {ℓ} :
    {A : Type ℓ} (r : Outcome A × Swup)
    → ((a : A) × (s : Swup) × (r ≡ (returns a, s)))
      ⊎ ((e : Value) × (s : Swup) × (r ≡ (throws e, s)))
Outcome-cases (returns a, s) = inl (a, s, refl)
Outcome-cases (throws e, s) = inr (e, s, refl)

infixl 5 ◌>>=◌ ◌>>◌
abbrev pub ◌>>=◌ {ℓ κ} : {A : Type ℓ} {B : Type κ} → M A → (A → M B) → M B
◌>>=◌ m f s = and_then (m s) f

abbrev pub ◌>>◌ {ℓ κ} : {A : Type ℓ} {B : Type κ} → M A → M B → M B
m >> k = m >>= λ _. k

abbrev pub pure {ℓ} : {A : Type ℓ} → A → M A
pure a s = (returns a, s)

abbrev pub gets {ℓ} : {A : Type ℓ} → (Swup → A) → M A
gets f s = (returns (f s), s)

abbrev pub modify : (Swup → Swup) → M (Unit {0})
modify f s = (returns tt, f s)

abbrev pub log : String → Swup → Swup
log message s = record s { console = s.console ++ message ∷ [] }

-- A heap with one cell written.
unfoldable pub update {ℓ} : {A : Type ℓ} → (ℕ → A) → ℕ → A → ℕ → A
update h r a q = if r == q then a else h q

-- An object literal: a new cell.
unfoldable pub alloc : Dict String Value → M ℕ
unfolding update
alloc d s = (returns s.next, record s { objects = update s.objects s.next d; next = s.next + 1 })

-- What the program does not implement.
pub record Host : Type 0 where
  -- A call `handler(visit, args, defaultHandler)`, with all that the function does to the instance.
  pub invoke : FunctionRef → Option VisitRef → Value → Option Callee → M Value
  -- A call of a function with no argument, such as a plugin's `mount`.
  pub call : FunctionRef → M Value
  -- `typeof value.then === 'function'`, of an object or a function.
  pub has_then : Value → Bool
  -- What a promise settles with, and the instance at that time.
  pub settle : Value → M Value
  -- What other tasks do to the instance while an `await` is pending.
  pub pass : Swup → Swup
  -- What the listeners for a DOM event on `document` do to the instance.
  pub dispatch : String → HookEventDetail → Swup → Swup
  -- `options.resolveUrl(url)`, taken to be a pure function.
  pub resolve_url : FunctionRef → String → Value
  -- `queryAll(selector)` in the document.
  pub query_all : String → List ℕ
  -- `document.getElementById(id)`, in a document of these elements, and `document.body`.
  pub element_by_id : String → Forest → Option ℕ
  pub body : ℕ
  -- `CSS.escape(text)`, and `decodeURIComponent(text)`, which may throw a `URIError`.
  pub css_escape : String → String
  pub decode_uri_component : String → Outcome String
  -- `new Location(url)` in the current document: a `TypeError` is `throws`.
  pub parse_url : String → Outcome Location
  -- `match(path, options)` of path-to-regexp, and `String(value)`.
  pub match_pattern : Value → Value → M Value
  pub to_text : Value → String
  -- `Math.random()`
  pub random : Swup → ℕ
  -- `fetch(url, options)`: the promise that it gives.
  pub fetch : Value → Value → M Value
  -- `await response.text()`
  pub text : Value → M String
  -- A `TypeError` of the language.
  pub type_error : Value
  -- What the browser throws when a page writes a foreign URL to the history.
  pub security_error : Value
  -- `el.closest('[attr]')` and `el.getAttribute(attr)`
  pub closest : ℕ → String → Option ℕ
  pub get_attribute : ℕ → String → Option String
  -- `options.ignoreVisit(url, { el, event })` and `options.skipPopStateHandling(event)`, of functions of
  -- users.
  pub ignore_visit : FunctionRef → String → Option ℕ → Option ℕ → M Value
  pub skip_pop_state_handling : FunctionRef → Value → M Value
  -- `document.documentElement`
  pub document_element : ℕ
  -- `el.matches(selector)`
  pub matches : ℕ → String → Bool
  -- `new DOMParser().parseFromString(html, 'text/html')`, and the elements and the title of a document.
  pub parse_document : String → ℕ
  pub elements_of : ℕ → Forest
  pub title_of : ℕ → Option String
  -- `document.querySelector(selector)` and `querySelectorAll`, in a document of these elements.
  pub query_selector : String → Forest → Option ℕ
  pub query_selector_all : String → Forest → List ℕ
  -- For `awaitAnimations`: `parseFloat` with its scale, `getComputedStyle`, and `queryAll` in the body.
  pub to_ms : String → Option ℤ
  pub style : ℕ → ComputedStyle
  pub query_in_body : String → List ℕ
  -- `document.startViewTransition`, where the browser has it.
  pub start_view_transition : Bool

-- ===== src/Instance/Options.antt =====
-- src/Swup.ts: the default options, and the constructor of an instance.
use vitest_swup.Prelude.{string_eq, ℕ, String, Bool, true, false, Option, none, some, List, [], ◌∷◌}
use vitest_swup.Prelude.Dict
use vitest_swup.Prelude.Dict.{Dict}
use vitest_swup.Values.{Value, number, function, FunctionRef}
use vitest_swup.Visit.{AnimationScope, AnimationSelector, html}
use vitest_swup.Visit.Create.{create_visit}
use vitest_swup.State.{
  Host, Functions, Options, PluginRef, NavigationToSelfAction, scroll, M, ◌>>=◌, ◌>>◌, gets, modify,
}
use vitest_swup.Objects.{property_of}
use vitest_swup.Hooks.Registry.{init}
use vitest_swup.History.{window_location, or_empty}
use vitest_swup.Instance.Lifetime.{enable}

-- `defaults`
unfoldable pub defaults : Functions → Options
defaults f = record {
  animate_history_browsing = false;
  animation_selector = some "[class*=\"transition-\"]";
  animation_scope = html;
  cache = true;
  containers = "#swup" ∷ [];
  ignore_visit = f.ignore_visit;
  link_selector = "a[href]";
  link_to_self = scroll;
  native = false;
  hooks = [];
  plugins = [];
  request_headers =
      ("X-Requested-With", "swup") ∷ ("Accept", "text/html, application/xhtml+xml") ∷ [];
  resolve_url = function f.resolve_url;
  skip_pop_state_handling = f.skip_pop_state_handling;
  timeout = 0;
}

-- `Partial<Options>`
pub record PartialOptions : Type 0 where
  pub animate_history_browsing : Option Bool
  pub animation_selector : Option AnimationSelector
  pub animation_scope : Option AnimationScope
  pub cache : Option Bool
  pub containers : Option (List String)
  pub ignore_visit : Option FunctionRef
  pub link_selector : Option String
  pub link_to_self : Option NavigationToSelfAction
  pub native : Option Bool
  pub hooks : Option (Dict String FunctionRef)
  pub plugins : Option (List PluginRef)
  pub request_headers : Option (Dict String String)
  pub resolve_url : Option Value
  pub skip_pop_state_handling : Option FunctionRef
  pub timeout : Option ℕ

abbrev pub given_or {ℓ} : {A : Type ℓ} → Option A → A → A
given_or none a = a
given_or (some b) a = b

-- `{ ...this.defaults, ...options }`
unfoldable pub merge : Options → PartialOptions → Options
merge d o = record {
  animate_history_browsing = given_or o.animate_history_browsing d.animate_history_browsing;
  animation_selector = given_or o.animation_selector d.animation_selector;
  animation_scope = given_or o.animation_scope d.animation_scope;
  cache = given_or o.cache d.cache;
  containers = given_or o.containers d.containers;
  ignore_visit = given_or o.ignore_visit d.ignore_visit;
  link_selector = given_or o.link_selector d.link_selector;
  link_to_self = given_or o.link_to_self d.link_to_self;
  native = given_or o.native d.native;
  hooks = given_or o.hooks d.hooks;
  plugins = given_or o.plugins d.plugins;
  request_headers = given_or o.request_headers d.request_headers;
  resolve_url = given_or o.resolve_url d.resolve_url;
  skip_pop_state_handling = given_or o.skip_pop_state_handling d.skip_pop_state_handling;
  timeout = given_or o.timeout d.timeout;
}

-- `index ?? 1`
abbrev pub index_or_one : Value → ℕ
index_or_one (number n) = n
index_or_one _ = 1

module _ (host : Host) where
  -- `new Swup(options)`, in a world whose window, document, heap and plugins are those of the state.
  unfoldable pub construct : Functions → PartialOptions → M (Unit {0})
  unfolding defaults merge init create_visit enable
  construct f o = do
    location ← gets window_location
    modify (λ s. record s {
      options = merge (defaults f) o;
      plugins = [];
      pages = [];
      registry = [];
      location = location;
      navigating = false;
      on_visit_end = none;
    })
    modify init
    random ← gets host.random
    v ← create_visit random (record { to = ""; from = none; hash = none; el = none; event = none })
    modify (λ s. record s { visit = v })
    modify (λ s. record s {
      current_history_index =
          index_or_one (property_of (Dict.get "index" (or_empty s.browser.entry.state)));
    })
    enable host f

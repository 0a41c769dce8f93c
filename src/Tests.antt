-- ===== src/Tests.antt =====
-- Concrete instances and hosts, and runs of the model on them.
pub mod Hooks
pub mod Cache
pub mod Navigation
pub mod Parts
pub mod Pages
pub mod Visits
use vitest_swup.Prelude.{
  ℕ, String, Bool, true, false, Option, none, some, List, [], ◌∷◌, ◌++◌, ◌==◌, nat_eq, string_eq,
  if◌then◌else◌,
}
use vitest_swup.Values.{
  Value, undefined, string, object, function, FunctionRef, Outcome, returns, throws,
}
use vitest_swup.Visit.{
  Visit, VisitState, created, completed, HistoryAction, ScrollTarget, AnimationScope,
}
use vitest_swup.State.{
  Swup, Host, Options, Location, Plugin, HookOptions, HookRegistration, HookLedger, M, log,
  NavigationToSelfAction, ScrollPosition, Forest, empty, tree, Functions,
}
use vitest_swup.Hooks.Registry.{default_options, registration}

-- A location of the site.
abbrev pub local_url : String → Location
local_url url = record {
  href = url;
  origin = "https://example.org";
  pathname = url;
  search = "";
  hash = "";
}

-- Functions that do nothing, and no other task. Function 0 resolves a URL to itself, function 1
-- resolves every URL to `/all`, and function 2 gives no URL.
abbrev pub resolving : FunctionRef → String → Value
resolving f url = if f == 0 then string url else if f == 1 then string "/all" else undefined

-- The document has one element with an id, `intro`, and one text that cannot be decoded is `%`.
abbrev pub by_id : String → Option ℕ
by_id id = if id == "intro" then some 3 else none

abbrev pub decoded_text : String → Outcome String
decoded_text text =
    if text == "%"
    then throws (string "URIError")
    else if text == "%69ntro"
    then returns "intro"
    else returns text

-- The first element that `#swup` or `#nav` finds, of kind 1 or 2.
abbrev first_some : Option ℕ → Option ℕ → Option ℕ
first_some (some e) o = some e
first_some none o = o

abbrev first_kind : ℕ → Forest → Option ℕ
first_kind k empty = none
first_kind k (tree e j children siblings) =
    if j == k then some e else first_some (first_kind k children) (first_kind k siblings)

abbrev pub query_kind : String → Forest → Option ℕ
query_kind selector document =
    if selector == "#swup"
    then first_kind 1 document
    else if selector == "#nav"
    then first_kind 2 document
    else none

abbrev pub quiet : Host
quiet = record {
  invoke = λ f v args d s. (returns undefined, s);
  call = λ f s. (returns undefined, s);
  has_then = λ v. false;
  settle = λ v s. (returns v, s);
  pass = λ s. s;
  dispatch = λ name detail s. s;
  resolve_url = resolving;
  query_all = λ selector. if selector == "html" then 0 ∷ [] else [];
  element_by_id = λ id document. by_id id;
  body = 1;
  css_escape = λ text. text;
  decode_uri_component = decoded_text;
  parse_url = λ url. returns (local_url url);
  match_pattern = λ path options s. (throws (string "TypeError"), s);
  to_text = λ value. "(a";
  random = λ s. s.next;
  fetch = λ url options s. (returns (object 4), s);
  text = λ response s. (returns "<html>", s);
  type_error = string "TypeError";
  security_error = string "SecurityError";
  closest = λ el name. none;
  get_attribute = λ el name. none;
  ignore_visit = λ f url el event s. (returns undefined, s);
  skip_pop_state_handling = λ f event s. (returns undefined, s);
  document_element = 0;
  matches = λ el selector. false;
  parse_document = λ html. 1;
  elements_of = λ document. tree 20 1 empty empty;
  title_of = λ document. some "Page";
  query_selector = query_kind;
  query_selector_all = λ selector document. [];
  to_ms = λ time. none;
  style = λ e. record {
    transition_delay = "";
    transition_duration = "";
    animation_delay = "";
    animation_duration = "";
  };
  query_in_body = λ selector. [];
  start_view_transition = false;
}

-- Functions that write their name on the console; function 9 throws.
abbrev pub naming : FunctionRef → M Value
naming f =
    if f == 9
    then (λ s. (throws (string "no"), log "nine" s))
    else if f == 8
    then (λ s. (returns (string "eight"), log "eight" s))
    else (λ s. (returns undefined, log "other" s))

abbrev pub loud : Host
loud = record quiet { invoke = λ f v args d s. naming f s; dispatch = λ name detail s. log name s }

abbrev pub options : Options
options = record {
  animate_history_browsing = false;
  animation_selector = some "[class*=\"transition-\"]";
  animation_scope = AnimationScope.html;
  cache = true;
  containers = "#swup" ∷ [];
  ignore_visit = 100;
  link_selector = "a[href]";
  link_to_self = NavigationToSelfAction.scroll;
  native = false;
  hooks = [];
  plugins = [];
  request_headers = [];
  resolve_url = function 0;
  skip_pop_state_handling = 101;
  timeout = 0;
}

abbrev pub visit_in : VisitState → Visit
visit_in state = record {
  id = 1;
  state = state;
  from = record { url = "/"; hash = none };
  to = record { url = "/page"; hash = none; html = none; document = none };
  containers = "#swup" ∷ [];
  animation = record {
    animate = true;
    wait = false;
    name = none;
    native = false;
    scope = AnimationScope.html;
    selector = none;
  };
  trigger = record { el = none; event = none };
  cache = record { read = true; write = true };
  history = record { action = HistoryAction.push; popstate = false; direction = none };
  scroll = record { reset = true; target = ScrollTarget.unset };
  meta = [];
}

abbrev pub no_plugin : Plugin
no_plugin = record {
  is_swup_plugin = true;
  name = "NoPlugin";
  version = none;
  swup = false;
  mount = 200;
  unmount = 201;
  before_mount = none;
  after_unmount = none;
  check_requirements = none;
}

-- An instance whose current visit is in the given state, with one hook that has no handler.
abbrev pub instance_in : VisitState → Swup
instance_in state = record {
  options = options;
  plugins = [];
  plugin_objects = λ p. no_plugin;
  visit = 0;
  visits = λ v. visit_in state;
  objects = λ r. ("url", string "/page") ∷ ("html", string "<html>") ∷ [];
  next = 5;
  pages = [];
  registry = ("enable", []) ∷ [];
  location = local_url "/";
  current_history_index = 1;
  navigating = false;
  on_visit_end = none;
  tasks = [];
  timers = [];
  left_visit = 0;
  browser = record {
    past = [];
    entry = record { state = none; location = local_url "/" };
    assigned = [];
    backs = 0;
    title = "";
    manual_restoration = false;
    listens_popstate = true;
    listens_click = true;
  };
  document = tree 10 0 (tree 11 1 empty empty) empty;
  class_lists = λ e. [];
  scroll_position = ScrollPosition.untouched;
  console = [];
}

abbrev pub fresh : Swup
fresh = instance_in created

abbrev pub finished : Swup
finished = instance_in completed

-- An instance with the given handlers of `enable`.
abbrev pub with_ledger : HookLedger → Swup
with_ledger ledger = record fresh { registry = ("enable", ledger) ∷ [] }

abbrev pub enable_registration : ℕ → FunctionRef → HookOptions → HookRegistration
enable_registration size f o = registration size "enable" f o

-- The identities of the library's own functions.
abbrev pub functions : Functions
functions = record {
  enable = 50;
  disable = 51;
  fetch_request = 52;
  page_load = 53;
  visit_transition = 54;
  visit_end = 55;
  content_replace = 56;
  content_scroll = 57;
  scroll_anchor = 58;
  scroll_top = 59;
  animation_out_start = 60;
  animation_out_await = 61;
  animation_in_start = 62;
  animation_in_await = 63;
  link_click = 64;
  link_anchor = 65;
  link_self = 66;
  history_popstate = 67;
  ignore_visit = 100;
  skip_pop_state_handling = 101;
  resolve_url = 0;
  leave = 70;
}

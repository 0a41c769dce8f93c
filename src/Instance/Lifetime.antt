-- ===== src/Instance/Lifetime.antt =====
-- src/Swup.ts: `enable` and `destroy`.
use vitest_swup.Prelude.{
  ℕ, ◌==◌, string_eq, nat_eq, String, Bool, true, false, ◌&&◌, Option, some, List, [], ◌∷◌,
  if◌then◌else◌,
}
use vitest_swup.Prelude.Dict.{Dict}
use vitest_swup.Values.{Value, undefined, number, string, function, FunctionRef}
use vitest_swup.State.{Swup, Host, Functions, PluginRef, M, ◌>>=◌, ◌>>◌, pure, gets, modify, update}
use vitest_swup.Hooks.Registry.{on, clear}
use vitest_swup.Hooks.Names.{parse_name}
use vitest_swup.Hooks.Run.{call, await}
use vitest_swup.Hooks.Run.Default.{Closure, with_closure}
use vitest_swup.Plugins.{plugin, use_plugin, unuse}
use vitest_swup.Transition.{next_tick}
use vitest_swup.Cache
use vitest_swup.Classes.{add_to, remove_from}
use vitest_swup.History.{update_history_record, or_empty}
use vitest_swup.Prelude.Dict

-- The handlers among the options, whose names may have modifiers.
unfoldable pub install_hooks : Dict String FunctionRef → Swup → Swup
unfolding parse_name on
install_hooks [] s = s
install_hooks ((key, handler) ∷ hooks) s =
    let (hook, modifiers) = parse_name key in install_hooks hooks (on hook handler modifiers s).1

-- `history.state?.source`
abbrev pub is_swup : Option Value → Bool
is_swup (some (string source)) = source == "swup"
is_swup _ = false

abbrev pub is_swup_entry : Swup → Bool
is_swup_entry s = is_swup (Dict.get "source" (or_empty s.browser.entry.state))

abbrev pub set_classes : ℕ → List String → Swup → Swup
set_classes e classes s = record s { class_lists = update s.class_lists e classes }

module _ (host : Host) where
  -- `options.plugins.forEach((plugin) => this.use(plugin))`
  unfoldable pub use_all : List PluginRef → M (Unit {0})
  unfolding use_plugin
  use_all [] = pure tt
  use_all (p ∷ ps) = do _ ← use_plugin host (some p); use_all ps

  unfoldable pub unuse_all : List PluginRef → M (Unit {0})
  unfolding unuse
  unuse_all [] = pure tt
  unuse_all (p ∷ ps) = do _ ← unuse host (plugin p); unuse_all ps

  -- The default handlers of `enable` and `disable`.
  unfoldable pub mark_enabled : Closure
  unfolding update
  mark_enabled w args = do
    modify (λ s.
        let classes = add_to ("swup-enabled" ∷ []) (s.class_lists host.document_element) in
        set_classes host.document_element
          (if s.options.native
            then add_to ("swup-native" ∷ []) classes
            else remove_from ("swup-native" ∷ []) classes)
          s)
    pure undefined

  unfoldable pub mark_disabled : Closure
  unfolding update
  mark_disabled w args = do
    modify (λ s.
        set_classes host.document_element
          (remove_from ("swup-enabled" ∷ "swup-native" ∷ []) (s.class_lists host.document_element))
          s)
    pure undefined

  -- The first record of the history, where there is none of the library's.
  abbrev pub initial_record : Bool → ℕ → M (Unit {0})
  initial_record true index = pure tt
  initial_record false index = update_history_record host "" (("index", number index) ∷ [])

  -- `enable`
  unfoldable pub enable : Functions → M (Unit {0})
  unfolding use_all install_hooks update_history_record mark_enabled
  enable f = do
    modify (λ s. record s {
      browser = record s.browser { listens_click = true; listens_popstate = true };
    })
    modify (λ s.
        if s.options.animate_history_browsing
        then record s { browser = record s.browser { manual_restoration = true } }
        else s)
    modify (λ s. record s {
      options = record s.options { native = s.options.native && host.start_view_transition };
    })
    plugins ← gets (λ s. s.options.plugins)
    use_all plugins
    hooks ← gets (λ s. s.options.hooks)
    modify (install_hooks hooks)
    known ← gets is_swup_entry
    index ← gets (λ s. s.current_history_index)
    initial_record known index
    next_tick host
    _ ← await host (
        call (with_closure f.enable mark_enabled host) "enable" undefined undefined
          (function f.enable))
    pure tt

  -- `destroy`
  unfoldable pub destroy : Functions → M (Unit {0})
  unfolding Cache.clear unuse_all mark_disabled clear
  destroy f = do
    modify (λ s. record s {
      browser = record s.browser { listens_click = false; listens_popstate = false };
    })
    _ ← Cache.clear host
    plugins ← gets (λ s. s.options.plugins)
    unuse_all plugins
    _ ← await host (
        call (with_closure f.disable mark_disabled host) "disable" undefined undefined
          (function f.disable))
    modify clear

-- ===== src/Plugins.antt =====
-- src/modules/plugins.ts: installing, uninstalling and finding plugins.
pub mod Mounting
use vitest_swup.Prelude.{
  ℕ, ◌&◌, ◌==◌, nat_eq, string_eq, String, Bool, true, false, not, ◌||◌, Option, none, some, List,
  [], ◌∷◌, ◌++◌, find_by, filter_by, if◌then◌else◌,
}
use vitest_swup.Values.{Value, FunctionRef, is_truthy, returns, throws}
use vitest_swup.State.{
  Swup, Host, Plugin, PluginRef, M, ◌>>=◌, ◌>>◌, and_then, pure, gets, modify, log, update,
}

-- What `findPlugin` is given: a plugin, or a name.
pub data PluginOrName : Type 0 where
  plugin : PluginRef → PluginOrName
  name : String → PluginOrName

-- The three tests of `findPlugin`; `String(plugin)` is the text `[object Object]`.
abbrev pub is_wanted : PluginOrName → (PluginRef → Plugin) → PluginRef → Bool
is_wanted (plugin q) plugins p = p == q || (plugins p).name == "Swup[object Object]"
is_wanted (name n) plugins p = (plugins p).name == n || (plugins p).name == "Swup" & n

unfoldable pub find_plugin : PluginOrName → Swup → Option PluginRef
find_plugin wanted s = find_by (is_wanted wanted s.plugin_objects) s.plugins

module _ (host : Host) where
  -- An optional method of a plugin: it is called if it is there.
  abbrev pub call_method : Option FunctionRef → M (Unit {0})
  call_method none = pure tt
  call_method (some f) = host.call f >> pure tt

  -- `!plugin._checkRequirements || plugin._checkRequirements()`
  abbrev pub requirements_met : Option FunctionRef → M Bool
  requirements_met none = pure true
  requirements_met (some f) = do result ← host.call f; pure (is_truthy result)

  -- The part of `use` after the requirements have been checked.
  abbrev pub mount_if : Bool → PluginRef → M (Option (List PluginRef))
  mount_if false p = pure none
  mount_if true p = do
    before_mount ← gets (λ s. (s.plugin_objects p).before_mount)
    _ ← call_method before_mount
    mount ← gets (λ s. (s.plugin_objects p).mount)
    _ ← host.call mount
    modify (λ s. record s { plugins = s.plugins ++ p ∷ [] })
    plugins ← gets (λ s. s.plugins)
    pure (some plugins)

  -- `plugin.swup = this`
  abbrev pub attach : PluginRef → Swup → Swup
  attach p s = record s {
    plugin_objects = update s.plugin_objects p (record (s.plugin_objects p) { swup = true });
  }

  abbrev pub use_if : Bool → PluginRef → M (Option (List PluginRef))
  use_if false p s = (returns none, log "Not a swup plugin instance" s)
  use_if true p s =
      (do
        requirements ← gets (λ s. (s.plugin_objects p).check_requirements)
        met ← requirements_met requirements
        mount_if met p)
        (attach p s)

  -- `use` of an object; other values have no `isSwupPlugin`.
  unfoldable pub use_plugin : Option PluginRef → M (Option (List PluginRef))
  unfolding update
  use_plugin none s = (returns none, log "Not a swup plugin instance" s)
  use_plugin (some p) s = use_if (s.plugin_objects p).is_swup_plugin p s

  abbrev pub unmount_found : Option PluginRef → M (Option (List PluginRef))
  unmount_found none s = (returns none, log "No such plugin" s)
  unmount_found (some p) s =
      (do
        unmount ← gets (λ s. (s.plugin_objects p).unmount)
        _ ← host.call unmount
        after_unmount ← gets (λ s. (s.plugin_objects p).after_unmount)
        _ ← call_method after_unmount
        modify (λ s. record s { plugins = filter_by (λ q. not (q == p)) s.plugins })
        plugins ← gets (λ s. s.plugins)
        pure (some plugins))
        s

  unfoldable pub unuse : PluginOrName → M (Option (List PluginRef))
  unfolding find_plugin
  unuse wanted s = unmount_found (find_plugin wanted s) s

-- ===== src/Plugins/Mounting.antt =====
-- src/modules/plugins.ts: which plugins are installed after `use` and `unuse`, on every path.
use vitest_swup.Prelude.{
  ◌≡◌, refl, ap, ◌∙◌, ◌==◌, nat_eq, string_eq, beq_refl, Bool, true, false, not, Option, none, some,
  List, [], ◌∷◌, ◌++◌, find_by, filter_by, if◌then◌else◌, arith,
}
use vitest_swup.Values.{Value, FunctionRef, Outcome, returns, throws}
use vitest_swup.State.{Swup, Host, Plugin, PluginRef, M, and_then, pure}
use vitest_swup.Values.{is_truthy}
use vitest_swup.Plugins.{
  PluginOrName, plugin, is_wanted, find_plugin, call_method, requirements_met, mount_if, attach,
  use_if, use_plugin, unmount_found, unuse,
}

-- Whether `use` or `unuse` has come to its end: it has returned the list of plugins.
abbrev pub is_complete {ℓ} : {A : Type ℓ} → Outcome (Option A) → Bool
is_complete (returns (some _)) = true
is_complete _ = false

-- The list of plugins is `after` if the end has been reached, and `before` otherwise.
abbrev EndsWith :
    List PluginRef → List PluginRef → Outcome (Option (List PluginRef)) × Swup → Type 0
EndsWith before after r = r.1.plugins ≡ (if is_complete r.0 then after else before)

bind-EndsWith {ℓ} :
    {A : Type ℓ} (before after : List PluginRef) (x : Outcome A × Swup)
    → (f : A → M (Option (List PluginRef))) → x.1.plugins ≡ before
    → ((a : A) (t : Swup) → t.plugins ≡ before → EndsWith before after (f a t))
    → EndsWith before after (and_then x f)
bind-EndsWith before after (returns a, s) f e h = h a s e
bind-EndsWith before after (throws error, s) f e h = e

-- A plugin that is not in a list is not taken away from it.
filter_by-snoc_absent :
    (plugins : PluginRef → Plugin) (ps : List PluginRef) (p : PluginRef)
    → find_by (is_wanted (plugin p) plugins) ps ≡ none
    → filter_by (λ q. not (q == p)) (ps ++ p ∷ []) ≡ ps
filter_by-snoc_absent plugins [] p h = rw (beq_refl p) refl
filter_by-snoc_absent plugins (q ∷ ps) p h = ground (arith, filter_by-snoc_absent plugins ps p)

find_by-snoc :
    (wanted : PluginRef → Bool) (ps : List PluginRef) (p : PluginRef)
    → find_by wanted ps ≡ none
    → wanted p ≡ true
    → find_by wanted (ps ++ p ∷ []) ≡ some p
find_by-snoc wanted [] p h w = rw w refl
find_by-snoc wanted (q ∷ ps) p h w = ground (arith, find_by-snoc wanted ps p)

module _ (host : Host)
    -- The methods of plugins install and uninstall no plugins.
    (calm : (f : FunctionRef) (s : Swup) → (host.call f s).1.plugins ≡ s.plugins) where
  method-calm : (f : Option FunctionRef) (s : Swup) → (call_method host f s).1.plugins ≡ s.plugins
  method-calm none s = refl
  method-calm (some f) s = after (host.call f s) (calm f s)
    where
      after :
          (x : Outcome Value × Swup)
          → x.1.plugins ≡ s.plugins
          → (and_then {B = Unit {0}} x (λ _. pure tt)).1.plugins ≡ s.plugins
      after (returns _, t) e = e
      after (throws _, t) e = e

  requirements-calm :
      (f : Option FunctionRef) (s : Swup) → (requirements_met host f s).1.plugins ≡ s.plugins
  requirements-calm none s = refl
  requirements-calm (some f) s = after (host.call f s) (calm f s)
    where
      after :
          (x : Outcome Value × Swup)
          → x.1.plugins ≡ s.plugins
          → (and_then x (λ r. pure (is_truthy r))).1.plugins ≡ s.plugins
      after (returns _, t) e = e
      after (throws _, t) e = e

  mount_if-EndsWith :
      (b : Bool) (p : PluginRef) (before : List PluginRef) (s : Swup)
      → s.plugins ≡ before
      → EndsWith before (before ++ p ∷ []) (mount_if host b p s)
  mount_if-EndsWith false p before s e = e
  mount_if-EndsWith true p before s e =
      bind-EndsWith before (before ++ p ∷ []) (call_method host (s.plugin_objects p).before_mount s)
        _ (method-calm (s.plugin_objects p).before_mount s ∙ e)
        (λ _ t e'.
          bind-EndsWith before (before ++ p ∷ []) (host.call (t.plugin_objects p).mount t) _
            (calm (t.plugin_objects p).mount t ∙ e') (λ _ u e''. ap (λ ps. ps ++ p ∷ []) e''))

  -- Where the methods of plugins install and uninstall none: after `use` of an object, the list of
  -- plugins has the object at its end, if `use` has returned the list; and if the object is no plugin,
  -- if its requirements are not met, or if one of its methods throws, the list is as before.
  pub use_plugin-plugins :
      (p : PluginRef) (s : Swup)
      → (use_plugin host (some p) s).1.plugins
        ≡ (if is_complete (use_plugin host (some p) s).0 then s.plugins ++ p ∷ [] else s.plugins)
  unfolding use_plugin
  use_plugin-plugins p s = by_kind (s.plugin_objects p).is_swup_plugin
    where
      by_kind : (b : Bool) → EndsWith s.plugins (s.plugins ++ p ∷ []) (use_if host b p s)
      by_kind false = refl
      by_kind true =
          bind-EndsWith s.plugins (s.plugins ++ p ∷ [])
            (requirements_met host ((attach host p s).plugin_objects p).check_requirements
              (attach host p s))
            _
            (requirements-calm ((attach host p s).plugin_objects p).check_requirements
              (attach host p s))
            (λ met t e. mount_if-EndsWith met p s.plugins t e)

  -- Likewise: after `unuse` that has found a plugin, it is not in the list of plugins any more, if
  -- `unuse` has returned the list; if one of its methods throws, the list is as before.
  pub unuse-plugins :
      (wanted : PluginOrName) (p : PluginRef) (s : Swup)
      → find_plugin wanted s ≡ some p
      → (unuse host wanted s).1.plugins ≡ (
          if is_complete (unuse host wanted s).0
          then filter_by (λ q. not (q == p)) s.plugins
          else s.plugins)
  unfolding unuse
  unuse-plugins wanted p s found = rw found unmounted
    where
      rest : List PluginRef
      rest = filter_by (λ q. not (q == p)) s.plugins

      unmounted : EndsWith s.plugins rest (unmount_found host (some p) s)
      unmounted =
          bind-EndsWith s.plugins rest (host.call (s.plugin_objects p).unmount s) _
            (calm (s.plugin_objects p).unmount s)
            (λ _ t e.
              bind-EndsWith s.plugins rest (call_method host (t.plugin_objects p).after_unmount t) _
                (method-calm (t.plugin_objects p).after_unmount t ∙ e)
                (λ _ u e'. ap (filter_by (λ q. not (q == p))) e'))

  -- Where the methods of plugins install and uninstall none: if `use` of a plugin has returned the list
  -- of plugins, none of the plugins before it is taken for it, and `unuse` of it then has returned the
  -- list of plugins as well, the plugins are those that were there at first.
  pub unuse-use_plugin :
      (p : PluginRef) (s : Swup)
      → let t = (use_plugin host (some p) s).1 in
        is_complete (use_plugin host (some p) s).0 ≡ true
        → find_by (is_wanted (plugin p) t.plugin_objects) s.plugins ≡ none
        → is_complete (unuse host (plugin p) t).0 ≡ true
        → (unuse host (plugin p) t).1.plugins ≡ s.plugins
  unfolding find_plugin
  unuse-use_plugin p s installed absent removed =
      let t = (use_plugin host (some p) s).1 in
      let plugins : t.plugins ≡ s.plugins ++ p ∷ [] = use_plugin-plugins p s ∙ rw installed refl in
      let found : find_plugin (plugin p) t ≡ some p =
        ap (find_by (is_wanted (plugin p) t.plugin_objects)) plugins
        ∙ find_by-snoc (is_wanted (plugin p) t.plugin_objects) s.plugins p absent
            (rw (beq_refl p) refl) in
      unuse-plugins (plugin p) p t found
      ∙ rw removed (ap (filter_by (λ q. not (q == p))) plugins)
      ∙ filter_by-snoc_absent t.plugin_objects s.plugins p absent

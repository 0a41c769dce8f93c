-- ===== src/Hooks/Names.antt =====
-- src/modules/Hooks.ts: `parseName`, for names such as `content:replace.before.once`.
use vitest_swup.Prelude.{◌==◌, string_eq, split, String, true, some, List, [], ◌∷◌, if◌then◌else◌}
use vitest_swup.Prelude.Int.{pos}
use vitest_swup.State.{HookOptions}
use vitest_swup.Hooks.Registry.{default_options}

-- `{ ...acc, [mod]: true }`, where a priority of `true` counts as 1, and a name that no code reads is
-- dropped.
abbrev pub add_modifier : String → HookOptions → HookOptions
add_modifier modifier o =
    if modifier == "once"
    then record o { once = true }
    else if modifier == "before"
    then record o { before = true }
    else if modifier == "replace"
    then record o { replace = true }
    else if modifier == "priority"
    then record o { priority = some (pos 1) }
    else o

abbrev pub add_modifiers : List String → HookOptions → HookOptions
add_modifiers [] o = o
add_modifiers (modifier ∷ modifiers) o = add_modifiers modifiers (add_modifier modifier o)

-- A split text has at least one part.
abbrev pub name_and_options : List String → String × HookOptions
name_and_options [] = ("", default_options)
name_and_options (name ∷ modifiers) = (name, add_modifiers modifiers default_options)

unfoldable pub parse_name : String → String × HookOptions
unfolding split
parse_name hook = name_and_options (split "." hook)

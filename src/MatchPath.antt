-- ===== src/MatchPath.antt =====
-- src/helpers/matchPath.ts: a test for paths, from a pattern.
use vitest_swup.Prelude.{◌&◌}
use vitest_swup.Values.{Value}
use vitest_swup.State.{Host, M}
use vitest_swup.Objects.{or_catch, throw_error}

module _ (host : Host) where
  -- `matchPath(path, options)`; `match` is that of path-to-regexp.
  unfoldable pub match_path : Value → Value → M Value
  unfolding throw_error
  match_path path options = or_catch (host.match_pattern path options) (λ error.
      throw_error
        ("[swup] Error parsing path \"" & host.to_text path & "\":\n" & host.to_text error))

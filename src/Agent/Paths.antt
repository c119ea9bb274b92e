-- ===== src/Agent/Paths.antt =====
-- internal/agent/paths.go and canonicalizeRoots of service.go: which paths a request may name.
pub mod Laws
use mathlib.Core.List.{map}
use sroiaaa.Base.{
  Bool, true, false, not, ◌||◌, List, [], ◌∷◌, ◌++◌, if◌then◌else◌, Result, ok, err, ◌>>=◌, ◌>>◌,
  refuse_if, any,
}
use sroiaaa.Base.Text.{Text, is_empty, text_eq, has_prefix}
use sroiaaa.Base.FilePath.{slash, is_abs, clean}
use sroiaaa.Agent.Types.{
  ApiError, api_error, invalid_target, not_found, path_not_allowed, OsError, not_exist, permission,
  io, Host, AgentConfig,
}

-- An unresolvable path is 404 if it does not exist, and 400 otherwise.
abbrev pub symlink_error : OsError → ApiError
symlink_error not_exist = api_error 404 not_found
symlink_error _ = api_error 400 invalid_target

abbrev pub resolved_or_error : Result OsError Text → Result ApiError Text
resolved_or_error (ok path) = ok (clean path)
resolved_or_error (err e) = err (symlink_error e)

-- `resolved == root || strings.HasPrefix(resolved, root+"/")`.
unfoldable pub under_root : Text → Text → Bool
under_root path root = text_eq path root || has_prefix path (root ++ slash)

unfoldable pub canonical_root : Host → Text → Text
canonical_root host root = elim (host.eval_symlinks root) [
  | ok resolved ↦ clean resolved
  | err e ↦ clean root
]

unfoldable pub canonicalize_roots : Host → List Text → List Text
unfolding canonical_root
canonicalize_roots host = map (canonical_root host)

unfoldable pub resolve_allowed_path : Host → AgentConfig → Text → Result ApiError Text
resolve_allowed_path host cfg path = do
  refuse_if (is_empty path) (api_error 400 invalid_target)
  refuse_if (not (is_abs path)) (api_error 400 invalid_target)
  resolved ← resolved_or_error (host.eval_symlinks (clean path))
  refuse_if (not (any (under_root resolved) cfg.allowed_roots)) (api_error 403 path_not_allowed)
  ok resolved

-- `NewService`, the part that changes the configuration.
unfoldable pub new_service : Host → AgentConfig → AgentConfig
new_service host cfg = record cfg { allowed_roots = canonicalize_roots host cfg.allowed_roots }

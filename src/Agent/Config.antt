-- ===== src/Agent/Config.antt =====
-- internal/agent/config.go and catalog.go: the configuration that the environment gives.
pub mod Laws
pub mod Load
use mathlib.Core.List.{map}
use sroiaaa.Base.{
  ℕ, Bool, true, false, not, ◌&&◌, ◌||◌, Option, none, some, List, [], ◌∷◌, ◌++◌, if◌then◌else◌,
  Result, ok, err, ◌>>=◌, ◌>>◌, refuse_if, any,
}
use sroiaaa.Base.Int.{ℤ, pos, negsuc, above, to_nat}
use sroiaaa.Base.Text.{Text, codes, text_eq, is_empty, trim_space, split, member}
use sroiaaa.Base.FilePath.{is_abs, clean}
use sroiaaa.Agent.Types.{AgentConfig, operation_catalog}

-- The process environment, and strconv.ParseInt at base 10 and 64 bits.
pub record Environment : Type 0 where
  pub lookup_env : Text → Option Text
  pub parse_int : Text → Option ℤ

pub data ConfigError : Type 0 where
  unsupported_value relative_root no_root no_token relative_proc_root no_host_info_field :
      ConfigError

-- os.Getenv.
unfoldable pub get_env : Environment → Text → Text
get_env env key = elim (env.lookup_env key) [ some value ↦ value | none ↦ [] ]

unfoldable pub env_or_default : Environment → Text → Text → Text
env_or_default env key fallback =
    let value = get_env env key in if is_empty value then fallback else value

abbrev pub positive_or : Option ℤ → ℕ → ℕ
positive_or none fallback = fallback
positive_or (some z) fallback = if above z 0 then to_nat z else fallback

unfoldable pub env_int64 : Environment → Text → ℕ → ℕ
env_int64 env key fallback =
    let value = get_env env key in
    if is_empty value then fallback else positive_or (env.parse_int value) fallback

-- The loops that drop what was seen before, with the names that are kept so far at the end.
unfoldable pub dedup_from : List Text → List Text → List Text
dedup_from seen [] = []
dedup_from seen (v ∷ values) =
    let skipped = dedup_from seen values in
    let kept = dedup_from (v ∷ seen) values in if member v seen then skipped else v ∷ kept

-- The trimmed parts of a list that are not empty.
unfoldable pub trimmed_parts : List Text → List Text
trimmed_parts [] = []
trimmed_parts (part ∷ parts) =
    let rest = trimmed_parts parts in
    let part' = trim_space part in if is_empty part' then rest else part' ∷ rest

unfoldable pub load_auth_tokens : Environment → List Text
load_auth_tokens env =
    let single = trimmed_parts (get_env env (codes "SROIAAA_AUTH_TOKEN") ∷ []) in
    let multi = get_env env (codes "SROIAAA_AUTH_TOKENS") in
    dedup_from [] (single ++ (if is_empty multi then [] else trimmed_parts (split b',' multi)))

-- The loop of loadConfiguredNames.
unfoldable pub names_from : List Text → List Text → List Text → Result ConfigError (List Text)
names_from known seen [] = ok []
names_from known seen (value ∷ values) =
    let name = trim_space value in
    let skipped = names_from known seen values in
    let kept = names_from known (name ∷ seen) values in
    if is_empty name
    then skipped
    else if not (member name known)
    then err unsupported_value
    else if member name seen
    then skipped
    else kept >>= λ names. ok (name ∷ names)

unfoldable pub load_configured_names :
    Environment → Text → List Text → List Text → Result ConfigError (List Text)
load_configured_names env key defaults known = elim (env.lookup_env key) [
  | none ↦ ok defaults
  | some raw ↦ names_from known [] (split b',' raw)
]

abbrev pub known_operations : List Text
known_operations = map (λ entry. entry.0) operation_catalog

abbrev pub default_enabled_operations : List Text
default_enabled_operations =
    codes "capabilities.describe"
    ∷ codes "host.info"
    ∷ codes "filesystem.list"
    ∷ codes "filesystem.stat"
    ∷ codes "filesystem.read"
    ∷ codes "filesystem.tail"
    ∷ []

abbrev pub host_info_names : List Text
host_info_names =
    codes "hostname"
    ∷ codes "os"
    ∷ codes "arch"
    ∷ codes "cpus"
    ∷ codes "uptime_seconds"
    ∷ codes "kernel_version"
    ∷ []

-- The loop over the allowed roots.
unfoldable pub roots_from : List Text → Result ConfigError (List Text)
roots_from [] = ok []
roots_from (part ∷ parts) =
    let root = trim_space part in
    let rest = roots_from parts in
    if is_empty root
    then rest
    else if not (is_abs root)
    then err relative_root
    else rest >>= λ roots. ok (clean root ∷ roots)

abbrev pub no_members : List Text → Bool
no_members [] = true
no_members (x ∷ xs) = false

unfoldable pub contains_name : List Text → Text → Bool
contains_name names target = member target names

-- An int of the model is a Go int64 and a Go int: both have 64 bits on the agent's platforms.
unfoldable pub load_config : Environment → Result ConfigError AgentConfig
load_config env = do
  enabled ←
      load_configured_names env (codes "SROIAAA_ENABLED_OPERATIONS") default_enabled_operations
        known_operations
  fields ←
      load_configured_names env (codes "SROIAAA_HOST_INFO_FIELDS") host_info_names host_info_names
  let tokens = load_auth_tokens env
  let proc_root = env_or_default env (codes "SROIAAA_PROC_ROOT") (codes "/proc")
  roots ← roots_from (
      split b',' (
        env_or_default env (codes "SROIAAA_ALLOWED_ROOTS")
          (codes "/workspace,/tmp,/var/log/sroiaaa")))
  refuse_if (no_members roots) no_root
  refuse_if (no_members tokens) no_token
  refuse_if (not (is_abs proc_root)) relative_proc_root
  refuse_if (contains_name enabled (codes "host.info") && no_members fields) no_host_info_field
  ok (record {
    auth_tokens = tokens;
    allowed_roots = roots;
    proc_root = proc_root;
    enabled_operations = enabled;
    host_info_fields = fields;
    max_request_bytes = env_int64 env (codes "SROIAAA_MAX_REQUEST_BYTES") 65536;
    max_read_bytes = env_int64 env (codes "SROIAAA_MAX_READ_BYTES") 65536;
    max_tail_bytes = env_int64 env (codes "SROIAAA_MAX_TAIL_BYTES") 65536;
    max_list_entries = env_int64 env (codes "SROIAAA_MAX_LIST_ENTRIES") 256;
    max_process_entries = env_int64 env (codes "SROIAAA_MAX_PROCESS_ENTRIES") 256;
  })

-- ===== src/Broker/Policy.antt =====
-- internal/broker/policy.go: the checks of a broker policy. Decoding the JSON document is the
-- standard library's; a policy arrives here decoded. The order in which Go walks a map is
-- unspecified, and an error carries no more than which check failed.
pub mod Laws
use sroiaaa.Base.{
  ℕ, Bool, true, false, not, ◌&&◌, ◌||◌, Option, none, some, List, [], ◌∷◌, if◌then◌else◌, ltb, leb,
  ◌==◌, Result, ok, err, ◌>>=◌, ◌>>◌, refuse_if, all,
}
use sroiaaa.Base.Int.{ℤ, is_neg, eq_nat, above, below}
use sroiaaa.Base.Text.{
  Text, codes, UnicodeTables, is_letter, is_digit, is_lower, byte_len, is_empty, text_eq,
  trim_space, lookup, member,
}
use sroiaaa.Base.FilePath.{is_abs, clean}
use sroiaaa.Broker.Types.{
  Operation, filesystem_list, filesystem_stat, filesystem_read, filesystem_tail, OperationParams,
  HostPolicy, Resource, Policy, no_params,
}

-- Which check of a policy failed.
pub data PolicyFault : Type 0 where
  bad_version no_live_hosts no_resources : PolicyFault
  name_length name_rune host_length host_rune : PolicyFault
  path_not_absolute path_not_canonical negative_limit : PolicyFault
  list_entries list_other stat_params read_bytes read_entries tail_bytes tail_other : PolicyFault
  not_routable unknown_resource repeated_resource : PolicyFault

abbrev pub policy_version : ℕ
policy_version = 1

abbrev pub max_resource_name_len : ℕ
max_resource_name_len = 64

abbrev pub max_host_selector_len : ℕ
max_host_selector_len = 253

abbrev pub max_policy_read_bytes : ℕ
max_policy_read_bytes = 65536

abbrev pub max_policy_list_items : ℕ
max_policy_list_items = 256

abbrev is_unknown : {V : Type 0} → Option V → Bool
is_unknown none = true
is_unknown (some v) = false

-- A nil map is refused.
abbrev pub present : {V : Type 0} → Option V → PolicyFault → Result PolicyFault V
present none fault = err fault
present (some v) fault = ok v

-- `for key, value := range m { if err := check(key, value) … }`.
unfoldable pub each :
    {V : Type 0}
    → (Text → V → Result PolicyFault (Unit {0}))
    → List (Text × V)
    → Result PolicyFault (Unit {0})
each check [] = ok tt
each check ((k, v) ∷ m) = do check k v; each check m

module _ (tables : UnicodeTables) where
  abbrev is_name_rune : ℕ → Bool
  is_name_rune c = is_lower tables c || is_digit tables c || c == b'.' || c == b'-' || c == b'_'

  abbrev is_host_rune : ℕ → Bool
  is_host_rune c = is_letter tables c || is_digit tables c || c == b'.' || c == b'-' || c == b'_'

  unfoldable pub validate_resource_name : Text → Result PolicyFault (Unit {0})
  validate_resource_name name = do
    refuse_if (is_empty name || ltb max_resource_name_len (byte_len name)) name_length
    refuse_if (not (all is_name_rune name)) name_rune

  unfoldable pub validate_host_selector : Text → Result PolicyFault (Unit {0})
  validate_host_selector host = do
    refuse_if
        (is_empty host
          || ltb max_host_selector_len (byte_len host)
          || not (text_eq (trim_space host) host))
        host_length
    refuse_if (not (all is_host_rune host)) host_rune

-- The parameters that a resource carries, or the zero value.
abbrev pub params_of : Option OperationParams → OperationParams
params_of none = no_params
params_of (some p) = p

abbrev outside : ℤ → ℕ → Bool
outside z most = below z 1 || above z most

-- The `switch resource.Operation` of validateResource.
unfoldable pub check_operation : Operation → OperationParams → Result PolicyFault (Unit {0})
check_operation filesystem_list params = do
  refuse_if (outside params.max_entries max_policy_list_items) list_entries
  refuse_if (not (eq_nat params.offset 0) || not (eq_nat params.max_bytes 0)) list_other
check_operation filesystem_stat params =
    refuse_if
      (not (eq_nat params.offset 0)
        || not (eq_nat params.max_bytes 0)
        || not (eq_nat params.max_entries 0))
      stat_params
check_operation filesystem_read params = do
  refuse_if (outside params.max_bytes max_policy_read_bytes) read_bytes
  refuse_if (not (eq_nat params.max_entries 0)) read_entries
check_operation filesystem_tail params = do
  refuse_if (outside params.max_bytes max_policy_read_bytes) tail_bytes
  refuse_if (not (eq_nat params.offset 0) || not (eq_nat params.max_entries 0)) tail_other
check_operation _ params = err not_routable

unfoldable pub validate_resource : Resource → Result PolicyFault (Unit {0})
unfolding check_operation
validate_resource resource = do
  refuse_if (not (is_abs resource.path)) path_not_absolute
  refuse_if (not (text_eq (clean resource.path) resource.path)) path_not_canonical
  let params = params_of resource.params
  refuse_if (is_neg params.offset || is_neg params.max_bytes || is_neg params.max_entries)
      negative_limit
  check_operation resource.operation params

-- The loop over one host's aliases; `seen` holds those met before.
unfoldable pub check_aliases :
    List (Text × Resource) → List Text → List Text → Result PolicyFault (Unit {0})
check_aliases resources seen [] = ok tt
check_aliases resources seen (name ∷ names) = do
  refuse_if (is_unknown (lookup name resources)) unknown_resource
  refuse_if (member name seen) repeated_resource
  check_aliases resources (name ∷ seen) names

unfoldable pub validate_policy : UnicodeTables → Policy → Result PolicyFault (Unit {0})
unfolding each check_aliases
validate_policy tables policy = do
  refuse_if (not (eq_nat policy.version policy_version)) bad_version
  live_hosts ← present policy.live_hosts no_live_hosts
  resources ← present policy.resources no_resources
  each (λ name resource. validate_resource_name tables name >> validate_resource resource) resources
  each
      (λ host host_policy.
        validate_host_selector tables host >> check_aliases resources [] host_policy.resources)
      live_hosts

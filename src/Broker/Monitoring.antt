-- ===== src/Broker/Monitoring.antt =====
-- internal/broker/monitoring.go: the selectors of the two monitoring intents.
pub mod Laws
use sroiaaa.Base.{
  ℕ, Bool, true, false, not, ◌||◌, Option, none, some, List, [], ◌∷◌, if◌then◌else◌, ltb, Result,
  ok, err, ◌>>=◌, ◌>>◌, refuse_if, or_fail, any,
}
use sroiaaa.Base.Int.{ℤ, pos, eq_nat, is_neg, above}
use sroiaaa.Base.Text.{
  Text, codes, UnicodeTables, is_control, to_lower, byte_len, is_empty, text_eq, trim_space, fields,
  join, lookup,
}
use sroiaaa.Broker.Types.{
  RouteRequest, RouteError, invalid_match, invalid_severity, invalid_state, invalid_limit,
  invalid_request,
}

abbrev pub default_monitoring_limit : ℕ
default_monitoring_limit = 25

abbrev pub max_monitoring_limit : ℕ
max_monitoring_limit = 200

abbrev pub max_match_len : ℕ
max_match_len = 96

-- Which check of a selector failed.
pub data SelectorFault : Type 0 where
  untrimmed_match empty_match long_match control_match : SelectorFault
  unknown_severity unknown_state negative_limit limit_too_large : SelectorFault

abbrev pub severity_floors : List (Text × ℕ)
severity_floors =
    (codes "not classified", 0)
    ∷ (codes "information", 1)
    ∷ (codes "warning", 2)
    ∷ (codes "average", 3)
    ∷ (codes "high", 4)
    ∷ (codes "disaster", 5)
    ∷ []

abbrev pub state_problem : Text
state_problem = codes "problem"

abbrev pub state_resolved : Text
state_resolved = codes "resolved"

unfoldable pub validate_match : Text → Result SelectorFault (Unit {0})
validate_match match = do
  refuse_if (not (text_eq (trim_space match) match)) untrimmed_match
  refuse_if (is_empty match) empty_match
  refuse_if (ltb max_match_len (byte_len match)) long_match
  refuse_if (any is_control match) control_match

unfoldable pub resolve_limit : ℤ → Result SelectorFault ℤ
resolve_limit requested =
    if eq_nat requested 0
    then ok (pos default_monitoring_limit)
    else if is_neg requested
    then err negative_limit
    else if above requested max_monitoring_limit
    then err limit_too_large
    else ok requested

pub record Selectors : Type 0 where
  pub match : Text
  pub severity : Text
  pub state : Text
  pub limit : ℤ

module _ (tables : UnicodeTables) where
  unfoldable pub normalize_severity : Text → Text
  normalize_severity name = join (codes " ") (fields (to_lower tables (trim_space name)))

  unfoldable pub severity_floor : Text → Option ℕ
  unfolding normalize_severity
  severity_floor name = lookup (normalize_severity name) severity_floors

  abbrev has_floor : Option ℕ → Result SelectorFault (Unit {0})
  has_floor none = err unknown_severity
  has_floor (some level) = ok tt

  unfoldable pub validate_severity : Text → Result SelectorFault (Unit {0})
  unfolding severity_floor
  validate_severity severity = has_floor (severity_floor severity)

  unfoldable pub validate_state : Text → Result SelectorFault (Unit {0})
  unfolding normalize_severity
  validate_state state =
      if text_eq (normalize_severity state) state_problem
        || text_eq (normalize_severity state) state_resolved
      then ok tt
      else err unknown_state

  -- Each selector is "" when the request leaves it out.
  unfoldable pub select_match : Text → Result RouteError Text
  unfolding validate_match
  select_match match =
      if is_empty match then ok [] else or_fail (validate_match match) invalid_match >> ok match

  unfoldable pub select_severity : Text → Result RouteError Text
  unfolding validate_severity normalize_severity
  select_severity severity =
      if is_empty severity
      then ok []
      else or_fail (validate_severity severity) invalid_severity >> ok (normalize_severity severity)

  unfoldable pub select_state : Bool → Text → Result RouteError Text
  unfolding validate_state normalize_severity
  select_state allow_state state =
      if is_empty state
      then ok []
      else refuse_if (not allow_state) invalid_request
        >> (or_fail (validate_state state) invalid_state >> ok (normalize_severity state))

  unfoldable pub monitoring_selectors : RouteRequest → Bool → Result RouteError Selectors
  monitoring_selectors request allow_state = do
    match ← select_match request.match
    severity ← select_severity request.severity
    state ← select_state allow_state request.state
    limit ← or_fail (resolve_limit request.limit) invalid_limit
    ok (record { match = match; severity = severity; state = state; limit = limit })

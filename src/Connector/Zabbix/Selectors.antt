-- ===== src/Connector/Zabbix/Selectors.antt =====
-- The parameters of the API calls in internal/connector/zabbix.go: what applySelectors adds for a step, and what
-- each derived query drops. A parameter is a value of the kinds that the code puts into its maps.
pub mod Laws
use sroiaaa.Base.{
  ℕ, zero, suc, ◌-◌, Bool, true, false, not, ◌||◌, Option, none, some, List, [], ◌∷◌, Result, ok,
  err, ◌>>=◌, if◌then◌else◌, ◌==◌,
}
use sroiaaa.Base.Int.{ℤ, pos}
use sroiaaa.Base.Text.{
  Text, UnicodeTables, codes, is_empty, text_eq, trim_left, trim_right, member, put,
}
use sroiaaa.Broker.Types.{RouteStep}
use sroiaaa.Broker.Monitoring.{severity_floor, state_resolved}
use sroiaaa.Connector.Evidence.{ConnectorError, invalid_severity, unsupported_filter}

pub data Param : Type 0 where
  flag : Bool → Param
  number : ℤ → Param
  numbers : List ℕ → Param
  text : Text → Param
  texts : List Text → Param
  -- A map of one entry.
  entry_number : Text → ℕ → Param
  entry_text : Text → Text → Param
  entry_texts : Text → List Text → Param

abbrev pub Params : Type 0
Params = List (Text × Param)

-- The methods of the API that the code calls.
pub data Method : Type 0 where
  trigger_get event_get host_get : Method

abbrev pub is_events : Method → Bool
is_events event_get = true
is_events _ = false

-- `for key, value := range params { switch key { case …: continue }; out[key] = value }`.
unfoldable pub without : List Text → Params → Params
without dropped [] = []
without dropped ((key, value) ∷ params) =
    let rest = without dropped params in if member key dropped then rest else (key, value) ∷ rest

abbrev pub page_keys : List Text
page_keys =
    codes "limit"
    ∷ codes "sortfield"
    ∷ codes "sortorder"
    ∷ codes "selectHosts"
    ∷ codes "expandDescription"
    ∷ []

abbrev pub count_keys : List Text
count_keys = codes "output" ∷ page_keys

abbrev pub time_keys : List Text
time_keys =
    codes "lastChangeSince" ∷ codes "lastChangeTill" ∷ codes "time_from" ∷ codes "time_till" ∷ []

-- strings.Trim(match, "*").
unfoldable pub trim_stars : Text → Text
trim_stars s = trim_left (λ c. c == b'*') (trim_right (λ c. c == b'*') s)

-- The levels from a floor to 5.
abbrev pub levels_from : ℕ → ℕ → List ℕ
levels_from floor zero = []
levels_from floor (suc n) = floor ∷ levels_from (suc floor) n

abbrev pub search_column : Method → Text
search_column event_get = codes "name"
search_column _ = codes "description"

abbrev pub select_match : Method → Text → Params → Params
select_match method [] params = params
select_match method (c ∷ s) params =
    put (codes "search") (entry_text (search_column method) (trim_stars (c ∷ s))) params

abbrev pub at_floor : Method → ℕ → Params → Params
at_floor event_get floor params =
    put (codes "severities") (numbers (levels_from floor (6 - floor))) params
at_floor _ floor params = put (codes "min_severity") (number (pos floor)) params

abbrev pub select_severity : UnicodeTables → Method → Text → Params → Result ConnectorError Params
select_severity tables method [] params = ok params
select_severity tables method (c ∷ s) params = elim (severity_floor tables (c ∷ s)) [
  | some floor ↦ ok (at_floor method floor params)
  | none ↦ err invalid_severity
]

abbrev pub select_state : Method → Text → Params → Result ConnectorError Params
select_state method [] params = ok params
select_state event_get (c ∷ s) params =
    ok (
      put (codes "value") (numbers ((if text_eq (c ∷ s) state_resolved then 0 else 1) ∷ [])) params)
select_state _ (c ∷ s) params = err unsupported_filter

unfoldable pub apply_selectors :
    UnicodeTables → Params → Method → RouteStep → Result ConnectorError Params
apply_selectors tables params method step =
    select_severity tables method step.severity (select_match method step.match params)
    >>= λ chosen. select_state method step.state chosen

-- ===== src/Connector/Evidence.antt =====
-- internal/connector/types.go: evidence, its items, and the codes of connector errors. The times of a
-- request are left out. A warning is the sentence that the code composes, with the numbers it names.
use sroiaaa.Base.{◌∷◌, ℕ, ◌+◌, Bool, false, Option, none, List, []}
use sroiaaa.Base.Int.{ℤ, pos}
use sroiaaa.Base.Text.{Text}
use sroiaaa.Broker.Types.{Action}

pub record EvidenceItem : Type 0 where
  pub id : Text
  pub host : Text
  pub description : Text
  pub severity : Text
  pub state : Text
  pub fields : List (Text × Text)

-- The sum of a breakdown's counts.
unfoldable pub sum_counts : List (Text × ℕ) → ℕ
sum_counts [] = 0
sum_counts ((name, n) ∷ counts) = n + sum_counts counts

-- The sentences that a connector appends to `Warnings`.
pub data Warning : Type 0 where
  queue_census_skipped : (queues : ℕ) → Warning
  owners_capped : (accounted : ℕ) → (total : ℤ) → Warning
  owners_floor : (accounted : ℕ) → (total : ℤ) → Warning
  hosts_trimmed : (hosts : ℕ) → Warning
  hosts_floor : (examined : ℕ) → (total : ℤ) → Warning
  bound_excludes : (bounded total : ℤ) → Warning

pub record Evidence : Type 0 where
  pub source : Text
  pub action : Action
  pub endpoint : Text
  pub query : Text
  pub since : Text
  pub until : Text
  pub match : Text
  pub severity : Text
  pub state : Text
  pub item_count : ℕ
  pub total_available : ℤ
  pub summary : List (Text × ℤ)
  pub warnings : List Warning
  pub breakdown : List (Text × List (Text × ℕ))
  pub truncated : Bool
  pub content : Option Text
  pub items : List EvidenceItem

abbrev pub empty_evidence : Text → Action → Evidence
empty_evidence source action = record {
  source = source;
  action = action;
  endpoint = [];
  query = [];
  since = [];
  until = [];
  match = [];
  severity = [];
  state = [];
  item_count = 0;
  total_available = pos 0;
  summary = [];
  warnings = [];
  breakdown = [];
  truncated = false;
  content = none;
  items = [];
}

-- The `Code` of a ConnectorError.
pub data ConnectorError : Type 0 where
  wrong_source unsupported_action unsupported_filter invalid_since invalid_until : ConnectorError
  invalid_severity invalid_time_bound invalid_query invalid_operation invalid_target :
      ConnectorError
  encode_request build_request transport http_status read_response : ConnectorError
  response_too_large decode_response zabbix_error authentication_failed : ConnectorError
  query_failed query_timeout count_failed scan_failed unknown_host agent_error : ConnectorError

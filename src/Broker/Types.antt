-- ===== src/Broker/Types.antt =====
-- internal/broker/types.go: intents, sources, requests, plans, policies and route errors.
-- Go spells an intent, a source, an operation and an error code as a string; here each is an
-- enumeration of the declared constants, with `other` for a string that names none of them. A
-- message of an error is prose that no code reads, and is left out.
use native.Mathlib.Decide.{ℕ_discrete}
use sroiaaa.Base.{Option, none, some, List, [], ◌∷◌}
use sroiaaa.Base.Text.{Text}
use sroiaaa.Base.Int.{ℤ, pos}

pub data Intent : Type 0 where
  fleet_inventory agent_status monitoring_problems live_evidence : Intent
  database_query monitoring_history tickets_open tickets_by_host : Intent
  other : Text → Intent

pub data Source : Type 0 where
  wazuh_api zabbix_api sroiaaa_agent pegasus_db request_tracker : Source
  other : Text → Source

-- The actions that the router writes into a step.
pub data Action : Type 0 where
  agents_list agents_status trigger_get event_get : Action
  query_execute operations_execute tickets_search : Action
  other : Text → Action

-- The operations of the endpoint agent that a policy may name; `unset` is the empty string.
pub data Operation : Type 0 where
  unset filesystem_list filesystem_stat filesystem_read filesystem_tail : Operation
  other : Text → Operation

pub record RouteRequest : Type 0 where
  pub intent : Intent
  pub host : Text
  pub resource : Text
  pub query : Text
  pub since : Text
  pub until : Text
  pub match : Text
  pub severity : Text
  pub state : Text
  pub limit : ℤ

pub record OperationParams : Type 0 where
  pub offset : ℤ
  pub max_bytes : ℤ
  pub max_entries : ℤ

pub record RouteStep : Type 0 where
  pub source : Source
  pub action : Action
  pub host : Text
  pub limit : ℤ
  pub operation : Operation
  pub query : Text
  pub since : Text
  pub until : Text
  pub match : Text
  pub severity : Text
  pub state : Text
  pub target : Option Text
  pub params : Option OperationParams

pub record RoutePlan : Type 0 where
  pub version : ℤ
  pub intent : Intent
  pub steps : List RouteStep

pub record HostPolicy : Type 0 where
  pub resources : List Text

pub record Resource : Type 0 where
  pub operation : Operation
  pub path : Text
  pub params : Option OperationParams

-- A nil map is `none`.
pub record Policy : Type 0 where
  pub version : ℤ
  pub live_hosts : Option (List (Text × HostPolicy))
  pub resources : Option (List (Text × Resource))

-- The `Code` of a `RouteError`.
pub data RouteError : Type 0 where
  invalid_since invalid_until invalid_request invalid_host invalid_resource : RouteError
  invalid_match invalid_severity invalid_state invalid_limit invalid_query : RouteError
  missing_host missing_resource missing_since unknown_intent : RouteError
  host_not_authorized resource_not_authorized : RouteError
  invalid_plan plan_not_authorized : RouteError

unfoldable pub source_for_intent : Intent → Option Source
source_for_intent fleet_inventory = some wazuh_api
source_for_intent agent_status = some wazuh_api
source_for_intent monitoring_problems = some zabbix_api
source_for_intent live_evidence = some sroiaaa_agent
source_for_intent database_query = some pegasus_db
source_for_intent monitoring_history = some zabbix_api
source_for_intent tickets_open = some request_tracker
source_for_intent tickets_by_host = some request_tracker
source_for_intent (other s) = none

abbrev pub all_intents : List Intent
all_intents =
    fleet_inventory ∷ agent_status ∷ monitoring_problems ∷ live_evidence ∷ database_query
    ∷ monitoring_history ∷ tickets_open ∷ tickets_by_host ∷ []

-- Go's zero values.
abbrev pub no_params : OperationParams
no_params = record { offset = pos 0; max_bytes = pos 0; max_entries = pos 0 }

abbrev pub empty_request : Intent → RouteRequest
empty_request i = record {
  intent = i;
  host = [];
  resource = [];
  query = [];
  since = [];
  until = [];
  match = [];
  severity = [];
  state = [];
  limit = pos 0;
}

abbrev pub empty_step : Source → Action → RouteStep
empty_step s a = record {
  source = s;
  action = a;
  host = [];
  limit = pos 0;
  operation = unset;
  query = [];
  since = [];
  until = [];
  match = [];
  severity = [];
  state = [];
  target = none;
  params = none;
}

-- reflect.DeepEqual on plans compares values, through the pointers.
pub Text-discrete : Discrete Text
Text-discrete = hlevel ℕ_discrete

pub ℤ-discrete : Discrete ℤ
ℤ-discrete = hlevel ℕ_discrete

OperationParams-discrete : Discrete OperationParams
OperationParams-discrete = hlevel ℤ-discrete

RouteStep-discrete : Discrete RouteStep
RouteStep-discrete = hlevel (ℕ_discrete, ℤ-discrete, Text-discrete, OperationParams-discrete)

unfoldable pub RoutePlan-discrete : Discrete RoutePlan
unfolding Text-discrete ℤ-discrete OperationParams-discrete RouteStep-discrete
RoutePlan-discrete = hlevel (ℕ_discrete, ℤ-discrete, Text-discrete, RouteStep-discrete)

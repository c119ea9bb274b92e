-- ===== src/Broker/Router.antt =====
-- internal/broker/router.go: a request becomes a plan by policy, and a plan is verified by planning
-- again. Package time is the interface `Calendar`; each call of time.Now is an argument.
pub mod Shape
pub mod Selected
pub mod Carries
pub mod Again
pub mod Verify
pub mod Complete
pub mod Windows
pub mod Live
pub mod Ahead
pub mod Honours
pub mod Valid
use mathlib.Core.List.{map}
use sroiaaa.Base.{
  ℕ, suc, ◌+◌, ◌*◌, Bool, true, false, not, ◌&&◌, ◌||◌, Option, none, some, List, [], ◌∷◌,
  if◌then◌else◌, ltb, leb, ◌==◌, Result, ok, err, ◌>>=◌, ◌>>◌, refuse_if, or_fail,
}
use sroiaaa.Base.Int.{ℤ, pos, eq_nat}
use sroiaaa.Base.Text.{Text, UnicodeTables, is_empty, trim_space, lookup, member}
use sroiaaa.Broker.Types.{
  Intent, fleet_inventory, agent_status, monitoring_problems, live_evidence, database_query,
  monitoring_history, tickets_open, tickets_by_host, other, Source, wazuh_api, zabbix_api,
  sroiaaa_agent, pegasus_db, request_tracker, agents_list, agents_status, trigger_get, event_get,
  query_execute, operations_execute, tickets_search, unset, RouteRequest, RouteStep, RoutePlan,
  HostPolicy, Resource, Policy, RouteError, invalid_since, invalid_until, invalid_request,
  invalid_host, invalid_resource, invalid_query, missing_host, missing_resource, missing_since,
  unknown_intent, host_not_authorized, resource_not_authorized, invalid_plan, plan_not_authorized,
  empty_request, empty_step, RoutePlan-discrete,
}
use sroiaaa.Broker.Policy.{
  PolicyFault, no_live_hosts, no_resources, present, validate_policy, validate_host_selector,
  validate_resource_name,
}
use sroiaaa.Broker.Sql.{validate_query, max_query_rows}
use sroiaaa.Broker.Monitoring.{Selectors, monitoring_selectors}
use sroiaaa.Broker.Since.{Instant, Calendar, zero_time, parse_since, parse_until}

abbrev pub plan_version : ℕ
plan_version = 1

abbrev pub fleet_inventory_limit : ℕ
fleet_inventory_limit = 500

abbrev pub ticket_search_limit : ℕ
ticket_search_limit = 100

pub record Router : Type 0 where
  pub live_hosts : List (Text × List Text)
  pub resources : List (Text × Resource)

abbrev pub aliases_of : Text × HostPolicy → Text × List Text
aliases_of (host, policy) = (host, policy.resources)

unfoldable pub new_router : UnicodeTables → Policy → Result PolicyFault Router
new_router tables policy = do
  validate_policy tables policy
  live_hosts ← present policy.live_hosts no_live_hosts
  resources ← present policy.resources no_resources
  ok (record { live_hosts = map aliases_of live_hosts; resources = resources })

-- The bounds as a step carries them: RFC 3339, or "" where there is none.
pub record Window : Type 0 where
  pub since : Text
  pub until : Text

abbrev pub new_plan : Intent → RouteStep → RoutePlan
new_plan intent step = record { version = pos plan_version; intent = intent; steps = step ∷ [] }

abbrev pub has_selectors : RouteRequest → Bool
has_selectors request =
    not (is_empty request.match)
    || not (is_empty request.severity)
    || not (is_empty request.state)
    || not (eq_nat request.limit 0)

abbrev pub takes_selectors : Intent → Bool
takes_selectors monitoring_problems = true
takes_selectors monitoring_history = true
takes_selectors _ = false

-- `request.Host != "" || request.Resource != ""`, and the same of the window.
abbrev pub names_target : RouteRequest → Bool
names_target request = not (is_empty request.host) || not (is_empty request.resource)

abbrev pub has_window : RouteRequest → Bool
has_window request = not (is_empty request.since) || not (is_empty request.until)

-- The zero Resource, which a map gives for a missing key.
abbrev pub resource_or_zero : Option Resource → Resource
resource_or_zero none = record { operation = unset; path = []; params = none }
resource_or_zero (some r) = r

abbrev pub live_step : Text → Resource → RouteStep
live_step host resource = record (empty_step sroiaaa_agent operations_execute) {
  host = host;
  operation = resource.operation;
  target = some resource.path;
  params = resource.params;
}

abbrev pub problems_step : Window → RouteRequest → Selectors → RouteStep
problems_step window request chosen = record (empty_step zabbix_api trigger_get) {
  host = request.host;
  limit = chosen.limit;
  since = window.since;
  until = window.until;
  match = chosen.match;
  severity = chosen.severity;
}

abbrev pub history_step : Window → RouteRequest → Selectors → RouteStep
history_step window request chosen = record (empty_step zabbix_api event_get) {
  host = request.host;
  limit = chosen.limit;
  since = window.since;
  until = window.until;
  match = chosen.match;
  severity = chosen.severity;
  state = chosen.state;
}

-- The requests that could have made a plan whose first step is `step`.
abbrev pub live_requests : Intent → Text → Option (List Text) → List RouteRequest
live_requests intent host none = []
live_requests intent host (some allowed) =
    map (λ alias. record (empty_request intent) { host = host; resource = alias }) allowed

-- The selectors are carried in the plan as they are, and read back.
abbrev pub monitoring_request : Intent → RouteStep → RouteRequest
monitoring_request intent step = record (empty_request intent) {
  host = step.host;
  since = step.since;
  until = step.until;
  match = step.match;
  severity = step.severity;
  state = step.state;
  limit = step.limit;
}

unfoldable pub candidate_requests : Router → Intent → RouteStep → List RouteRequest
candidate_requests r fleet_inventory step = empty_request fleet_inventory ∷ []
candidate_requests r agent_status step =
    record (empty_request agent_status) { host = step.host } ∷ []
candidate_requests r database_query step =
    record (empty_request database_query) { query = step.query } ∷ []
candidate_requests r live_evidence step =
    live_requests live_evidence step.host (lookup step.host r.live_hosts)
candidate_requests r tickets_open step =
    record (empty_request tickets_open) { since = step.since; until = step.until } ∷ []
candidate_requests r tickets_by_host step =
    record (empty_request tickets_by_host) {
      host = step.host;
      since = step.since;
      until = step.until;
    }
    ∷ []
candidate_requests r (other s) step = []
candidate_requests r monitoring_problems step = monitoring_request monitoring_problems step ∷ []
candidate_requests r monitoring_history step = monitoring_request monitoring_history step ∷ []

module _ (tables : UnicodeTables) (cal : Calendar) where
  unfoldable pub valid_host : Text → Result RouteError (Unit {0})
  valid_host host = or_fail (validate_host_selector tables host) invalid_host

  abbrev pub format_bound : Instant → Text
  format_bound t = if t == zero_time then [] else cal.format_rfc3339 t

  -- The window of a request; the clock is read once for each bound.
  unfoldable pub parse_window : Instant → Instant → RouteRequest → Result RouteError Window
  parse_window now_since now_until request = do
    since ← or_fail (parse_since tables cal request.since now_since) invalid_since
    until ← or_fail (parse_until tables cal request.until now_until) invalid_until
    refuse_if (not (since == zero_time) && not (until == zero_time) && leb until since)
        invalid_until
    ok (record { since = format_bound since; until = format_bound until })

  unfoldable pub require_host_only : RouteRequest → Result RouteError (Unit {0})
  unfolding valid_host
  require_host_only request = do
    refuse_if (is_empty request.host) missing_host
    refuse_if (not (is_empty request.resource)) invalid_request
    valid_host request.host

  -- A host selector that may be left out.
  unfoldable pub optional_host : Text → Result RouteError (Unit {0})
  unfolding valid_host
  optional_host host = if is_empty host then ok tt else valid_host host

  -- The alias among those of the host.
  abbrev pub authorize : Option (List Text) → Text → Result RouteError (Unit {0})
  authorize none alias = err host_not_authorized
  authorize (some allowed) alias = refuse_if (not (member alias allowed)) resource_not_authorized

  unfoldable pub live_evidence_step : Router → RouteRequest → Result RouteError RouteStep
  unfolding valid_host
  live_evidence_step r request = do
    refuse_if (is_empty request.host) missing_host
    valid_host request.host
    refuse_if (is_empty request.resource) missing_resource
    or_fail (validate_resource_name tables request.resource) invalid_resource
    refuse_if (has_window request) invalid_request
    authorize (lookup request.host r.live_hosts) request.resource
    let resource = resource_or_zero (lookup request.resource r.resources)
    ok (live_step request.host resource)

  -- The second `switch request.Intent` of Plan. Every branch that succeeds returns
  -- `newPlan(request.Intent, step)`; the step is made here, and `plan` wraps it.
  unfoldable pub step_for : Router → Window → Intent → RouteRequest → Result RouteError RouteStep
  unfolding require_host_only optional_host live_evidence_step
  step_for r window fleet_inventory request = do
    refuse_if (names_target request) invalid_request
    refuse_if (has_window request) invalid_request
    ok (record (empty_step wazuh_api agents_list) { limit = pos fleet_inventory_limit })
  step_for r window agent_status request = do
    require_host_only request
    refuse_if (has_window request) invalid_request
    ok (record (empty_step wazuh_api agents_status) { host = request.host })
  step_for r window monitoring_problems request = do
    refuse_if (not (is_empty request.resource)) invalid_request
    optional_host request.host
    chosen ← monitoring_selectors tables request false
    ok (problems_step window request chosen)
  step_for r window database_query request = do
    refuse_if (names_target request) invalid_request
    refuse_if (has_window request) invalid_request
    or_fail (validate_query tables request.query) invalid_query
    ok (record (empty_step pegasus_db query_execute) {
      query = trim_space request.query;
      limit = pos max_query_rows;
    })
  step_for r window monitoring_history request = do
    refuse_if (not (is_empty request.resource)) invalid_request
    optional_host request.host
    refuse_if (is_empty window.since) missing_since
    chosen ← monitoring_selectors tables request true
    ok (history_step window request chosen)
  step_for r window live_evidence request = live_evidence_step r request
  step_for r window tickets_open request = do
    refuse_if (names_target request) invalid_request
    ok (record (empty_step request_tracker tickets_search) {
      limit = pos ticket_search_limit;
      since = window.since;
      until = window.until;
    })
  step_for r window tickets_by_host request = do
    require_host_only request
    ok (record (empty_step request_tracker tickets_search) {
      host = request.host;
      limit = pos ticket_search_limit;
      since = window.since;
      until = window.until;
    })
  step_for r window (other s) request = err unknown_intent

  unfoldable pub plan : Router → Instant → Instant → RouteRequest → Result RouteError RoutePlan
  plan r now_since now_until request = do
    window ← parse_window now_since now_until request
    refuse_if (not (takes_selectors request.intent) && has_selectors request) invalid_request
    step ← step_for r window request.intent request
    ok (new_plan request.intent step)

  -- reflect.DeepEqual(produced, plan), where planning succeeded.
  abbrev pub produces : Result RouteError RoutePlan → RoutePlan → Bool
  produces (err e) p = false
  produces (ok produced) p = elim (RoutePlan-discrete produced p) [ yes _ ↦ true | no _ ↦ false ]

  -- The loop of Verify: the clock is read twice for each candidate, `clock k` the k-th time.
  unfoldable pub verify_candidates :
      Router → (ℕ → Instant) → ℕ → RoutePlan → List RouteRequest → Result RouteError (Unit {0})
  verify_candidates r clock k p [] = err plan_not_authorized
  verify_candidates r clock k p (candidate ∷ rest) =
      let later = verify_candidates r clock (k + 2) p rest in
      if produces (plan r (clock k) (clock (k + 1)) candidate) p then ok tt else later

  unfoldable pub verify_steps :
      Router → (ℕ → Instant) → RoutePlan → List RouteStep → Result RouteError (Unit {0})
  unfolding verify_candidates
  verify_steps r clock p [] = err invalid_plan
  verify_steps r clock p (step ∷ steps) =
      verify_candidates r clock 0 p (candidate_requests r p.intent step)

  unfoldable pub verify : Router → (ℕ → Instant) → RoutePlan → Result RouteError (Unit {0})
  unfolding verify_steps
  verify r clock p = verify_steps r clock p p.steps

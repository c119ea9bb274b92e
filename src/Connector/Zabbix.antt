-- ===== src/Connector/Zabbix.antt =====
-- internal/connector/zabbix.go: the connector of Zabbix, its configuration, and the execution of a step.
pub mod Calls
pub mod Queries
pub mod Report
pub mod Selectors
pub mod Rows
pub mod Filters
pub mod Hosts
pub mod Matching
pub mod Exact
pub mod Totals
mod Tests
use sroiaaa.Connector.Zabbix.Queries.{
  zabbix_max_limit, Moment, zabbix_limit, trigger_params, event_params, at_host, parsed_bound,
  changed_since, changed_till, bounded_by, triggers_of, events_of,
}
use sroiaaa.Connector.Zabbix.Report.{
  put_all, summarize, zabbix_evidence, count_hosts_in_page, warn_if, host_breakdown,
  time_comparison,
}
use mathlib.Core.List.{map}
use sroiaaa.Base.{
  ℕ, Bool, true, false, not, ◌||◌, ◌&&◌, Option, none, some, List, [], ◌∷◌, ◌++◌, Result, ok, err,
  if◌then◌else◌, ltb, leb, length,
}
use sroiaaa.Base.Int.{ℤ, pos, above, to_nat, eq_nat, greater}
use sroiaaa.Base.Text.{Text, UnicodeTables, codes, is_empty, text_eq, put}
use sroiaaa.Broker.Types.{zabbix_api, Action, RouteStep}
use sroiaaa.Connector.{source_eq}
use sroiaaa.Connector.Attempt.{Attempt, done, ◌>>=◌, ◌>>◌, fail_if, found, lifted}
use sroiaaa.Connector.Evidence.{
  EvidenceItem, Warning, hosts_trimmed, hosts_floor, bound_excludes, Evidence, empty_evidence,
  ConnectorError, wrong_source, unsupported_action, invalid_since, invalid_until,
}
use sroiaaa.Connector.Zabbix.Selectors.{
  Param, flag, number, numbers, text, texts, Params, Method, trigger_get, event_get, is_events,
  without, time_keys, apply_selectors,
}
use sroiaaa.Connector.Zabbix.Rows.{
  Counts, normalize_trigger, normalize_event, format_epoch, hosts_in, max_breakdown_hosts,
  top_hosts,
}
use sroiaaa.Connector.Zabbix.Calls.{
  max_host_census_rows, ZabbixConnector, ZabbixHost, call_for, count_matching, census, host_census,
  host_exists,
}

abbrev pub zabbix_max_response_bytes : ℕ
zabbix_max_response_bytes = 1048576

-- zabbixMethods.
abbrev pub zabbix_method : Action → Option Method
zabbix_method Action.trigger_get = some trigger_get
zabbix_method Action.event_get = some event_get
zabbix_method _ = none

pub record ZabbixConfig : Type 0 where
  pub endpoint : Text
  pub token : Text
  pub max_response_bytes : ℤ

pub data ZabbixConfigError : Type 0 where
  no_endpoint bad_endpoint bad_scheme no_host no_token : ZabbixConfigError

abbrev pub checked_parts : Option (Text × Text) → Text → Option ZabbixConfigError
checked_parts none token = some bad_endpoint
checked_parts (some (scheme, host)) token =
    if not (text_eq scheme (codes "https") || text_eq scheme (codes "http"))
    then some bad_scheme
    else if is_empty host
    then some no_host
    else if is_empty token
    then some no_token
    else none

abbrev pub made_zabbix :
    ZabbixConfig → Option ZabbixConfigError → Result ZabbixConfigError ZabbixConnector
made_zabbix config (some e) = err e
made_zabbix config none = ok (record {
  endpoint = config.endpoint;
  token = config.token;
  max_response_bytes =
      (if above config.max_response_bytes 0
        then to_nat config.max_response_bytes
        else zabbix_max_response_bytes);
})

-- `parse_url` is url.Parse: the scheme and the host.
unfoldable pub new_zabbix_connector :
    (Text → Option (Text × Text)) → ZabbixConfig → Result ZabbixConfigError ZabbixConnector
new_zabbix_connector parse_url config =
    if is_empty config.endpoint
    then err no_endpoint
    else made_zabbix config (checked_parts (parse_url config.endpoint) config.token)

module _ {W : Type 0} (tables : UnicodeTables) (host : ZabbixHost W) (parse : Text → Option Moment)
    (endpoint : Text) where
  unfoldable pub with_hosts : Method → Params → ℤ → Evidence → Attempt W Evidence
  with_hosts method params total e =
      if e.truncated
      then (host_census host method params >>= λ r. done (host_breakdown total r.0 r.1 e))
      else done (count_hosts_in_page e)

  unfoldable pub with_comparison : RouteStep → Params → ℤ → Evidence → Attempt W Evidence
  with_comparison step params bounded e =
      if is_empty step.since && is_empty step.until
      then done e
      else (count_matching host trigger_get (without time_keys params) >>= λ total.
          done (time_comparison bounded total e))

  -- `endpoint` is the redacted one.
  unfoldable pub with_known : RouteStep → ℤ → List (Text × ℤ) → Attempt W (List (Text × ℤ))
  with_known step total summary =
      if not (is_empty step.host) && eq_nat total 0
      then (host_exists host step.host >>= λ known.
          done (put (codes "host_known") (pos (if known then 1 else 0)) summary))
      else done summary

  abbrev pub format : Text → Text
  format = format_epoch host.parse_int host.format_unix

  unfoldable pub execute_triggers : RouteStep → ℕ → Attempt W Evidence
  execute_triggers step limit = do
    since ← lifted (parsed_bound parse step.since invalid_since)
    until ← lifted (parsed_bound parse step.until invalid_until)
    params ← lifted (triggers_of tables step limit since until)
    triggers ← call_for host host.decode_triggers trigger_get params
    counted ← census host trigger_get params
    let items = map (normalize_trigger format) triggers
    summary ← with_known step counted.0 (summarize (length items) counted.0 counted.1)
    e ←
        with_hosts trigger_get params counted.0
          (zabbix_evidence endpoint step items counted.0 summary)
    with_comparison step params counted.0 e

  unfoldable pub execute_events : RouteStep → ℕ → Attempt W Evidence
  execute_events step limit = do
    from ← lifted (parsed_bound parse step.since invalid_since)
    till ← lifted (parsed_bound parse step.until invalid_until)
    params ← lifted (events_of tables step limit from till)
    events ← call_for host host.decode_events event_get params
    counted ← census host event_get params
    let items = map (normalize_event format) events
    let summary = summarize (length items) counted.0 counted.1
    with_hosts event_get params counted.0
        (record (zabbix_evidence endpoint step items counted.0 summary) { state = step.state })

  abbrev pub execute_method : Method → RouteStep → ℕ → Attempt W Evidence
  execute_method event_get step limit = execute_events step limit
  execute_method _ step limit = execute_triggers step limit

  unfoldable pub zabbix_execute : RouteStep → Attempt W Evidence
  zabbix_execute step = do
    fail_if (not (source_eq step.source zabbix_api)) wrong_source
    method ← found (zabbix_method step.action) unsupported_action
    execute_method method step (zabbix_limit step.limit)

-- ===== src/Connector/Rt.antt =====
-- internal/connector/rt.go: the connector of Request Tracker, its configuration, and the execution of a step.
pub mod Query
pub mod Tickets
pub mod Queries
pub mod Accounts
mod Tests
use mathlib.Core.List.{map}
use sroiaaa.Base.{
  ℕ, ◌+◌, Bool, true, false, not, ◌||◌, Option, none, some, List, [], ◌∷◌, ◌++◌, Result, ok, err,
  if◌then◌else◌, ltb, ◌==◌, length,
}
use sroiaaa.Base.Int.{ℤ, pos, above, to_nat}
use sroiaaa.Base.Text.{Text, codes, is_empty, text_eq, trim_right, kept_parts, put}
use sroiaaa.Broker.Types.{Source, request_tracker, Action, tickets_search, RouteStep}
use sroiaaa.Broker.Since.{Instant}
use sroiaaa.Connector.{source_eq}
use sroiaaa.Connector.Attempt.{
  Attempt, done, fail, ◌>>=◌, ◌>>◌, fail_if, found, lifted, Http, round_trip,
}
use sroiaaa.Connector.Evidence.{
  sum_counts, EvidenceItem, Warning, queue_census_skipped, owners_capped, owners_floor, Evidence,
  empty_evidence, ConnectorError, wrong_source, unsupported_action, invalid_time_bound,
  decode_response, authentication_failed, http_status,
}
use sroiaaa.Connector.Rt.Query.{ticket_search_query}
use sroiaaa.Connector.Rt.Tickets.{TicketJson, decode_tickets, normalize_ticket, owners_on_page}

abbrev pub rt_max_response_bytes : ℕ
rt_max_response_bytes = 1048576

abbrev pub max_rt_queue_census : ℕ
max_rt_queue_census = 20

abbrev pub rt_search_fields : Text
rt_search_fields = codes "Subject,Status,Queue,Owner,Created,LastUpdated"

abbrev pub tickets_path : Text
tickets_path = codes "/REST/2.0/tickets"

-- rtActions.
abbrev pub rt_action : Action → Option Text
rt_action tickets_search = some tickets_path
rt_action _ = none

pub record RtConfig : Type 0 where
  pub endpoint : Text
  pub token : Text
  pub queues : List Text
  pub max_response_bytes : ℤ

pub record RtConnector : Type 0 where
  pub endpoint : Text
  pub token : Text
  pub queues : List Text
  pub max_response_bytes : ℕ

pub data RtConfigError : Type 0 where
  no_endpoint bad_endpoint bad_scheme no_host no_token no_queue : RtConfigError

abbrev pub checked_url : Option (Text × Text) → Option RtConfigError
checked_url none = some bad_endpoint
checked_url (some (scheme, host)) =
    if not (text_eq scheme (codes "https") || text_eq scheme (codes "http"))
    then some bad_scheme
    else if is_empty host
    then some no_host
    else none

abbrev pub rt_connector : RtConfig → RtConnector
rt_connector config = record {
  endpoint = trim_right (λ c. c == b'/') config.endpoint;
  token = config.token;
  queues = kept_parts config.queues;
  max_response_bytes =
      if above config.max_response_bytes 0
      then to_nat config.max_response_bytes
      else rt_max_response_bytes;
}

abbrev pub after_url : RtConfig → Option RtConfigError → Result RtConfigError RtConnector
after_url config (some e) = err e
after_url config none =
    if is_empty config.token
    then err no_token
    else if length (kept_parts config.queues) == 0
    then err no_queue
    else ok (rt_connector config)

-- `parse_url` is url.Parse: the scheme and the host.
unfoldable pub new_rt_connector :
    (Text → Option (Text × Text)) → RtConfig → Result RtConfigError RtConnector
new_rt_connector parse_url config =
    if is_empty config.endpoint
    then err no_endpoint
    else after_url config (checked_url (parse_url config.endpoint))

-- A GET request: the path and the parameters. The endpoint before it and the headers are the connector's.
pub record RtRequest : Type 0 where
  pub path : Text
  pub values : List (Text × Text)

-- A response of a search, as encoding/json reads it.
pub record SearchJson : Type 0 where
  pub total : ℤ
  pub items : List TicketJson

-- net/http, encoding/json and package time, for this connector.
pub record RtHost (W : Type 0) : Type 0 where
  pub http : Http W RtRequest
  pub decode_search : List ℕ → Option SearchJson
  pub decode_total : List ℕ → Option ℤ
  pub itoa : ℤ → Text
  pub parse_rfc3339 : Text → Option Instant
  -- Format("2006-01-02 15:04:05") in the connector's location.
  pub format_local : Instant → Text
  -- redactEndpoint.
  pub redact : Text → Text

-- rtStatusError.
abbrev pub rt_status_error : ℕ → ConnectorError
rt_status_error status =
    if status == 401 || status == 403 then authentication_failed else http_status

abbrev pub counted : Text → ℤ → List (Text × ℕ) → List (Text × ℕ)
counted name total counts = if above total 0 then put name (to_nat total) counts else counts

-- What the censuses add to the evidence.
abbrev pub Added : Type 0
Added = List Warning × List (Text × List (Text × ℕ))

-- `accounted` is the sum of the counts, an int; RT's totals keep it far below 2^63.
abbrev pub owner_warnings : Bool → ℕ → ℤ → List Warning
owner_warnings capped accounted total =
    if capped
    then owners_capped accounted total ∷ []
    else if above total accounted
    then owners_floor accounted total ∷ []
    else []

abbrev pub rt_limit : ℤ → ℤ
rt_limit limit = if above limit 0 then limit else pos 100

abbrev pub rt_unsupported : Option Text → Bool
rt_unsupported none = true
rt_unsupported (some path) = false

module _ {W : Type 0} (host : RtHost W) where
  unfoldable pub rt_date_bound : Text → Attempt W Text
  rt_date_bound [] = done []
  rt_date_bound (c ∷ s) = do
    moment ← found (host.parse_rfc3339 (c ∷ s)) invalid_time_bound
    done (host.format_local moment)

  module _ (c : RtConnector) where
    -- A search of one ticket list, with the response's body where the status is 200.
    unfoldable pub get_ok : List (Text × Text) → Attempt W (List ℕ)
    get_ok values = do
      reply ←
          round_trip host.http c.max_response_bytes
            (record { path = tickets_path; values = values })
      fail_if (not (reply.0 == 200)) (rt_status_error reply.0)
      done reply.1

    abbrev pub search_values : Text → ℤ → List (Text × Text)
    search_values query limit =
        (codes "query", query)
        ∷ (codes "fields", rt_search_fields)
        ∷ (codes "fields[Queue]", codes "Name")
        ∷ (codes "per_page", host.itoa limit)
        ∷ (codes "orderby", codes "-Created")
        ∷ []

    abbrev pub count_values : Text → List (Text × Text)
    count_values query = (codes "query", query) ∷ (codes "per_page", codes "1") ∷ []

    unfoldable pub search : Text → ℤ → Attempt W (List EvidenceItem × ℤ)
    search query limit = do
      body ← get_ok (search_values query limit)
      envelope ← found (host.decode_search body) decode_response
      tickets ← lifted (decode_tickets envelope.items)
      done (map normalize_ticket tickets, envelope.total)

    -- The loop of queueCensus and of ownerCensus: one request for each name.
    unfoldable pub census :
        (Text → Text) → List Text → List (Text × ℕ) → Attempt W (List (Text × ℕ))
    census query [] counts = done counts
    census query (name ∷ names) counts = do
      body ← get_ok (count_values (query name))
      total ← found (host.decode_total body) decode_response
      census query names (counted name total counts)

    unfoldable pub queue_census : (host_name since until : Text) → Attempt W (List (Text × ℕ))
    queue_census host_name since until =
        census (λ queue. ticket_search_query host_name [] since until (queue ∷ [])) c.queues []

    unfoldable pub owner_census :
        List Text → (host_name since until : Text) → Attempt W (List (Text × ℕ))
    owner_census owners host_name since until =
        census (λ owner. ticket_search_query host_name owner since until c.queues) owners []

    unfoldable pub with_queues : (host_name since until : Text) → Attempt W Added
    with_queues host_name since until =
        if ltb max_rt_queue_census (length c.queues)
        then done (queue_census_skipped (length c.queues) ∷ [], [])
        else (queue_census host_name since until >>= λ counts.
            done ([], (codes "tickets_by_queue", counts) ∷ []))

    abbrev pub with_owners : List Text × Bool → (host_name since until : Text) → ℤ → Attempt W Added
    with_owners ([], capped) host_name since until total = done ([], [])
    with_owners (owner ∷ owners, capped) host_name since until total = do
      counts ← owner_census (owner ∷ owners) host_name since until
      done
          (owner_warnings capped (sum_counts counts) total, (codes "tickets_by_owner", counts) ∷ [])

    abbrev pub rt_evidence : RouteStep → Text → List EvidenceItem × ℤ → Added → Added → Evidence
    rt_evidence step query (items, total) queues owners =
        record (empty_evidence (codes "rt-api") step.action) {
          endpoint = host.redact c.endpoint;
          query = query;
          since = step.since;
          until = step.until;
          item_count = length items;
          total_available = total;
          truncated = above total (length items);
          summary = (codes "returned", pos (length items)) ∷ (codes "total_matching", total) ∷ [];
          items = items;
          warnings = queues.0 ++ owners.0;
          breakdown = queues.1 ++ owners.1;
        }

    unfoldable pub rt_execute : RouteStep → Attempt W Evidence
    rt_execute step = do
      fail_if (not (source_eq step.source request_tracker)) wrong_source
      fail_if (rt_unsupported (rt_action step.action)) unsupported_action
      since ← rt_date_bound step.since
      until ← rt_date_bound step.until
      let query = ticket_search_query step.host [] since until c.queues
      page ← search query (rt_limit step.limit)
      queues ← with_queues step.host since until
      owners ← with_owners (owners_on_page page.0) step.host since until page.1
      done (rt_evidence step query page queues owners)

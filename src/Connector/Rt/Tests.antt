-- ===== src/Connector/Rt/Tests.antt =====
-- internal/connector/rt.go at concrete inputs: a server with two tickets, and an allowlist of one queue.
use sroiaaa.Base.{ℕ, suc, true, false, all, Option, none, some, List, [], ◌∷◌, ◌++◌, ◌≡◌, refl, ok}
use sroiaaa.Base.Int.{pos}
use sroiaaa.Base.Text.{
  Text, codes, text_eq, trim_left, trim_right, trim_space, is_space, kept_parts, member, lookup,
}
use sroiaaa.Broker.Types.{RouteStep, request_tracker, tickets_search, empty_step}
use sroiaaa.Connector.{Source-discrete, source_eq}
use sroiaaa.Connector.Attempt.{done, fail_if, found, lifted, ◌>>=◌, send_request, round_trip}
use sroiaaa.Connector.Attempt.Effects.{Sent}
use sroiaaa.Connector.Attempt.Laws.{Holds}
use sroiaaa.Connector.Evidence.{EvidenceItem}
use sroiaaa.Connector.Rt.{
  RtConfig, RtConnector, new_rt_connector, RtHost, rt_date_bound, get_ok, search, census,
  queue_census, owner_census, with_queues, rt_execute,
}
use sroiaaa.Connector.Rt.Query.{ticket_search_query}
use sroiaaa.Connector.Rt.Query.Literals.{
  literals, is_plain, is_bare, given, ticket_search_query-literals,
}
use sroiaaa.Connector.Rt.Tickets.{
  TicketJson, rt_ref, decode_ticket, decode_tickets, normalize_ticket, owner_of, distinct_owners,
  owners_on_page,
}
use sroiaaa.Connector.Rt.Tickets.Owners.{OwnersOf, owners_on_page-OwnersOf}
use sroiaaa.Connector.Rt.Queries.{IsSearch, rt_execute-Sent}
use sroiaaa.Connector.Rt.Accounts.{IsHonest, rt_execute-IsHonest}

abbrev small_config : RtConfig
small_config = record {
  endpoint = codes "https://rt/";
  token = codes "t";
  queues = codes " alerts " ∷ [] ∷ [];
  max_response_bytes = pos 0;
}

abbrev small_connector : RtConnector
small_connector = record {
  endpoint = codes "https://rt";
  token = codes "t";
  queues = codes "alerts" ∷ [];
  max_response_bytes = 1048576;
}

abbrev parse_any : Text → Option (Text × Text)
parse_any s = some (codes "https", codes "rt")

connector_made : new_rt_connector parse_any small_config ≡ ok small_connector
unfolding new_rt_connector kept_parts text_eq trim_left trim_right trim_space is_space
connector_made = refl

abbrev ticket_of : Text → TicketJson
ticket_of owner = record {
  id = some (record { plain = some (codes "ticket/7"); object = none });
  queue = some (record { plain = none; object = some (codes "10", codes "alerts") });
  owner = some (record { plain = none; object = some (owner, []) });
  subject = codes "disk";
  status = codes "open";
  created = codes "c";
  last_updated = [];
}

-- Answers every search with the same two tickets, of three, and counts the requests; every owner has one.
abbrev small_host : RtHost ℕ
small_host = record {
  http = record {
    builds = λ q. true;
    send = λ q n. (some (record { status = 200; read = λ m. some (1 ∷ []) }), suc n);
  };
  decode_search = λ body.
      some
        (record { total = pos 3; items = ticket_of (codes "ann") ∷ ticket_of (codes "bob") ∷ [] });
  decode_total = λ body. some (pos 1);
  itoa = λ n. codes "100";
  parse_rfc3339 = λ s. some 0;
  format_local = λ t. codes "2026-01-01 00:00:00";
  redact = λ s. s;
}

abbrev search_step : RouteStep
search_step = record (empty_step request_tracker tickets_search) {
  host = codes "n'1";
  since = codes "s";
}

-- One search, one count of the queue, and two of owners, which account for two of the three tickets.
four_requests : (rt_execute small_host small_connector search_step 0).1 ≡ 4
unfolding rt_execute rt_date_bound get_ok search census queue_census owner_census with_queues done
    fail_if found lifted ◌>>=◌ send_request round_trip source_eq Source-discrete rt_ref
    decode_ticket decode_tickets normalize_ticket owner_of distinct_owners owners_on_page lookup
    member text_eq
four_requests = refl

rt_execute-Sent_example :
    Sent small_host.http
      (IsSearch (kept_parts small_config.queues) search_step)
      41
      0
      (rt_execute small_host small_connector search_step 0).1
rt_execute-Sent_example =
    rt_execute-Sent small_host parse_any small_config small_connector search_step 0 connector_made

rt_execute-IsHonest_example :
    Holds
      (IsHonest small_host small_connector search_step)
      (rt_execute small_host small_connector search_step 0).0
rt_execute-IsHonest_example = rt_execute-IsHonest small_host small_connector search_step 0

ticket_search_query-literals_example :
    literals (ticket_search_query (codes "n'1") [] (codes "2026-01-01") [] (codes "a'b" ∷ []))
    ≡ (codes "new" ∷ codes "open" ∷ codes "stalled" ∷ [])
      ++ ((codes "a'b" ∷ [])
          ++ (given (codes "n'1") ++ (given [] ++ (given (codes "2026-01-01") ++ given []))))
unfolding is_plain is_bare all
ticket_search_query-literals_example =
    ticket_search_query-literals (codes "n'1") [] (codes "2026-01-01") [] (codes "a'b" ∷ []) refl
      refl refl refl (refl, tt)

abbrev item_of : Text → EvidenceItem
item_of owner = record {
  id = [];
  host = [];
  description = [];
  severity = [];
  state = [];
  fields = (codes "owner", owner) ∷ [];
}

abbrev page : List EvidenceItem
page = item_of (codes "ann") ∷ item_of (codes "bob") ∷ item_of (codes "ann") ∷ []

two_owners : owners_on_page page ≡ (codes "ann" ∷ codes "bob" ∷ [], false)
unfolding owner_of distinct_owners owners_on_page lookup member text_eq
two_owners = refl

owners_on_page-OwnersOf_example : OwnersOf page (owners_on_page page).0 (owners_on_page page).1
owners_on_page-OwnersOf_example = owners_on_page-OwnersOf page

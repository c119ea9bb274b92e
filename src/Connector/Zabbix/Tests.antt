-- ===== src/Connector/Zabbix/Tests.antt =====
-- internal/connector/zabbix.go at a concrete step: a server that returns two of the three problems that match.
use sroiaaa.Base.{ℕ, suc, true, false, Option, none, some, [], ◌∷◌, ◌≡◌, refl}
use sroiaaa.Base.Int.{pos}
use sroiaaa.Base.Text.{Text, UnicodeTables, codes, text_eq, member, put}
use sroiaaa.Broker.Types.{RouteStep, zabbix_api, Action, empty_step}
use sroiaaa.Connector.{Source-discrete, source_eq}
use sroiaaa.Connector.Attempt.{done, fail_if, found, lifted, ◌>>=◌, send_request}
use sroiaaa.Connector.Attempt.Laws.{Holds}
use sroiaaa.Connector.Zabbix.Rows.{Counts, sort_entries, insert_entry, busier, text_less, top_hosts}
use sroiaaa.Connector.Zabbix.Rows.Top.{IsTop, top_hosts-IsTop}
use sroiaaa.Connector.Zabbix.Selectors.{trigger_get, without, apply_selectors}
use sroiaaa.Connector.Zabbix.Rows.{Trigger, Level}
use sroiaaa.Connector.Zabbix.Calls.{
  Envelope, ZabbixHost, raw_call, call_for, count_matching, census, host_census,
}
use sroiaaa.Connector.Zabbix.Calls.Adds.{AddsUp, census-AddsUp}
use sroiaaa.Connector.Zabbix.{
  with_hosts, with_comparison, with_known, execute_triggers, zabbix_execute,
}
use sroiaaa.Connector.Zabbix.Queries.{Moment}

abbrev ascii : UnicodeTables
ascii = record { letter = λ c. false; digit = λ c. false; lower = λ c. false; to_lower = λ c. c }

abbrev answer : {A : Type 0} → A → Option (Envelope A)
answer a = some (record { result = a; failed = false })

abbrev problem : Text → Trigger
problem host = record {
  trigger_id = codes "1";
  description = codes "disk";
  priority = codes "4";
  value = codes "1";
  last_change = [];
  hosts = host ∷ [];
}

abbrev level : Level
level = record { priority = codes "4"; severity = [] }

-- Counts the requests.
abbrev small_host : ZabbixHost ℕ
small_host = record {
  http = record {
    builds = λ q. true;
    send = λ q n. (some (record { status = 200; read = λ m. some (1 ∷ []) }), suc n);
  };
  encodes = λ q. true;
  connector = record { endpoint = codes "z"; token = codes "t"; max_response_bytes = 10 };
  decode_triggers = λ body. answer (problem (codes "a") ∷ problem (codes "b") ∷ []);
  decode_events = λ body. answer [];
  decode_levels = λ body. answer (level ∷ level ∷ level ∷ []);
  decode_hosts = λ body. answer ((codes "a" ∷ []) ∷ (codes "b" ∷ []) ∷ (codes "a" ∷ []) ∷ []);
  decode_count = λ body. answer (codes "5");
  decode_known = λ body. some 1;
  atoi = λ s. some (pos 5);
  parse_int = λ s. none;
  format_unix = λ n. [];
}

abbrev read_time : Text → Option Moment
read_time s = some (record { unix = pos 9; is_zero = false })

abbrev step : RouteStep
step = record (empty_step zabbix_api Action.trigger_get) {
  host = codes "h";
  since = codes "s";
  match = codes "*disk*";
}

-- The problems, the levels, the hosts, and the count with no time bound.
four_requests : (zabbix_execute ascii small_host read_time (codes "z") step 0).1 ≡ 4
unfolding zabbix_execute execute_triggers with_hosts with_comparison with_known raw_call call_for
    count_matching census host_census done fail_if found lifted ◌>>=◌ send_request source_eq
    Source-discrete apply_selectors text_eq put without member
four_requests = refl

census-AddsUp_example : Holds AddsUp (census small_host trigger_get [] 0).0
census-AddsUp_example = census-AddsUp small_host trigger_get [] 0

abbrev three_hosts : Counts
three_hosts = (codes "a", 2) ∷ (codes "b", 5) ∷ (codes "c", 2) ∷ []

-- The busiest first, and equal counts by name.
sorted : sort_entries three_hosts ≡ (codes "b", 5) ∷ (codes "a", 2) ∷ (codes "c", 2) ∷ []
unfolding sort_entries insert_entry busier text_less
sorted = refl

top_hosts-IsTop_example : IsTop three_hosts (top_hosts three_hosts)
top_hosts-IsTop_example = top_hosts-IsTop three_hosts

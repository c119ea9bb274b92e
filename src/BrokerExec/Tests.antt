-- ===== src/BrokerExec/Tests.antt =====
-- cmd/sroiaaa-broker-exec/main.go at a concrete plan of one step, which the policy accepts and a connector answers.
use sroiaaa.Base.{ℕ, suc, false, all, any, none, some, [], ◌∷◌, ◌≡◌, refl, ok}
use sroiaaa.Base.Int.{pos}
use sroiaaa.Base.Text.{
  kept_parts, Text, UnicodeTables, codes, trim_space, split, trim_left, trim_right, is_space,
  byte_len, text_eq, lookup, member, is_letter, is_digit, is_lower, to_lower,
}
use sroiaaa.Broker.Types.{
  RoutePlan, Policy, Source, wazuh_api, zabbix_api, pegasus_db, request_tracker, sroiaaa_agent,
  fleet_inventory, empty_request, agents_list, empty_step,
}
use sroiaaa.Broker.Decode.{JsonReads, eof, decode_one_json, load_policy}
use sroiaaa.Broker.Since.{Calendar, parse_since, parse_until}
use sroiaaa.Broker.Policy.{validate_policy}
use sroiaaa.Broker.Router.Complete.{verify_complete}
use sroiaaa.Broker.Router.{
  Router, plan, new_plan, fleet_inventory_limit, new_router, parse_window, step_for,
}
use sroiaaa.Connector.{
  Connector, Source-discrete, source_eq, find_connector, execute_steps, execute_plan, new_executor,
  register,
}
use sroiaaa.BrokerExec.{
  Options, Makers, run, prepare, decode_plan, verify_plan, build_connectors, needs, split_list,
}
use sroiaaa.BrokerExec.Laws.{Ends, run-Ends}

abbrev ascii : UnicodeTables
ascii = record { letter = λ c. false; digit = λ c. false; lower = λ c. false; to_lower = λ c. c }

abbrev no_calendar : Calendar
no_calendar = record {
  parse_rfc3339 = λ s. none;
  format_rfc3339 = λ t. [];
  parse_day = λ s. none;
  parse_duration = λ s. none;
  midnight = λ t. t;
  next_day = λ t. t;
  previous_day = λ t. t;
}

abbrev counter : Source → Connector ℕ ℕ ℕ
counter s = record { source = s; execute = λ step n. (ok n, suc n) }

abbrev small_makers : Makers ℕ ℕ ℕ
small_makers = record {
  zabbix = λ endpoint token. some (counter zabbix_api);
  wazuh = λ endpoint username password insecure groups. some (counter wazuh_api);
  pegasus = λ dsn rows bytes. some (counter pegasus_db);
  rt = λ endpoint token queues. some (counter request_tracker);
  agents = λ config. some (counter sroiaaa_agent);
}

abbrev small_options : Options
small_options = record {
  policy_path = codes "p";
  zabbix_endpoint = [];
  wazuh_endpoint = codes "w";
  wazuh_insecure = false;
  rt_endpoint = [];
}

abbrev small_env : Text → Text
small_env name = codes "v"

abbrev open_policy : JsonReads Policy
open_policy = record {
  first = some (record { version = pos 1; live_hosts = some []; resources = some [] });
  rest = eof;
}

abbrev fleet_plan : RoutePlan
fleet_plan =
    new_plan fleet_inventory
      (record (empty_step wazuh_api agents_list) { limit = pos fleet_inventory_limit })

abbrev fleet_input : JsonReads RoutePlan
fleet_input = record { first = some fleet_plan; rest = eof }

abbrev open_router : Router
open_router = record { live_hosts = []; resources = [] }

planner : Unit {0}
unfolding plan parse_window parse_since parse_until step_for all any is_lower is_letter is_digit
    to_lower byte_len text_eq trim_space trim_left trim_right is_space lookup member source_eq
    Source-discrete find_connector execute_steps execute_plan
planner = tt

fleet_plan_made :
    plan ascii no_calendar open_router 9 9 (empty_request fleet_inventory) ≡ ok fleet_plan
unfolding planner
fleet_plan_made = refl

-- Verify is given by its completeness; the rest of the run computes.
prepared :
    prepare small_makers small_options small_env
      (λ s. none)
      ascii
      no_calendar
      (λ n. 9)
      fleet_input
      (some open_policy)
    ≡ ok (fleet_plan, (wazuh_api, counter wazuh_api) ∷ [])
unfolding planner prepare decode_plan verify_plan build_connectors needs new_executor register
    new_router validate_policy load_policy decode_one_json split_list kept_parts split
prepared =
    rw
      (verify_complete ascii no_calendar open_router 9 9 (λ n. 9) (empty_request fleet_inventory)
        fleet_plan refl fleet_plan_made)
      refl

succeeds :
    run small_makers small_options small_env
      (λ s. none)
      ascii
      no_calendar
      (λ n. 9)
      (λ evidence. some (codes "[]"))
      fleet_input
      (some open_policy)
      7
    ≡ (ok (codes "[]"), 8)
unfolding run planner
succeeds = rw prepared refl

run-Ends_example :
    Ends small_makers small_options small_env
      (λ s. none)
      ascii
      no_calendar
      (λ n. 9)
      (λ evidence. some (codes "[]"))
      fleet_input
      (some open_policy)
      7
      (run small_makers small_options small_env
        (λ s. none)
        ascii
        no_calendar
        (λ n. 9)
        (λ evidence. some (codes "[]"))
        fleet_input
        (some open_policy)
        7)
run-Ends_example =
    run-Ends small_makers small_options small_env (λ s. none) ascii no_calendar (λ n. 9)
      (λ evidence. some (codes "[]")) fleet_input (some open_policy) 7

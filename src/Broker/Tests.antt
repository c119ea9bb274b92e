-- ===== src/Broker/Tests.antt =====
-- internal/broker at concrete inputs: a small policy, a calendar of UTC days, and the theorems
-- applied where their hypotheses hold.
use sroiaaa.Base.{
  ℕ, ◌+◌, ◌-◌, ◌*◌, ◌/◌, ◌≤◌, ◌⊎◌, false, Option, none, some, [], ◌∷◌, ◌≡◌, refl, ap, arith, inl,
  inr, ok, err, if◌then◌else◌, ◌==◌, all, any,
}
use sroiaaa.Base.Int.{ℤ, pos, to_nat}
use sroiaaa.Base.FilePath.{clean, elements, is_abs}
use sroiaaa.Base.Text.{
  Text, UnicodeTables, codes, to_lower, trim_space, trim_right, text_eq, byte_len, within, lookup,
  member, contains, has_prefix, fields, join, is_letter, is_digit, is_lower, split, is_control,
}
use sroiaaa.Broker.Types.{
  monitoring_history, live_evidence, tickets_open, filesystem_read, Policy, RouteRequest, RoutePlan,
  zabbix_api, event_get, request_tracker, tickets_search, empty_request, empty_step, Resource,
  plan_not_authorized,
}
use sroiaaa.Broker.Policy.{
  validate_policy, validate_resource, validate_host_selector, validate_resource_name,
}
use sroiaaa.Broker.Sql.{validate_query, stacked, is_bad_rune, is_trailer}
use sroiaaa.Broker.Sql.Laws.{IsSingleRead, validate_query_sound}
use sroiaaa.Broker.Monitoring.{
  max_monitoring_limit, default_monitoring_limit, resolve_limit, monitoring_selectors, select_match,
  select_severity, select_state,
}
use sroiaaa.Broker.Monitoring.Laws.{resolve_limit_sound}
use sroiaaa.Broker.Since.{
  Instant, Calendar, second, hour, parse_since, parse_until, zero_time, parse_days,
}
use sroiaaa.Broker.Since.Laws.{InReach, parse_since-InReach}
use sroiaaa.Broker.Since.Format.{Rfc3339, whole}
use sroiaaa.Broker.Since.Overflow.{cycle, parse_since_wraps}
use sroiaaa.Broker.Router.{
  Router, new_router, parse_window, step_for, plan, verify, new_plan, live_step,
}
use sroiaaa.Broker.Router.Honours.{Honours, plan-Honours}
use sroiaaa.Broker.Router.Valid.{LiveAuthority, verify-LiveAuthority}
use sroiaaa.Broker.Router.Verify.{verify_sound}
use sroiaaa.Broker.Router.Complete.{verify_complete}
use sroiaaa.Broker.Router.Windows.{verify_windowed}
use sroiaaa.Broker.Router.Ahead.{verify_ahead}

abbrev no_tables : UnicodeTables
no_tables = record {
  letter = λ c. false;
  digit = λ c. false;
  lower = λ c. false;
  to_lower = λ c. c;
}

abbrev day : ℕ
day = 24 * hour

-- A layout of two runes stands for RFC 3339: a letter, and the number of the second.
stamp : Instant → Text
stamp t = b'Z' ∷ t / second ∷ []

read_stamp : Text → Option Instant
read_stamp (c ∷ n ∷ []) = if c == b'Z' then some (n * second) else none
read_stamp _ = none

-- Decimal hours, as "24h".
read_hours : ℕ → Text → Option ℤ
read_hours n (c ∷ []) = if c == b'h' then some (pos (n * hour)) else none
read_hours n (c ∷ s) =
    let rest = read_hours (n * 10 + (c - b'0')) s in if within b'0' b'9' c then rest else none
read_hours n [] = none

abbrev days_in_utc : Calendar
days_in_utc = record {
  parse_rfc3339 = read_stamp;
  format_rfc3339 = stamp;
  parse_day = λ s. none;
  parse_duration = read_hours 0;
  midnight = λ t. t / day * day;
  next_day = λ t. t + day;
  previous_day = λ t. t - day;
}

stamp_words :
    (t : Instant) (word : Text)
    → has_prefix word (codes "z") ≡ false
    → text_eq (to_lower no_tables (trim_space (stamp t))) word ≡ false
unfolding stamp text_eq to_lower trim_space has_prefix
stamp_words t [] h = ground arith
stamp_words t (c ∷ s) h = ground arith

stamp_laws : Rfc3339 no_tables days_in_utc
unfolding stamp read_stamp byte_len
stamp_laws = record {
  reads = λ t lo hi. refl;
  fraction =
      λ t. let same : whole t / second ≡ t / second = omega arith in ap (λ n. b'Z' ∷ n ∷ []) same;
  no_day = λ t. refl;
  written = λ t. refl;
  short = λ t. ground arith;
  not_today = λ t. stamp_words t (codes "today") (unfold has_prefix in refl);
  not_yesterday = λ t. stamp_words t (codes "yesterday") (unfold has_prefix in refl);
}

abbrev sample_resource : Resource
sample_resource = record {
  operation = filesystem_read;
  path = codes "/workspace/sample.txt";
  params = some (record { offset = pos 0; max_bytes = pos 4096; max_entries = pos 0 });
}

abbrev sample_policy : Policy
sample_policy = record {
  version = pos 1;
  live_hosts = some ((codes "node1", record { resources = codes "sample" ∷ [] }) ∷ []);
  resources = some ((codes "sample", sample_resource) ∷ []);
}

abbrev sample_router : Router
sample_router = record {
  live_hosts = (codes "node1", codes "sample" ∷ []) ∷ [];
  resources = (codes "sample", sample_resource) ∷ [];
}

sample_policy_passes : new_router no_tables sample_policy ≡ ok sample_router
unfolding new_router validate_policy validate_resource_name validate_host_selector validate_resource
    all is_lower is_letter is_digit byte_len text_eq trim_space clean elements is_abs lookup member
    split join
sample_policy_passes = refl

-- 2026, at noon.
abbrev noon : Instant
noon = 740000 * day + 12 * hour

abbrev live_request : RouteRequest
live_request = record (empty_request live_evidence) {
  host = codes "node1";
  resource = codes "sample";
}

abbrev live_plan : RoutePlan
live_plan = new_plan live_evidence (live_step (codes "node1") sample_resource)

planner : Unit {0}
unfolding plan parse_since parse_until byte_len text_eq trim_space validate_host_selector
    validate_resource_name all is_lower is_letter is_digit lookup member monitoring_selectors
    resolve_limit validate_query is_bad_rune is_trailer trim_right any is_control to_lower
    has_prefix contains fields join stamp read_stamp read_hours parse_window step_for select_match
    select_severity select_state parse_days
planner = tt

live_plan_made : plan no_tables days_in_utc sample_router noon noon live_request ≡ ok live_plan
unfolding planner
live_plan_made = refl

live_plan_verified : verify no_tables days_in_utc sample_router (λ n. noon) live_plan ≡ ok tt
live_plan_verified =
    verify_complete no_tables days_in_utc sample_router noon noon (λ n. noon) live_request live_plan
      refl live_plan_made

verify_complete_example : verify no_tables days_in_utc sample_router (λ n. noon) live_plan ≡ ok tt
verify_complete_example =
    verify_complete no_tables days_in_utc sample_router noon noon (λ n. noon) live_request live_plan
      refl live_plan_made

verify-LiveAuthority_example : LiveAuthority no_tables sample_policy live_plan
verify-LiveAuthority_example =
    verify-LiveAuthority no_tables days_in_utc sample_policy sample_router (λ n. noon) live_plan
      sample_policy_passes refl live_plan_verified

verify_sound_example :
    (request : RouteRequest) × (n : ℕ) × (plan no_tables days_in_utc sample_router noon noon request
      ≡ ok live_plan)
    × (request.intent ≡ live_evidence)
verify_sound_example =
    verify_sound no_tables days_in_utc sample_router (λ n. noon) live_plan live_plan_verified

-- Events since a day ago, warnings and worse.
abbrev history_request : RouteRequest
history_request = record (empty_request monitoring_history) {
  since = codes "24h";
  severity = codes " Warning ";
  limit = pos 50;
}

abbrev history_plan : RoutePlan
history_plan = new_plan monitoring_history (record (empty_step zabbix_api event_get) {
  limit = pos 50;
  since = b'Z' ∷ (739999 * (24 * 3600) + 12 * 3600) ∷ [];
  severity = codes "warning";
})

history_plan_made :
    plan no_tables days_in_utc sample_router noon noon history_request ≡ ok history_plan
unfolding planner
history_plan_made = refl

plan-Honours_example : Honours no_tables days_in_utc noon noon history_request history_plan
plan-Honours_example =
    plan-Honours no_tables days_in_utc sample_router noon noon history_request history_plan
      history_plan_made

day_before : parse_since no_tables days_in_utc (codes "24h") noon ≡ ok (noon - day)
unfolding planner
day_before = refl

no_until : parse_until no_tables days_in_utc [] noon ≡ ok zero_time
unfolding planner
no_until = refl

verify_windowed_example :
    verify no_tables days_in_utc sample_router (λ n. noon + 30 * second) history_plan ≡ ok tt
verify_windowed_example =
    verify_windowed stamp_laws sample_router noon noon (λ n. noon + 30 * second) history_request
      history_plan (noon - day) zero_time (cc) day_before no_until
      (inr (omega arith, omega arith, omega arith, (omega arith, omega arith))) (inl refl)
      (inr (inl refl)) history_plan_made

-- Open tickets created until today's end.
abbrev today_request : RouteRequest
today_request = record (empty_request tickets_open) { until = codes "today" }

abbrev today_plan : RoutePlan
today_plan = new_plan tickets_open (record (empty_step request_tracker tickets_search) {
  limit = pos 100;
  until = b'Z' ∷ (740001 * (24 * 3600)) ∷ [];
})

today_plan_made : plan no_tables days_in_utc sample_router noon noon today_request ≡ ok today_plan
unfolding planner
today_plan_made = refl

end_of_today : parse_until no_tables days_in_utc (codes "today") noon ≡ ok (740001 * day)
unfolding planner
end_of_today = refl

verify_ahead_example :
    verify no_tables days_in_utc sample_router (λ n. noon) today_plan ≡ err plan_not_authorized
verify_ahead_example =
    verify_ahead stamp_laws sample_router noon noon (λ n. noon) today_request today_plan
      (740001 * day) (cc) end_of_today (omega arith) (omega arith) (omega arith) (omega arith)
      today_plan_made

query_accepted : validate_query no_tables (codes " SELECT 1 ; ") ≡ ok tt
unfolding planner
query_accepted = refl

validate_query_sound_example : IsSingleRead no_tables (trim_space (codes " SELECT 1 ; "))
validate_query_sound_example = validate_query_sound no_tables (codes " SELECT 1 ; ") query_accepted

two_statements : validate_query no_tables (codes "select 1; drop table t") ≡ err stacked
unfolding planner
two_statements = refl

fifty : resolve_limit (pos 50) ≡ ok (pos 50)
unfolding resolve_limit
fifty = refl

parse_since-InReach_example : InReach noon (noon - day)
parse_since-InReach_example =
    parse_since-InReach no_tables days_in_utc (codes "24h") noon (noon - day) (cc) day_before

-- "213504d" is 584 years; its hours are 2^64 nanoseconds and 1,526 seconds when read as days.
parse_since_wraps_example :
    parse_since no_tables days_in_utc (codes "213504d") noon
    ≡ ok (noon - (24 * (213504 * hour) - cycle))
unfolding planner
parse_since_wraps_example =
    parse_since_wraps no_tables days_in_utc (codes "213504") noon (213504 * hour) (omega arith)
      (omega arith) refl refl refl refl refl (omega arith) (omega arith) (omega arith)

resolve_limit_sound_example :
    (1 ≤ to_nat (pos 50))
    × (to_nat (pos 50) ≤ max_monitoring_limit)
    × (pos 50 ≡ pos (to_nat (pos 50)))
    × ((pos 50 ≡ pos 50) ⊎ ((pos 50 ≡ pos 0) × (pos 50 ≡ pos default_monitoring_limit)))
resolve_limit_sound_example = resolve_limit_sound (pos 50) (pos 50) fifty

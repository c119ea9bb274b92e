-- ===== src/Broker/Router/Honours.antt =====
-- internal/broker/router.go: a plan holds all that the request asked for, and nothing unbounded.
use sroiaaa.Base.{
  if◌then◌else◌, bind-ok, refuse_if, ◌≤◌, true, false, not, some, [], ◌≡◌, ◌⊎◌, sym, ap, subst, ◌∙◌,
  arith, ok, ok-injective,
}
use sroiaaa.Base.Int.{ℤ, pos, to_nat}
use sroiaaa.Base.Text.{Text, UnicodeTables, is_empty}
use sroiaaa.Broker.Types.{
  Intent, fleet_inventory, agent_status, monitoring_problems, live_evidence, database_query,
  monitoring_history, tickets_open, tickets_by_host, other, RouteRequest, RouteStep, RoutePlan,
}
use sroiaaa.Broker.Since.{Instant, Calendar, parse_since, parse_until}
use sroiaaa.Broker.Router.Shape.{step_for-source, plan_inv}
use sroiaaa.Broker.Router.{Router, Window, plan, new_plan, step_for}
use sroiaaa.Broker.Since.Format.{write_bound}
use sroiaaa.Broker.Router.Complete.{plan-Carries}
use sroiaaa.Broker.Router.Windows.{parse_window_inv}
use sroiaaa.Broker.Monitoring.{
  normalize_severity, select_severity, select_state, max_monitoring_limit,
}
use sroiaaa.Broker.Router.{fleet_inventory_limit, ticket_search_limit}
use sroiaaa.Broker.Router.Selected.{monitoring_selectors_inv}
use sroiaaa.Broker.Monitoring.{monitoring_selectors}
use sroiaaa.Broker.Monitoring.Laws.{resolve_limit_sound}
use sroiaaa.Broker.Types.{source_for_intent, missing_since, invalid_request}
use sroiaaa.Broker.Router.{optional_host}
use sroiaaa.Broker.Sql.{max_query_rows}

-- The limit that a step of each intent may carry.
abbrev pub LimitOf : Intent → ℤ → Type 0
LimitOf fleet_inventory l = l ≡ pos fleet_inventory_limit
LimitOf database_query l = l ≡ pos max_query_rows
LimitOf tickets_open l = l ≡ pos ticket_search_limit
LimitOf tickets_by_host l = l ≡ pos ticket_search_limit
LimitOf monitoring_problems l = (1 ≤ to_nat l) × (to_nat l ≤ max_monitoring_limit)
LimitOf monitoring_history l = (1 ≤ to_nat l) × (to_nat l ≤ max_monitoring_limit)
LimitOf _ l = l ≡ pos 0

module _ (tables : UnicodeTables) (cal : Calendar) where
  -- A selector as it stands in a step: normalised, or "" where the request leaves it out.
  abbrev pub normalized : Text → Text
  normalized s = if is_empty s then [] else normalize_severity tables s

  select_severity-normalized : (s t : Text) → select_severity tables s ≡ ok t → t ≡ normalized s
  unfolding select_severity
  select_severity-normalized s t h = ground arith

  select_state-normalized : (s t : Text) → select_state tables true s ≡ ok t → t ≡ normalized s
  unfolding select_state
  select_state-normalized s t h = ground arith

  module _ (r : Router) (w : Window) (request : RouteRequest) (step : RouteStep) where
    problems-limit :
        step_for tables cal r w monitoring_problems request ≡ ok step
        → LimitOf monitoring_problems step.limit
    unfolding step_for
    problems-limit h =
        let (_, _, h₁) =
          bind-ok (refuse_if (not (is_empty request.resource)) invalid_request) _ h in
        let (_, _, h₂) = bind-ok (optional_host tables cal request.host) _ h₁ in
        let (chosen, e, h₃) = bind-ok (monitoring_selectors tables request false) _ h₂ in
        let k = monitoring_selectors_inv tables request false chosen e in
        let (lo, hi, _, _) = resolve_limit_sound request.limit chosen.limit k.limit in
        subst (λ (s : RouteStep). LimitOf monitoring_problems s.limit) (ok-injective h₃) (lo, hi)

    history-limit :
        step_for tables cal r w monitoring_history request ≡ ok step
        → LimitOf monitoring_history step.limit
    unfolding step_for
    history-limit h =
        let (_, _, h₁) =
          bind-ok (refuse_if (not (is_empty request.resource)) invalid_request) _ h in
        let (_, _, h₂) = bind-ok (optional_host tables cal request.host) _ h₁ in
        let (_, _, h₃) = bind-ok (refuse_if (is_empty w.since) missing_since) _ h₂ in
        let (chosen, e, h₄) = bind-ok (monitoring_selectors tables request true) _ h₃ in
        let k = monitoring_selectors_inv tables request true chosen e in
        let (lo, hi, _, _) = resolve_limit_sound request.limit chosen.limit k.limit in
        subst (λ (s : RouteStep). LimitOf monitoring_history s.limit) (ok-injective h₄) (lo, hi)

    step_for-limit :
        (i : Intent) → step_for tables cal r w i request ≡ ok step → LimitOf i step.limit
    unfolding step_for
    step_for-limit monitoring_problems h = problems-limit h
    step_for-limit monitoring_history h = history-limit h
    step_for-limit fleet_inventory h = ground arith
    step_for-limit agent_status h = ground arith
    step_for-limit live_evidence h = ground arith
    step_for-limit database_query h = ground arith
    step_for-limit tickets_open h = ground arith
    step_for-limit tickets_by_host h = ground arith
    step_for-limit (other s) h = absurd (cc)

  -- All that a plan says, beside the request that it was made for.
  pub record Honours (a b : Instant) (request : RouteRequest) (p : RoutePlan) : Type 0 where
    pub step : RouteStep
    pub one_step : p ≡ new_plan request.intent step
    pub source : source_for_intent request.intent ≡ some step.source
    pub host : step.host ≡ request.host
    pub match : step.match ≡ request.match
    pub severity : step.severity ≡ normalized request.severity
    pub state : step.state ≡ normalized request.state
    pub asked_limit : (request.limit ≡ pos 0) ⊎ (step.limit ≡ request.limit)
    pub limit : LimitOf request.intent step.limit
    pub since : Instant
    pub until : Instant
    pub since_read : parse_since tables cal request.since a ≡ ok since
    pub until_read : parse_until tables cal request.until b ≡ ok until
    pub since_written : step.since ≡ write_bound cal since
    pub until_written : step.until ≡ write_bound cal until

  -- Whatever the intent, a plan has version 1 and one step, at the source that answers the intent;
  -- the step carries the host, the filter, the severity and state in their normal spelling, the
  -- limit that was asked for, within the cap of the intent, and both bounds of the window as the
  -- request's texts are read at the two readings of the clock: nothing of these is dropped.
  pub plan-Honours :
      (r : Router) (a b : Instant) (request : RouteRequest) (p : RoutePlan)
      → plan tables cal r a b request ≡ ok p
      → Honours a b request p
  plan-Honours r a b request p h =
      let inv = plan_inv tables cal r a b request p h in
      let c = plan-Carries tables cal r a b request p inv in
      let q = parse_window_inv tables cal a b request inv.window inv.windowed in
      record {
        step = inv.step;
        one_step = sym inv.made;
        source =
            step_for-source tables cal r inv.window request.intent request inv.step inv.stepped;
        host = c.host;
        match = c.match;
        severity = select_severity-normalized request.severity inv.step.severity c.severity;
        state = select_state-normalized request.state inv.step.state c.state;
        asked_limit = c.limit;
        limit = step_for-limit r inv.window request inv.step request.intent inv.stepped;
        since = q.since;
        until = q.until;
        since_read = q.since_read;
        until_read = q.until_read;
        since_written = c.since ∙ ap (λ (w : Window). w.since) (sym q.written);
        until_written = c.until ∙ ap (λ (w : Window). w.until) (sym q.written);
      }

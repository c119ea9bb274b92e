-- ===== src/Broker/Router/Again.antt =====
-- internal/broker/router.go: the step of each intent is read back as a request for itself.
use sroiaaa.Base.{
  true, false, not, ◌≡◌, ◌≢◌, refl, sym, subst, arith, ok, bind-ok, ok-injective, refuse_if,
}
use sroiaaa.Base.Text.{UnicodeTables, is_empty}
use sroiaaa.Base.Text.Laws.{trim_space_idem}
use sroiaaa.Broker.Types.{
  Intent, fleet_inventory, agent_status, monitoring_problems, live_evidence, database_query,
  monitoring_history, tickets_open, tickets_by_host, other, RouteRequest, RouteStep,
  invalid_request, missing_since, empty_request,
}
use sroiaaa.Broker.Monitoring.{monitoring_selectors}
use sroiaaa.Broker.Since.{Calendar}
use sroiaaa.Broker.Router.{
  Router, Window, step_for, takes_selectors, problems_step, history_step, monitoring_request,
  optional_host,
}
use sroiaaa.Broker.Router.Selected.{
  monitoring_selectors_inv, monitoring_selectors_intro, Selected-again, select_state-false,
}
use sroiaaa.Broker.Sql.Laws.{validate_query-trim_space}

-- The window that a step carries.
abbrev pub window_of : RouteStep → Window
window_of step = record { since = step.since; until = step.until }

-- The request that Verify makes for a step of a single-candidate intent.
abbrev pub request_of : Intent → RouteStep → RouteRequest
request_of monitoring_problems step = monitoring_request monitoring_problems step
request_of monitoring_history step = monitoring_request monitoring_history step
request_of agent_status step = record (empty_request agent_status) { host = step.host }
request_of database_query step = record (empty_request database_query) { query = step.query }
request_of tickets_open step = record (empty_request tickets_open) {
  since = step.since;
  until = step.until;
}
request_of tickets_by_host step = record (empty_request tickets_by_host) {
  host = step.host;
  since = step.since;
  until = step.until;
}
request_of i step = empty_request i

module _ (tables : UnicodeTables) (cal : Calendar) (r : Router) (w : Window)
    (request : RouteRequest) (step : RouteStep) where
  plain-again :
      (i : Intent)
      → takes_selectors i ≡ false
      → i ≢ live_evidence
      → step_for tables cal r w i request ≡ ok step
      → step_for tables cal r (window_of step) i (request_of i step) ≡ ok step
  unfolding step_for
  plain-again fleet_inventory t l h = ground arith
  plain-again agent_status t l h = ground arith
  plain-again live_evidence t l h = absurd (l refl)
  plain-again database_query t l h =
      ground (arith, validate_query-trim_space tables request.query, trim_space_idem request.query)
  plain-again tickets_open t l h = ground arith
  plain-again tickets_by_host t l h = ground arith
  plain-again (other s) t l h = cc
  plain-again _ t l h = absurd (cc)

  problems-again :
      step_for tables cal r w monitoring_problems request ≡ ok step
      → step_for tables cal r
          (window_of step)
          monitoring_problems
          (monitoring_request monitoring_problems step)
        ≡ ok step
  unfolding step_for
  problems-again h =
      let (_, _, h₁) = bind-ok (refuse_if (not (is_empty request.resource)) invalid_request) _ h in
      let (_, host, h₂) = bind-ok (optional_host tables cal request.host) _ h₁ in
      let (chosen, e, h₃) = bind-ok (monitoring_selectors tables request false) _ h₂ in
      let k = monitoring_selectors_inv tables request false chosen e in
      let none_given = select_state-false tables request.state chosen.state k.state in
      subst
        (λ x.
          step_for tables cal r (window_of x) monitoring_problems
            (monitoring_request monitoring_problems x)
          ≡ ok x)
        (ok-injective h₃)
        (rw
          (
            host,
            monitoring_selectors_intro tables _ false chosen (
                Selected-again tables request false chosen k
                  (monitoring_request monitoring_problems (problems_step w request chosen)) refl
                  refl (sym none_given.1) refl),
          )
          refl)

  history-again :
      step_for tables cal r w monitoring_history request ≡ ok step
      → step_for tables cal r
          (window_of step)
          monitoring_history
          (monitoring_request monitoring_history step)
        ≡ ok step
  unfolding step_for
  history-again h =
      let (_, _, h₁) = bind-ok (refuse_if (not (is_empty request.resource)) invalid_request) _ h in
      let (_, host, h₂) = bind-ok (optional_host tables cal request.host) _ h₁ in
      let (_, bounded, h₃) = bind-ok (refuse_if (is_empty w.since) missing_since) _ h₂ in
      let (chosen, e, h₄) = bind-ok (monitoring_selectors tables request true) _ h₃ in
      let k = monitoring_selectors_inv tables request true chosen e in
      subst
        (λ x.
          step_for tables cal r (window_of x) monitoring_history
            (monitoring_request monitoring_history x)
          ≡ ok x)
        (ok-injective h₄)
        (rw
          (
            host,
            bounded,
            monitoring_selectors_intro tables _ true chosen (
                Selected-again tables request true chosen k
                  (monitoring_request monitoring_history (history_step w request chosen)) refl refl
                  refl refl),
          )
          refl)

  -- Planning the request that Verify reads back from a step gives the step.
  pub step_for-again :
      (i : Intent)
      → i ≢ live_evidence
      → step_for tables cal r w i request ≡ ok step
      → step_for tables cal r (window_of step) i (request_of i step) ≡ ok step
  step_for-again monitoring_problems l h = problems-again h
  step_for-again monitoring_history l h = history-again h
  step_for-again fleet_inventory l h = plain-again fleet_inventory refl l h
  step_for-again i l h = plain-again i refl l h

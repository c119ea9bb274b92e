-- ===== src/Broker/Router/Carries.antt =====
-- internal/broker/router.go: the step of each intent carries what the request asked for.
use sroiaaa.Base.{
  true, false, not, ◌&&◌, [], ◌≡◌, ◌⊎◌, refl, sym, subst, arith, ok, bind-ok, ok-injective,
  refuse_if,
}
use sroiaaa.Base.Int.{pos}
use sroiaaa.Base.Text.{UnicodeTables, is_empty}
use sroiaaa.Broker.Types.{
  Intent, fleet_inventory, agent_status, monitoring_problems, live_evidence, database_query,
  monitoring_history, tickets_open, tickets_by_host, RouteRequest, RouteStep, invalid_request,
  missing_since,
}
use sroiaaa.Broker.Monitoring.{monitoring_selectors, select_severity, select_state}
use sroiaaa.Broker.Monitoring.Laws.{resolve_limit_sound, select_match_lem}
use sroiaaa.Broker.Since.{Calendar}
use sroiaaa.Broker.Router.{
  Router, Window, step_for, takes_selectors, has_selectors, has_window, optional_host,
}
use sroiaaa.Broker.Router.Selected.{monitoring_selectors_inv, select_state-false, select_state-nil}

module _ (tables : UnicodeTables) (cal : Calendar) (r : Router) where
  -- What a request asks for, as it stands in the step.
  pub record Carries (request : RouteRequest) (w : Window) (step : RouteStep) : Type 0 where
    pub host : step.host ≡ request.host
    pub since : step.since ≡ w.since
    pub until : step.until ≡ w.until
    pub match : step.match ≡ request.match
    pub severity : select_severity tables request.severity ≡ ok step.severity
    pub state : select_state tables true request.state ≡ ok step.state
    pub limit : (request.limit ≡ pos 0) ⊎ (step.limit ≡ request.limit)

  module _ (w : Window) (request : RouteRequest) (step : RouteStep) where
    plain-Carries :
        (i : Intent)
        → takes_selectors i ≡ false
        → (has_window request ≡ false → (w.since ≡ []) × (w.until ≡ []))
        → not (takes_selectors i) && has_selectors request ≡ false
        → step_for tables cal r w i request ≡ ok step
        → Carries request w step
    unfolding step_for select_severity select_state
    plain-Carries fleet_inventory t quiet s h = ground (arith, quiet)
    plain-Carries agent_status t quiet s h = ground (arith, quiet)
    plain-Carries live_evidence t quiet s h = ground (arith, quiet)
    plain-Carries database_query t quiet s h = ground (arith, quiet)
    plain-Carries tickets_open t quiet s h = ground (arith, quiet)
    plain-Carries tickets_by_host t quiet s h = ground (arith, quiet)
    plain-Carries _ t quiet s h = absurd (cc)

    problems-Carries :
        step_for tables cal r w monitoring_problems request ≡ ok step → Carries request w step
    unfolding step_for
    problems-Carries h =
        let (_, _, h₁) =
          bind-ok (refuse_if (not (is_empty request.resource)) invalid_request) _ h in
        let (_, _, h₂) = bind-ok (optional_host tables cal request.host) _ h₁ in
        let (chosen, e, h₃) = bind-ok (monitoring_selectors tables request false) _ h₂ in
        let k = monitoring_selectors_inv tables request false chosen e in
        let none_given = select_state-false tables request.state chosen.state k.state in
        subst (Carries request w) (ok-injective h₃) (record {
          host = refl;
          since = refl;
          until = refl;
          match = sym (select_match_lem tables request.match chosen.match k.match);
          severity = k.severity;
          state = rw none_given.0 (select_state-nil tables true);
          limit = ground (arith, resolve_limit_sound request.limit chosen.limit k.limit);
        })

    history-Carries :
        step_for tables cal r w monitoring_history request ≡ ok step → Carries request w step
    unfolding step_for
    history-Carries h =
        let (_, _, h₁) =
          bind-ok (refuse_if (not (is_empty request.resource)) invalid_request) _ h in
        let (_, _, h₂) = bind-ok (optional_host tables cal request.host) _ h₁ in
        let (_, _, h₃) = bind-ok (refuse_if (is_empty w.since) missing_since) _ h₂ in
        let (chosen, e, h₄) = bind-ok (monitoring_selectors tables request true) _ h₃ in
        let k = monitoring_selectors_inv tables request true chosen e in
        subst (Carries request w) (ok-injective h₄) (record {
          host = refl;
          since = refl;
          until = refl;
          match = sym (select_match_lem tables request.match chosen.match k.match);
          severity = k.severity;
          state = k.state;
          limit = ground (arith, resolve_limit_sound request.limit chosen.limit k.limit);
        })

    -- Every branch: the step carries the host, the window, the selectors and the limit asked for.
    pub step_for-Carries :
        (i : Intent)
        → (has_window request ≡ false → (w.since ≡ []) × (w.until ≡ []))
        → not (takes_selectors i) && has_selectors request ≡ false
        → step_for tables cal r w i request ≡ ok step
        → Carries request w step
    step_for-Carries monitoring_problems quiet s h = problems-Carries h
    step_for-Carries monitoring_history quiet s h = history-Carries h
    step_for-Carries fleet_inventory quiet s h = plain-Carries fleet_inventory refl quiet s h
    step_for-Carries i quiet s h = plain-Carries i refl quiet s h

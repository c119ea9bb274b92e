-- ===== src/Broker/Router/Shape.antt =====
-- internal/broker/router.go: a successful Plan, taken apart.
use mathlib.Core.Option.{some}
use sroiaaa.Base.{false, ◌≡◌, arith, ok, bind-ok, refuse_if-ok, ok-injective, not, ◌&&◌, refuse_if}
use sroiaaa.Base.Text.{UnicodeTables}
use sroiaaa.Broker.Types.{
  Intent, fleet_inventory, other, RouteRequest, RouteStep, RoutePlan, invalid_request,
  source_for_intent,
}
use sroiaaa.Broker.Since.{Instant, Calendar}
use sroiaaa.Broker.Router.{
  Router, Window, new_plan, step_for, plan, parse_window, takes_selectors, has_selectors,
}

module _ (tables : UnicodeTables) (cal : Calendar) (r : Router) where
  pub step_for-source :
      (w : Window) (i : Intent) (request : RouteRequest) (step : RouteStep)
      → step_for tables cal r w i request ≡ ok step
      → source_for_intent i ≡ some step.source
  unfolding step_for source_for_intent
  step_for-source w fleet_inventory request p h = ground arith
  step_for-source w (other s) request p h = cc
  step_for-source w _ request p h = ground arith

  -- A successful Plan, taken apart.
  pub record Planned (now_since now_until : Instant) (request : RouteRequest) (p : RoutePlan)
      : Type 0 where
    pub window : Window
    pub step : RouteStep
    pub windowed : parse_window tables cal now_since now_until request ≡ ok window
    pub selectors : not (takes_selectors request.intent) && has_selectors request ≡ false
    pub stepped : step_for tables cal r window request.intent request ≡ ok step
    pub made : new_plan request.intent step ≡ p

  pub plan_inv :
      (now_since now_until : Instant) (request : RouteRequest) (p : RoutePlan)
      → plan tables cal r now_since now_until request ≡ ok p
      → Planned now_since now_until request p
  unfolding plan
  plan_inv now_since now_until request p h =
      let (w, ew, h1) = bind-ok (parse_window tables cal now_since now_until request) _ h in
      let (_, es, h2) =
        bind-ok
          (refuse_if (not (takes_selectors request.intent) && has_selectors request)
            invalid_request)
          _ h1 in
      let (step, e, h3) = bind-ok (step_for tables cal r w request.intent request) _ h2 in
      record {
        window = w;
        step = step;
        windowed = ew;
        selectors = refuse_if-ok _ _ es;
        stepped = e;
        made = ok-injective h3;
      }

  pub plan_intro :
      (now_since now_until : Instant) (request : RouteRequest) (p : RoutePlan)
      → Planned now_since now_until request p
      → plan tables cal r now_since now_until request ≡ ok p
  unfolding plan
  plan_intro now_since now_until request p h = rw (h.windowed, h.selectors, h.stepped, h.made)

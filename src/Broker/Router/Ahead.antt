-- ===== src/Broker/Router/Ahead.antt =====
-- internal/broker/since.go and router.go: a plan whose upper bound lies ahead of the clock.
use sroiaaa.Base.{
  ◌<◌, ℕ, ◌+◌, ◌≤◌, [], ◌∷◌, ◌≡◌, ◌≢◌, inl, inr, refl, sym, ap, subst, ◌∙◌, ok, err, Result-cases,
  ok-injective,
}
use sroiaaa.Base.Text.{UnicodeTables}
use sroiaaa.Broker.Types.{
  Intent, live_evidence, RouteRequest, RouteStep, RoutePlan, RouteError, invalid_since,
  invalid_until, plan_not_authorized,
}
use sroiaaa.Broker.Since.{
  Instant, Calendar, SinceFault, parse_since, parse_until, minute, zero_time,
}
use sroiaaa.Broker.Router.Shape.{plan_inv}
use sroiaaa.Broker.Router.Again.{request_of}
use sroiaaa.Broker.Router.{
  parse_window, Router, Window, plan, new_plan, candidate_requests, verify_candidates, verify_steps,
  verify,
}
use sroiaaa.Broker.Since.Format.{Rfc3339, write_bound, whole, year_0, year_10000, until-ahead}
use sroiaaa.Broker.Router.Complete.{plan-Carries, request_of-listed}
use sroiaaa.Broker.Router.Windows.{parse_window_inv, request_of-bounds}

module _ {tables : UnicodeTables} {cal : Calendar} (laws : Rfc3339 tables cal) where
  -- The window of a request is refused where its upper bound is.
  window_refused :
      (c d : Instant) (request : RouteRequest) {f : SinceFault}
      → parse_until tables cal request.until d ≡ err f
      → (e : RouteError) × (parse_window tables cal c d request ≡ err e)
  unfolding parse_window
  window_refused c d request h = elim (Result-cases (parse_since tables cal request.since c)) [
    | inl (s, e) ↦ (invalid_until, rw (e, h) refl)
    | inr (f, e) ↦ (invalid_since, rw e refl)
  ]

  plan_refused :
      (r : Router) (c d : Instant) (request : RouteRequest) {e : RouteError}
      → parse_window tables cal c d request ≡ err e
      → plan tables cal r c d request ≡ err e
  unfolding plan
  plan_refused r c d request h = rw h refl

  verify_single_refused :
      (r : Router) (clock : ℕ → Instant) (i : Intent) (step : RouteStep) (c : RouteRequest)
      {e : RouteError}
      → candidate_requests r i step ≡ c ∷ []
      → plan tables cal r (clock 0) (clock (0 + 1)) c ≡ err e
      → verify tables cal r clock (new_plan i step) ≡ err plan_not_authorized
  unfolding verify verify_steps verify_candidates
  verify_single_refused r clock i step c only h = rw (only, h) refl

  -- A plan whose upper bound, to the second, lies more than a minute ahead of the clock that Verify
  -- reads is refused, although Plan made it.
  pub verify_ahead :
      (r : Router) (a b : Instant) (clock : ℕ → Instant) (request : RouteRequest) (p : RoutePlan)
      (until : Instant)
      → request.intent ≢ live_evidence
      → parse_until tables cal request.until b ≡ ok until
      → until ≢ zero_time
      → year_0 ≤ until
      → until < year_10000
      → clock 1 + minute < whole until
      → plan tables cal r a b request ≡ ok p
      → verify tables cal r clock p ≡ err plan_not_authorized
  verify_ahead r a b clock request p until l eu nz lo hi far h =
      let inv = plan_inv tables cal r a b request p h in
      let q = parse_window_inv tables cal a b request inv.window inv.windowed in
      let same = ok-injective (sym q.until_read ∙ eu) in
      let c = request_of request.intent inv.step in
      let bounds =
        request_of-bounds laws r inv.window request.intent request inv.step l inv.stepped in
      let carried = plan-Carries tables cal r a b request p inv in
      let text =
        bounds.1
        ∙ carried.until
        ∙ sym (ap (λ (w : Window). w.until) q.written)
        ∙ ap (write_bound cal) same in
      let (e, refused) = window_refused (clock 0) (clock 1) c (
        ap (λ s. parse_until tables cal s (clock 1)) text
        ∙ until-ahead laws until (clock 1) lo hi nz far) in
      subst (λ q. verify tables cal r clock q ≡ err plan_not_authorized) inv.made
        (verify_single_refused r clock request.intent inv.step c
          (request_of-listed tables cal r inv.window request.intent request inv.step l inv.stepped)
          (plan_refused r (clock 0) (clock (0 + 1)) c refused))

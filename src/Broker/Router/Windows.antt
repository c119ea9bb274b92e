-- ===== src/Broker/Router/Windows.antt =====
-- internal/broker/since.go and router.go: a time window through a plan and back.
use sroiaaa.Base.{
  ◌<◌, leb, ◌==◌, bind-ok, or_fail, or_fail-ok, refuse_if, refuse_if-ok, ℕ, false, not, ◌&&◌, ◌≡◌,
  ◌≢◌, ◌⊎◌, refl, sym, ap, subst, ◌∙◌, arith, ok, ok-injective,
}
use sroiaaa.Base.Text.{UnicodeTables}
use sroiaaa.Broker.Types.{
  Intent, fleet_inventory, agent_status, live_evidence, database_query, other, RouteRequest,
  RouteStep, RoutePlan, invalid_since, invalid_until,
}
use sroiaaa.Broker.Since.{Instant, Calendar, parse_since, parse_until, zero_time}
use sroiaaa.Broker.Router.Shape.{Planned, plan_inv}
use sroiaaa.Broker.Router.Again.{window_of, request_of}
use sroiaaa.Broker.Router.{parse_window, Router, Window, plan, step_for, verify}
use sroiaaa.Broker.Since.Format.{
  Rfc3339, Kept, settle, write_bound, whole, since-Kept, until-Kept, write_bound-settle,
}
use sroiaaa.Broker.Router.Complete.{Replays, plan-Carries, verify-replayed}

module _ (tables : UnicodeTables) (cal : Calendar) where
  -- The two instants of a window that was accepted.
  pub record Parsed (a b : Instant) (request : RouteRequest) (w : Window) : Type 0 where
    pub since : Instant
    pub until : Instant
    pub since_read : parse_since tables cal request.since a ≡ ok since
    pub until_read : parse_until tables cal request.until b ≡ ok until
    pub ordered : not (since == zero_time) && not (until == zero_time) && leb until since ≡ false
    pub written :
        ◌≡◌ {A = Window} (record { since = write_bound cal since; until = write_bound cal until }) w

  pub parse_window_inv :
      (a b : Instant) (request : RouteRequest) (w : Window)
      → parse_window tables cal a b request ≡ ok w
      → Parsed a b request w
  unfolding parse_window
  parse_window_inv a b request w h =
      let (s, es, h₁) =
        bind-ok (or_fail (parse_since tables cal request.since a) invalid_since) _ h in
      let (u, eu, h₂) =
        bind-ok (or_fail (parse_until tables cal request.until b) invalid_until) _ h₁ in
      let (_, e, h₃) =
        bind-ok (refuse_if (not (s == zero_time) && not (u == zero_time) && leb u s) invalid_until)
          _ h₂ in
      record {
        since = s;
        until = u;
        since_read = or_fail-ok (parse_since tables cal request.since a) invalid_since es;
        until_read = or_fail-ok (parse_until tables cal request.until b) invalid_until eu;
        ordered = refuse_if-ok _ _ e;
        written = ok-injective h₃;
      }

-- The instants stay in order without their fractions of a second.
abbrev pub InOrder : Instant → Instant → Type 0
InOrder s u = (s ≡ zero_time) ⊎ (u ≡ zero_time) ⊎ (whole s < whole u)

module _ {tables : UnicodeTables} {cal : Calendar} (laws : Rfc3339 tables cal) where
  settle_ordered :
      (s u : Instant)
      → InOrder s u
      → not (settle s == zero_time) && not (settle u == zero_time) && leb (settle u) (settle s)
        ≡ false
  settle_ordered s u k = ground arith

  parse_window-written :
      (c d s u : Instant) (request : RouteRequest)
      → Kept c s
      → Kept d u
      → InOrder s u
      → request.since ≡ write_bound cal s
      → request.until ≡ write_bound cal u
      → parse_window tables cal c d request
        ≡ ok (record { since = write_bound cal s; until = write_bound cal u })
  unfolding parse_window
  parse_window-written c d s u request ks ku order es eu =
      rw
        (
          es,
          eu,
          since-Kept laws s c ks,
          until-Kept laws u d ku,
          settle_ordered s u order,
          write_bound-settle laws s c ks,
          write_bound-settle laws u d ku,
        )
        refl

  -- The request that Verify reads back from a step has the window of the step.
  pub request_of-bounds :
      (r : Router) (w : Window) (i : Intent) (request : RouteRequest) (step : RouteStep)
      → i ≢ live_evidence
      → step_for tables cal r w i request ≡ ok step
      → ((request_of i step).since ≡ step.since) × ((request_of i step).until ≡ step.until)
  unfolding step_for
  request_of-bounds r w fleet_inventory request step l h = ground arith
  request_of-bounds r w agent_status request step l h = ground arith
  request_of-bounds r w database_query request step l h = ground arith
  request_of-bounds r w live_evidence request step l h = absurd (l refl)
  request_of-bounds r w (other s) request step l h = absurd (cc)
  request_of-bounds r w i request step l h = (refl, refl)

  replays :
      (r : Router) (a b c d : Instant) (request : RouteRequest) (p : RoutePlan)
      (inv : Planned tables cal r a b request p) (q : Parsed tables cal a b request inv.window)
      → request.intent ≢ live_evidence
      → Kept c q.since
      → Kept d q.until
      → InOrder q.since q.until
      → Replays tables cal c d request.intent inv.step
  replays r a b c d request p inv q l ks ku order =
      let carries = plan-Carries tables cal r a b request p inv in
      let (bs, bu) = request_of-bounds r inv.window request.intent request inv.step l inv.stepped in
      let es = ap (λ (w : Window). w.since) q.written in
      let eu = ap (λ (w : Window). w.until) q.written in
      parse_window-written c d q.since q.until (request_of request.intent inv.step) ks ku order
        (bs ∙ carries.since ∙ sym es) (bu ∙ carries.until ∙ sym eu)
      ∙ ap ok (window_of_path (es ∙ sym carries.since) (eu ∙ sym carries.until))
    where
      window_of_path :
          write_bound cal q.since ≡ inv.step.since
          → write_bound cal q.until ≡ inv.step.until
          → ◌≡◌ {A = Window}
              (record { since = write_bound cal q.since; until = write_bound cal q.until })
              (window_of inv.step)
      window_of_path e f = λ i. record { since = e i; until = f i }

  -- A plan with a time window is accepted while its bounds, to the second, are in reach of the
  -- clock that Verify reads, and stay in order.
  pub verify_windowed :
      (r : Router) (a b : Instant) (clock : ℕ → Instant) (request : RouteRequest) (p : RoutePlan)
      (since until : Instant)
      → request.intent ≢ live_evidence
      → parse_since tables cal request.since a ≡ ok since
      → parse_until tables cal request.until b ≡ ok until
      → Kept (clock 0) since
      → Kept (clock 1) until
      → InOrder since until
      → plan tables cal r a b request ≡ ok p
      → verify tables cal r clock p ≡ ok tt
  verify_windowed r a b clock request p since until l es eu ks ku order h =
      let inv = plan_inv tables cal r a b request p h in
      let q = parse_window_inv tables cal a b request inv.window inv.windowed in
      let same_since = ok-injective (sym es ∙ q.since_read) in
      let same_until = ok-injective (sym eu ∙ q.until_read) in
      verify-replayed tables cal r a b clock request p inv l (
        replays r a b (clock 0) (clock 1) request p inv q l (subst (Kept (clock 0)) same_since ks)
          (subst (Kept (clock 1)) same_until ku)
          (subst (λ s. InOrder s q.until) same_since (subst (InOrder since) same_until order)))

-- ===== src/Broker/Router/Complete.antt =====
-- internal/broker/router.go: Verify accepts the plans that Plan makes.
use sroiaaa.Base.{
  ℕ, ◌+◌, false, not, ◌&&◌, [], ◌∷◌, ◌≡◌, ◌≢◌, ◌⊎◌, inl, inr, refl, sym, ap, subst, ◌∙◌, arith, ok,
  ok-injective,
}
use sroiaaa.Base.Text.{UnicodeTables}
use sroiaaa.Broker.Types.{
  Intent, monitoring_problems, live_evidence, other, RouteRequest, RouteStep, RoutePlan,
}
use sroiaaa.Broker.Since.{Instant, Calendar, parse_since, parse_until}
use sroiaaa.Broker.Router.Shape.{Planned, plan_inv, plan_intro}
use sroiaaa.Broker.Router.Carries.{Carries, step_for-Carries}
use sroiaaa.Broker.Router.Again.{window_of, request_of, step_for-again}
use sroiaaa.Broker.Router.{
  parse_window, has_window, has_selectors, takes_selectors, Router, Window, plan, new_plan,
  step_for, candidate_requests, verify_candidates, verify_steps, verify,
}
use sroiaaa.Broker.Router.Verify.{verify_candidates_complete, produces_self}
use sroiaaa.Broker.Router.Live.{live_inv, live_intro, live_again, live_listed, live_request}

module _ (tables : UnicodeTables) (cal : Calendar) where
  -- A request with no window has no window in its step, whatever the clock says.
  pub parse_window-quiet :
      (a b : Instant) (request : RouteRequest)
      → has_window request ≡ false
      → parse_window tables cal a b request ≡ ok (record { since = []; until = [] })
  unfolding parse_window parse_since parse_until
  parse_window-quiet a b request h =
      let s : request.since ≡ [] = ground arith in
      let u : request.until ≡ [] = ground arith in rw (s, u) refl

  -- The step carries what the request asked for.
  pub plan-Carries :
      (r : Router) (a b : Instant) (request : RouteRequest) (p : RoutePlan)
      (inv : Planned tables cal r a b request p)
      → Carries tables cal r request inv.window inv.step
  plan-Carries r a b request p inv =
      step_for-Carries tables cal r inv.window request inv.step request.intent
        (λ quiet.
          let same = ok-injective (sym inv.windowed ∙ parse_window-quiet a b request quiet) in
          (ap (λ (w : Window). w.since) same, ap (λ (w : Window). w.until) same))
        inv.selectors inv.stepped

  request_of-intent : (i : Intent) (step : RouteStep) → (request_of i step).intent ≡ i
  request_of-intent monitoring_problems step = refl
  request_of-intent i step = refl

  request_of-selectors :
      (i : Intent) (step : RouteStep)
      → not (takes_selectors i) && has_selectors (request_of i step) ≡ false
  request_of-selectors monitoring_problems step = refl
  request_of-selectors i step = refl

  pub request_of-listed :
      (r : Router) (w : Window) (i : Intent) (request : RouteRequest) (step : RouteStep)
      → i ≢ live_evidence
      → step_for tables cal r w i request ≡ ok step
      → candidate_requests r i step ≡ request_of i step ∷ []
  unfolding candidate_requests step_for
  request_of-listed r w live_evidence request step l h = absurd (l refl)
  request_of-listed r w (other s) request step l h = cc
  request_of-listed r w i request step l h = refl

  -- The window that the step carries, parsed again at these instants, is the same text.
  abbrev pub Replays : Instant → Instant → Intent → RouteStep → Type 0
  Replays a b i step = parse_window tables cal a b (request_of i step) ≡ ok (window_of step)

  plan-request_of :
      (r : Router) (a b a' b' : Instant) (request : RouteRequest) (p : RoutePlan)
      (inv : Planned tables cal r a b request p)
      → request.intent ≢ live_evidence
      → Replays a' b' request.intent inv.step
      → plan tables cal r a' b' (request_of request.intent inv.step) ≡ ok p
  plan-request_of r a b a' b' request p inv l again =
      let i = request.intent in
      let same = request_of-intent i inv.step in
      plan_intro tables cal r a' b' (request_of i inv.step) p (record {
        window = window_of inv.step;
        step = inv.step;
        windowed = again;
        selectors = rw same (request_of-selectors i inv.step);
        stepped = rw same (step_for-again tables cal r inv.window request inv.step i l inv.stepped);
        made = rw same inv.made;
      })

  -- With a single candidate, one reading of the clock decides.
  verify_single :
      (r : Router) (clock : ℕ → Instant) (i : Intent) (step : RouteStep) (c : RouteRequest)
      → candidate_requests r i step ≡ c ∷ []
      → plan tables cal r (clock 0) (clock (0 + 1)) c ≡ ok (new_plan i step)
      → verify tables cal r clock (new_plan i step) ≡ ok tt
  unfolding verify verify_steps verify_candidates
  verify_single r clock i step c only made =
      rw (only, made, produces_self tables cal (new_plan i step)) refl

  -- A plan whose window replays at the first two readings is accepted.
  pub verify-replayed :
      (r : Router) (a b : Instant) (clock : ℕ → Instant) (request : RouteRequest) (p : RoutePlan)
      (inv : Planned tables cal r a b request p)
      → request.intent ≢ live_evidence
      → Replays (clock 0) (clock (0 + 1)) request.intent inv.step
      → verify tables cal r clock p ≡ ok tt
  verify-replayed r a b clock request p inv l again =
      subst (λ q. verify tables cal r clock q ≡ ok tt) inv.made
        (verify_single r clock request.intent inv.step (request_of request.intent inv.step)
          (request_of-listed r inv.window request.intent request inv.step l inv.stepped)
          (plan-request_of r a b (clock 0) (clock (0 + 1)) request p inv l again
            ∙ ap ok (sym inv.made)))

  request_of-window :
      (i : Intent) (step : RouteStep)
      → step.since ≡ []
      → step.until ≡ []
      → has_window (request_of i step) ≡ false
  request_of-window monitoring_problems step s u = ground arith
  request_of-window i step s u = ground arith

  verify-live :
      (r : Router) (a b : Instant) (clock : ℕ → Instant) (request : RouteRequest) (p : RoutePlan)
      (inv : Planned tables cal r a b request p)
      → request.intent ≡ live_evidence
      → verify tables cal r clock p ≡ ok tt
  unfolding verify verify_steps step_for candidate_requests
  verify-live r a b clock request p inv live =
      let auth = live_inv tables cal r request inv.step (rw live at inv.stepped) in
      let candidate = live_request tables cal r request.host request.resource in
      let again =
        live_intro tables cal r candidate inv.step
          (live_again tables cal r request inv.step auth) in
      let made = subst (λ i. new_plan i inv.step ≡ p) live inv.made in
      subst (λ q. verify tables cal r clock q ≡ ok tt) made
        (verify_candidates_complete tables cal r clock (new_plan live_evidence inv.step) candidate 0
          _ (live_listed tables cal r request inv.step auth)
          (λ n.
            plan_intro tables cal r (clock n) (clock (n + 1)) candidate
              (new_plan live_evidence inv.step)
              (record {
                window = record { since = []; until = [] };
                step = inv.step;
                windowed = parse_window-quiet (clock n) (clock (n + 1)) candidate refl;
                selectors = refl;
                stepped = again;
                made = refl;
              })))

  live_or_not : (i : Intent) → (i ≡ live_evidence) ⊎ (i ≢ live_evidence)
  live_or_not live_evidence = inl refl
  live_or_not i = inr (λ e. cc)

  window_path :
      (step : RouteStep)
      → step.since ≡ []
      → step.until ≡ []
      → ◌≡◌ {A = Window} (record { since = []; until = [] }) (window_of step)
  window_path step s u = λ i. record { since = sym s i; until = sym u i }

  -- A plan for a request with no time window is accepted whenever it is verified, under the policy
  -- that made it.
  pub verify_complete :
      (r : Router) (a b : Instant) (clock : ℕ → Instant) (request : RouteRequest) (p : RoutePlan)
      → has_window request ≡ false
      → plan tables cal r a b request ≡ ok p
      → verify tables cal r clock p ≡ ok tt
  verify_complete r a b clock request p quiet h =
      let inv = plan_inv tables cal r a b request p h in
      elim (live_or_not request.intent) [
        | inl live ↦ verify-live r a b clock request p inv live
        | inr routed ↦
            let carries = plan-Carries r a b request p inv in
            let same = ok-injective (sym inv.windowed ∙ parse_window-quiet a b request quiet) in
            let s = carries.since ∙ ap (λ (w : Window). w.since) same in
            let u = carries.until ∙ ap (λ (w : Window). w.until) same in
            verify-replayed r a b clock request p inv routed (
              parse_window-quiet (clock 0) (clock (0 + 1)) (request_of request.intent inv.step)
                (request_of-window request.intent inv.step s u)
              ∙ ap ok (window_path inv.step s u))
      ]

-- ===== src/Broker/Router/Live.antt =====
-- internal/broker/router.go: live.evidence, the one intent whose step comes out of the policy.
use mathlib.Core.List.{Memᴰ}
use sroiaaa.Base.{
  true, false, Option, none, some, List, [], ◌∷◌, ◌≡◌, refl, ap, subst, arith, ok, bind-ok,
  refuse_if-ok, ok-injective, refuse_if, or_fail, or_fail-ok,
}
use sroiaaa.Base.Text.{Text, UnicodeTables, is_empty, lookup, member}
use sroiaaa.Base.Text.Laws.{member_sound}
use sroiaaa.Broker.Types.{
  live_evidence, RouteRequest, RouteStep, missing_host, missing_resource, invalid_resource,
  invalid_request, empty_request,
}
use sroiaaa.Broker.Policy.{validate_resource_name}
use sroiaaa.Broker.Since.{Calendar}
use sroiaaa.Broker.Router.{
  Router, live_evidence_step, live_step, resource_or_zero, valid_host, authorize, has_window,
  live_requests,
}

module _ (tables : UnicodeTables) (cal : Calendar) (r : Router) where
  -- What a successful planLiveEvidence has found.
  pub record Authorized (request : RouteRequest) (step : RouteStep) : Type 0 where
    pub named : is_empty request.host ≡ false
    pub host : valid_host tables cal request.host ≡ ok tt
    pub given : is_empty request.resource ≡ false
    pub alias : validate_resource_name tables request.resource ≡ ok tt
    pub current : has_window request ≡ false
    pub allowed : List Text
    pub registered : lookup request.host r.live_hosts ≡ some allowed
    pub listed : member request.resource allowed ≡ true
    pub step_eq :
        live_step request.host (resource_or_zero (lookup request.resource r.resources)) ≡ step

  authorize-ok :
      (o : Option (List Text)) (alias : Text) {u : Unit {0}}
      → authorize tables cal o alias ≡ ok u
      → (allowed : List Text) × (o ≡ some allowed) × (member alias allowed ≡ true)
  authorize-ok none alias h = absurd (cc)
  authorize-ok (some allowed) alias h = (allowed, refl, ground arith)

  pub live_inv :
      (request : RouteRequest) (step : RouteStep)
      → live_evidence_step tables cal r request ≡ ok step
      → Authorized request step
  unfolding live_evidence_step
  live_inv request step h =
      let (_, e₁, h₁) = bind-ok (refuse_if (is_empty request.host) missing_host) _ h in
      let (_, e₂, h₂) = bind-ok (valid_host tables cal request.host) _ h₁ in
      let (_, e₃, h₃) = bind-ok (refuse_if (is_empty request.resource) missing_resource) _ h₂ in
      let (_, e₄, h₄) =
        bind-ok (or_fail (validate_resource_name tables request.resource) invalid_resource) _ h₃ in
      let (_, e₅, h₅) = bind-ok (refuse_if (has_window request) invalid_request) _ h₄ in
      let (_, e₆, h₆) =
        bind-ok (authorize tables cal (lookup request.host r.live_hosts) request.resource) _ h₅ in
      let (allowed, found, listed) =
        authorize-ok (lookup request.host r.live_hosts) request.resource e₆ in
      record {
        named = refuse_if-ok _ _ e₁;
        host = e₂;
        given = refuse_if-ok _ _ e₃;
        alias = or_fail-ok (validate_resource_name tables request.resource) invalid_resource e₄;
        current = refuse_if-ok (has_window request) invalid_request e₅;
        allowed = allowed;
        registered = found;
        listed = listed;
        step_eq = ok-injective h₆;
      }

  pub live_intro :
      (request : RouteRequest) (step : RouteStep)
      → Authorized request step
      → live_evidence_step tables cal r request ≡ ok step
  unfolding live_evidence_step
  live_intro request step a =
      rw (a.named, a.host, a.given, a.alias, a.current, a.registered, a.listed, a.step_eq) refl

  -- The request that Verify makes of a host and one of its aliases.
  abbrev pub live_request : Text → Text → RouteRequest
  live_request host alias = record (empty_request live_evidence) { host = host; resource = alias }

  pub live_again :
      (request : RouteRequest) (step : RouteStep)
      → Authorized request step
      → Authorized (live_request request.host request.resource) step
  live_again request step a = record {
    named = a.named;
    host = a.host;
    given = a.given;
    alias = a.alias;
    current = refl;
    allowed = a.allowed;
    registered = a.registered;
    listed = a.listed;
    step_eq = a.step_eq;
  }

  live_requests-mem :
      (host alias : Text) (allowed : List Text)
      → Memᴰ alias allowed
      → Memᴰ (live_request host alias) (live_requests live_evidence host (some allowed))
  live_requests-mem host alias [] x = elim x [ ]
  live_requests-mem host alias (a ∷ more) (Memᴰ.head e) = Memᴰ.head (ap (live_request host) e)
  live_requests-mem host alias (a ∷ more) (Memᴰ.tail t) =
      Memᴰ.tail (live_requests-mem host alias more t)

  -- That request is among those that Verify tries.
  pub live_listed :
      (request : RouteRequest) (step : RouteStep)
      → Authorized request step
      → Memᴰ
          (live_request request.host request.resource)
          (live_requests live_evidence step.host (lookup step.host r.live_hosts))
  live_listed request step a =
      subst
        (λ (s : RouteStep).
          Memᴰ (live_request request.host request.resource)
            (live_requests live_evidence s.host (lookup s.host r.live_hosts)))
        a.step_eq
        (rw a.registered (
          live_requests-mem request.host request.resource a.allowed
            (member_sound request.resource a.allowed a.listed)))

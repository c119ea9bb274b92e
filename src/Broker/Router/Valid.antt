-- ===== src/Broker/Router/Valid.antt =====
-- internal/broker/router.go: a live.evidence plan under a router that a checked policy made.
use mathlib.Core.List.{map}
use sroiaaa.Base.{
  ℕ, ◌+◌, true, not, Option, none, some, List, [], ◌∷◌, ◌≡◌, inl, inr, refl, sym, ap, subst, ◌∙◌,
  ok, bind-ok, some_inj, ok-injective, refuse_if, ◌>>◌, Bool-cases,
}
use sroiaaa.Base.Int.{eq_nat}
use sroiaaa.Base.Text.{Text, UnicodeTables, lookup, member, text_eq}
use sroiaaa.Base.Int.{pos}
use sroiaaa.Broker.Types.{
  sroiaaa_agent, operations_execute, live_evidence, RouteRequest, RoutePlan, HostPolicy, Resource,
  Policy,
}
use sroiaaa.Broker.Policy.{
  PolicyFault, present, no_live_hosts, no_resources, validate_policy, validate_resource,
  validate_resource_name, validate_host_selector, check_aliases, each, bad_version, policy_version,
}
use sroiaaa.Broker.Policy.Laws.{
  IsRoutable, validate_resource_sound, each-lookup, check_aliases_sound,
}
use sroiaaa.Broker.Since.{Instant, Calendar}
use sroiaaa.Broker.Router.{
  Router, aliases_of, new_router, new_plan, live_step, resource_or_zero, plan, verify, step_for,
}
use sroiaaa.Broker.Router.Shape.{plan_inv}
use sroiaaa.Broker.Router.Live.{live_inv}
use sroiaaa.Broker.Router.Verify.{verify_sound}

lookup-map :
    (host : Text) (m : List (Text × HostPolicy)) {allowed : List Text}
    → lookup host (map aliases_of m) ≡ some allowed
    → (policy : HostPolicy) × (lookup host m ≡ some policy) × (policy.resources ≡ allowed)
unfolding lookup
lookup-map host [] h = absurd (cc)
lookup-map host ((k, v) ∷ m) h = elim (Bool-cases (text_eq k host)) [
  | inl same ↦ (v, rw same refl, some_inj (rw (same, lookup) at h))
  | inr other ↦
      let (policy, found, e) = lookup-map host m (rw (other, lookup) at h) in
      (policy, rw other found, e)
]

present-ok :
    {V : Type 0} (o : Option V) (fault : PolicyFault) {v : V} → present o fault ≡ ok v → o ≡ some v
present-ok none fault h = absurd (cc)
present-ok (some v) fault h = ap some (ok-injective h)

-- The policy lists the alias for the host, and states the resource of the alias.
pub record Grant (policy : Policy) (host alias : Text) (resource : Resource) : Type 0 where
  pub hosts : List (Text × HostPolicy)
  pub host_policy : HostPolicy
  pub resources : List (Text × Resource)
  pub hosts_eq : policy.live_hosts ≡ some hosts
  pub registered : lookup host hosts ≡ some host_policy
  pub listed : member alias host_policy.resources ≡ true
  pub resources_eq : policy.resources ≡ some resources
  pub resolved : lookup alias resources ≡ some resource

-- Every alias that a host of the router holds is one that the policy grants to the host, and the router's
-- resource of it is the policy's, which can be routed to.
pub record IsChecked (policy : Policy) (r : Router) : Type 0 where
  pub resolves :
      (host alias : Text) (allowed : List Text)
      → lookup host r.live_hosts ≡ some allowed
      → member alias allowed ≡ true
      → (resource : Resource) × (lookup alias r.resources ≡ some resource)
        × IsRoutable resource
        × Grant policy host alias resource

module _ (tables : UnicodeTables) where
  -- The checks that a policy's two maps have passed.
  record PolicyChecks (policy : Policy) : Type 0 where
    hosts : List (Text × HostPolicy)
    resources : List (Text × Resource)
    hosts_eq : policy.live_hosts ≡ some hosts
    resources_eq : policy.resources ≡ some resources
    each_resource :
        each
          (λ name resource. validate_resource_name tables name >> validate_resource resource)
          resources
        ≡ ok tt
    each_host :
        each
          (λ host host_policy.
            validate_host_selector tables host >> check_aliases resources [] host_policy.resources)
          hosts
        ≡ ok tt

  validate_policy_inv :
      (policy : Policy) → validate_policy tables policy ≡ ok tt → PolicyChecks policy
  unfolding validate_policy
  validate_policy_inv policy h =
      let (_, _, h₁) =
        bind-ok (refuse_if (not (eq_nat policy.version policy_version)) bad_version) _ h in
      let (hosts, eh, h₂) = bind-ok (present policy.live_hosts no_live_hosts) _ h₁ in
      let (resources, er, h₃) = bind-ok (present policy.resources no_resources) _ h₂ in
      let (_, each_resource, each_host) =
        bind-ok
          (each (λ name resource. validate_resource_name tables name >> validate_resource resource)
            resources)
          _ h₃ in
      record {
        hosts = hosts;
        resources = resources;
        hosts_eq = present-ok policy.live_hosts no_live_hosts eh;
        resources_eq = present-ok policy.resources no_resources er;
        each_resource = each_resource;
        each_host = each_host;
      }

  PolicyChecks-IsChecked :
      (policy : Policy) (c : PolicyChecks policy)
      → IsChecked policy (record { live_hosts = map aliases_of c.hosts; resources = c.resources })
  PolicyChecks-IsChecked policy c = record {
    resolves = λ host alias allowed registered listed.
        let (host_policy, found, same) = lookup-map host c.hosts registered in
        let granted : member alias host_policy.resources ≡ true =
          subst (λ names. member alias names ≡ true) (sym same) listed in
        let (_, _, aliases) =
          bind-ok (validate_host_selector tables host) _
            (each-lookup _ host c.hosts c.each_host found) in
        let (resource, known) =
          check_aliases_sound c.resources [] host_policy.resources alias aliases granted in
        let (_, _, valid) =
          bind-ok (validate_resource_name tables alias) _
            (each-lookup _ alias c.resources c.each_resource known) in
        (
          resource,
          known,
          validate_resource_sound resource valid,
          record {
            hosts = c.hosts;
            host_policy = host_policy;
            resources = c.resources;
            hosts_eq = c.hosts_eq;
            registered = found;
            listed = granted;
            resources_eq = c.resources_eq;
            resolved = known;
          },
        );
  }

  pub new_router-IsChecked :
      (policy : Policy) (r : Router) → new_router tables policy ≡ ok r → IsChecked policy r
  unfolding new_router
  new_router-IsChecked policy r h =
      let (_, valid, h₁) = bind-ok (validate_policy tables policy) _ h in
      let c = validate_policy_inv policy valid in
      let (hosts, eh, h₂) = bind-ok (present policy.live_hosts no_live_hosts) _ h₁ in
      let (resources, er, h₃) = bind-ok (present policy.resources no_resources) _ h₂ in
      let same_hosts = some_inj (sym c.hosts_eq ∙ present-ok policy.live_hosts no_live_hosts eh) in
      let same_resources =
        some_inj (sym c.resources_eq ∙ present-ok policy.resources no_resources er) in
      subst (IsChecked policy) (ok-injective h₃) (
        subst
          (λ m. IsChecked policy (record { live_hosts = map aliases_of m; resources = resources }))
          same_hosts
          (subst
            (λ m. IsChecked policy (record { live_hosts = map aliases_of c.hosts; resources = m }))
            same_resources (PolicyChecks-IsChecked policy c)))

  -- A plan that reads one resource that the policy grants to one host, as the policy states it.
  pub record LiveAuthority (policy : Policy) (p : RoutePlan) : Type 0 where
    pub host : Text
    pub alias : Text
    pub resource : Resource
    pub granted : Grant policy host alias resource
    pub routable : IsRoutable resource
    pub exact : p ≡ record {
      version = pos 1;
      intent = live_evidence;
      steps =
          record {
            source = sroiaaa_agent;
            action = operations_execute;
            host = host;
            limit = pos 0;
            operation = resource.operation;
            query = [];
            since = [];
            until = [];
            match = [];
            severity = [];
            state = [];
            target = some resource.path;
            params = resource.params;
          }
          ∷ [];
    }

  module _ (cal : Calendar) where
    plan-LiveAuthority :
        (policy : Policy) (r : Router) (a b : Instant) (request : RouteRequest) (p : RoutePlan)
        → IsChecked policy r
        → request.intent ≡ live_evidence
        → plan tables cal r a b request ≡ ok p
        → LiveAuthority policy p
    unfolding step_for
    plan-LiveAuthority policy r a b request p checked live h =
        let inv = plan_inv tables cal r a b request p h in
        let auth = live_inv tables cal r request inv.step (rw live at inv.stepped) in
        let (resource, known, routable, granted) =
          checked.resolves request.host request.resource auth.allowed auth.registered auth.listed in
        let step : live_step request.host resource ≡ inv.step =
          ap (λ o. live_step request.host (resource_or_zero o)) (sym known) ∙ auth.step_eq in
        record {
          host = request.host;
          alias = request.resource;
          resource = resource;
          granted = granted;
          routable = routable;
          exact = sym inv.made ∙ (λ i. new_plan (live i) (sym step i));
        }

    -- Whatever live.evidence plan Verify is handed, under a policy that passed its checks it accepts
    -- only one that reads the host, operation, path and parameters of a resource whose alias the policy
    -- itself lists for that host, as the policy states the resource; the resource is absolute,
    -- canonical and bounded.
    pub verify-LiveAuthority :
        (policy : Policy) (r : Router) (clock : ℕ → Instant) (p : RoutePlan)
        → new_router tables policy ≡ ok r
        → p.intent ≡ live_evidence
        → verify tables cal r clock p ≡ ok tt
        → LiveAuthority policy p
    verify-LiveAuthority policy r clock p made live h =
        let (request, n, planned, same) = verify_sound tables cal r clock p h in
        plan-LiveAuthority policy r (clock n) (clock (n + 1)) request p
          (new_router-IsChecked policy r made) (same ∙ live) planned

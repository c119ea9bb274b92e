-- ===== src/Broker/Router/Selected.antt =====
-- internal/broker/router.go: the selectors of a request, one by one.
use sroiaaa.Base.{
  Bool, false, [], ◌≡◌, refl, sym, subst, ◌∙◌, arith, ok, bind-ok, or_fail-ok, ok-injective,
  or_fail,
}
use sroiaaa.Base.Text.{Text, UnicodeTables}
use sroiaaa.Broker.Types.{RouteRequest, invalid_limit}
use sroiaaa.Broker.Monitoring.{
  monitoring_selectors, Selectors, select_match, select_severity, select_state, resolve_limit,
}
use sroiaaa.Broker.Monitoring.Laws.{
  resolve_limit_idem, select_severity_idem, select_state_idem, select_match_lem,
}

module _ (tables : UnicodeTables) where
  -- The selectors of a successful monitoringSelectors, one by one.
  pub record Selected (request : RouteRequest) (allow : Bool) (chosen : Selectors) : Type 0 where
    pub match : select_match tables request.match ≡ ok chosen.match
    pub severity : select_severity tables request.severity ≡ ok chosen.severity
    pub state : select_state tables allow request.state ≡ ok chosen.state
    pub limit : resolve_limit request.limit ≡ ok chosen.limit

  pub monitoring_selectors_inv :
      (request : RouteRequest) (allow : Bool) (chosen : Selectors)
      → monitoring_selectors tables request allow ≡ ok chosen
      → Selected request allow chosen
  unfolding monitoring_selectors
  monitoring_selectors_inv request allow chosen h =
      let (m, em, h₁) = bind-ok (select_match tables request.match) _ h in
      let (v, ev, h₂) = bind-ok (select_severity tables request.severity) _ h₁ in
      let (s, es, h₃) = bind-ok (select_state tables allow request.state) _ h₂ in
      let (l, el, h₄) = bind-ok (or_fail (resolve_limit request.limit) invalid_limit) _ h₃ in
      let same = ok-injective h₄ in
      subst (Selected request allow) same (record {
        match = em;
        severity = ev;
        state = es;
        limit = or_fail-ok (resolve_limit request.limit) invalid_limit el;
      })

  pub monitoring_selectors_intro :
      (request : RouteRequest) (allow : Bool) (chosen : Selectors)
      → Selected request allow chosen
      → monitoring_selectors tables request allow ≡ ok chosen
  unfolding monitoring_selectors
  monitoring_selectors_intro request allow chosen h = rw (h.match, h.severity, h.state, h.limit)

  -- The selectors of a step, read back as a request.
  pub Selected-again :
      (request : RouteRequest) (allow : Bool) (chosen : Selectors)
      → Selected request allow chosen
      → (again : RouteRequest) → again.match ≡ chosen.match
      → again.severity ≡ chosen.severity
      → again.state ≡ chosen.state
      → again.limit ≡ chosen.limit
      → Selected again allow chosen
  Selected-again request allow chosen h again em ev es el = record {
    match =
        subst (λ x. select_match tables x ≡ ok chosen.match)
          (select_match_lem tables request.match chosen.match h.match ∙ sym em) h.match;
    severity = rw ev (select_severity_idem tables request.severity chosen.severity h.severity);
    state = rw es (select_state_idem tables allow request.state chosen.state h.state);
    limit = rw el (resolve_limit_idem request.limit chosen.limit h.limit);
  }

  -- Where no state is allowed, there is none.
  pub select_state-false : (s t : Text) → select_state tables false s ≡ ok t → (s ≡ []) × (t ≡ [])
  unfolding select_state
  select_state-false s t h = ground arith

  pub select_state-nil : (allow : Bool) → select_state tables allow [] ≡ ok []
  unfolding select_state
  select_state-nil allow = refl

-- ===== src/Broker/Monitoring/Laws.antt =====
-- internal/broker/monitoring.go: what the selectors of an accepted request are.
use sroiaaa.Base.{
  ℕ, ◌≤◌, Bool, false, not, Option, none, some, [], ◌∷◌, ◌≡◌, ◌⊎◌, inl, inr, refl, sym, subst,
  arith, ok, bind-ok, or_fail-ok, refuse_if-ok, All, Bool-cases, ok-injective, refuse_if, or_fail,
}
use sroiaaa.Base.Int.{ℤ, pos, to_nat}
use sroiaaa.Base.Text.{
  Text, UnicodeTables, is_empty, text_eq, lookup, to_lower, trim_space, fields, join,
}
use sroiaaa.Base.Text.Laws.{text_eq_iff, lookup-All}
use sroiaaa.Broker.Types.{invalid_match, invalid_severity, invalid_state, invalid_request}
use sroiaaa.Broker.Monitoring.{
  severity_floors, state_problem, state_resolved, resolve_limit, normalize_severity, has_floor,
  severity_floor, validate_severity, validate_state, select_match, select_severity, select_state,
  validate_match, default_monitoring_limit, max_monitoring_limit,
}

-- A page size that is accepted is between 1 and the maximum, and it is the requested one unless
-- the request left it out.
pub resolve_limit_sound :
    (z l : ℤ)
    → resolve_limit z ≡ ok l
    → (1 ≤ to_nat l)
      × (to_nat l ≤ max_monitoring_limit)
      × (l ≡ pos (to_nat l))
      × ((z ≡ l) ⊎ ((z ≡ pos 0) × (l ≡ pos default_monitoring_limit)))
unfolding resolve_limit
resolve_limit_sound z l h = ground arith

-- A page size in a step is a request for itself.
pub resolve_limit_idem : (z l : ℤ) → resolve_limit z ≡ ok l → resolve_limit l ≡ ok l
unfolding resolve_limit
resolve_limit_idem z l h = ground arith

module _ (tables : UnicodeTables) where
  -- A spelling that normalisation leaves alone, and that is accepted.
  record IsSeverity (s : Text) : Type 0 where
    fixed : normalize_severity tables s ≡ s
    found : validate_severity tables s ≡ ok tt
    nonempty : is_empty s ≡ false

  floors-IsSeverity : All (λ (kv : Text × ℕ). IsSeverity kv.0) severity_floors
  unfolding validate_severity normalize_severity to_lower trim_space fields join lookup
  floors-IsSeverity = (
    record { fixed = refl; found = refl; nonempty = refl },
    (
      record { fixed = refl; found = refl; nonempty = refl },
      (
        record { fixed = refl; found = refl; nonempty = refl },
        (
          record { fixed = refl; found = refl; nonempty = refl },
          (
            record { fixed = refl; found = refl; nonempty = refl },
            (record { fixed = refl; found = refl; nonempty = refl }, tt),
          ),
        ),
      ),
    ),
  )

  normalize_severity-IsSeverity :
      (s : Text) → validate_severity tables s ≡ ok tt → IsSeverity (normalize_severity tables s)
  unfolding validate_severity severity_floor
  normalize_severity-IsSeverity s h =
      go (lookup (normalize_severity tables s) severity_floors) refl h
    where
      go :
          (o : Option ℕ)
          → lookup (normalize_severity tables s) severity_floors ≡ o
          → has_floor tables o ≡ ok tt
          → IsSeverity (normalize_severity tables s)
      go none e k = absurd (cc)
      go (some v) e k =
          lookup-All IsSeverity (normalize_severity tables s) severity_floors floors-IsSeverity e

  -- A severity in a step is a request for itself.
  pub select_severity_idem :
      (s t : Text) → select_severity tables s ≡ ok t → select_severity tables t ≡ ok t
  unfolding select_severity
  select_severity_idem s t h = elim (Bool-cases (is_empty s)) [
    | inl e ↦ let same : [] ≡ t = ok-injective (rw e at h) in rw (← same) refl
    | inr e ↦
        let (_, valid, h') =
          bind-ok (or_fail (validate_severity tables s) invalid_severity) _ (rw e at h) in
        let k =
          normalize_severity-IsSeverity s
            (or_fail-ok (validate_severity tables s) invalid_severity valid) in
        let same : normalize_severity tables s ≡ t = ok-injective h' in
        subst (λ x. select_severity tables x ≡ ok x) same (rw (k.nonempty, k.found, k.fixed) refl)
  ]

  record IsState (s : Text) : Type 0 where
    fixed : normalize_severity tables s ≡ s
    found : validate_state tables s ≡ ok tt
    nonempty : is_empty s ≡ false

  problem-IsState : IsState state_problem
  unfolding validate_state normalize_severity to_lower trim_space fields join text_eq
  problem-IsState = record { fixed = refl; found = refl; nonempty = refl }

  resolved-IsState : IsState state_resolved
  unfolding validate_state normalize_severity to_lower trim_space fields join text_eq
  resolved-IsState = record { fixed = refl; found = refl; nonempty = refl }

  normalize_severity-IsState :
      (s : Text) → validate_state tables s ≡ ok tt → IsState (normalize_severity tables s)
  unfolding validate_state
  normalize_severity-IsState s h =
      elim (Bool-cases (text_eq (normalize_severity tables s) state_problem)) [
        | inl e ↦ subst IsState (sym ((text_eq_iff _ _).0 e)) problem-IsState
        | inr e ↦ elim (Bool-cases (text_eq (normalize_severity tables s) state_resolved)) [
          | inl f ↦ subst IsState (sym ((text_eq_iff _ _).0 f)) resolved-IsState
          | inr f ↦ absurd (ground arith)
        ]
      ]

  -- A state in a step is a request for itself.
  pub select_state_idem :
      (allow : Bool) (s t : Text)
      → select_state tables allow s ≡ ok t
      → select_state tables allow t ≡ ok t
  unfolding select_state
  select_state_idem allow s t h = elim (Bool-cases (is_empty s)) [
    | inl e ↦ let same : [] ≡ t = ok-injective (rw e at h) in rw (← same) refl
    | inr e ↦
        let (_, allowed, h₁) = bind-ok (refuse_if (not allow) invalid_request) _ (rw e at h) in
        let (_, valid, h₂) = bind-ok (or_fail (validate_state tables s) invalid_state) _ h₁ in
        let k =
          normalize_severity-IsState s (or_fail-ok (validate_state tables s) invalid_state valid) in
        let same : normalize_severity tables s ≡ t = ok-injective h₂ in
        subst (λ x. select_state tables allow x ≡ ok x) same
          (rw (k.nonempty, refuse_if-ok (not allow) invalid_request allowed, k.found, k.fixed) refl)
  ]

  -- The substring filter of a step is the request's own.
  pub select_match_lem : (s t : Text) → select_match tables s ≡ ok t → s ≡ t
  unfolding select_match
  select_match_lem [] t h = ok-injective h
  select_match_lem (c ∷ s) t h =
      let (_, valid, h') = bind-ok (or_fail (validate_match (c ∷ s)) invalid_match) _ h in
      ok-injective h'

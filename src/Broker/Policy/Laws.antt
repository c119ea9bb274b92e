-- ===== src/Broker/Policy/Laws.antt =====
-- internal/broker/policy.go: what a policy is that passes the checks.
use sroiaaa.Base.{
  ◌≤◌, true, false, not, ◌||◌, Option, none, some, List, [], ◌∷◌, ◌≡◌, inl, inr, refl, subst, arith,
  Result, ok, bind-ok, some_inj, refuse_if-ok, refuse_if, Bool-cases,
}
use sroiaaa.Base.Int.{pos, to_nat, is_neg}
use sroiaaa.Base.FilePath.{is_abs, clean}
use sroiaaa.Base.Text.{Text, lookup, member, text_eq}
use sroiaaa.Base.Text.Laws.{text_eq_iff}
use sroiaaa.Broker.Types.{
  Operation, filesystem_list, filesystem_stat, filesystem_read, filesystem_tail, OperationParams,
  Resource, no_params,
}
use sroiaaa.Broker.Policy.{
  PolicyFault, max_policy_read_bytes, max_policy_list_items, params_of, check_operation,
  validate_resource, path_not_absolute, path_not_canonical, negative_limit, each, check_aliases,
  is_unknown, unknown_resource, repeated_resource,
}

-- What each operation may be asked for: nothing is unbounded.
abbrev pub InBounds : Operation → OperationParams → Type 0
InBounds filesystem_list p =
    (1 ≤ to_nat p.max_entries)
    × (to_nat p.max_entries ≤ max_policy_list_items)
    × (p.offset ≡ pos 0)
    × (p.max_bytes ≡ pos 0)
InBounds filesystem_stat p = p ≡ no_params
InBounds filesystem_read p =
    (1 ≤ to_nat p.max_bytes)
    × (to_nat p.max_bytes ≤ max_policy_read_bytes)
    × (p.max_entries ≡ pos 0)
    × (is_neg p.offset ≡ false)
InBounds filesystem_tail p =
    (1 ≤ to_nat p.max_bytes)
    × (to_nat p.max_bytes ≤ max_policy_read_bytes)
    × (p.max_entries ≡ pos 0)
    × (p.offset ≡ pos 0)
InBounds _ p = ⊥

-- A resource that the broker can route to: an absolute canonical path, and a bounded operation.
pub record IsRoutable (resource : Resource) : Type 0 where
  pub absolute : is_abs resource.path ≡ true
  pub canonical : clean resource.path ≡ resource.path
  pub bounded : InBounds resource.operation (params_of resource.params)

check_operation_sound :
    (o : Operation) (p : OperationParams)
    → is_neg p.offset || is_neg p.max_bytes || is_neg p.max_entries ≡ false
    → check_operation o p ≡ ok tt
    → InBounds o p
unfolding check_operation
check_operation_sound filesystem_list p n h = ground arith
check_operation_sound filesystem_stat p n h = ground arith
check_operation_sound filesystem_read p n h = ground arith
check_operation_sound filesystem_tail p n h = ground arith
check_operation_sound _ p n h = cc

pub validate_resource_sound :
    (resource : Resource) → validate_resource resource ≡ ok tt → IsRoutable resource
unfolding validate_resource
validate_resource_sound resource h =
    let (_, e₁, h₁) = bind-ok (refuse_if (not (is_abs resource.path)) path_not_absolute) _ h in
    let (_, e₂, h₂) =
      bind-ok (refuse_if (not (text_eq (clean resource.path) resource.path)) path_not_canonical) _
        h₁ in
    let params = params_of resource.params in
    let (_, e₃, h₃) =
      bind-ok
        (refuse_if (is_neg params.offset || is_neg params.max_bytes || is_neg params.max_entries)
          negative_limit)
        _ h₂ in
    let same : text_eq (clean resource.path) resource.path ≡ true =
      ground (arith, refuse_if-ok _ _ e₂) in
    record {
      absolute = ground (arith, refuse_if-ok _ _ e₁);
      canonical = (text_eq_iff _ _).0 same;
      bounded = check_operation_sound resource.operation params (refuse_if-ok _ _ e₃) h₃;
    }

-- A check that passes on every entry of a map passes on one that is looked up.
pub each-lookup :
    {V : Type 0} (check : Text → V → Result PolicyFault (Unit {0})) (k : Text) (m : List (Text × V))
    {v : V}
    → each check m ≡ ok tt
    → lookup k m ≡ some v
    → check k v ≡ ok tt
unfolding each lookup
each-lookup check k [] h e = absurd (cc)
each-lookup check k ((j, w) ∷ m) {v} h e =
    let (_, here, later) = bind-ok (check j w) _ h in
    elim (Bool-cases (text_eq j k)) [
      | inl same ↦
          let value : w ≡ v = some_inj (rw (same, lookup) at e) in
          subst (λ x. check x v ≡ ok tt) ((text_eq_iff j k).0 same)
            (subst (λ y. check j y ≡ ok tt) value here)
      | inr other ↦ each-lookup check k m later (rw (other, lookup) at e)
    ]

known_resource :
    (o : Option Resource) → is_unknown o ≡ false → (resource : Resource) × (o ≡ some resource)
known_resource none h = absurd (cc)
known_resource (some resource) h = (resource, refl)

-- Every alias that passes names a resource.
pub check_aliases_sound :
    (resources : List (Text × Resource)) (seen names : List Text) (alias : Text)
    → check_aliases resources seen names ≡ ok tt
    → member alias names ≡ true
    → (resource : Resource) × (lookup alias resources ≡ some resource)
unfolding check_aliases member
check_aliases_sound resources seen [] alias h m = absurd (cc)
check_aliases_sound resources seen (name ∷ names) alias h m =
    let (_, known, h₁) =
      bind-ok (refuse_if (is_unknown (lookup name resources)) unknown_resource) _ h in
    let (_, fresh, h₂) = bind-ok (refuse_if (member name seen) repeated_resource) _ h₁ in
    elim (Bool-cases (text_eq name alias)) [
      | inl same ↦
          subst (λ n. (resource : Resource) × (lookup n resources ≡ some resource))
            ((text_eq_iff name alias).0 same)
            (known_resource (lookup name resources) (refuse_if-ok _ _ known))
      | inr other ↦ check_aliases_sound resources (name ∷ seen) names alias h₂ (rw other at m)
    ]

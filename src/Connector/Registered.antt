-- ===== src/Connector/Registered.antt =====
-- internal/connector/executor.go: NewExecutor registers every connector under its own source.
use mathlib.Core.List.{map}
use sroiaaa.Base.{
  true, false, Option, none, some, List, [], ◌∷◌, ◌++◌, ◌≡◌, ◌≢◌, refl, ap, subst, ◌∙◌, Result, ok,
  err, inl, inr, Bool-cases, All, ok-injective, append_assoc, append-nil,
}
use sroiaaa.Broker.Types.{Source}
use sroiaaa.Connector.{
  source_eq, Source-discrete, Connector, Registry, find_connector, register, new_executor,
  RegistryError, nil_connector, duplicate_connector,
}

pub source_eq_refl : (s : Source) → source_eq s s ≡ true
unfolding source_eq
source_eq_refl s = go (Source-discrete s s)
  where
    go : (d : Dec (s ≡ s)) → (elim d [ yes _ ↦ true | no _ ↦ false ]) ≡ true
    go (yes e) = refl
    go (no n) = absurd (n refl)

module _ {W E F : Type 0} where
  -- An entry's key is its connector's source, and looking up the source finds the connector.
  abbrev pub IsFound : Registry W E F → Source × Connector W E F → Type 0
  IsFound registry (s, c) = (s ≡ c.source) × (find_connector s registry ≡ some c)

  -- Exactly the connectors of the arguments are registered, in their order, and each is found.
  pub record Registers (cs : List (Option (Connector W E F))) (registry : Registry W E F)
      : Type 0 where
    pub exactly : cs ≡ map (λ entry. some entry.1) registry
    pub found : All (IsFound registry) registry

  find-append :
      (s : Source) (registry more : Registry W E F) {c : Connector W E F}
      → find_connector s registry ≡ some c
      → find_connector s (registry ++ more) ≡ some c
  unfolding find_connector
  find-append s [] more h = absurd (cc)
  find-append s ((t, d) ∷ registry) more h = elim (Bool-cases (source_eq t s)) [
    | inl e ↦ rw e (rw (e, find_connector) at h)
    | inr e ↦ rw e (find-append s registry more (rw (e, find_connector) at h))
  ]

  find-new :
      (registry : Registry W E F) (c : Connector W E F)
      → find_connector c.source registry ≡ none
      → find_connector c.source (registry ++ (c.source, c) ∷ []) ≡ some c
  unfolding find_connector
  find-new [] c h = rw (source_eq_refl c.source) refl
  find-new ((t, d) ∷ registry) c h = elim (Bool-cases (source_eq t c.source)) [
    | inl e ↦ absurd (clash (rw (e, find_connector) at h))
    | inr e ↦ rw e (find-new registry c (rw (e, find_connector) at h))
  ]
    where
      clash : some d ≢ none
      clash k = cc

  keep :
      (registry entries : Registry W E F) (c : Connector W E F)
      → All (IsFound registry) entries
      → find_connector c.source registry ≡ none
      → All (IsFound (registry ++ (c.source, c) ∷ [])) (entries ++ (c.source, c) ∷ [])
  keep registry [] c h fresh = ((refl, find-new registry c fresh), tt)
  keep registry ((s, d) ∷ entries) c h fresh = (
    (h.0.0, find-append s registry ((c.source, c) ∷ []) h.0.1),
    keep registry entries c h.1 fresh,
  )

  map-append :
      (xs ys : Registry W E F)
      → map (λ entry. some entry.1) (xs ++ ys)
        ≡ map (λ entry. some entry.1) xs ++ map (λ entry. some entry.1) ys
  map-append [] ys = refl
  map-append (x ∷ xs) ys = ap (λ r. some x.1 ∷ r) (map-append xs ys)

  register-Registers :
      (before : Registry W E F) (cs : List (Option (Connector W E F))) (registry : Registry W E F)
      → All (IsFound before) before
      → register before cs ≡ ok registry
      → Registers (map (λ entry. some entry.1) before ++ cs) registry
  unfolding register
  register-Registers before [] registry held h =
      subst (Registers _) (ok-injective h) (record { exactly = append-nil _; found = held })
  register-Registers before (none ∷ cs) registry held h = absurd (refused h)
    where
      refused : ◌≢◌ {A = Result RegistryError (Registry W E F)} (err nil_connector) (ok registry)
      refused k = cc
  register-Registers before (some c ∷ cs) registry held h =
      go (find_connector c.source before) refl h (λ fresh.
        register-Registers (before ++ (c.source, c) ∷ []) cs registry
          (keep before before c held fresh))
    where
      go :
          (o : Option (Connector W E F))
          → find_connector c.source before ≡ o
          → (elim o [
            | some d ↦ err duplicate_connector
            | none ↦ register (before ++ (c.source, c) ∷ []) cs
          ])
            ≡ ok registry
          → (find_connector c.source before ≡ none
              → register (before ++ (c.source, c) ∷ []) cs ≡ ok registry
              → Registers
                  (map (λ entry. some entry.1) (before ++ (c.source, c) ∷ []) ++ cs)
                  registry)
          → Registers (map (λ entry. some entry.1) before ++ some c ∷ cs) registry
      go (some d) e k later = absurd (refused k)
        where
          refused :
              ◌≢◌ {A = Result RegistryError (Registry W E F)}
                (err duplicate_connector)
                (ok registry)
          refused r = cc
      go none e k later =
          subst (λ l. Registers l registry)
            (ap (λ l. l ++ cs) (map-append before ((c.source, c) ∷ []))
              ∙ append_assoc _ (some c ∷ []) cs)
            (later e k)

  -- When NewExecutor succeeds, none of its arguments was nil, the registry holds exactly them in order, each
  -- under its own source, and the lookup of that source finds it.
  pub new_executor-Registers :
      (cs : List (Option (Connector W E F))) (registry : Registry W E F)
      → new_executor cs ≡ ok registry
      → Registers cs registry
  unfolding new_executor
  new_executor-Registers cs registry h = register-Registers [] cs registry tt h

-- ===== src/Connector.antt =====
-- internal/connector/executor.go: the registry of connectors, and the execution of a plan. What a
-- connector reaches is a state `W` that it takes and returns; its evidence is of any type.
pub mod Attempt
pub mod Evidence
pub mod Laws
pub mod Pegasus
pub mod Registered
pub mod Rt
pub mod Zabbix
mod Tests
use native.Mathlib.Decide.{ℕ_discrete}
use mathlib.Core.List.{map}
use sroiaaa.Base.{
  Bool, true, false, Option, none, some, List, [], ◌∷◌, ◌++◌, ◌||◌, Result, ok, err, if◌then◌else◌,
}
use sroiaaa.Base.Text.{Text}
use sroiaaa.Broker.Types.{Source, Intent, RouteStep, RoutePlan, Text-discrete}

unfoldable pub Source-discrete : Discrete Source
Source-discrete = hlevel Text-discrete

unfoldable pub source_eq : Source → Source → Bool
source_eq s t = elim (Source-discrete s t) [ yes _ ↦ true | no _ ↦ false ]

pub data RegistryError : Type 0 where
  nil_connector duplicate_connector : RegistryError

-- The interface Connector.
pub record Connector (W E F : Type 0) : Type 0 where
  pub source : Source
  pub execute : RouteStep → W → Result F E × W

abbrev pub Registry : Type 0 → Type 0 → Type 0 → Type 0
Registry W E F = List (Source × Connector W E F)

pub data Failure (F : Type 0) : Type 0 where
  no_connector : Failure F
  failed : F → Failure F

-- The result, with the evidence so far, the error if there is one, and what the connectors left.
pub record Outcome (W E F : Type 0) : Type 0 where
  pub evidence : List E
  pub failure : Option (Failure F)
  pub world : W

module _ {W E F : Type 0} where
  unfoldable pub find_connector : Source → Registry W E F → Option (Connector W E F)
  find_connector s [] = none
  find_connector s ((t, c) ∷ registry) =
      let rest = find_connector s registry in if source_eq t s then some c else rest

  -- A connector that is missing from the arguments is nil.
  unfoldable pub register :
      Registry W E F → List (Option (Connector W E F)) → Result RegistryError (Registry W E F)
  register registry [] = ok registry
  register registry (none ∷ cs) = err nil_connector
  register registry (some c ∷ cs) = elim (find_connector c.source registry) [
    | some d ↦ err duplicate_connector
    | none ↦ register (registry ++ (c.source, c) ∷ []) cs
  ]

  unfoldable pub new_executor :
      List (Option (Connector W E F)) → Result RegistryError (Registry W E F)
  new_executor = register []

  abbrev pub stopped : Failure F → W → Outcome W E F
  stopped f w = record { evidence = []; failure = some f; world = w }

  abbrev pub collected : E → Outcome W E F → Outcome W E F
  collected e out = record out { evidence = e ∷ out.evidence }

  abbrev pub after_step : (W → Outcome W E F) → Result F E × W → Outcome W E F
  after_step rest (ok e, w) = collected e (rest w)
  after_step rest (err x, w) = stopped (failed x) w

  abbrev pub run_step :
      (W → Outcome W E F) → RouteStep → W → Option (Connector W E F) → Outcome W E F
  run_step rest step w none = stopped no_connector w
  run_step rest step w (some c) = after_step rest (c.execute step w)

  unfoldable pub execute_steps : Registry W E F → List RouteStep → W → Outcome W E F
  execute_steps registry [] w = record { evidence = []; failure = none; world = w }
  execute_steps registry (step ∷ steps) w =
      run_step (execute_steps registry steps) step w (find_connector step.source registry)

  unfoldable pub execute_plan : Registry W E F → RoutePlan → W → Outcome W E F
  execute_plan registry p w = execute_steps registry p.steps w

  unfoldable pub sources : Registry W E F → List Source
  sources registry = map (λ entry. entry.0) registry

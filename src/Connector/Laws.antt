-- ===== src/Connector/Laws.antt =====
-- internal/connector/executor.go: a plan runs step by step, each at the connector of its source, up to
-- the first failure.
use sroiaaa.Base.{Option, none, some, List, [], ◌∷◌, ◌++◌, ◌≡◌, refl, ap, Result, ok, err}
use sroiaaa.Broker.Types.{RouteStep, RoutePlan}
use sroiaaa.Connector.{
  Connector, Registry, find_connector, Failure, no_connector, failed, Outcome, collected,
  after_step, run_step, execute_steps, execute_plan,
}

-- The steps run one after the other: each is executed by the connector that is registered for its
-- source, and gives evidence.
pub data Runs {W E F : Type 0} (registry : Registry W E F)
    : List RouteStep → W → List E → W → Type 0 where
  done : {w : W} → Runs registry [] w [] w
  next :
      {step : RouteStep} {steps : List RouteStep} {c : Connector W E F} {w v u : W} {e : E}
      {es : List E}
      → find_connector step.source registry ≡ some c
      → c.execute step w ≡ (ok e, v)
      → Runs registry steps v es u
      → Runs registry (step ∷ steps) w (e ∷ es) u

-- Why a step fails, and what the attempt leaves.
pub data Fails {W E F : Type 0} (registry : Registry W E F) (step : RouteStep) (w : W)
    : Failure F → W → Type 0 where
  unreachable : find_connector step.source registry ≡ none → Fails registry step w no_connector w
  refused :
      {c : Connector W E F} {x : F} {v : W}
      → find_connector step.source registry ≡ some c
      → c.execute step w ≡ (err x, v)
      → Fails registry step w (failed x) v

-- All steps ran; or some ran, the next failed, and those behind it were not begun.
pub data Stops {W E F : Type 0} (registry : Registry W E F) (steps : List RouteStep) (w : W)
    (out : Outcome W E F) : Type 0 where
  finished :
      out.failure ≡ none → Runs registry steps w out.evidence out.world → Stops registry steps w out
  broke :
      (ran rest : List RouteStep) (step : RouteStep) (v : W) (f : Failure F)
      → steps ≡ ran ++ step ∷ rest
      → Runs registry ran w out.evidence v
      → Fails registry step v f out.world
      → out.failure ≡ some f
      → Stops registry steps w out

module _ {W E F : Type 0} (registry : Registry W E F) where
  collected-Stops :
      (step : RouteStep) (steps : List RouteStep) (c : Connector W E F) (w v : W) (e : E)
      (out : Outcome W E F)
      → find_connector step.source registry ≡ some c
      → c.execute step w ≡ (ok e, v)
      → Stops registry steps v out
      → Stops registry (step ∷ steps) w (collected e out)
  collected-Stops step steps c w v e out found ran (finished ok_all runs) =
      finished ok_all (next found ran runs)
  collected-Stops step steps c w v e out found ran
        (broke before rest bad u f split runs fails flag) =
      broke (step ∷ before) rest bad u f (ap (λ ss. step ∷ ss) split) (next found ran runs) fails
        flag

  execute_steps-Stops :
      (steps : List RouteStep) (w : W) → Stops registry steps w (execute_steps registry steps w)
  unfolding execute_steps
  execute_steps-Stops [] w = finished refl done
  execute_steps-Stops (step ∷ steps) w =
      chosen (find_connector step.source registry) refl (execute_steps-Stops steps)
    where
      Later : Type 0
      Later = (v : W) → Stops registry steps v (execute_steps registry steps v)

      answered :
          (c : Connector W E F) (answer : Result F E × W)
          → find_connector step.source registry ≡ some c
          → c.execute step w ≡ answer
          → Later
          → Stops registry (step ∷ steps) w (after_step (execute_steps registry steps) answer)
      answered c (ok e, v) found ran later =
          collected-Stops step steps c w v e (execute_steps registry steps v) found ran (later v)
      answered c (err x, v) found ran later =
          broke [] steps step w (failed x) refl done (refused found ran) refl

      chosen :
          (o : Option (Connector W E F))
          → find_connector step.source registry ≡ o
          → Later
          → Stops registry (step ∷ steps) w (run_step (execute_steps registry steps) step w o)
      chosen none found later =
          broke [] steps step w no_connector refl done (unreachable found) refl
      chosen (some c) found later = answered c (c.execute step w) found refl later

  -- However the connectors behave: either every step of the plan ran in order, each at the connector
  -- registered for its source, and the result holds the evidence of each; or the steps before some step
  -- ran so, that step failed, for want of a connector or by its connector's error, which is the error of
  -- the result, and no later step was begun.
  pub execute_plan-Stops :
      (p : RoutePlan) (w : W) → Stops registry p.steps w (execute_plan registry p w)
  unfolding execute_plan
  execute_plan-Stops p w = execute_steps-Stops p.steps w

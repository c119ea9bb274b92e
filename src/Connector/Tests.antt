-- ===== src/Connector/Tests.antt =====
-- internal/connector/executor.go at a concrete plan: one connector, and a plan whose second step has none.
use sroiaaa.Base.{ℕ, suc, some, [], ◌∷◌, ◌≡◌, refl, ok}
use sroiaaa.Base.Int.{pos}
use sroiaaa.Broker.Types.{
  RoutePlan, fleet_inventory, wazuh_api, zabbix_api, agents_list, trigger_get, empty_step,
}
use sroiaaa.Connector.{
  Connector, Registry, no_connector, Source-discrete, source_eq, find_connector, register,
  new_executor, execute_steps, execute_plan,
}
use sroiaaa.Connector.Laws.{Stops, execute_plan-Stops}
use sroiaaa.Connector.Registered.{Registers, new_executor-Registers}

-- Counts its calls, and gives the count for evidence.
abbrev counter : Connector ℕ ℕ ℕ
counter = record { source = wazuh_api; execute = λ step n. (ok n, suc n) }

abbrev one_source : Registry ℕ ℕ ℕ
one_source = (wazuh_api, counter) ∷ []

abbrev two_steps : RoutePlan
two_steps = record {
  version = pos 1;
  intent = fleet_inventory;
  steps = empty_step wazuh_api agents_list ∷ empty_step zabbix_api trigger_get ∷ [];
}

stops_at_second :
    execute_plan one_source two_steps 7
    ≡ record { evidence = 7 ∷ []; failure = some no_connector; world = 8 }
unfolding execute_plan execute_steps find_connector source_eq Source-discrete
stops_at_second = refl

execute_plan-Stops_example :
    Stops one_source two_steps.steps 7 (execute_plan one_source two_steps 7)
execute_plan-Stops_example = execute_plan-Stops one_source two_steps 7

registers : new_executor (some counter ∷ []) ≡ ok one_source
unfolding new_executor register find_connector
registers = refl

new_executor-Registers_example : Registers (some counter ∷ []) one_source
new_executor-Registers_example = new_executor-Registers (some counter ∷ []) one_source registers

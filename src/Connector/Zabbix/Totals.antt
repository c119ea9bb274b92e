-- ===== src/Connector/Zabbix/Totals.antt =====
-- internal/connector/zabbix.go: what the evidence of an execution that succeeds says.
use sroiaaa.Connector.Attempt.{Attempt}
use sroiaaa.Base.{List}
use sroiaaa.Base.Text.{Text, UnicodeTables}
use sroiaaa.Broker.Types.{RouteStep}
use sroiaaa.Connector.Evidence.{Evidence}
use sroiaaa.Connector.Zabbix.Selectors.{Params, Method}
use sroiaaa.Connector.Zabbix.Calls.{ZabbixHost}
use sroiaaa.Connector.Zabbix.Filters.{IsQuery}
use sroiaaa.Connector.Zabbix.Matching.{Matching}
use sroiaaa.Connector.Zabbix.Exact.{IsExactFor}

-- It says what is so of the query of the step.
pub record IsExact {W : Type 0} (tables : UnicodeTables) (host : ZabbixHost W) (step : RouteStep)
    (e : Evidence) : Type 0 where
  pub method : Method
  pub query : Params
  pub of_step : IsQuery tables step method query
  pub exact : IsExactFor host method query e

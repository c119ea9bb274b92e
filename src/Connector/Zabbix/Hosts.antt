-- ===== src/Connector/Zabbix/Hosts.antt =====
-- internal/connector/zabbix.go: the host that the requests of an execution are limited to.
use sroiaaa.Base.{Option, none, some, [], ◌∷◌, ◌≡◌, ◌⊎◌}
use sroiaaa.Base.Text.{Text, UnicodeTables, codes, lookup}
use sroiaaa.Broker.Types.{RouteStep}
use sroiaaa.Connector.Zabbix.Selectors.{Param, text, Params, host_get}
use sroiaaa.Connector.Zabbix.Calls.{ZabbixRequest, zabbix_request, known_params}
use sroiaaa.Connector.Zabbix.Filters.{IsAbout}

-- The parameter for the host of a step: none where the step names no host.
abbrev pub asked_host : Text → Option Param
asked_host [] = none
asked_host (c ∷ s) = some (text (c ∷ s))

module _ (name : Text) where
  abbrev IsAtHost : Params → Type 0
  IsAtHost params = lookup (codes "host") params ≡ asked_host name

-- A request is about the step, and limited to its host or the question whether that host is known.
pub record IsWithin (tables : UnicodeTables) (step : RouteStep) (q : ZabbixRequest) : Type 0 where
  pub about : IsAbout tables step q
  pub at_the_host :
      (lookup (codes "host") q.params ≡ asked_host step.host)
      ⊎ (q ≡ zabbix_request host_get (known_params step.host))

-- ===== src/Connector/Zabbix/Queries.antt =====
-- internal/connector/zabbix.go: the query of a step for each method, from its host, bounds and selectors.
use sroiaaa.Base.{
  ℕ, Bool, true, not, ◌||◌, Option, none, some, [], ◌∷◌, Result, ok, err, if◌then◌else◌,
}
use sroiaaa.Base.Int.{ℤ, pos, above, to_nat}
use sroiaaa.Base.Text.{Text, UnicodeTables, codes, put}
use sroiaaa.Broker.Types.{RouteStep}
use sroiaaa.Connector.Evidence.{ConnectorError}
use sroiaaa.Connector.Zabbix.Selectors.{
  flag, number, text, texts, Params, trigger_get, event_get, apply_selectors,
}

abbrev pub zabbix_max_limit : ℕ
zabbix_max_limit = 500

-- A moment: its Unix seconds, and whether it is the zero time.
pub record Moment : Type 0 where
  pub unix : ℤ
  pub is_zero : Bool

abbrev pub zabbix_limit : ℤ → ℕ
zabbix_limit limit =
    if not (above limit 0) || above limit zabbix_max_limit then zabbix_max_limit else to_nat limit

abbrev pub trigger_params : ℕ → Params
trigger_params limit =
    (
      codes "output",
      texts (
          codes "triggerid"
          ∷ codes "description"
          ∷ codes "priority"
          ∷ codes "value"
          ∷ codes "lastchange"
          ∷ []),
    )
    ∷ (codes "selectHosts", texts (codes "host" ∷ []))
    ∷ (codes "expandDescription", flag true)
    ∷ (codes "only_true", flag true)
    ∷ (codes "monitored", flag true)
    ∷ (codes "skipDependent", flag true)
    ∷ (codes "sortfield", text (codes "priority"))
    ∷ (codes "sortorder", text (codes "DESC"))
    ∷ (codes "limit", number (pos limit))
    ∷ []

abbrev pub event_params : ℕ → Params
event_params limit =
    (codes "source", number (pos 0))
    ∷ (codes "object", number (pos 0))
    ∷ (
      codes "output",
      texts
          (codes "eventid" ∷ codes "clock" ∷ codes "name" ∷ codes "severity" ∷ codes "value" ∷ []),
    )
    ∷ (codes "selectHosts", texts (codes "host" ∷ []))
    ∷ (codes "sortfield", text (codes "clock"))
    ∷ (codes "sortorder", text (codes "DESC"))
    ∷ (codes "limit", number (pos limit))
    ∷ []

abbrev pub at_host : Text → Params → Params
at_host [] params = params
at_host (c ∷ s) params = put (codes "host") (text (c ∷ s)) params

-- A bound that the step leaves out is none.
abbrev pub parsed_bound :
    (Text → Option Moment) → Text → ConnectorError → Result ConnectorError (Option Moment)
parsed_bound parse [] e = ok none
parsed_bound parse (c ∷ s) e = elim (parse (c ∷ s)) [ some m ↦ ok (some m) | none ↦ err e ]

abbrev pub changed_since : Option Moment → Params → Params
changed_since none params = params
changed_since (some m) params =
    put (codes "sortfield") (text (codes "lastchange"))
      (put (codes "lastChangeSince") (number m.unix) params)

abbrev pub changed_till : Option Moment → Params → Params
changed_till none params = params
changed_till (some m) params = put (codes "lastChangeTill") (number m.unix) params

abbrev pub bounded_by : Text → Option Moment → Params → Params
bounded_by key none params = params
bounded_by key (some m) params = if m.is_zero then params else put key (number m.unix) params

abbrev pub triggers_of :
    UnicodeTables → RouteStep → ℕ → Option Moment → Option Moment → Result ConnectorError Params
triggers_of tables step limit since until =
    apply_selectors tables
      (changed_till until (changed_since since (at_host step.host (trigger_params limit))))
      trigger_get step

abbrev pub events_of :
    UnicodeTables → RouteStep → ℕ → Option Moment → Option Moment → Result ConnectorError Params
events_of tables step limit from till =
    apply_selectors tables
      (bounded_by (codes "time_till") till
        (bounded_by (codes "time_from") from (at_host step.host (event_params limit))))
      event_get step

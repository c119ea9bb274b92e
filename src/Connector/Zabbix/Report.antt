-- ===== src/Connector/Zabbix/Report.antt =====
-- internal/connector/zabbix.go: the evidence of an execution, with its tables and warnings.
use sroiaaa.Base.{ℕ, Bool, true, false, ◌&&◌, List, [], ◌∷◌, ◌++◌, ltb, leb, length}
use sroiaaa.Base.Int.{ℤ, pos, above, greater}
use sroiaaa.Base.Text.{Text, codes, put}
use sroiaaa.Broker.Types.{RouteStep}
use sroiaaa.Connector.Evidence.{
  EvidenceItem, Warning, hosts_trimmed, hosts_floor, bound_excludes, Evidence, empty_evidence,
}
use sroiaaa.Connector.Zabbix.Rows.{Counts, hosts_in, max_breakdown_hosts, top_hosts}
use sroiaaa.Connector.Zabbix.Calls.{max_host_census_rows}

-- summarizeTriggers, which executeEvents writes out.
abbrev pub put_all : List (Text × ℤ) → List (Text × ℤ) → List (Text × ℤ)
put_all [] summary = summary
put_all ((name, n) ∷ counts) summary = put_all counts (put name n summary)

abbrev pub summarize : ℕ → ℤ → List (Text × ℤ) → List (Text × ℤ)
summarize returned total severities =
    put_all severities ((codes "returned", pos returned) ∷ (codes "total_matching", total) ∷ [])

abbrev pub zabbix_evidence : Text → RouteStep → List EvidenceItem → ℤ → List (Text × ℤ) → Evidence
zabbix_evidence endpoint step items total summary =
    record (empty_evidence (codes "zabbix-api") step.action) {
      endpoint = endpoint;
      since = step.since;
      until = step.until;
      match = step.match;
      severity = step.severity;
      item_count = length items;
      total_available = total;
      truncated = above total (length items);
      summary = summary;
      items = items;
    }

abbrev pub count_hosts_in_page : Evidence → Evidence
count_hosts_in_page e = record e {
  summary = put (codes "hosts_affected") (pos (length (hosts_in [] e.items))) e.summary;
}

abbrev pub warn_if : Bool → Warning → List Warning
warn_if true w = w ∷ []
warn_if false w = []

-- attachHostBreakdown, after its census.
abbrev pub host_breakdown : ℤ → Counts → ℕ → Evidence → Evidence
host_breakdown total counts examined e = record e {
  summary = put (codes "hosts_affected") (pos (length counts)) e.summary;
  breakdown = put (codes "events_by_host") (top_hosts counts) e.breakdown;
  warnings =
      e.warnings
      ++ (warn_if (ltb max_breakdown_hosts (length counts)) (hosts_trimmed (length counts))
          ++ warn_if (leb max_host_census_rows examined && above total examined)
              (hosts_floor examined total));
}

-- compareAgainstNoTimeBound, after its count.
abbrev pub time_comparison : (bounded total : ℤ) → Evidence → Evidence
time_comparison bounded total e = record e {
  summary = put (codes "total_ignoring_time_bound") total e.summary;
  warnings = e.warnings ++ warn_if (greater total bounded) (bound_excludes bounded total);
}

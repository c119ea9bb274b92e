-- ===== src/Connector/Zabbix/Exact.antt =====
-- internal/connector/zabbix.go: what the evidence of a query says of its total and its hosts.
use sroiaaa.Base.{
  ℕ, ◌≤◌, ◌<◌, Bool, true, false, ◌&&◌, some, List, [], ◌∷◌, ◌++◌, ◌≡◌, ◌≢◌, ◌⊎◌, inl, inr, refl,
  sym, ◌∙◌, arith, any, length, ltb, leb, Bool-cases, le→leb,
}
use sroiaaa.Base.Int.{ℤ, pos, above}
use sroiaaa.Base.Text.{Text, codes, lookup, text_eq}
use sroiaaa.Base.Text.Laws.{text_eq-apart, lookup-put, lookup-put_other}
use sroiaaa.Connector.Attempt.Laws.{Gave, Ensures, done-Ensures, known-Ensures}
use sroiaaa.Connector.Evidence.{sum_counts, Warning, hosts_trimmed, hosts_floor, Evidence}
use sroiaaa.Connector.Zabbix.Selectors.{Params, Method}
use sroiaaa.Connector.Zabbix.Rows.{Counts, count_hosts, top_hosts, max_breakdown_hosts}
use sroiaaa.Connector.Zabbix.Calls.{
  ZabbixHost, call_for, host_census_params, max_host_census_rows, host_census,
}
use sroiaaa.Connector.Zabbix.Calls.Adds.{count_hosts-sum}
use sroiaaa.Connector.Zabbix.Matching.{IsPage, Matching}
use sroiaaa.Connector.Zabbix.Report.{count_hosts_in_page, warn_if, host_breakdown, time_comparison}

abbrev pub is_trimmed : Warning → Bool
is_trimmed (hosts_trimmed hosts) = true
is_trimmed _ = false

abbrev pub is_floor : Warning → Bool
is_floor (hosts_floor examined total) = true
is_floor _ = false

module _ {W : Type 0} (host : ZabbixHost W) (method : Method) (query : Params) where
  -- The hosts of the rows that Zabbix gave to a census, and what the evidence says of them.
  pub record HostsOf (e : Evidence) : Type 0 where
    pub rows : List (List Text)
    pub given : Gave (call_for host host.decode_hosts method (host_census_params method query)) rows
    pub all_counted : sum_counts (count_hosts rows []) ≡ length rows
    pub named : lookup (codes "events_by_host") e.breakdown ≡ some (top_hosts (count_hosts rows []))
    pub affected :
        lookup (codes "hosts_affected") e.summary ≡ some (pos (length (count_hosts rows [])))
    -- Without a warning, the table is not trimmed and the census was not cut off.
    pub untrimmed :
        any is_trimmed e.warnings ≡ false → top_hosts (count_hosts rows []) ≡ count_hosts rows []
    pub uncut :
        any is_floor e.warnings ≡ false
        → (length rows < max_host_census_rows) ⊎ (above e.total_available (length rows) ≡ false)

  -- What an evidence says of a query.
  pub record IsExactFor (e : Evidence) : Type 0 where
    pub page : IsPage host method query e.items
    pub matching : Matching host method query e.total_available
    pub counted : e.item_count ≡ length e.items
    pub truncated : e.truncated ≡ above e.total_available (length e.items)
    pub hosts : e.truncated ≡ true → HostsOf e

any-append :
    (p : Warning → Bool) (ws vs : List Warning)
    → any p (ws ++ vs) ≡ false
    → (any p ws ≡ false) × (any p vs ≡ false)
unfolding any
any-append p [] vs h = (refl, h)
any-append p (w ∷ ws) vs h =
    let rest = any-append p ws vs (ground arith) in (ground (arith, rest.0), rest.1)

warn_if-none :
    (p : Warning → Bool) (b : Bool) (w : Warning)
    → p w ≡ true
    → any p (warn_if b w) ≡ false
    → b ≡ false
unfolding any
warn_if-none p true w h k = ground arith
warn_if-none p false w h k = refl

top_hosts-all : (counts : Counts) → length counts ≤ max_breakdown_hosts → top_hosts counts ≡ counts
unfolding top_hosts
top_hosts-all counts h = rw (le→leb (length counts) max_breakdown_hosts h) refl

clash : true ≢ false
clash c = cc

module _ {W : Type 0} (host : ZabbixHost W) (method : Method) (query : Params) where
  -- A comparison with no time bound changes nothing of this.
  pub time_comparison-IsExactFor :
      (bounded total : ℤ) (e : Evidence)
      → IsExactFor host method query e
      → IsExactFor host method query (time_comparison bounded total e)
  unfolding text_eq
  time_comparison-IsExactFor bounded total e h = record {
    page = h.page;
    matching = h.matching;
    counted = h.counted;
    truncated = h.truncated;
    hosts = λ t.
        let of_e = h.hosts t in
        record {
          rows = of_e.rows;
          given = of_e.given;
          all_counted = of_e.all_counted;
          named = of_e.named;
          affected = lookup-put_other _ _ _ e.summary (text_eq-apart refl) ∙ of_e.affected;
          untrimmed = λ n. of_e.untrimmed (any-append is_trimmed e.warnings _ n).0;
          uncut = λ n. of_e.uncut (any-append is_floor e.warnings _ n).0;
        };
  }

  -- An evidence before its hosts are counted.
  pub record IsPlainEvidence (e : Evidence) : Type 0 where
    pub page : IsPage host method query e.items
    pub matching : Matching host method query e.total_available
    pub items_counted : e.item_count ≡ length e.items
    pub cut : e.truncated ≡ above e.total_available (length e.items)

  whole_census :
      (rows : List (List Text)) (total : ℤ)
      → leb max_host_census_rows (length rows) && above total (length rows) ≡ false
      → (length rows < max_host_census_rows) ⊎ (above total (length rows) ≡ false)
  whole_census rows total k = elim (Bool-cases (leb max_host_census_rows (length rows))) [
    | inl b ↦ inr (rw b at k)
    | inr b ↦ inl (ground (arith, b))
  ]

  pub host_breakdown-IsExactFor :
      (rows : List (List Text)) (e : Evidence)
      → Gave (call_for host host.decode_hosts method (host_census_params method query)) rows
      → IsPlainEvidence e
      → IsExactFor host method query
          (host_breakdown e.total_available (count_hosts rows []) (length rows) e)
  unfolding sum_counts
  host_breakdown-IsExactFor rows e given h =
      let hosts = length (count_hosts rows []) in
      record {
        page = h.page;
        matching = h.matching;
        counted = h.items_counted;
        truncated = h.cut;
        hosts = λ t. record {
          rows = rows;
          given = given;
          all_counted = count_hosts-sum rows [] ∙ omega arith;
          named = lookup-put _ _ e.breakdown;
          affected = lookup-put _ _ e.summary;
          untrimmed = λ n.
              let added = any-append is_trimmed e.warnings _ n in
              let fits =
                any-append is_trimmed
                  (warn_if (ltb max_breakdown_hosts hosts) (hosts_trimmed hosts)) _ added.1 in
              top_hosts-all (count_hosts rows []) (
                ground (
                  arith,
                  warn_if-none is_trimmed (ltb max_breakdown_hosts hosts) (hosts_trimmed hosts) refl
                      fits.0,
                ));
          uncut = λ n.
              let added = any-append is_floor e.warnings _ n in
              let cut =
                any-append is_floor (warn_if (ltb max_breakdown_hosts hosts) (hosts_trimmed hosts))
                  _ added.1 in
              whole_census rows e.total_available
                (warn_if-none is_floor _ (hosts_floor (length rows) e.total_available) refl cut.1);
        };
      }

  -- The counts of the rows of a census that Zabbix gave, and their number.
  abbrev pub IsCensus : Counts × ℕ → Type 0
  IsCensus r =
      (rows : List (List Text)) × Gave
        (call_for host host.decode_hosts method (host_census_params method query)) rows
      × (r ≡ (count_hosts rows [], length rows))

  pub host_census-IsCensus : Ensures IsCensus (host_census host method query)
  unfolding host_census
  host_census-IsCensus =
      known-Ensures _ _ _ (λ rows given. done-Ensures IsCensus _ (rows, given, refl))

  pub in_page-IsExactFor :
      (e : Evidence)
      → IsPlainEvidence e
      → e.truncated ≡ false
      → IsExactFor host method query (count_hosts_in_page e)
  in_page-IsExactFor e h n = record {
    page = h.page;
    matching = h.matching;
    counted = h.items_counted;
    truncated = h.cut;
    hosts = λ t. absurd (clash (sym t ∙ n));
  }

-- ===== src/Connector/Zabbix/Matching.antt =====
-- internal/connector/zabbix.go: what Zabbix answered, and the items and totals that are made of it.
use mathlib.Core.List.{map}
use sroiaaa.Base.{ℕ, ◌≤◌, ◌<◌, List, [], ◌∷◌, arith, if-cases, length, leb}
use sroiaaa.Base.Int.{ℤ, pos, ◌+ℤ◌}
use sroiaaa.Base.Text.{Text, put}
use sroiaaa.Connector.Attempt.Laws.{Gave, Ensures, map-Ensures, done-Ensures, known-Ensures}
use sroiaaa.Connector.Evidence.{EvidenceItem}
use sroiaaa.Connector.Zabbix.Selectors.{Params, Method, trigger_get, event_get}
use sroiaaa.Connector.Zabbix.Rows.{
  Trigger, Event, Level, normalize_trigger, normalize_event, format_epoch,
}
use sroiaaa.Connector.Zabbix.Calls.{
  ZabbixHost, call_for, count_matching, level_params, level_names, count_each, exact_census,
  census_params, census, max_census_rows,
}

module _ {W : Type 0} (host : ZabbixHost W) where
  -- The items of a page: one for each row of a response that Zabbix gave to the query.
  pub data IsPage : Method → Params → List EvidenceItem → Type 0 where
    of_triggers :
        (query : Params) (found : List Trigger)
        → Gave (call_for host host.decode_triggers trigger_get query) found
        → IsPage trigger_get query
            (map (normalize_trigger (format_epoch host.parse_int host.format_unix)) found)
    of_events :
        (query : Params) (found : List Event)
        → Gave (call_for host host.decode_events event_get query) found
        → IsPage event_get query
            (map (normalize_event (format_epoch host.parse_int host.format_unix)) found)

  module _ (method : Method) (query : Params) where
    -- From one total to another by the counts that Zabbix gave for each of the levels.
    pub data SumOfLevels : List (ℕ × Text) → ℤ → ℤ → Type 0 where
      no_level : (total : ℤ) → SumOfLevels [] total total
      one_level :
          (level : ℕ) (name : Text) (levels : List (ℕ × Text)) (total count last : ℤ)
          → Gave (count_matching host method (level_params method level query)) count
          → SumOfLevels levels (total +ℤ count) last
          → SumOfLevels ((level, name) ∷ levels) total last

    -- How many rows Zabbix has for the query: as many as it gave, where that is below the limit of a census;
    -- the sum of its counts for the levels, where it is not.
    pub data Matching : ℤ → Type 0 where
      by_rows :
          (rows : List Level)
          → Gave (call_for host host.decode_levels method (census_params method query)) rows
          → length rows < max_census_rows
          → Matching (pos (length rows))
      by_levels :
          (rows : List Level) (total : ℤ)
          → Gave (call_for host host.decode_levels method (census_params method query)) rows
          → max_census_rows ≤ length rows
          → SumOfLevels level_names (pos 0) total
          → Matching total

    count_each-SumOfLevels :
        (levels : List (ℕ × Text)) (total : ℤ) (counts : List (Text × ℤ))
        → Ensures
            (λ r. SumOfLevels levels total r.0)
            (count_each host method query levels total counts)
    unfolding count_each
    count_each-SumOfLevels [] total counts = done-Ensures _ _ (no_level total)
    count_each-SumOfLevels ((level, name) ∷ levels) total counts =
        known-Ensures _ _ _ (λ count gave.
          map-Ensures (λ r. SumOfLevels levels (total +ℤ count) r.0) _
            (count_each host method query levels (total +ℤ count) (put name count counts))
            (λ r. one_level level name levels total count r.0 gave)
            (count_each-SumOfLevels levels (total +ℤ count) (put name count counts)))

    pub census-Matching : Ensures (λ r. Matching r.0) (census host method query)
    unfolding census exact_census
    census-Matching = known-Ensures _ _ _ (λ rows gave.
        if-cases (Ensures (λ r. Matching r.0)) (leb max_census_rows (length rows))
          (λ many.
            map-Ensures (λ r. SumOfLevels level_names (pos 0) r.0) _
              (count_each host method query level_names (pos 0) [])
              (λ r. by_levels rows r.0 gave (ground (arith, many)))
              (count_each-SumOfLevels level_names (pos 0) []))
          (λ few. done-Ensures _ _ (by_rows rows gave (ground (arith, few)))))

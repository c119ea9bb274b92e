-- ===== src/Connector/Zabbix/Rows.antt =====
-- The rows that internal/connector/zabbix.go reads, and what it counts of them. What encoding/json makes of a
-- response is given.
pub mod Top
use mathlib.Core.List.{map}
use sroiaaa.Base.{
  ℕ, zero, suc, ◌+◌, Bool, true, false, not, ◌||◌, Option, none, some, List, [], ◌∷◌, ◌++◌,
  if◌then◌else◌, ltb, leb, ◌==◌, length, take,
}
use sroiaaa.Base.Int.{ℤ}
use sroiaaa.Base.Text.{Text, codes, is_empty, text_eq, lookup, member, put}
use sroiaaa.Connector.Evidence.{EvidenceItem}

pub record Trigger : Type 0 where
  pub trigger_id : Text
  pub description : Text
  pub priority : Text
  pub value : Text
  pub last_change : Text
  pub hosts : List Text

pub record Event : Type 0 where
  pub event_id : Text
  pub clock : Text
  pub name : Text
  pub severity : Text
  pub value : Text
  pub hosts : List Text

-- A row of the severity census: the priority of a trigger, or the severity of an event.
pub record Level : Type 0 where
  pub priority : Text
  pub severity : Text

abbrev pub zabbix_priority : List (Text × Text)
zabbix_priority =
    (codes "0", codes "not classified")
    ∷ (codes "1", codes "information")
    ∷ (codes "2", codes "warning")
    ∷ (codes "3", codes "average")
    ∷ (codes "4", codes "high")
    ∷ (codes "5", codes "disaster")
    ∷ []

abbrev pub text_or : Text → Option Text → Text
text_or default none = default
text_or default (some s) = s

unfoldable pub severity_name : Text → Text
severity_name level = text_or (codes "unknown") (lookup level zabbix_priority)

abbrev pub first_host : Text → List Text → Text
first_host default [] = default
first_host default (host ∷ hosts) = host

-- formatEpoch: strconv.ParseInt, and time.Unix as RFC 3339.
unfoldable pub format_epoch : (Text → Option ℤ) → (ℤ → Text) → Text → Text
format_epoch parse_int format_unix value = elim (parse_int value) [
  | some seconds ↦ format_unix seconds
  | none ↦ value
]

abbrev pub change_field : (Text → Text) → Text → List (Text × Text)
change_field format [] = []
change_field format (c ∷ s) = (codes "last_change", format (c ∷ s)) ∷ []

unfoldable pub normalize_trigger : (Text → Text) → Trigger → EvidenceItem
normalize_trigger format t = record {
  id = t.trigger_id;
  host = first_host [] t.hosts;
  description = t.description;
  severity = severity_name t.priority;
  state = (if text_eq t.value (codes "1") then codes "problem" else codes "ok");
  fields = change_field format t.last_change;
}

unfoldable pub normalize_event : (Text → Text) → Event → EvidenceItem
normalize_event format e = record {
  id = e.event_id;
  host = first_host [] e.hosts;
  description = e.name;
  severity = severity_name e.severity;
  state = (if text_eq e.value (codes "1") then codes "problem" else codes "resolved");
  fields = (codes "occurred", format e.clock) ∷ [];
}

abbrev pub Counts : Type 0
Counts = List (Text × ℕ)

-- `counts[name]++`.
unfoldable pub bump : Text → Counts → Counts
bump name [] = (name, 1) ∷ []
bump name ((key, n) ∷ counts) =
    let rest = bump name counts in
    if text_eq key name then (key, suc n) ∷ counts else (key, n) ∷ rest

abbrev pub level_of : Level → Text
level_of row = if is_empty row.priority then row.severity else row.priority

unfoldable pub count_levels : List Level → Counts → Counts
count_levels [] counts = counts
count_levels (row ∷ rows) counts = count_levels rows (bump (severity_name (level_of row)) counts)

unfoldable pub count_hosts : List (List Text) → Counts → Counts
count_hosts [] counts = counts
count_hosts (hosts ∷ rows) counts =
    count_hosts rows (bump (first_host (codes "unknown") hosts) counts)

-- The distinct hosts of the items, which countHostsInPage counts.
unfoldable pub hosts_in : List Text → List EvidenceItem → List Text
hosts_in seen [] = seen
hosts_in seen (item ∷ items) =
    let skipped = hosts_in seen items in
    let added = hosts_in (seen ++ item.host ∷ []) items in
    if is_empty item.host then skipped else if member item.host seen then skipped else added

abbrev pub max_breakdown_hosts : ℕ
max_breakdown_hosts = 25

-- Go's `<` on strings, which UTF-8 keeps in the order of the runes.
unfoldable pub text_less : Text → Text → Bool
text_less [] [] = false
text_less [] (d ∷ t) = true
text_less (c ∷ s) [] = false
text_less (c ∷ s) (d ∷ t) = let rest = text_less s t in if c == d then rest else ltb c d

-- The order of topHosts: the larger count first, and equal counts by name.
unfoldable pub busier : Text × ℕ → Text × ℕ → Bool
busier a b = if a.1 == b.1 then text_less a.0 b.0 else ltb b.1 a.1

unfoldable pub insert_entry : Text × ℕ → Counts → Counts
insert_entry e [] = e ∷ []
insert_entry e (f ∷ entries) =
    let rest = insert_entry e entries in if busier e f then e ∷ f ∷ entries else f ∷ rest

-- sort.Slice; the order is total on distinct names, so that any sort gives this list.
unfoldable pub sort_entries : Counts → Counts
sort_entries [] = []
sort_entries (e ∷ entries) = insert_entry e (sort_entries entries)

unfoldable pub top_hosts : Counts → Counts
top_hosts counts =
    if leb (length counts) max_breakdown_hosts
    then counts
    else take max_breakdown_hosts (sort_entries counts)

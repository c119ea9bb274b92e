-- ===== src/Connector/Pegasus.antt =====
-- internal/connector/pegasusdb.go: the connector of the pegasus database. Package database/sql is a parameter:
-- what a statement does to the world, and the rows that a query gives.
pub mod Shown
pub mod Bounded
mod Tests
use sroiaaa.Base.{
  ℕ, ◌+◌, Bool, true, false, not, ◌||◌, Option, none, some, List, [], ◌∷◌, ◌++◌, Result, ok, err,
  if◌then◌else◌, ltb, leb, ◌==◌, length, take,
}
use sroiaaa.Base.Int.{ℤ, pos, above, below, to_nat}
use sroiaaa.Base.Text.{Text, UnicodeTables, codes, is_empty, byte_len, trim_space, trim_right, put}
use sroiaaa.Broker.Types.{pegasus_db, Action, query_execute, RouteStep}
use sroiaaa.Broker.Sql.{validate_query}
use sroiaaa.Connector.{source_eq}
use sroiaaa.Connector.Attempt.{Attempt, done, ◌>>=◌, ◌>>◌, fail_if, found, lifted}
use sroiaaa.Connector.Evidence.{
  EvidenceItem, Evidence, empty_evidence, ConnectorError, wrong_source, unsupported_action,
  invalid_query, transport, query_failed, query_timeout, scan_failed, count_failed,
}

abbrev pub pegasus_default_max_rows : ℕ
pegasus_default_max_rows = 500

abbrev pub pegasus_max_cell_bytes : ℕ
pegasus_max_cell_bytes = 4096

abbrev pub pegasus_max_total_bytes : ℕ
pegasus_max_total_bytes = 49152

pub record PegasusConfig : Type 0 where
  pub dsn : Text
  pub max_rows : ℤ
  pub max_bytes : ℤ

pub record PegasusConnector : Type 0 where
  pub max_rows : ℕ
  pub max_bytes : ℕ
  pub endpoint : Text

pub data PegasusConfigError : Type 0 where
  no_dsn bad_dsn no_database no_open : PegasusConfigError

abbrev pub positive_or : ℤ → ℕ → ℕ
positive_or n default = if above n 0 then to_nat n else default

-- `parsed` is the address and the name of the database; `opens` is whether sql.Open succeeds.
abbrev pub after_dsn :
    PegasusConfig → Option (Text × Text) → Bool → Result PegasusConfigError PegasusConnector
after_dsn config none opens = err bad_dsn
after_dsn config (some (addr, name)) opens =
    if is_empty name
    then err no_database
    else if opens
    then ok (record {
      max_rows = positive_or config.max_rows pegasus_default_max_rows;
      max_bytes = positive_or config.max_bytes pegasus_max_total_bytes;
      endpoint = addr ++ (codes "/" ++ name);
    })
    else err no_open

unfoldable pub new_pegasus_connector :
    (Text → Option (Text × Text))
    → (Text → Bool)
    → PegasusConfig
    → Result PegasusConfigError PegasusConnector
new_pegasus_connector parse_dsn opens config =
    if is_empty config.dsn
    then err no_dsn
    else after_dsn config (parse_dsn config.dsn) (opens config.dsn)

-- How the iteration over rows ends: well, at the time limit of the statement, or with another error.
pub data RowsEnd : Type 0 where
  finished timed_out broken : RowsEnd

-- The rows of a query. A row that Scan does not read is none; a cell that is NULL is none.
pub record Rows : Type 0 where
  pub columns : Option (List Text)
  pub rows : List (Option (List (Option (List ℕ))))
  pub end : RowsEnd

pub record Database (W : Type 0) : Type 0 where
  pub connect : W → Bool × W
  pub bound_statement_time : W → Bool × W
  pub query : Text → W → Option Rows × W
  pub count : Text → W → Option ℤ × W
  -- A cell's bytes as evidence shows them, and strconv.Itoa.
  pub as_text : List ℕ → Text
  pub itoa : ℕ → Text

abbrev pub cell_bytes : Option (List ℕ) → List ℕ
cell_bytes none = []
cell_bytes (some bytes) = bytes

-- "…" in UTF-8.
abbrev pub ellipsis_bytes : List ℕ
ellipsis_bytes = 226 ∷ 128 ∷ 166 ∷ []

unfoldable pub cell_value : Option (List ℕ) → List ℕ
cell_value cell =
    let bytes = cell_bytes cell in
    if ltb pegasus_max_cell_bytes (length bytes)
    then take pegasus_max_cell_bytes bytes ++ ellipsis_bytes
    else bytes

-- The loop over the columns: the fields, and the bytes so far.
unfoldable pub row_fields :
    (List ℕ → Text)
    → List Text
    → List (Option (List ℕ))
    → List (Text × Text)
    → ℕ
    → List (Text × Text) × ℕ
row_fields as_text [] cells fields bytes = (fields, bytes)
row_fields as_text (column ∷ columns) [] fields bytes = (fields, bytes)
row_fields as_text (column ∷ columns) (cell ∷ cells) fields bytes =
    let value = cell_value cell in
    row_fields as_text columns cells (put column (as_text value) fields)
      (bytes + byte_len column + length value)

abbrev pub row_item : Text → List (Text × Text) → EvidenceItem
row_item id fields = record {
  id = id;
  host = [];
  description = [];
  severity = [];
  state = [];
  fields = fields;
}

abbrev pub scan_end : RowsEnd → List EvidenceItem → Result ConnectorError (List EvidenceItem × Bool)
scan_end finished items = ok (items, false)
scan_end timed_out items = err query_timeout
scan_end broken items = err query_failed

abbrev pub first_rows : ℤ → ℕ → ℕ
first_rows limit max_rows =
    if above limit 0 then (if below limit max_rows then to_nat limit else max_rows) else max_rows

-- The query as a subquery, without what may follow it.
abbrev pub is_tail : ℕ → Bool
is_tail c = c == b';' || c == 32 || c == 9 || c == 10 || c == 13

unfoldable pub count_query : Text → Text
count_query query =
    codes "SELECT COUNT(*) FROM ("
    ++ (trim_right is_tail (trim_space query) ++ codes ") AS sroiaaa_rowcount")

abbrev pub pegasus_evidence :
    PegasusConnector → RouteStep → ℕ → ℕ → List EvidenceItem × Bool → ℤ → Evidence
pegasus_evidence c step columns limit (items, capped) total =
    let truncated = capped || above total (length items) in
    let counted =
      (codes "returned", pos (length items))
      ∷ (codes "total_matching", total)
      ∷ (codes "columns", pos columns)
      ∷ [] in
    record (empty_evidence (codes "pegasus-db") step.action) {
      endpoint = c.endpoint;
      query = step.query;
      item_count = length items;
      total_available = total;
      truncated = truncated;
      summary = (if truncated then put (codes "row_limit") (pos limit) counted else counted);
      items = items;
    }

abbrev pub is_query : Action → Bool
is_query query_execute = true
is_query _ = false

abbrev pub is_err : {E A : Type 0} → Result E A → Bool
is_err (ok a) = false
is_err (err e) = true

module _ {W : Type 0} (db : Database W) where
  -- scanRows, with the items and the bytes so far.
  unfoldable pub scan_rows :
      List Text
      → ℕ
      → ℕ
      → RowsEnd
      → List EvidenceItem
      → ℕ
      → List (Option (List (Option (List ℕ))))
      → Result ConnectorError (List EvidenceItem × Bool)
  scan_rows columns max_rows max_bytes end items bytes [] = scan_end end items
  scan_rows columns max_rows max_bytes end items bytes (none ∷ rows) =
      if leb max_rows (length items) then ok (items, true) else err scan_failed
  scan_rows columns max_rows max_bytes end items bytes (some cells ∷ rows) =
      let r = row_fields db.as_text columns cells [] bytes in
      let longer = items ++ row_item (db.itoa (length items)) r.0 ∷ [] in
      let rest = scan_rows columns max_rows max_bytes end longer r.1 rows in
      if leb max_rows (length items)
      then ok (items, true)
      else if leb max_bytes r.1
      then ok (longer, true)
      else rest

  abbrev pub checked : (W → Bool × W) → ConnectorError → W → Result ConnectorError (Unit {0}) × W
  checked act e w = let (good, v) = act w in ((if good then ok tt else err e), v)

  abbrev pub asked :
      {A : Type 0} → (W → Option A × W) → ConnectorError → W → Result ConnectorError A × W
  asked act e w = let r = act w in ((elim r.0 [ some a ↦ ok a | none ↦ err e ]), r.1)

  -- The statements that a step sends, from the connection to the count.
  unfoldable pub run_query : PegasusConnector → RouteStep → ℕ → Attempt W Evidence
  run_query c step limit = do
    checked db.connect transport
    checked db.bound_statement_time transport
    answer ← asked (db.query step.query) query_failed
    columns ← found answer.columns query_failed
    scanned ← lifted (scan_rows columns limit c.max_bytes answer.end [] 0 answer.rows)
    total ← asked (db.count (count_query step.query)) count_failed
    done (pegasus_evidence c step (length columns) limit scanned total)

  unfoldable pub pegasus_execute : UnicodeTables → PegasusConnector → RouteStep → Attempt W Evidence
  pegasus_execute tables c step = do
    fail_if (not (source_eq step.source pegasus_db)) wrong_source
    fail_if (not (is_query step.action)) unsupported_action
    fail_if (is_err (validate_query tables step.query)) invalid_query
    run_query c step (first_rows step.limit c.max_rows)

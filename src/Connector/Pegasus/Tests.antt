-- ===== src/Connector/Pegasus/Tests.antt =====
-- internal/connector/pegasusdb.go at a concrete query, of which two rows are asked for and three are there.
use sroiaaa.Base.{
  ℕ, suc, true, false, any, all, Option, none, some, List, [], ◌∷◌, ◌≡◌, refl, ok, arith,
}
use sroiaaa.Base.Int.{pos}
use sroiaaa.Base.Text.{
  UnicodeTables, codes, text_eq, put, trim_left, trim_right, trim_space, is_space, to_lower,
  has_prefix, contains, byte_len, is_control, fields, join,
}
use sroiaaa.Broker.Types.{RouteStep, pegasus_db, query_execute, empty_step}
use sroiaaa.Broker.Sql.{validate_query, is_bad_rune, is_trailer}
use sroiaaa.Connector.{Source-discrete, source_eq}
use sroiaaa.Connector.Attempt.{done, fail_if, found, lifted, ◌>>=◌}
use sroiaaa.Connector.Attempt.Laws.{Holds, Guarded}
use sroiaaa.Connector.Pegasus.{
  PegasusConnector, finished, Database, scan_rows, run_query, row_fields, cell_value, count_query,
  pegasus_execute,
}
use sroiaaa.Connector.Pegasus.Bounded.{
  IsBounded, Scanned, pegasus_execute-Guarded, scan_rows-Scanned,
}

abbrev ascii : UnicodeTables
ascii = record { letter = λ c. false; digit = λ c. false; lower = λ c. false; to_lower = λ c. c }

abbrev row : Option (List (Option (List ℕ)))
row = some (some (b'x' ∷ []) ∷ none ∷ [])

-- Counts the statements.
abbrev small_database : Database ℕ
small_database = record {
  connect = λ n. (true, n);
  bound_statement_time = λ n. (true, suc n);
  query = λ q n. (
    some (record {
      columns = some (codes "a" ∷ codes "b" ∷ []);
      rows = row ∷ row ∷ row ∷ [];
      end = finished;
    }),
    suc n,
  );
  count = λ q n. (some (pos 3), suc n);
  as_text = λ bytes. bytes;
  itoa = λ n. n ∷ [];
}

abbrev small_connector : PegasusConnector
small_connector = record { max_rows = 500; max_bytes = 49152; endpoint = codes "db/p" }

abbrev step : RouteStep
step = record (empty_step pegasus_db query_execute) {
  query = codes "select a from t";
  limit = pos 2;
}

three_statements : (pegasus_execute small_database ascii small_connector step 0).1 ≡ 3
unfolding pegasus_execute run_query scan_rows row_fields cell_value count_query validate_query
    is_bad_rune is_trailer done fail_if found lifted ◌>>=◌ source_eq Source-discrete any all text_eq
    put trim_left trim_right trim_space is_space to_lower has_prefix contains byte_len is_control
    fields join
three_statements = refl

pegasus_execute-Guarded_example :
    Guarded
      (validate_query ascii step.query ≡ ok tt)
      (IsBounded small_database small_connector step)
      0
      (pegasus_execute small_database ascii small_connector step 0)
pegasus_execute-Guarded_example =
    pegasus_execute-Guarded small_database small_connector step ascii 0

scan_rows-Scanned_example :
    Holds
      (Scanned small_database
        (codes "a" ∷ codes "b" ∷ [])
        2
        49152
        finished
        []
        0
        (row ∷ row ∷ row ∷ []))
      (scan_rows small_database
        (codes "a" ∷ codes "b" ∷ [])
        2
        49152
        finished
        []
        0
        (row ∷ row ∷ row ∷ []))
scan_rows-Scanned_example =
    scan_rows-Scanned small_database (codes "a" ∷ codes "b" ∷ []) 2 49152 finished [] 0
      (row ∷ row ∷ row ∷ []) (omega arith)

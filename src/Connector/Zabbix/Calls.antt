-- ===== src/Connector/Zabbix/Calls.antt =====
-- The calls of internal/connector/zabbix.go: one bounded round trip, and the counts that are derived from it.
pub mod Adds
use sroiaaa.Base.{
  ℕ, zero, suc, Bool, true, false, not, Option, none, some, List, [], ◌∷◌, Result, ok, err,
  if◌then◌else◌, ltb, leb, ◌==◌, length,
}
use sroiaaa.Base.Int.{ℤ, pos, ◌+ℤ◌}
use sroiaaa.Base.Text.{Text, codes, put}
use sroiaaa.Connector.Attempt.{Attempt, done, ◌>>=◌, ◌>>◌, fail_if, found, Http, send_request}
use sroiaaa.Connector.Evidence.{
  ConnectorError, encode_request, build_request, http_status, read_response, response_too_large,
  decode_response, zabbix_error,
}
use sroiaaa.Connector.Zabbix.Selectors.{
  Param, flag, number, text, texts, entry_number, entry_texts, Params, Method, trigger_get,
  event_get, host_get, is_events, without, page_keys, count_keys,
}
use sroiaaa.Connector.Zabbix.Rows.{
  Trigger, Event, Level, Counts, severity_name, count_levels, count_hosts,
}

abbrev pub max_census_rows : ℕ
max_census_rows = 20000

abbrev pub max_host_census_rows : ℕ
max_host_census_rows = 5000

pub record ZabbixRequest : Type 0 where
  pub method : Method
  pub params : Params

abbrev pub zabbix_request : Method → Params → ZabbixRequest
zabbix_request method params = record { method = method; params = params }

-- A response of the API as encoding/json reads it: the result, and whether there is an error.
pub record Envelope (A : Type 0) : Type 0 where
  pub result : A
  pub failed : Bool

pub record ZabbixConnector : Type 0 where
  pub endpoint : Text
  pub token : Text
  pub max_response_bytes : ℕ

-- The connector, with what it uses of net/http, encoding/json, strconv and package time.
pub record ZabbixHost (W : Type 0) : Type 0 where
  pub http : Http W ZabbixRequest
  pub encodes : ZabbixRequest → Bool
  pub connector : ZabbixConnector
  pub decode_triggers : List ℕ → Option (Envelope (List Trigger))
  pub decode_events : List ℕ → Option (Envelope (List Event))
  pub decode_levels : List ℕ → Option (Envelope (List Level))
  pub decode_hosts : List ℕ → Option (Envelope (List (List Text)))
  pub decode_count : List ℕ → Option (Envelope Text)
  pub decode_known : List ℕ → Option ℕ
  pub atoi : Text → Option ℤ
  pub parse_int : Text → Option ℤ
  pub format_unix : ℤ → Text

abbrev pub count_params : Params → Params
count_params params = put (codes "countOutput") (flag true) (without count_keys params)

abbrev pub column_of : Method → Text
column_of event_get = codes "severity"
column_of _ = codes "priority"

abbrev pub level_params : Method → ℕ → Params → Params
level_params method level params =
    put (codes "countOutput") (flag true)
      (put (codes "filter") (entry_number (column_of method) level) (without count_keys params))

abbrev pub level_names : List (ℕ × Text)
level_names =
    (0, codes "not classified")
    ∷ (1, codes "information")
    ∷ (2, codes "warning")
    ∷ (3, codes "average")
    ∷ (4, codes "high")
    ∷ (5, codes "disaster")
    ∷ []

abbrev pub census_params : Method → Params → Params
census_params method params =
    put (codes "limit") (number (pos max_census_rows))
      (put (codes "output") (texts (column_of method ∷ [])) (without page_keys params))

abbrev pub whole : Counts → List (Text × ℤ)
whole [] = []
whole ((name, n) ∷ counts) = (name, pos n) ∷ whole counts

abbrev pub row_id : Method → Text
row_id event_get = codes "eventid"
row_id _ = codes "triggerid"

abbrev pub row_time : Method → Text
row_time event_get = codes "clock"
row_time _ = codes "lastchange"

abbrev pub host_census_params : Method → Params → Params
host_census_params method params = put (codes "limit") (number (pos max_host_census_rows)) (
    put (codes "selectHosts") (texts (codes "host" ∷ [])) (
      put (codes "sortorder") (text (codes "DESC")) (
        put (codes "sortfield") (text (row_time method))
          (put (codes "output") (texts (row_id method ∷ [])) (without count_keys params)))))

abbrev pub known_params : Text → Params
known_params name =
    (codes "filter", entry_texts (codes "host") (name ∷ []))
    ∷ (codes "output", texts (codes "hostid" ∷ []))
    ∷ (codes "limit", number (pos 1))
    ∷ []

module _ {W : Type 0} (host : ZabbixHost W) where
  unfoldable pub raw_call : Method → Params → Attempt W (List ℕ)
  raw_call method params = do
    let request = zabbix_request method params
    fail_if (not (host.encodes request)) encode_request
    fail_if (not (host.http.builds request)) build_request
    reply ← send_request host.http request
    fail_if (not (reply.status == 200)) http_status
    body ← found (reply.read (suc host.connector.max_response_bytes)) read_response
    fail_if (ltb host.connector.max_response_bytes (length body)) response_too_large
    done body

  -- The result of a call, with the errors that every caller tells apart.
  unfoldable pub call_for :
      {A : Type 0} → (List ℕ → Option (Envelope A)) → Method → Params → Attempt W A
  call_for decode method params = do
    body ← raw_call method params
    envelope ← found (decode body) decode_response
    fail_if envelope.failed zabbix_error
    done envelope.result

  unfoldable pub count_matching : Method → Params → Attempt W ℤ
  count_matching method params = do
    result ← call_for host.decode_count method (count_params params)
    found (host.atoi result) decode_response

  -- The loop of exactCensus over the levels, with the total and the counts so far.
  unfoldable pub count_each :
      Method → Params → List (ℕ × Text) → ℤ → List (Text × ℤ) → Attempt W (ℤ × List (Text × ℤ))
  count_each method params [] total counts = done (total, counts)
  count_each method params ((level, name) ∷ levels) total counts = do
    count ← count_matching method (level_params method level params)
    count_each method params levels (total +ℤ count) (put name count counts)

  unfoldable pub exact_census : Method → Params → Attempt W (ℤ × List (Text × ℤ))
  exact_census method params = count_each method params level_names (pos 0) []

  unfoldable pub census : Method → Params → Attempt W (ℤ × List (Text × ℤ))
  census method params = do
    rows ← call_for host.decode_levels method (census_params method params)
    if leb max_census_rows (length rows)
        then exact_census method params
        else done (pos (length rows), whole (count_levels rows []))

  unfoldable pub host_census : Method → Params → Attempt W (Counts × ℕ)
  host_census method params = do
    rows ← call_for host.decode_hosts method (host_census_params method params)
    done (count_hosts rows [], length rows)

  -- Unlike the other calls, this one does not look for an error in the response.
  unfoldable pub host_exists : Text → Attempt W Bool
  host_exists name = do
    body ← raw_call host_get (known_params name)
    rows ← found (host.decode_known body) decode_response
    done (ltb 0 rows)

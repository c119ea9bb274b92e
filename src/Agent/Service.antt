-- ===== src/Agent/Service.antt =====
-- internal/agent/service.go: the operations on the host, and `Execute`.
pub mod Laws
use mathlib.Core.List.{map}
use sroiaaa.Base.{
  ℕ, Bool, true, false, not, Option, none, some, List, [], ◌∷◌, ◌++◌, ltb, if◌then◌else◌, Result,
  ok, err, ◌>>=◌, ◌>>◌, refuse_if, length, take, drop,
}
use sroiaaa.Base.Int.{ℤ, pos, negsuc}
use sroiaaa.Base.Text.{Text, codes, trim_space, has_prefix, split, fields, member}
use sroiaaa.Agent.Types.{
  Operation, capabilities_describe, host_info, filesystem_list, filesystem_stat, filesystem_read,
  filesystem_tail, process_list, operation_catalog, known_operation, api_error, ApiError,
  unknown_operation, operation_disabled, host_info_failed, process_list_failed, RequestEnvelope,
  OsError, DirEntry, Host, AgentConfig, ProcessRecord, HostValue, text, number, Payload,
  capabilities, host, processes,
}
use sroiaaa.Agent.Files.{
  Outcome, join_path, filesystem_list_op, filesystem_stat_op, filesystem_read_op,
  filesystem_tail_op,
}

unfoldable pub operation_enabled : AgentConfig → Text → Bool
operation_enabled cfg name = member name cfg.enabled_operations

unfoldable pub enabled_names : AgentConfig → List (Text × Operation) → List Text
enabled_names cfg [] = []
enabled_names cfg ((name, op) ∷ catalog) =
    let rest = enabled_names cfg catalog in if operation_enabled cfg name then name ∷ rest else rest

-- The operations of the catalog that are enabled; the limits repeat the configuration.
unfoldable pub capabilities_data : AgentConfig → Payload
capabilities_data cfg = capabilities (enabled_names cfg operation_catalog)

unfoldable pub read_trimmed_file : Host → Text → Option Text
read_trimmed_file os path = elim (os.read_file path) [
  | some content ↦ some (trim_space content)
  | none ↦ none
]

abbrev pub first_float : Host → List Text → Option Text
first_float os [] = none
first_float os (part ∷ parts) = if os.is_float part then some part else none

-- The uptime, as the text that strconv.ParseFloat reads.
unfoldable pub read_proc_uptime : Host → Text → Option Text
read_proc_uptime os proc_root = elim (read_trimmed_file os (join_path proc_root (codes "uptime"))) [
  | some content ↦ first_float os (fields content)
  | none ↦ none
]

abbrev pub optional_field : Text → Option Text → List (Text × HostValue)
optional_field name (some value) = (name, text value) ∷ []
optional_field name none = []

-- A field of the answer, if the configuration has it.
unfoldable pub field_if : AgentConfig → Text → List (Text × HostValue) → List (Text × HostValue)
field_if cfg name values = if member name cfg.host_info_fields then values else []

abbrev pub hostname_or_fail : Bool → Option Text → Result ApiError (List (Text × HostValue))
hostname_or_fail false _ = ok []
hostname_or_fail true none = err (api_error 500 host_info_failed)
hostname_or_fail true (some name) = ok ((codes "hostname", text name) ∷ [])

unfoldable pub host_info_op : Host → AgentConfig → Outcome
host_info_op os cfg = do
  name ← hostname_or_fail (member (codes "hostname") cfg.host_info_fields) os.hostname
  let system = field_if cfg (codes "os") ((codes "os", text os.goos) ∷ [])
  let arch = field_if cfg (codes "arch") ((codes "arch", text os.goarch) ∷ [])
  let cpus = field_if cfg (codes "cpus") ((codes "cpus", number os.num_cpu) ∷ [])
  let uptime =
      field_if cfg (codes "uptime_seconds")
        (optional_field (codes "uptime_seconds") (read_proc_uptime os cfg.proc_root))
  let version = field_if cfg (codes "kernel_version") (
      optional_field (codes "kernel_version")
        (read_trimmed_file os (join_path cfg.proc_root (codes "version"))))
  ok (host (name ++ (system ++ (arch ++ (cpus ++ (uptime ++ version))))), false)

-- The value behind a key that a line starts with.
unfoldable pub line_value : Text → Text → Text
line_value key line = trim_space (drop (length key) line)

unfoldable pub status_line : Host → Text → ProcessRecord → ProcessRecord
status_line os line r =
    if has_prefix line (codes "Name:")
    then record r { name = line_value (codes "Name:") line }
    else if has_prefix line (codes "State:")
    then record r { state = line_value (codes "State:") line }
    else if has_prefix line (codes "PPid:")
    then (elim (os.atoi (line_value (codes "PPid:") line)) [
      | some parent ↦ record r { ppid = parent }
      | none ↦ r
    ])
    else r

unfoldable pub status_lines : Host → List Text → ProcessRecord → ProcessRecord
status_lines os [] r = r
status_lines os (line ∷ lines) r = status_lines os lines (status_line os line r)

unfoldable pub parse_proc_status : Host → Text → ProcessRecord → ProcessRecord
parse_proc_status os content = status_lines os (split 10 content)

abbrev pub fresh_record : ℤ → ProcessRecord
fresh_record n = record { pid = n; ppid = pos 0; name = []; state = [] }

unfoldable pub process_record : Host → Text → Text → ℤ → ProcessRecord
process_record os proc_root name n =
    elim (os.read_file (join_path (join_path proc_root name) (codes "status"))) [
      | some content ↦ parse_proc_status os content (fresh_record n)
      | none ↦ fresh_record n
    ]

-- The loop over /proc: only directories with a number for a name.
unfoldable pub process_records : Host → Text → List DirEntry → List ProcessRecord
process_records os proc_root [] = []
process_records os proc_root (entry ∷ entries) =
    let rest = process_records os proc_root entries in
    if entry.is_dir
    then (elim (os.atoi entry.name) [
      | some n ↦ process_record os proc_root entry.name n ∷ rest
      | none ↦ rest
    ])
    else rest

abbrev pub int_lt : ℤ → ℤ → Bool
int_lt (pos m) (pos n) = ltb m n
int_lt (pos m) (negsuc n) = false
int_lt (negsuc m) (pos n) = true
int_lt (negsuc m) (negsuc n) = ltb n m

-- sort.Slice by process id, as a sort by insertion.
unfoldable pub insert_record : ProcessRecord → List ProcessRecord → List ProcessRecord
insert_record r [] = r ∷ []
insert_record r (q ∷ qs) =
    let rest = insert_record r qs in if int_lt q.pid r.pid then q ∷ rest else r ∷ q ∷ qs

unfoldable pub sort_records : List ProcessRecord → List ProcessRecord
sort_records [] = []
sort_records (r ∷ rs) = insert_record r (sort_records rs)

unfoldable pub process_answer : Host → AgentConfig → Result OsError (List DirEntry) → Outcome
process_answer os cfg (err e) = err (api_error 500 process_list_failed)
process_answer os cfg (ok entries) =
    let records = sort_records (process_records os cfg.proc_root entries) in
    let truncated = ltb cfg.max_process_entries (length records) in
    let kept = if truncated then take cfg.max_process_entries records else records in
    ok (processes kept (length kept), truncated)

unfoldable pub process_list_op : Host → AgentConfig → Outcome
process_list_op os cfg = process_answer os cfg (os.read_dir cfg.proc_root)

unfoldable pub dispatch : Host → AgentConfig → Operation → RequestEnvelope → Outcome
dispatch os cfg capabilities_describe req = ok (capabilities_data cfg, false)
dispatch os cfg host_info req = host_info_op os cfg
dispatch os cfg filesystem_list req = filesystem_list_op os cfg req
dispatch os cfg filesystem_stat req = filesystem_stat_op os cfg req
dispatch os cfg filesystem_read req = filesystem_read_op os cfg req
dispatch os cfg filesystem_tail req = filesystem_tail_op os cfg req
dispatch os cfg process_list req = process_list_op os cfg

unfoldable pub run_known : Host → AgentConfig → RequestEnvelope → Option Operation → Outcome
run_known os cfg req none = err (api_error 400 unknown_operation)
run_known os cfg req (some op) =
    if operation_enabled cfg req.operation
    then dispatch os cfg op req
    else err (api_error 403 operation_disabled)

unfoldable pub run_operation : Host → AgentConfig → RequestEnvelope → Outcome
run_operation os cfg req = run_known os cfg req (known_operation req.operation)

-- A response: the data and its flag, or the error; times and the names of the agent are left out.
pub record ResponseEnvelope : Type 0 where
  pub request_id : Text
  pub operation : Text
  pub outcome : Outcome

abbrev pub or_fresh : Text → Text → Text
or_fresh [] fresh = fresh
or_fresh (c ∷ s) fresh = c ∷ s

abbrev pub status_of : Outcome → ℕ
status_of (ok d) = 200
status_of (err e) = e.http_status

-- `fresh` is what newRequestID gives.
unfoldable pub execute : Host → AgentConfig → Text → RequestEnvelope → ResponseEnvelope × ℕ
execute os cfg fresh req =
    let outcome = run_operation os cfg req in
    (
      record {
        request_id = or_fresh req.request_id fresh;
        operation = req.operation;
        outcome = outcome;
      },
      status_of outcome,
    )

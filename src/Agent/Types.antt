-- ===== src/Agent/Types.antt =====
-- internal/agent/types.go, catalog.go, errors.go and the records of service.go and config.go; and
-- what the agent takes from the operating system and from encoding/json, as the interface `Host`.
-- The messages of errors are prose that no code reads, and are left out.
use sroiaaa.Base.{ℕ, Bool, Option, List, [], ◌∷◌, Result}
use sroiaaa.Base.Int.{ℤ}
use sroiaaa.Base.Text.{Text, codes, lookup}

-- The compiled operations.
pub data Operation : Type 0 where
  capabilities_describe host_info filesystem_list filesystem_stat : Operation
  filesystem_read filesystem_tail process_list : Operation

abbrev pub operation_catalog : List (Text × Operation)
operation_catalog =
    (codes "capabilities.describe", capabilities_describe)
    ∷ (codes "host.info", host_info)
    ∷ (codes "filesystem.list", filesystem_list)
    ∷ (codes "filesystem.stat", filesystem_stat)
    ∷ (codes "filesystem.read", filesystem_read)
    ∷ (codes "filesystem.tail", filesystem_tail)
    ∷ (codes "process.list", process_list)
    ∷ []

-- The operation that a name stands for: `knownOperations`, and the case of the switch.
unfoldable pub known_operation : Text → Option Operation
known_operation name = lookup name operation_catalog

-- The `Code` of an `APIError`.
pub data ApiCode : Type 0 where
  unknown_operation operation_disabled invalid_target invalid_params not_found : ApiCode
  path_not_allowed permission_denied host_info_failed list_failed stat_failed : ApiCode
  read_failed tail_failed process_list_failed : ApiCode
  unauthorized method_not_allowed invalid_json request_too_large audit_unavailable : ApiCode

pub record ApiError : Type 0 where
  pub http_status : ℕ
  pub code : ApiCode

abbrev pub api_error : ℕ → ApiCode → ApiError
api_error status code = record { http_status = status; code = code }

-- The payloads of a request are raw JSON, which the operations decode.
pub record RequestEnvelope : Type 0 where
  pub request_id : Text
  pub operation : Text
  pub target : Text
  pub params : Text

pub record ReadParams : Type 0 where
  pub offset : ℤ
  pub max_bytes : ℤ

-- What a failed call of the operating system says.
pub data OsError : Type 0 where
  not_exist permission io : OsError

pub data FileKind : Type 0 where
  directory symlink file : FileKind

pub record FileInfo : Type 0 where
  pub kind : FileKind
  pub mode : Text
  pub size : ℕ
  pub mod_time : Text

pub record DirEntry : Type 0 where
  pub name : Text
  pub is_dir : Bool
  pub info : Option FileInfo

-- An open file: which offsets it seeks to, what Stat says of its size, and what reads give.
pub record OpenFile : Type 0 where
  pub seeks : ℕ → Bool
  pub size : Option ℕ
  pub bytes : Option (List ℕ)

pub record Host : Type 0 where
  pub eval_symlinks : Text → Result OsError Text
  pub read_dir : Text → Result OsError (List DirEntry)
  pub lstat : Text → Result OsError FileInfo
  pub read_link : Text → Option Text
  pub open_file : Text → Result OsError OpenFile
  pub read_file : Text → Option Text
  pub hostname : Option Text
  pub goos : Text
  pub goarch : Text
  pub num_cpu : ℕ
  -- strconv.ParseFloat accepts the text; strconv.Atoi reads it.
  pub is_float : Text → Bool
  pub atoi : Text → Option ℤ
  -- utf8.Valid.
  pub utf8_valid : List ℕ → Bool
  -- The lines that a bufio.Scanner gives.
  pub scan_lines : List ℕ → List Text
  -- json.Unmarshal of a target's path and of the two kinds of parameters.
  pub decode_path : Text → Option Text
  pub decode_entries : Text → Option ℤ
  pub decode_read : Text → Option ReadParams

-- The part of Config that the operations read. LoadConfigFromEnv makes each bound positive.
pub record AgentConfig : Type 0 where
  pub auth_tokens : List Text
  pub allowed_roots : List Text
  pub proc_root : Text
  pub enabled_operations : List Text
  pub host_info_fields : List Text
  pub max_request_bytes : ℕ
  pub max_read_bytes : ℕ
  pub max_tail_bytes : ℕ
  pub max_list_entries : ℕ
  pub max_process_entries : ℕ

pub record ProcessRecord : Type 0 where
  pub pid : ℤ
  pub ppid : ℤ
  pub name : Text
  pub state : Text

pub data Content : Type 0 where
  plain base64 : List ℕ → Content

pub data HostValue : Type 0 where
  text : Text → HostValue
  number : ℕ → HostValue

pub record EntryRecord : Type 0 where
  pub path : Text
  pub info : FileInfo
  pub symlink_target : Option Text

-- The `data` of a response.
pub data Payload : Type 0 where
  capabilities : List Text → Payload
  host : List (Text × HostValue) → Payload
  listing : Text → List (Text × EntryRecord) → Payload
  stat : EntryRecord → Payload
  read : (path : Text) → (offset bytes_read : ℕ) → Content → Payload
  tail : (path : Text) → (start bytes_read : ℕ) → Content → List Text → Payload
  processes : List ProcessRecord → (count : ℕ) → Payload

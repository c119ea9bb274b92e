-- ===== src/Agent/Files.antt =====
-- internal/agent/service.go: the operations on the file system. An operation returns its data and
-- whether that is truncated, or an error.
pub mod Laws
pub mod Tail
pub mod Genuine
pub mod Limits
use sroiaaa.Base.{
  ℕ, ◌+◌, ◌-◌, ◌%◌, ◌^◌, Bool, true, false, not, Option, none, some, List, [], ◌∷◌, ◌++◌, ltb, leb,
  if◌then◌else◌, Result, ok, err, ◌>>=◌, ◌>>◌, refuse_if, or_fail, length, take, drop, min,
}
use sroiaaa.Base.Int.{ℤ, pos, negsuc, is_neg, above, to_nat}
use sroiaaa.Base.Text.{Text, is_empty, split}
use sroiaaa.Base.FilePath.{slash, clean, dot}
use sroiaaa.Agent.Types.{
  ApiError, api_error, invalid_target, invalid_params, not_found, permission_denied, list_failed,
  stat_failed, read_failed, tail_failed, RequestEnvelope, ReadParams, OsError, not_exist,
  permission, io, FileKind, symlink, FileInfo, DirEntry, OpenFile, Host, AgentConfig, Content,
  plain, base64, EntryRecord, Payload, listing, stat, read, tail,
}
use sroiaaa.Agent.Paths.{resolve_allowed_path}

-- The data of an operation and its `truncated` flag.
abbrev pub Outcome : Type 0
Outcome = Result ApiError (Payload × Bool)

abbrev pub some_or_fail : {A E : Type 0} → Option A → E → Result E A
some_or_fail (some a) e = ok a
some_or_fail none e = err e

-- decodeJSON: a missing payload fails.
unfoldable pub decode_json : {A : Type 0} → (Text → Option A) → Text → Option A
decode_json parse raw = if is_empty raw then none else parse raw

unfoldable pub decode_target : Host → RequestEnvelope → Result ApiError Text
unfolding decode_json
decode_target host req =
    some_or_fail (decode_json host.decode_path req.target) (api_error 400 invalid_target)

-- Parameters that are left out are zero.
abbrev pub params_or_zero : {A : Type 0} → (Text → Option A) → A → Text → Result ApiError A
params_or_zero parse zeros raw =
    if is_empty raw
    then ok zeros
    else some_or_fail (decode_json parse raw) (api_error 400 invalid_params)

unfoldable pub decode_path_and_list : Host → RequestEnvelope → Result ApiError (Text × ℤ)
decode_path_and_list host req = do
  path ← decode_target host req
  max_entries ← params_or_zero host.decode_entries (pos 0) req.params
  ok (path, max_entries)

unfoldable pub decode_path_and_read : Host → RequestEnvelope → Result ApiError (Text × ReadParams)
decode_path_and_read host req = do
  path ← decode_target host req
  params ← params_or_zero host.decode_read (record { offset = pos 0; max_bytes = pos 0 }) req.params
  ok (path, params)

-- `if n <= 0 || n > max { n = max }`.
unfoldable pub bounded : ℤ → ℕ → ℕ
bounded z cap = if above z 0 then (if above z cap then cap else to_nat z) else cap

abbrev pub permission_or : OsError → ApiError → ApiError
permission_or permission e = api_error 403 permission_denied
permission_or _ e = e

abbrev pub opened_or : {A : Type 0} → Result OsError A → ApiError → Result ApiError A
opened_or (ok a) e = ok a
opened_or (err x) e = err (permission_or x e)

-- The part of a `symlink_target` that only links have.
unfoldable pub link_target : Host → Text → FileKind → Option Text
link_target host path symlink = host.read_link path
link_target host path _ = none

-- filepath.Join(dir, name), both not empty.
unfoldable pub join_path : Text → Text → Text
join_path dir name = clean (dir ++ slash ++ name)

unfoldable pub entry_record : Host → Text → FileInfo → EntryRecord
entry_record host path info = record {
  path = path;
  info = info;
  symlink_target = link_target host path info.kind;
}

-- The loop over the entries: one that cannot be read is left out.
unfoldable pub list_records : Host → Text → List DirEntry → List (Text × EntryRecord)
list_records host dir [] = []
list_records host dir (entry ∷ entries) =
    let rest = list_records host dir entries in
    elim entry.info [
      | some info ↦ (entry.name, entry_record host (join_path dir entry.name) info) ∷ rest
      | none ↦ rest
    ]

unfoldable pub filesystem_list_op : Host → AgentConfig → RequestEnvelope → Outcome
filesystem_list_op host cfg req = do
  decoded ← decode_path_and_list host req
  resolved ← resolve_allowed_path host cfg decoded.0
  entries ← opened_or (host.read_dir resolved) (api_error 500 list_failed)
  let cap = bounded decoded.1 cfg.max_list_entries
  ok (
    listing resolved (list_records host resolved (take (min (length entries) cap) entries)),
    ltb cap (length entries),
  )

abbrev pub stat_error : OsError → ApiError
stat_error not_exist = api_error 404 not_found
stat_error _ = api_error 500 stat_failed

abbrev pub stat_or_error : Result OsError FileInfo → Result ApiError FileInfo
stat_or_error (ok info) = ok info
stat_or_error (err x) = err (stat_error x)

unfoldable pub filesystem_stat_op : Host → AgentConfig → RequestEnvelope → Outcome
filesystem_stat_op host cfg req = do
  path ← decode_target host req
  resolved ← resolve_allowed_path host cfg path
  info ← stat_or_error (host.lstat resolved)
  ok (stat (entry_record host resolved info), false)

unfoldable pub encode_content : Host → List ℕ → Content
encode_content host content = if host.utf8_valid content then plain content else base64 content

-- The limit of `io.LimitReader(file, maxBytes+1)`: the sum is an int64, and a limit that is not
-- positive reads nothing.
unfoldable pub read_limit : ℕ → ℕ
read_limit cap = if ltb (cap + 1) (2 ^ 63) then cap + 1 else 0

-- io.ReadAll(io.LimitReader(file, limit)) after Seek(offset).
unfoldable pub read_at : OpenFile → ℕ → ℕ → Option (List ℕ)
read_at file offset limit = elim file.bytes [
  | some bytes ↦ some (take limit (drop offset bytes))
  | none ↦ none
]

unfoldable pub filesystem_read_op : Host → AgentConfig → RequestEnvelope → Outcome
filesystem_read_op host cfg req = do
  decoded ← decode_path_and_read host req
  resolved ← resolve_allowed_path host cfg decoded.0
  refuse_if (is_neg decoded.1.offset) (api_error 400 invalid_params)
  let offset = to_nat decoded.1.offset
  let cap = bounded decoded.1.max_bytes cfg.max_read_bytes
  file ← opened_or (host.open_file resolved) (api_error 500 read_failed)
  refuse_if (not (file.seeks offset)) (api_error 400 invalid_params)
  content ← some_or_fail (read_at file offset (read_limit cap)) (api_error 500 read_failed)
  let truncated = ltb cap (length content)
  let kept = if truncated then take cap content else content
  ok (read resolved offset (length kept) (encode_content host kept), truncated)

unfoldable pub lines_of : Host → List ℕ → List Text
lines_of host content = if host.utf8_valid content then host.scan_lines content else []

unfoldable pub filesystem_tail_op : Host → AgentConfig → RequestEnvelope → Outcome
filesystem_tail_op host cfg req = do
  decoded ← decode_path_and_read host req
  resolved ← resolve_allowed_path host cfg decoded.0
  let cap = bounded decoded.1.max_bytes cfg.max_tail_bytes
  file ← opened_or (host.open_file resolved) (api_error 500 tail_failed)
  size ← some_or_fail file.size (api_error 500 tail_failed)
  let offset = size - cap
  refuse_if (not (file.seeks offset)) (api_error 500 tail_failed)
  content ← some_or_fail (read_at file offset cap) (api_error 500 tail_failed)
  ok (
    tail resolved offset (length content) (encode_content host content) (lines_of host content),
    ltb 0 offset,
  )

-- ===== src/Agent/Tests.antt =====
-- internal/agent at concrete inputs: a host with one file, a server with one token, and the theorems
-- applied where their hypotheses hold.
use mathlib.Core.List.{Memᴰ}
use sroiaaa.Base.{
  ◌+◌, ◌<◌, ◌^◌, true, false, Option, none, some, [], ◌∷◌, ◌≡◌, ◌≢◌, refl, sym, ap, subst, ◌∙◌,
  arith, ok, err, length, any, ok-injective, some_inj, ◌↔◌, if◌then◌else◌,
}
use sroiaaa.Base.Int.{pos}
use sroiaaa.Base.Text.{
  Text, codes, split, text_eq, member, has_prefix, trim_space, trim_left, trim_right, is_space,
  join, lookup,
}
use sroiaaa.Base.FilePath.{clean, elements, is_abs, clean_from, push_element, back_up}
use sroiaaa.Agent.Types.{
  Operation, RequestEnvelope, ReadParams, OpenFile, Host, AgentConfig, Payload, read, tail, plain,
  not_exist, io, known_operation,
}
use sroiaaa.Agent.Paths.{
  canonical_root, canonicalize_roots, new_service, resolve_allowed_path, under_root,
}
use sroiaaa.Agent.Paths.Laws.{Inside, KeepsAbs, resolve_allowed_path-Inside}
use sroiaaa.Agent.Files.{
  bounded, decode_json, decode_target, decode_path_and_read, read_at, read_limit, encode_content,
  lines_of, filesystem_read_op, filesystem_tail_op,
}
use sroiaaa.Agent.Files.Laws.{ReadResult, filesystem_read_window}
use sroiaaa.Agent.Files.Tail.{SizesAgree, TailResult, filesystem_tail_end}
use sroiaaa.Agent.Service.{operation_enabled, dispatch, run_known, run_operation, execute}
use sroiaaa.Agent.Service.Laws.{Confined, run_operation-Confined}
use sroiaaa.Base.LogFile.{Sink, write_line, record_event}
use sroiaaa.Agent.Handler.{
  AuditEvent, HttpRequest, post, eof, Server, respond, unauthorized, record_audit, audited,
  cut_space, is_bearer, token_of, bearer_token, authenticate_from, authenticate_token,
  audit_target_path, audit_metadata, handle_operations, answer_operation, answer_decoded,
  decode_request, admit, require_bearer_auth, operations_route, routes, serve_route, serve,
}
use sroiaaa.Agent.Handler.Auth.{authenticate_token_iff}
use sroiaaa.Agent.Handler.Laws.{Accounted, answers}
use sroiaaa.Agent.Handler.Serve.{serve-Accounted, serve-unauthorized}
use sroiaaa.Agent.Config.{
  Environment, default_enabled_operations, host_info_names, load_config, get_env, env_or_default,
  env_int64, dedup_from, trimmed_parts, load_auth_tokens, names_from, load_configured_names,
  roots_from, contains_name,
}
use sroiaaa.Agent.Config.Load.{IsSound, load_config-IsSound}

abbrev five_bytes : OpenFile
five_bytes = record { seeks = λ n. true; size = some 5; bytes = some (1 ∷ 2 ∷ 3 ∷ 4 ∷ 5 ∷ []) }

-- Every path is its own target, and names the same file.
abbrev small_host : Host
small_host = record {
  eval_symlinks = λ path. ok path;
  read_dir = λ path. err not_exist;
  lstat = λ path. err io;
  read_link = λ path. none;
  open_file = λ path. ok five_bytes;
  read_file = λ path. none;
  hostname = none;
  goos = codes "linux";
  goarch = codes "amd64";
  num_cpu = 1;
  is_float = λ s. false;
  atoi = λ s. none;
  utf8_valid = λ s. true;
  scan_lines = λ s. s ∷ [];
  decode_path = λ s. some s;
  decode_entries = λ s. none;
  decode_read = λ s. some (record { offset = pos 1; max_bytes = pos 2 });
}

abbrev small_config : AgentConfig
small_config = record {
  auth_tokens = codes "k" ∷ [];
  allowed_roots = codes "/srv" ∷ [];
  proc_root = codes "/proc";
  enabled_operations = codes "filesystem.read" ∷ codes "filesystem.tail" ∷ [];
  host_info_fields = [];
  max_request_bytes = 100;
  max_read_bytes = 3;
  max_tail_bytes = 3;
  max_list_entries = 3;
  max_process_entries = 3;
}

small_host-KeepsAbs : KeepsAbs small_host
small_host-KeepsAbs s t a e = subst (λ p. is_abs p ≡ true) (ok-injective e) a

small_host-SizesAgree : SizesAgree small_host
small_host-SizesAgree path opened bytes e k =
    let same : five_bytes ≡ opened = ok-injective e in
    let held : 1 ∷ 2 ∷ 3 ∷ 4 ∷ 5 ∷ [] ≡ bytes = some_inj (ap (λ f. f.bytes) same ∙ k) in
    sym (ap (λ f. f.size) same) ∙ ap (λ b. some (length b)) held

abbrev read_request : RequestEnvelope
read_request = record {
  request_id = [];
  operation = codes "filesystem.read";
  target = codes "/srv/./a";
  params = codes "p";
}

abbrev read_answer : Payload
read_answer = read (codes "/srv/a") 1 2 (plain (2 ∷ 3 ∷ []))

abbrev tail_answer : Payload
tail_answer = tail (codes "/srv/a") 3 2 (plain (4 ∷ 5 ∷ [])) ((4 ∷ 5 ∷ []) ∷ [])

roots_absolute : (is_abs (codes "/srv") ≡ true) × Unit {0}
unfolding is_abs
roots_absolute = (refl, tt)

resolves :
    resolve_allowed_path small_host (new_service small_host small_config) (codes "/srv/./a")
    ≡ ok (codes "/srv/a")
unfolding resolve_allowed_path new_service canonicalize_roots canonical_root under_root any clean
    elements is_abs clean_from push_element back_up split join text_eq has_prefix
resolves = refl

resolve_allowed_path-Inside_example :
    (target : Text) × (given : Text) × (small_host.eval_symlinks (clean (codes "/srv/./a"))
      ≡ ok target)
    × (codes "/srv/a" ≡ clean target)
    × (clean (codes "/srv/a") ≡ codes "/srv/a")
    × Memᴰ given small_config.allowed_roots
    × Inside (codes "/srv/a") (canonical_root small_host given)
resolve_allowed_path-Inside_example =
    resolve_allowed_path-Inside small_host small_config (codes "/srv/./a") (codes "/srv/a")
      small_host-KeepsAbs roots_absolute resolves

reads :
    filesystem_read_op small_host (new_service small_host small_config) read_request
    ≡ ok (read_answer, true)
unfolding resolve_allowed_path new_service canonicalize_roots canonical_root under_root any clean
    elements is_abs clean_from push_element back_up split join text_eq has_prefix bounded
    decode_json decode_target decode_path_and_read read_at read_limit encode_content
    filesystem_read_op
reads = refl

tails :
    filesystem_tail_op small_host (new_service small_host small_config) read_request
    ≡ ok (tail_answer, true)
unfolding resolve_allowed_path new_service canonicalize_roots canonical_root under_root any clean
    elements is_abs clean_from push_element back_up split join text_eq has_prefix bounded
    decode_json decode_target decode_path_and_read read_at encode_content lines_of
    filesystem_tail_op
tails = refl

small_bound : (new_service small_host small_config).max_read_bytes + 1 < 2 ^ 63
unfolding new_service
small_bound = omega arith

filesystem_read_window_example :
    (given : Text) × (params : ReadParams) × (path : Text) × (decode_path_and_read small_host
        read_request
      ≡ ok (given, params))
    × (resolve_allowed_path small_host (new_service small_host small_config) given ≡ ok path)
    × ReadResult small_host (new_service small_host small_config) path params read_answer true
filesystem_read_window_example =
    filesystem_read_window small_host (new_service small_host small_config) read_request read_answer
      true small_bound reads

filesystem_tail_end_example :
    (given : Text) × (params : ReadParams) × (path : Text) × (decode_path_and_read small_host
        read_request
      ≡ ok (given, params))
    × (resolve_allowed_path small_host (new_service small_host small_config) given ≡ ok path)
    × TailResult small_host (new_service small_host small_config) path params tail_answer true
filesystem_tail_end_example =
    filesystem_tail_end small_host (new_service small_host small_config) read_request tail_answer
      true small_host-SizesAgree tails

runs :
    run_operation small_host (new_service small_host small_config) read_request
    ≡ ok (read_answer, true)
unfolding resolve_allowed_path new_service canonicalize_roots canonical_root under_root any clean
    elements is_abs clean_from push_element back_up split join text_eq has_prefix bounded
    decode_json decode_target decode_path_and_read read_at read_limit encode_content
    filesystem_read_op run_operation run_known dispatch operation_enabled known_operation lookup
    member
runs = refl

run_operation-Confined_example :
    (op : Operation) × (known_operation read_request.operation ≡ some op)
    × Memᴰ read_request.operation small_config.enabled_operations
    × Confined small_host small_config read_answer
run_operation-Confined_example =
    run_operation-Confined small_host small_config read_request read_answer true small_host-KeepsAbs
      roots_absolute runs

abbrev small_sink : Sink AuditEvent
small_sink = record {
  encode = λ event. some event.operation;
  write = λ contents line. record { written = length line; failed = false };
}

abbrev small_server : Server
small_server = record {
  os = small_host;
  cfg = small_config;
  auditor = some small_sink;
  credential_id = λ token. token;
}

abbrev posted : Text → HttpRequest
posted header = record {
  path = codes "/v1/operations";
  method = post;
  authorization = header;
  remote_addr = [];
  body = record { request = read_request; first = none; extra = eof };
}

answered : answers (serve small_server (codes "r") (posted (codes "Bearer k")) []).0.body ≡ true
unfolding resolve_allowed_path new_service canonicalize_roots canonical_root under_root any clean
    elements is_abs clean_from push_element back_up split join text_eq has_prefix bounded
    decode_json decode_target decode_path_and_read read_at read_limit encode_content
    filesystem_read_op run_operation run_known dispatch operation_enabled known_operation lookup
    member write_line record_event record_audit audited cut_space is_bearer token_of bearer_token
    authenticate_from authenticate_token audit_target_path audit_metadata handle_operations
    answer_operation answer_decoded decode_request admit require_bearer_auth serve_route serve
    execute trim_space trim_left trim_right is_space
answered = refl

serve-Accounted_example :
    Accounted small_server
      (posted (codes "Bearer k"))
      []
      (serve small_server (codes "r") (posted (codes "Bearer k")) [])
serve-Accounted_example =
    serve-Accounted small_server (codes "r") (posted (codes "Bearer k")) [] answered

posted_route : lookup (posted (codes "Bearer x")).path routes ≡ some operations_route
unfolding lookup text_eq
posted_route = refl

no_such_token :
    (token : Text)
    → bearer_token (posted (codes "Bearer x")).authorization ≡ some token
    → ¬ Memᴰ token small_server.cfg.auth_tokens
unfolding bearer_token token_of is_bearer cut_space trim_space trim_left trim_right is_space text_eq
no_such_token token e (Memᴰ.head same) = other_token (some_inj e ∙ same)
  where
    other_token : codes "x" ≢ codes "k"
    other_token k = let clash : true ≡ false = ap (text_eq (codes "x")) k in cc
no_such_token token e (Memᴰ.tail m) = elim m [ ]

serve-unauthorized_example :
    serve small_server (codes "r") (posted (codes "Bearer x")) [] ≡ (respond 401 unauthorized, [])
serve-unauthorized_example =
    serve-unauthorized small_server (codes "r") (posted (codes "Bearer x")) [] operations_route
      posted_route (λ e. cc) no_such_token

authenticate_token_iff_example :
    ((authenticate_token (λ t. t) (codes "k" ∷ []) (codes "k")).0 ≡ true)
    ↔ Memᴰ (codes "k") (codes "k" ∷ [])
authenticate_token_iff_example = authenticate_token_iff (λ t. t) (codes "k") (codes "k" ∷ [])

set_token : Text → Option Text
unfolding text_eq
set_token key = if text_eq key (codes "SROIAAA_AUTH_TOKENS") then some (codes " k,k,") else none

abbrev small_environment : Environment
small_environment = record { lookup_env = set_token; parse_int = λ s. none }

abbrev default_config : AgentConfig
default_config = record {
  auth_tokens = codes "k" ∷ [];
  allowed_roots = codes "/workspace" ∷ codes "/tmp" ∷ codes "/var/log/sroiaaa" ∷ [];
  proc_root = codes "/proc";
  enabled_operations = default_enabled_operations;
  host_info_fields = host_info_names;
  max_request_bytes = 65536;
  max_read_bytes = 65536;
  max_tail_bytes = 65536;
  max_list_entries = 256;
  max_process_entries = 256;
}

loads : load_config small_environment ≡ ok default_config
unfolding load_config get_env env_or_default env_int64 dedup_from trimmed_parts load_auth_tokens
    names_from load_configured_names roots_from contains_name set_token text_eq split trim_space
    trim_left trim_right is_space member clean elements is_abs clean_from push_element back_up join
loads = refl

load_config-IsSound_example : IsSound default_config
load_config-IsSound_example = load_config-IsSound small_environment default_config loads

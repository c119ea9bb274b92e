-- ===== src/Agent/Handler.antt =====
-- internal/agent/handler.go and audit.go: who may ask, and the audit record that comes before every
-- answer. The state is the contents of the audit file. Times, messages and headers are left out.
pub mod Laws
pub mod Auth
pub mod Serve
use mathlib.Core.List.{map}
use sroiaaa.Base.{
  ℕ, ◌+◌, Bool, true, false, Option, none, some, List, [], ◌∷◌, ◌++◌, ◌||◌, ◌&&◌, not, ◌==◌,
  if◌then◌else◌, Result, ok, err, length, take,
}
use sroiaaa.Base.Text.{Text, codes, text_eq, is_empty, trim_space, is_ascii_upper, lookup}
use sroiaaa.Base.LogFile.{Sink, record_event}
use sroiaaa.Agent.Types.{
  Operation, filesystem_list, filesystem_stat, filesystem_read, filesystem_tail, known_operation,
  ApiCode, ApiError, api_error, operation_disabled, invalid_json, request_too_large,
  RequestEnvelope, Host, AgentConfig, Payload,
}
use sroiaaa.Agent.Paths.{new_service}
use sroiaaa.Agent.Files.{Outcome}
use sroiaaa.Agent.Service.{operation_enabled, capabilities_data, ResponseEnvelope, execute}

pub data Method : Type 0 where
  get post another : Method

abbrev pub is_get : Method → Bool
is_get get = true
is_get _ = false

abbrev pub is_post : Method → Bool
is_post post = true
is_post _ = false

pub data BodyError : Type 0 where
  too_large malformed : BodyError

-- What the second Decode of a body finds.
pub data Trailer : Type 0 where
  eof value : Trailer
  broken : BodyError → Trailer

-- What encoding/json makes of a body: the fields it filled, and what its two calls say.
pub record DecodedBody : Type 0 where
  pub request : RequestEnvelope
  pub first : Option BodyError
  pub extra : Trailer

pub record HttpRequest : Type 0 where
  pub path : Text
  pub method : Method
  pub authorization : Text
  pub remote_addr : Text
  pub body : DecodedBody

pub record AuditEvent : Type 0 where
  pub request_id : Text
  pub operation : Text
  pub code : Option ApiCode
  pub remote_addr : Text
  pub caller_id : Text
  pub target_path : Text
  pub roots : Option (List Text)

pub record Server : Type 0 where
  pub os : Host
  pub cfg : AgentConfig
  pub auditor : Option (Sink AuditEvent)
  -- credentialID: the start of a SHA-256 digest.
  pub credential_id : Text → Text

unfoldable pub record_audit : Option (Sink AuditEvent) → AuditEvent → List ℕ → Bool × List ℕ
record_audit none event contents = (false, contents)
record_audit (some sink) event contents = record_event sink event contents

pub data Body : Type 0 where
  health not_found_page method_not_allowed unauthorized : Body
  withheld : (request_id operation : Text) → Body
  envelope : ResponseEnvelope → Body
  description : Payload → Body

pub record Response : Type 0 where
  pub status : ℕ
  pub body : Body

abbrev pub respond : ℕ → Body → Response
respond status body = record { status = status; body = body }

-- `if !h.recordAudit(w, event) { return }`, and then the response.
unfoldable pub audited :
    Option (Sink AuditEvent) → AuditEvent → Response → List ℕ → Response × List ℕ
audited auditor event response contents =
    let outcome = record_audit auditor event contents in
    (
      if outcome.0 then response else respond 503 (withheld event.request_id event.operation),
      outcome.1,
    )

-- strings.Cut at a space.
unfoldable pub cut_space : Text → Option (Text × Text)
cut_space [] = none
cut_space (c ∷ s) =
    let rest = cut_space s in
    if c == 32
    then some ([], s)
    else elim rest [ some halves ↦ some (c ∷ halves.0, halves.1) | none ↦ none ]

abbrev pub ascii_lower : ℕ → ℕ
ascii_lower c = if is_ascii_upper c then c + 32 else c

-- strings.EqualFold(scheme, "Bearer"): no letter of it folds to one outside ASCII.
unfoldable pub is_bearer : Text → Bool
is_bearer scheme = text_eq (map ascii_lower scheme) (codes "bearer")

unfoldable pub token_of : Option (Text × Text) → Option Text
token_of none = none
token_of (some (scheme, rest)) =
    let token = trim_space rest in
    if not (is_bearer scheme) || is_empty token then none else some token

unfoldable pub bearer_token : Text → Option Text
bearer_token header = token_of (cut_space (trim_space header))

-- The loop runs over all tokens; the last match names the caller.
unfoldable pub authenticate_from : (Text → Text) → Text → List Text → Bool → Text → Bool × Text
authenticate_from credential candidate [] matched caller = (matched, caller)
authenticate_from credential candidate (expected ∷ tokens) matched caller =
    let equal = text_eq candidate expected in
    authenticate_from credential candidate tokens (matched || equal)
      (if equal then credential expected else caller)

unfoldable pub authenticate_token : (Text → Text) → List Text → Text → Bool × Text
authenticate_token credential tokens candidate =
    authenticate_from credential candidate tokens false []

abbrev pub file_target : Host → Operation → Text → Text
file_target os filesystem_list target = elim (os.decode_path target) [
  | some path ↦ path
  | none ↦ []
]
file_target os filesystem_stat target = elim (os.decode_path target) [
  | some path ↦ path
  | none ↦ []
]
file_target os filesystem_read target = elim (os.decode_path target) [
  | some path ↦ path
  | none ↦ []
]
file_target os filesystem_tail target = elim (os.decode_path target) [
  | some path ↦ path
  | none ↦ []
]
file_target os _ target = []

unfoldable pub audit_target_path : Host → RequestEnvelope → Text
audit_target_path os req = elim (known_operation req.operation) [
  | some op ↦ file_target os op req.target
  | none ↦ []
]

abbrev pub roots_if_file : AgentConfig → Operation → Option (List Text)
roots_if_file cfg filesystem_list = some cfg.allowed_roots
roots_if_file cfg filesystem_stat = some cfg.allowed_roots
roots_if_file cfg filesystem_read = some cfg.allowed_roots
roots_if_file cfg filesystem_tail = some cfg.allowed_roots
roots_if_file cfg _ = none

unfoldable pub audit_metadata : AgentConfig → RequestEnvelope → Option (List Text)
audit_metadata cfg req = elim (known_operation req.operation) [
  | some op ↦ roots_if_file cfg op
  | none ↦ none
]

abbrev pub error_code : Outcome → Option ApiCode
error_code (ok d) = none
error_code (err e) = some e.code

abbrev pub describe_name : Text
describe_name = codes "capabilities.describe"

abbrev pub describe_event : Text → Text → Text → Option ApiCode → AuditEvent
describe_event fresh caller addr code = record {
  request_id = fresh;
  operation = describe_name;
  code = code;
  remote_addr = addr;
  caller_id = caller;
  target_path = [];
  roots = none;
}

-- `fresh` is the identifier that newRequestID gives.
unfoldable pub handle_capabilities : Server → Text → Text → HttpRequest → List ℕ → Response × List ℕ
handle_capabilities server fresh caller r contents =
    let service = new_service server.os server.cfg in
    let described =
      audited server.auditor (describe_event fresh caller r.remote_addr none)
        (respond 200 (description (capabilities_data service))) contents in
    let disabled =
      audited server.auditor (describe_event fresh caller r.remote_addr (some operation_disabled))
        (respond 403 (
          envelope (record {
            request_id = fresh;
            operation = describe_name;
            outcome = err (api_error 403 operation_disabled);
          })))
        contents in
    if is_get r.method
    then (if operation_enabled service describe_name then described else disabled)
    else (respond 405 method_not_allowed, contents)

-- decodeRequest: the body holds one JSON value and nothing else.
unfoldable pub decode_request : DecodedBody → Option BodyError
decode_request body = elim body.first [
  | some e ↦ some e
  | none ↦ elim body.extra [ eof ↦ none | value ↦ some malformed | broken e ↦ some e ]
]

abbrev pub body_error : BodyError → ApiError
body_error too_large = api_error 413 request_too_large
body_error malformed = api_error 400 invalid_json

unfoldable pub write_request_error :
    Server → Text → Text → HttpRequest → ApiError → List ℕ → Response × List ℕ
write_request_error server fresh caller r e contents =
    let req = r.body.request in
    audited server.auditor
      (record {
        request_id = fresh;
        operation = req.operation;
        code = some e.code;
        remote_addr = r.remote_addr;
        caller_id = caller;
        target_path = audit_target_path server.os req;
        roots = none;
      })
      (respond e.http_status
        (envelope (record { request_id = fresh; operation = req.operation; outcome = err e })))
      contents

unfoldable pub answer_operation : Server → Text → Text → HttpRequest → List ℕ → Response × List ℕ
answer_operation server fresh caller r contents =
    let req = r.body.request in
    let resp = execute server.os (new_service server.os server.cfg) fresh req in
    audited server.auditor
      (record {
        request_id = resp.0.request_id;
        operation = req.operation;
        code = error_code resp.0.outcome;
        remote_addr = r.remote_addr;
        caller_id = caller;
        target_path = audit_target_path server.os req;
        roots = audit_metadata server.cfg req;
      })
      (respond resp.1 (envelope resp.0)) contents

unfoldable pub answer_decoded :
    Server → Text → Text → HttpRequest → Option BodyError → List ℕ → Response × List ℕ
answer_decoded server fresh caller r (some e) contents =
    write_request_error server fresh caller r (body_error e) contents
answer_decoded server fresh caller r none contents = answer_operation server fresh caller r contents

unfoldable pub handle_operations : Server → Text → Text → HttpRequest → List ℕ → Response × List ℕ
handle_operations server fresh caller r contents =
    let answer = answer_decoded server fresh caller r (decode_request r.body) contents in
    if is_post r.method then answer else (respond 405 method_not_allowed, contents)

abbrev pub Handler : Type 0
Handler = Text → HttpRequest → List ℕ → Response × List ℕ

unfoldable pub admit : Server → Handler → HttpRequest → Option Text → List ℕ → Response × List ℕ
admit server next r none contents = (respond 401 unauthorized, contents)
admit server next r (some token) contents =
    let found = authenticate_token server.credential_id server.cfg.auth_tokens token in
    let answer = next found.1 r contents in
    if found.0 then answer else (respond 401 unauthorized, contents)

-- `!ok || !authenticated`: a missing token is compared as the empty text, and refused all the same.
unfoldable pub require_bearer_auth : Server → Handler → HttpRequest → List ℕ → Response × List ℕ
require_bearer_auth server next r contents =
    admit server next r (bearer_token r.authorization) contents

pub data Route : Type 0 where
  healthz capabilities_route operations_route : Route

abbrev pub routes : List (Text × Route)
routes =
    (codes "/healthz", healthz)
    ∷ (codes "/v1/capabilities", capabilities_route)
    ∷ (codes "/v1/operations", operations_route)
    ∷ []

unfoldable pub serve_route : Server → Text → HttpRequest → Option Route → List ℕ → Response × List ℕ
serve_route server fresh r none contents = (respond 404 not_found_page, contents)
serve_route server fresh r (some healthz) contents = (respond 200 health, contents)
serve_route server fresh r (some capabilities_route) contents =
    require_bearer_auth server (handle_capabilities server fresh) r contents
serve_route server fresh r (some operations_route) contents =
    require_bearer_auth server (handle_operations server fresh) r contents

-- The routes of NewHandler.
unfoldable pub serve : Server → Text → HttpRequest → List ℕ → Response × List ℕ
serve server fresh r contents = serve_route server fresh r (lookup r.path routes) contents

-- ===== src/Agent/Handler/Laws.antt =====
-- internal/agent/handler.go and audit.go: no answer to an operation without a valid token and a
-- complete line in the audit file.
use mathlib.Core.List.{Memᴰ}
use sroiaaa.Base.{
  ℕ, Bool, true, false, Option, none, some, List, ◌≡◌, ◌≢◌, inl, inr, refl, subst, if◌then◌else◌,
  Bool-cases,
}
use sroiaaa.Base.Text.{Text}
use sroiaaa.Agent.Types.{ApiCode}
use sroiaaa.Agent.Paths.{new_service}
use sroiaaa.Base.LogFile.{Sink}
use sroiaaa.Base.LogFile.Laws.{Line, record_event-Line}
use sroiaaa.Agent.Service.{operation_enabled}
use sroiaaa.Agent.Handler.{
  BodyError, HttpRequest, AuditEvent, Server, record_audit, Body, method_not_allowed, unauthorized,
  envelope, description, Response, respond, audited, bearer_token, authenticate_token, error_code,
  describe_name, is_get, is_post, decode_request, handle_capabilities, handle_operations,
  write_request_error, answer_operation, answer_decoded, admit, Handler,
}
use sroiaaa.Agent.Handler.Auth.{authenticate_token_iff, authenticate_token_name}

-- The body answers an operation, with data or with an error.
abbrev pub answers : Body → Bool
answers (envelope e) = true
answers (description d) = true
answers _ = false

abbrev pub answer_code : Body → Option ApiCode
answer_code (envelope e) = error_code e.outcome
answer_code _ = none

-- There is a sink, and the whole line of an event stands at the end of its file.
pub record Logged (auditor : Option (Sink AuditEvent)) (event : AuditEvent) (before after : List ℕ)
    : Type 0 where
  pub sink : Sink AuditEvent
  pub configured : auditor ≡ some sink
  pub line : Line sink event before after

record_audit-true :
    (auditor : Option (Sink AuditEvent)) (event : AuditEvent) (contents : List ℕ)
    → (record_audit auditor event contents).0 ≡ true
    → Logged auditor event contents (record_audit auditor event contents).1
unfolding record_audit
record_audit-true none event contents h = absurd (cc)
record_audit-true (some sink) event contents h = record {
  sink = sink;
  configured = refl;
  line = record_event-Line sink event contents h;
}

-- The event that stands for an answer in the audit file.
pub record Audited (server : Server) (caller : Text) (r : HttpRequest) (before : List ℕ)
    (out : Response × List ℕ) : Type 0 where
  pub event : AuditEvent
  pub by : event.caller_id ≡ caller
  pub code : event.code ≡ answer_code out.0.body
  pub from : event.remote_addr ≡ r.remote_addr
  pub logged : Logged server.auditor event before out.1

module _ (server : Server) (caller : Text) (r : HttpRequest) (contents : List ℕ) where
  audited-Audited :
      (event : AuditEvent) (response : Response)
      → event.caller_id ≡ caller
      → event.code ≡ answer_code response.body
      → event.remote_addr ≡ r.remote_addr
      → answers (audited server.auditor event response contents).0.body ≡ true
      → Audited server caller r contents (audited server.auditor event response contents)
  unfolding audited
  audited-Audited event response by code from h =
      elim (Bool-cases (record_audit server.auditor event contents).0) [
        | inl e ↦ record {
          event = event;
          by = by;
          code = rw e code;
          from = from;
          logged = record_audit-true server.auditor event contents e;
        }
        | inr e ↦ absurd (silent (rw e at h))
      ]
    where
      silent : false ≢ true
      silent k = cc

  refused_method :
      (answers (respond 405 method_not_allowed).body ≡ true)
      → Audited server caller r contents (respond 405 method_not_allowed, contents)
  refused_method h = absurd (cc)

  pub capabilities-Audited :
      (fresh : Text)
      → answers (handle_capabilities server fresh caller r contents).0.body ≡ true
      → Audited server caller r contents (handle_capabilities server fresh caller r contents)
  unfolding handle_capabilities
  capabilities-Audited fresh = elim (Bool-cases (is_get r.method)) [
    | inl e ↦
        elim (Bool-cases (operation_enabled (new_service server.os server.cfg) describe_name)) [
          | inl f ↦ rw (e, f) (audited-Audited _ _ refl refl refl)
          | inr f ↦ rw (e, f) (audited-Audited _ _ refl refl refl)
        ]
    | inr e ↦ rw e refused_method
  ]

  decoded-Audited :
      (fresh : Text) (bad : Option BodyError)
      → answers (answer_decoded server fresh caller r bad contents).0.body ≡ true
      → Audited server caller r contents (answer_decoded server fresh caller r bad contents)
  unfolding answer_decoded write_request_error answer_operation
  decoded-Audited fresh (some e) = audited-Audited _ _ refl refl refl
  decoded-Audited fresh none = audited-Audited _ _ refl refl refl

  pub operations-Audited :
      (fresh : Text)
      → answers (handle_operations server fresh caller r contents).0.body ≡ true
      → Audited server caller r contents (handle_operations server fresh caller r contents)
  unfolding handle_operations
  operations-Audited fresh = elim (Bool-cases (is_post r.method)) [
    | inl e ↦ rw e (decoded-Audited fresh (decode_request r.body))
    | inr e ↦ rw e refused_method
  ]

-- A valid token came with the request, and the answer is in the audit file under its name.
pub record Accounted (server : Server) (r : HttpRequest) (before : List ℕ) (out : Response × List ℕ)
    : Type 0 where
  pub token : Text
  pub given : bearer_token r.authorization ≡ some token
  pub valid : Memᴰ token server.cfg.auth_tokens
  pub audit : Audited server (server.credential_id token) r before out

pub admit-Accounted :
    (server : Server) (next : Handler) (r : HttpRequest) (contents : List ℕ) (o : Option Text)
    → bearer_token r.authorization ≡ o
    → ((caller : Text)
        → answers (next caller r contents).0.body ≡ true
        → Audited server caller r contents (next caller r contents))
    → answers (admit server next r o contents).0.body ≡ true
    → Accounted server r contents (admit server next r o contents)
unfolding admit
admit-Accounted server next r contents none given run h = absurd (cc)
admit-Accounted server next r contents (some token) given run h =
    let tokens = server.cfg.auth_tokens in
    let found = authenticate_token server.credential_id tokens token in
    go found.0 found.1 ((authenticate_token_iff server.credential_id token tokens).0)
      (authenticate_token_name server.credential_id token tokens) h
  where
    chosen : Bool → Text → Response × List ℕ
    chosen b caller = if b then next caller r contents else (respond 401 unauthorized, contents)

    go :
        (b : Bool) (caller : Text)
        → (b ≡ true → Memᴰ token server.cfg.auth_tokens)
        → (b ≡ true → caller ≡ server.credential_id token)
        → answers (chosen b caller).0.body ≡ true
        → Accounted server r contents (chosen b caller)
    go true caller listed named k = record {
      token = token;
      given = given;
      valid = listed refl;
      audit =
          subst (λ c. Audited server c r contents (next caller r contents)) (named refl)
            (run caller k);
    }
    go false caller listed named k = absurd (cc)

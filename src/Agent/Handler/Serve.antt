-- ===== src/Agent/Handler/Serve.antt =====
-- internal/agent/handler.go, the routes of NewHandler: which requests are answered at all.
use mathlib.Core.List.{Memᴰ}
use sroiaaa.Base.{ℕ, true, Option, none, some, List, ◌≡◌, ◌≢◌, inl, inr, refl, ap, ◌∙◌, Bool-cases}
use sroiaaa.Base.Text.{Text, lookup}
use sroiaaa.Agent.Handler.{
  HttpRequest, Server, unauthorized, respond, bearer_token, authenticate_token, handle_capabilities,
  handle_operations, admit, require_bearer_auth, Route, healthz, capabilities_route,
  operations_route, routes, serve_route, serve, Handler,
}
use sroiaaa.Agent.Handler.Auth.{authenticate_token_iff}
use sroiaaa.Agent.Handler.Laws.{
  answers, Accounted, capabilities-Audited, operations-Audited, admit-Accounted,
}

-- Whatever the request and the audit file: a response that answers an operation, with data or with an
-- error, goes to a request with one of the configured tokens, and the audit file has grown by exactly
-- one whole line, an event that names the caller by that token, the address, and the error of the
-- response if it has one.
pub serve-Accounted :
    (server : Server) (fresh : Text) (r : HttpRequest) (contents : List ℕ)
    → answers (serve server fresh r contents).0.body ≡ true
    → Accounted server r contents (serve server fresh r contents)
unfolding serve serve_route require_bearer_auth
serve-Accounted server fresh r contents = go (lookup r.path routes)
  where
    go :
        (route : Option Route)
        → answers (serve_route server fresh r route contents).0.body ≡ true
        → Accounted server r contents (serve_route server fresh r route contents)
    go none h = absurd (cc)
    go (some healthz) h = absurd (cc)
    go (some capabilities_route) h =
        admit-Accounted server (handle_capabilities server fresh) r contents
          (bearer_token r.authorization) refl
          (λ caller. capabilities-Audited server caller r contents fresh) h
    go (some operations_route) h =
        admit-Accounted server (handle_operations server fresh) r contents
          (bearer_token r.authorization) refl
          (λ caller. operations-Audited server caller r contents fresh) h

admit-unauthorized :
    (server : Server) (next : Handler) (r : HttpRequest) (contents : List ℕ) (o : Option Text)
    → ((token : Text) → o ≡ some token → ¬ Memᴰ token server.cfg.auth_tokens)
    → admit server next r o contents ≡ (respond 401 unauthorized, contents)
unfolding admit
admit-unauthorized server next r contents none bad = refl
admit-unauthorized server next r contents (some token) bad =
    let tokens = server.cfg.auth_tokens in
    elim (Bool-cases (authenticate_token server.credential_id tokens token).0) [
      | inl e ↦
          absurd (bad token refl ((authenticate_token_iff server.credential_id token tokens).0 e))
      | inr e ↦ rw e refl
    ]

-- A request for an operation or for the capabilities that brings no token, or one that is not
-- configured, gets the answer 401 and leaves the audit file as it was.
pub serve-unauthorized :
    (server : Server) (fresh : Text) (r : HttpRequest) (contents : List ℕ) (route : Route)
    → lookup r.path routes ≡ some route
    → route ≢ healthz
    → ((token : Text)
        → bearer_token r.authorization ≡ some token
        → ¬ Memᴰ token server.cfg.auth_tokens)
    → serve server fresh r contents ≡ (respond 401 unauthorized, contents)
unfolding serve serve_route require_bearer_auth
serve-unauthorized server fresh r contents route found n bad =
    ap (λ o. serve_route server fresh r o contents) found ∙ go route n
  where
    go :
        (route : Route)
        → route ≢ healthz
        → serve_route server fresh r (some route) contents ≡ (respond 401 unauthorized, contents)
    go healthz k = absurd (k refl)
    go capabilities_route k =
        admit-unauthorized server (handle_capabilities server fresh) r contents
          (bearer_token r.authorization) bad
    go operations_route k =
        admit-unauthorized server (handle_operations server fresh) r contents
          (bearer_token r.authorization) bad

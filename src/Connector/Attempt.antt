-- ===== src/Connector/Attempt.antt =====
-- What the connectors of internal/connector share: a computation that can fail with a ConnectorError and that
-- acts on the world outside, and the bounded read of an HTTP response.
pub mod Effects
pub mod Laws
use sroiaaa.Base.{
  ℕ, suc, Bool, true, false, not, Option, none, some, List, Result, ok, err, ltb, length,
}
use sroiaaa.Connector.Evidence.{
  ConnectorError, build_request, transport, read_response, response_too_large,
}

abbrev pub Attempt : Type 0 → Type 0 → Type 0
Attempt W A = W → Result ConnectorError A × W

unfoldable pub done : {W A : Type 0} → A → Attempt W A
done a w = (ok a, w)

unfoldable pub fail : {W A : Type 0} → ConnectorError → Attempt W A
fail e w = (err e, w)

abbrev pub after :
    {W A B : Type 0} → (A → Attempt W B) → Result ConnectorError A × W → Result ConnectorError B × W
after f (ok a, w) = f a w
after f (err e, w) = (err e, w)

infixl 5 ◌>>=◌ ◌>>◌
unfoldable pub ◌>>=◌ : {W A B : Type 0} → Attempt W A → (A → Attempt W B) → Attempt W B
(m >>= f) w = after f (m w)

abbrev pub ◌>>◌ : {W B : Type 0} → Attempt W (Unit {0}) → Attempt W B → Attempt W B
m >> k = m >>= λ _. k

unfoldable pub fail_if : {W : Type 0} → Bool → ConnectorError → Attempt W (Unit {0})
unfolding done fail
fail_if true e = fail e
fail_if false e = done tt

unfoldable pub found : {W A : Type 0} → Option A → ConnectorError → Attempt W A
unfolding done fail
found none e = fail e
found (some a) e = done a

unfoldable pub lifted : {W A : Type 0} → Result ConnectorError A → Attempt W A
lifted r w = (r, w)

-- A response; `read n` is what io.ReadAll gives of its body's first n bytes, if the read does not fail.
pub record Reply : Type 0 where
  pub status : ℕ
  pub read : ℕ → Option (List ℕ)

-- net/http for requests of type `Q`: whether http.NewRequest accepts one, and what comes back.
pub record Http (W Q : Type 0) : Type 0 where
  pub builds : Q → Bool
  pub send : Q → W → Option Reply × W

module _ {W Q : Type 0} (http : Http W Q) where
  abbrev pub sent : Q → W → Option Reply × W → Result ConnectorError Reply × W
  sent q w (none, v) = (err transport, v)
  sent q w (some reply, v) = (ok reply, v)

  unfoldable pub send_request : Q → Attempt W Reply
  send_request q w = sent q w (http.send q w)

  -- The status and the body of a response whose body is within the bound.
  unfoldable pub round_trip : ℕ → Q → Attempt W (ℕ × List ℕ)
  round_trip max q = do
    fail_if (not (http.builds q)) build_request
    reply ← send_request q
    body ← found (reply.read (suc max)) read_response
    fail_if (ltb max (length body)) response_too_large
    done (reply.status, body)

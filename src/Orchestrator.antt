-- ===== src/Orchestrator.antt =====
-- internal/orchestrator/session.go: the intents that a session offers, and one proposed tool call, from
-- its arguments to the evidence. The loop of Ask around it is in Ask.
pub mod Laws
pub mod Messages
pub mod Ask
pub mod Audit
mod Tests
use sroiaaa.Base.{
  ℕ, Bool, true, false, ◌&&◌, Option, none, some, List, [], ◌∷◌, ◌++◌, Result, ok, err,
  if◌then◌else◌, any,
}
use sroiaaa.Base.Int.{ℤ}
use sroiaaa.Base.Text.{Text, UnicodeTables}
use sroiaaa.Broker.Types.{
  Source, Action, Intent, RouteRequest, RoutePlan, RouteError, invalid_request, invalid_query,
  invalid_since, invalid_host, invalid_resource, missing_host, missing_resource, unknown_intent,
  source_for_intent, all_intents,
}
use sroiaaa.Broker.Since.{Instant, Calendar}
use sroiaaa.Broker.Router.{Router, plan}
use sroiaaa.Connector.{source_eq, Registry, Failure, Outcome, sources, execute_plan}

-- `source, ok := SourceForIntent(intent); ok && available[source]`.
unfoldable pub is_reachable : List Source → Intent → Bool
is_reachable available intent = elim (source_for_intent intent) [
  | some source ↦ any (source_eq source) available
  | none ↦ false
]

unfoldable pub reachable_intents : List Source → List Intent → List Intent
reachable_intents available [] = []
reachable_intents available (intent ∷ intents) =
    let rest = reachable_intents available intents in
    if is_reachable available intent then intent ∷ rest else rest

-- The intents of NewSession.
unfoldable pub session_intents : {W E F : Type 0} → Registry W E F → List Intent
session_intents registry = reachable_intents (sources registry) all_intents

-- isRetryableRouteError.
unfoldable pub is_retryable : RouteError → Bool
is_retryable invalid_request = true
is_retryable invalid_query = true
is_retryable invalid_since = true
is_retryable invalid_host = true
is_retryable invalid_resource = true
is_retryable missing_host = true
is_retryable missing_resource = true
is_retryable unknown_intent = true
is_retryable _ = false

pub data Decision : Type 0 where
  no_tool_call denied allowed : Decision

pub data Stage : Type 0 where
  intent_rejected policy_denied policy_allowed execution_failed : Stage
  described_instead_of_called empty_answer model_answered_directly answer_synthesized : Stage
  tool_rejected intent_proposed evidence_withheld_for_context evidence_collected : Stage
  turn_limit_reached : Stage

pub data Status : Type 0 where
  answered failed : Status

-- AuditCall: one connector execution.
pub record AuditCall : Type 0 where
  pub source : Text
  pub action : Action
  pub endpoint : Text
  pub query : Text
  pub item_count : ℕ
  pub truncated : Bool
  pub summary : List (Text × ℤ)

-- What a question changes of the session: the trace, and the audit event. The details of the trace are
-- prose; the error of the event is named by its stage.
pub record Progress : Type 0 where
  pub trace : List (Stage × Bool)
  pub question : Text
  pub proposed : Text
  pub decision : Decision
  pub plan : Option RoutePlan
  pub calls : List AuditCall
  pub answer : Text
  pub answer_chars : ℕ
  pub status : Status
  pub error : Option Stage

abbrev pub fresh_progress : Text → Progress
fresh_progress question = record {
  trace = [];
  question = question;
  proposed = [];
  decision = no_tool_call;
  plan = none;
  calls = [];
  answer = [];
  answer_chars = 0;
  status = answered;
  error = none;
}

abbrev pub record_stage : Stage → Bool → Progress → Progress
record_stage stage ok_so_far s = record s { trace = s.trace ++ (stage, ok_so_far) ∷ [] }

-- `if s.event.Decision == "no_tool_call" { s.event.Decision = "denied" }`.
abbrev pub deny : Decision → Decision
deny no_tool_call = denied
deny d = d

pub data Cause (F : Type 0) : Type 0 where
  undecodable : Cause F
  refused : RouteError → Cause F
  unexecuted : Failure F → Cause F

-- callFailure: the error, and whether the model may try again.
pub record CallFailure (F : Type 0) : Type 0 where
  pub cause : Cause F
  pub recoverable : Bool

pub record CallOutcome (W E F : Type 0) : Type 0 where
  pub result : Result (CallFailure F) (List E)
  pub progress : Progress
  pub world : W

abbrev pub failing : {W E F : Type 0} → Cause F → Bool → Progress → W → CallOutcome W E F
failing cause again s w = record {
  result = err (record { cause = cause; recoverable = again });
  progress = s;
  world = w;
}

abbrev pub after_execution :
    {W E F : Type 0} → Progress → List E → Option (Failure F) → W → CallOutcome W E F
after_execution s evidence none w = record { result = ok evidence; progress = s; world = w }
after_execution s evidence (some f) w =
    failing (unexecuted f) true (record_stage execution_failed false s) w

abbrev pub execute_allowed :
    {W E F : Type 0} → Registry W E F → RoutePlan → Progress → W → CallOutcome W E F
execute_allowed registry p s w =
    let s' = record (record_stage policy_allowed true s) { decision = allowed; plan = some p } in
    let out = execute_plan registry p w in after_execution s' out.evidence out.failure out.world

abbrev pub after_plan :
    {W E F : Type 0}
    → Registry W E F
    → Result RouteError RoutePlan
    → Progress
    → W
    → CallOutcome W E F
after_plan registry (err e) s w =
    failing (refused e) (is_retryable e)
      (record (record_stage policy_denied false s) { decision = deny s.decision }) w
after_plan registry (ok p) s w = execute_allowed registry p s w

module _ (tables : UnicodeTables) (cal : Calendar) {W E F : Type 0}
    (decode : Text → Option RouteRequest) (r : Router) (registry : Registry W E F) where
  abbrev pub after_decode :
      Instant → Instant → Option RouteRequest → Progress → W → CallOutcome W E F
  after_decode a b none s w = failing undecodable true (record_stage intent_rejected false s) w
  after_decode a b (some request) s w = after_plan registry (plan tables cal r a b request) s w

  -- `decode` is broker.DecodeRouteRequest of the limited reader; `a` and `b` are the readings of the
  -- clock that Plan makes.
  unfoldable pub run_one_call : Instant → Instant → Text → Progress → W → CallOutcome W E F
  run_one_call a b arguments s w = after_decode a b (decode arguments) s w

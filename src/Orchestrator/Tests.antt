-- ===== src/Orchestrator/Tests.antt =====
-- internal/orchestrator/session.go at concrete calls: one that gives evidence, and one that is refused.
use sroiaaa.Base.{ℕ, suc, false, Option, none, some, [], ◌∷◌, ◌≡◌, refl, ok, err, all, any}
use sroiaaa.Base.Text.{
  Text, UnicodeTables, codes, text_eq, trim_space, trim_left, trim_right, is_space, byte_len,
  lookup, member, is_letter, is_digit, is_lower, to_lower,
}
use sroiaaa.Broker.Types.{
  RouteRequest, fleet_inventory, live_evidence, host_not_authorized, wazuh_api, empty_request,
  source_for_intent,
}
use sroiaaa.Broker.Policy.{validate_host_selector, validate_resource_name}
use sroiaaa.Broker.Since.{Calendar, parse_since, parse_until}
use sroiaaa.Broker.Router.{Router, plan, parse_window, step_for, live_evidence_step, valid_host}
use sroiaaa.Connector.{
  Connector, Registry, Source-discrete, source_eq, find_connector, execute_steps, execute_plan,
  sources,
}
use sroiaaa.Orchestrator.{
  Progress, fresh_progress, CallFailure, refused, is_retryable, run_one_call, session_intents,
  reachable_intents, is_reachable,
}
use sroiaaa.Broker.Types.{agent_status}
use sroiaaa.Orchestrator.Laws.{Evident, Final, run_one_call-Evident, run_one_call-Final}
use sroiaaa.Broker.Types.{agents_list}
use sroiaaa.Base.{if◌then◌else◌, ◌==◌, List, Bool, true, ◌+◌, ◌%◌, ◌≤◌, ◌++◌, All, length}
use sroiaaa.Base.Text.{contains, has_prefix, rune_to_lower}
use sroiaaa.Connector.Evidence.{Evidence, empty_evidence}
use sroiaaa.Orchestrator.Messages.{
  ToolCall, Message, tool_name, withheld_note, disclose_withheld, discloses, describes_a_call,
  room_for_more, estimated_tokens, messages_tokens, message_chars, call_chars,
}
use sroiaaa.Orchestrator.Ask.{Session, ask, ask_from, ask_turn, close_event}
use sroiaaa.Orchestrator.Ask.Effects.{Round, IsAuthorized, replay, ask-IsAuthorized}
use sroiaaa.Orchestrator.Ask.Outcomes.{has_withheld}
use sroiaaa.Orchestrator.Ask.Event.{Agrees, ask-Agrees, ask-discloses}
use sroiaaa.Base.{◌⊎◌, ◌<◌}
use sroiaaa.Base.LogFile.{Sink, write_line, record_event}
use sroiaaa.Base.LogFile.Laws.{Line}
use sroiaaa.Orchestrator.Audit.{
  max_audit_answer, cap_answer, capped, record_question, ask_and_audit,
}
use sroiaaa.Orchestrator.Audit.Laws.{cap_answer_bound, ask_and_audit-Line}

abbrev ascii : UnicodeTables
ascii = record { letter = λ c. false; digit = λ c. false; lower = λ c. false; to_lower = λ c. c }

abbrev no_calendar : Calendar
no_calendar = record {
  parse_rfc3339 = λ s. none;
  format_rfc3339 = λ t. [];
  parse_day = λ s. none;
  parse_duration = λ s. none;
  midnight = λ t. t;
  next_day = λ t. t;
  previous_day = λ t. t;
}

abbrev counter : Connector ℕ ℕ ℕ
counter = record { source = wazuh_api; execute = λ step n. (ok n, suc n) }

abbrev one_source : Registry ℕ ℕ ℕ
one_source = (wazuh_api, counter) ∷ []

abbrev closed_router : Router
closed_router = record { live_hosts = []; resources = [] }

abbrev live_request : RouteRequest
live_request = record (empty_request live_evidence) { host = codes "n"; resource = codes "x" }

abbrev decode : Text → Option RouteRequest
decode [] = some (empty_request fleet_inventory)
decode (c ∷ s) = some live_request

abbrev fresh : Progress
fresh = fresh_progress []

abbrev denial : CallFailure ℕ
denial = record { cause = refused host_not_authorized; recoverable = false }

planner : Unit {0}
unfolding plan parse_window parse_since parse_until step_for live_evidence_step valid_host
    validate_host_selector validate_resource_name all any is_lower is_letter is_digit to_lower
    byte_len text_eq trim_space trim_left trim_right is_space lookup member source_eq
    Source-discrete find_connector execute_steps execute_plan is_retryable run_one_call
planner = tt

evidence :
    (run_one_call ascii no_calendar decode closed_router one_source 9 9 [] fresh 7).result
    ≡ ok (7 ∷ [])
unfolding planner
evidence = refl

refusal :
    (run_one_call ascii no_calendar decode closed_router one_source 9 9 (codes "x") fresh 7).result
    ≡ err denial
unfolding planner
refusal = refl

-- Only the intents of the source that is there.
offered : session_intents one_source ≡ fleet_inventory ∷ agent_status ∷ []
unfolding session_intents reachable_intents is_reachable sources source_for_intent source_eq
    Source-discrete any
offered = refl

run_one_call-Evident_example :
    Evident ascii no_calendar decode closed_router one_source 9 9 [] 7
      (run_one_call ascii no_calendar decode closed_router one_source 9 9 [] fresh 7)
      (7 ∷ [])
run_one_call-Evident_example =
    run_one_call-Evident ascii no_calendar decode closed_router one_source 9 9 [] fresh 7 (7 ∷ [])
      evidence

run_one_call-Final_example :
    Final ascii no_calendar decode closed_router one_source 9 9
      (codes "x")
      7
      (run_one_call ascii no_calendar decode closed_router one_source 9 9 (codes "x") fresh 7)
      denial
run_one_call-Final_example =
    run_one_call-Final ascii no_calendar decode closed_router one_source 9 9 (codes "x") fresh 7
      denial refusal refl

abbrev speech : Option (Text × List ToolCall)
speech = some (codes "All is well.", [])

abbrev proposal : Option (Text × List ToolCall)
proposal = some ([], record { id = codes "1"; name = tool_name; arguments = [] } ∷ [])

-- A gateway that calls the tool on odd states and answers on even ones; an execution adds one.
abbrev gateway : List Message → Bool → ℕ → Option (Text × List ToolCall) × ℕ
gateway messages force w = (if w % 2 == 0 then speech else proposal, w + 2)

abbrev fleet : Evidence
fleet = empty_evidence (codes "wazuh-api") agents_list

abbrev fleet_source : Registry ℕ Evidence ℕ
fleet_source =
    (wazuh_api, record { source = wazuh_api; execute = λ step n. (ok fleet, suc n) }) ∷ []

abbrev small_session : (budget : ℕ) → (ℕ → ℕ) → Session ℕ ℕ
small_session budget json_tokens = record {
  prompt = [];
  tools_size = none;
  json_tokens = json_tokens;
  budget = budget;
  complete = gateway;
  decode = decode;
  router = closed_router;
  registry = fleet_source;
  clock = λ n. 9;
  encode = λ p evidence. some (codes "{}");
  explain = λ failure. [];
}

-- Room for no evidence at all.
abbrev full_session : Session ℕ ℕ
full_session = small_session 100 (λ n. 200000)

asker : Unit {0}
unfolding planner ask ask_from ask_turn close_event disclose_withheld discloses describes_a_call
    contains has_prefix rune_to_lower room_for_more estimated_tokens messages_tokens message_chars
    call_chars
asker = tt

-- One call of the tool, whose evidence is withheld, and then an answer with the note.
withheld_answer :
    (ask full_session ascii no_calendar (codes "q") 7).result
    ≡ ok (codes "All is well." ++ withheld_note)
unfolding asker
withheld_answer = refl

ask-IsAuthorized_example :
    (rounds : List (Round ℕ ℕ)) × All (IsAuthorized ascii no_calendar full_session) rounds
    × (length rounds ≤ 5)
    × ((ask full_session ascii no_calendar (codes "q") 7).world
        ≡ replay ascii no_calendar full_session rounds 7)
ask-IsAuthorized_example = ask-IsAuthorized ascii no_calendar full_session (codes "q") 7

ask-Agrees_example :
    (let out = ask full_session ascii no_calendar (codes "q") 7 in
      Agrees ascii no_calendar full_session out.result out.progress)
ask-Agrees_example = ask-Agrees ascii no_calendar full_session (codes "q") 7

evidence_was_withheld :
    has_withheld (ask full_session ascii no_calendar (codes "q") 7).progress ≡ true
unfolding asker
evidence_was_withheld = refl

ask-discloses_example : discloses ascii (codes "All is well." ++ withheld_note) ≡ true
ask-discloses_example =
    ask-discloses ascii no_calendar full_session (codes "q") 7
      (codes "All is well." ++ withheld_note) withheld_answer evidence_was_withheld

-- Writes every line whole; of an event, it keeps the size of the answer.
abbrev memory : Sink Progress
memory = record {
  encode = λ event. some (event.answer_chars ∷ []);
  write = λ contents line. record { written = length line; failed = false };
}

question_recorded :
    (record_question memory (ask full_session ascii no_calendar (codes "q") 7).progress (1 ∷ [])).0
    ≡ true
unfolding record_question record_event write_line
question_recorded = refl

ask_and_audit-Line_example :
    (let (out, after) =
        ask_and_audit full_session ascii no_calendar (some memory) (codes "q") 7 (1 ∷ []) in
      Line memory (capped out.progress) (1 ∷ []) after
      × Agrees ascii no_calendar full_session out.result out.progress)
ask_and_audit-Line_example =
    ask_and_audit-Line ascii no_calendar full_session memory (codes "q") 7 (1 ∷ [])
      question_recorded

cap_answer_bound_example :
    ((byte_len (codes "ok") ≤ max_audit_answer) × (cap_answer (codes "ok") ≡ codes "ok"))
    ⊎ ((max_audit_answer < byte_len (codes "ok")) × (byte_len (cap_answer (codes "ok")) ≤ 8213))
cap_answer_bound_example = cap_answer_bound (codes "ok")

-- ===== src/Orchestrator/Ask.antt =====
-- internal/orchestrator/session.go: the loop of Ask, turn by turn, and the audit event of each way out.
-- The model gateway and the connectors share one state `W`.
pub mod Effects
pub mod Event
pub mod Outcomes
pub mod Withheld
use mathlib.Core.List.{map}
use sroiaaa.Base.{
  ℕ, zero, suc, ◌+◌, ◌*◌, ◌/◌, Bool, true, false, not, ◌&&◌, ◌||◌, Option, none, some, List, [],
  ◌∷◌, ◌++◌, Result, ok, err, if◌then◌else◌, ltb, leb, ◌==◌, any,
}
use sroiaaa.Base.Int.{ℤ, above, to_nat}
use sroiaaa.Base.Text.{
  Text, UnicodeTables, codes, text_eq, is_empty, trim_space, to_lower, contains, byte_len,
}
use sroiaaa.Broker.Types.{RouteRequest, RoutePlan}
use sroiaaa.Broker.Since.{Instant, Calendar}
use sroiaaa.Broker.Router.{Router}
use sroiaaa.Connector.{Registry}
use sroiaaa.Connector.Evidence.{Evidence}
use sroiaaa.Orchestrator.{
  denied, no_tool_call, Stage, described_instead_of_called, empty_answer, model_answered_directly,
  answer_synthesized, tool_rejected, intent_proposed, evidence_withheld_for_context,
  evidence_collected, turn_limit_reached, Status, answered, failed, AuditCall, Progress,
  fresh_progress, record_stage, Cause, CallFailure, CallOutcome, run_one_call,
}
use sroiaaa.Orchestrator.Messages.{
  system, user, assistant, ToolCall, Message, tool_name, max_tool_calls, say, tool_result,
  room_for_more, disclose_withheld, describes_a_call,
}

-- What Ask takes from elsewhere: the prompt, the gateway, encoding/json, and the broker's inputs.
pub record Session (W F : Type 0) : Type 0 where
  pub prompt : Text
  pub tools_size : Option ℕ
  pub json_tokens : ℕ → ℕ
  pub budget : ℕ
  -- Complete: the content and the tool calls of the first choice, or a failure.
  pub complete : List Message → Bool → W → Option (Text × List ToolCall) × W
  pub decode : Text → Option RouteRequest
  pub router : Router
  pub registry : Registry W Evidence F
  pub clock : ℕ → Instant
  pub encode : Option RoutePlan → List Evidence → Option Text
  -- The content that tells the model of a recoverable failure.
  pub explain : CallFailure F → Text

pub data AskError (F : Type 0) : Type 0 where
  client_failed no_answer unknown_tool unencodable gave_up : AskError F
  refused_call : Cause F → AskError F

pub record LoopState (W : Type 0) : Type 0 where
  pub messages : List Message
  pub force : Bool
  pub withheld : Bool
  pub progress : Progress
  pub world : W

pub record AskOutcome (W F : Type 0) : Type 0 where
  pub result : Result (AskError F) Text
  pub progress : Progress
  pub world : W

-- A turn ends the question, or leaves the state for the next.
pub data Turn (W F : Type 0) : Type 0 where
  finish : AskOutcome W F → Turn W F
  continue : LoopState W → Turn W F

abbrev pub ending : {W F : Type 0} → Result (AskError F) Text → Progress → W → Turn W F
ending result p w = finish (record { result = result; progress = p; world = w })

abbrev pub call_of : Evidence → AuditCall
call_of e = record {
  source = e.source;
  action = e.action;
  endpoint = e.endpoint;
  query = e.query;
  item_count = e.item_count;
  truncated = e.truncated;
  summary = e.summary;
}

abbrev pub too_large_content : Text
too_large_content =
    codes "{\"error\":\"the result was too large to return; narrow it or aggregate in SQL\"}"

abbrev pub withheld_content : Text
withheld_content =
    codes
      "{\"error\":\"this result was withheld: returning it would exceed the model context and silently discard your instructions\",\"guidance\":\"Answer from the evidence you already have, and state plainly that further evidence was withheld and the answer is therefore incomplete.\"}"

abbrev pub first_proposed : Text → Text → Text
first_proposed [] arguments = arguments
first_proposed (c ∷ s) arguments = c ∷ s

abbrev pub last_refused : Option Stage → List (Stage × Bool) → Option Stage
last_refused found [] = found
last_refused found ((stage, allowed) ∷ trace) =
    last_refused (if allowed then found else some stage) trace

abbrev pub close : ℕ → Status → Progress → Progress
close zero answered p = record p { status = failed; error = last_refused none p.trace }
close n status p = p

-- writeAudit, up to the call of Record.
unfoldable pub close_event : Progress → Progress
close_event p = close p.answer_chars p.status p

-- The conversation and the event with the proposed call.
abbrev pub asked_state : {W : Type 0} → LoopState W → Text → List ToolCall → ToolCall → LoopState W
asked_state st content calls call = record st {
  messages = st.messages ++ record (say assistant content) { tool_calls = calls } ∷ [];
  progress = record (record_stage intent_proposed true st.progress) {
    proposed = first_proposed st.progress.proposed call.arguments;
  };
}

module _ {W F : Type 0} (s : Session W F) where
  abbrev pub after_encoding : ToolCall → List Evidence → Option Text → LoopState W → Turn W F
  after_encoding call evidence none st = ending (err unencodable) st.progress st.world
  after_encoding call evidence (some json) st =
      if ltb s.budget (byte_len json)
      then continue
          (record st { messages = st.messages ++ tool_result call too_large_content ∷ [] })
      else if not (room_for_more s.json_tokens s.tools_size st.messages (byte_len json))
      then continue (record st {
        messages = st.messages ++ tool_result call withheld_content ∷ [];
        withheld = true;
        progress = record_stage evidence_withheld_for_context false st.progress;
      })
      else continue (record st {
        messages = st.messages ++ tool_result call json ∷ [];
        progress = record (record_stage evidence_collected true st.progress) {
          calls = st.progress.calls ++ map call_of evidence;
        };
      })

  -- What runOneCall gave, with its trace and state already in `st`.
  abbrev pub after_result :
      ToolCall → LoopState W → Result (CallFailure F) (List Evidence) → Turn W F
  after_result call st (ok evidence) =
      after_encoding call evidence (s.encode st.progress.plan evidence) st
  after_result call st (err failure) =
      if failure.recoverable
      then continue
          (record st { messages = st.messages ++ tool_result call (s.explain failure) ∷ [] })
      else ending (err (refused_call failure.cause)) (record st.progress { decision = denied })
          st.world

  abbrev pub after_call : ToolCall → LoopState W → CallOutcome W Evidence F → Turn W F
  after_call call st out =
      after_result call (record st { progress = out.progress; world = out.world }) out.result

  module _ (tables : UnicodeTables) (cal : Calendar) where
    -- The first of the tool calls; `calls` are all that the model proposed.
    abbrev pub call_turn : ℕ → LoopState W → Text → List ToolCall → ToolCall → Turn W F
    call_turn turn st content calls call =
        let asked = asked_state st content calls call in
        let out =
          run_one_call tables cal s.decode s.router s.registry (s.clock (2 * turn))
            (s.clock (2 * turn + 1)) call.arguments asked.progress st.world in
        let called = after_call call asked out in
        if text_eq call.name tool_name
        then called
        else ending (err unknown_tool) (record_stage tool_rejected false st.progress) st.world

    abbrev pub answer_turn : ℕ → LoopState W → Text → Turn W F
    answer_turn turn st answer =
        let final = disclose_withheld tables answer st.withheld in
        let stage = if turn == 0 then model_answered_directly else answer_synthesized in
        if describes_a_call tables answer && ltb turn 4
        then continue (record st {
          messages =
              st.messages ++ say assistant answer ∷ say user (codes "Make that call now.") ∷ [];
          force = true;
          progress = record_stage described_instead_of_called false st.progress;
        })
        else if is_empty answer
        then ending (err no_answer)
            (record (record_stage empty_answer false st.progress) { status = failed }) st.world
        else ending (ok final)
            (record (record_stage stage true st.progress) {
              answer = final;
              answer_chars = byte_len final;
            })
            st.world

    abbrev pub after_complete : ℕ → LoopState W → Option (Text × List ToolCall) → Turn W F
    after_complete turn st none = ending (err client_failed) st.progress st.world
    after_complete turn st (some (content, [])) = answer_turn turn st (trim_space content)
    after_complete turn st (some (content, call ∷ calls)) =
        call_turn turn st content (call ∷ calls) call

    -- One round of the loop: the forced tool is for one call only.
    unfoldable pub ask_turn : ℕ → LoopState W → Turn W F
    ask_turn turn st =
        let answer = s.complete st.messages st.force st.world in
        after_complete turn (record st { force = false; world = answer.1 }) answer.0

    abbrev pub turn_or_else : Turn W F → (LoopState W → AskOutcome W F) → AskOutcome W F
    turn_or_else (finish out) rest = out
    turn_or_else (continue st) rest = rest st

    abbrev pub give_up : LoopState W → AskOutcome W F
    give_up st = record {
      result = err gave_up;
      progress = record (record_stage turn_limit_reached false st.progress) { status = failed };
      world = st.world;
    }

    -- `left` rounds are left, of which the next is round `turn`.
    unfoldable pub ask_from : ℕ → ℕ → LoopState W → AskOutcome W F
    ask_from zero turn st = give_up st
    ask_from (suc left) turn st = turn_or_else (ask_turn turn st) (ask_from left (suc turn))

    abbrev pub first_state : Text → W → LoopState W
    first_state question w = record {
      messages = say system s.prompt ∷ say user question ∷ [];
      force = false;
      withheld = false;
      progress = fresh_progress question;
      world = w;
    }

    unfoldable pub ask : Text → W → AskOutcome W F
    ask question w =
        let out = ask_from max_tool_calls 0 (first_state question w) in
        record out { progress = close_event out.progress }

-- ===== src/Orchestrator/Messages.antt =====
-- internal/orchestrator/session.go: the messages of a conversation, how much room they take, and what the
-- text of an answer is searched for. float64 division by 2.2 is a parameter.
use sroiaaa.Base.{
  ℕ, ◌+◌, ◌/◌, Bool, not, ◌&&◌, Option, none, some, List, [], ◌∷◌, ◌++◌, if◌then◌else◌, leb, any,
}
use sroiaaa.Base.Int.{ℤ, above, to_nat}
use sroiaaa.Base.Text.{Text, UnicodeTables, codes, is_empty, to_lower, contains, byte_len}

pub data Role : Type 0 where
  system user assistant tool : Role

abbrev pub role_name : Role → Text
role_name system = codes "system"
role_name user = codes "user"
role_name assistant = codes "assistant"
role_name tool = codes "tool"

pub record ToolCall : Type 0 where
  pub id : Text
  pub name : Text
  pub arguments : Text

pub record Message : Type 0 where
  pub role : Role
  pub content : Text
  pub tool_calls : List ToolCall
  pub tool_call_id : Text
  pub name : Text

abbrev pub tool_name : Text
tool_name = codes "sroiaaa_evidence"

abbrev pub max_evidence_json : ℕ
max_evidence_json = 65536

abbrev pub max_tool_calls : ℕ
max_tool_calls = 5

abbrev pub served_context_tokens : ℕ
served_context_tokens = 131072

abbrev pub answer_reserve_tokens : ℕ
answer_reserve_tokens = 1500

abbrev pub say : Role → Text → Message
say role content = record {
  role = role;
  content = content;
  tool_calls = [];
  tool_call_id = [];
  name = [];
}

abbrev pub tool_result : ToolCall → Text → Message
tool_result call content = record {
  role = tool;
  content = content;
  tool_calls = [];
  tool_call_id = call.id;
  name = tool_name;
}

-- int(float64(chars) / 4.0) is exact.
abbrev pub message_tokens : (ℕ → ℕ) → Role → ℕ → ℕ
message_tokens json_tokens tool chars = json_tokens chars
message_tokens json_tokens _ chars = chars / 4

unfoldable pub call_chars : List ToolCall → ℕ
call_chars [] = 0
call_chars (c ∷ cs) = byte_len c.id + byte_len c.name + byte_len c.arguments + call_chars cs

unfoldable pub message_chars : Message → ℕ
message_chars m =
    byte_len (role_name m.role)
    + byte_len m.content
    + byte_len m.name
    + byte_len m.tool_call_id
    + call_chars m.tool_calls

unfoldable pub messages_tokens : (ℕ → ℕ) → List Message → ℕ
messages_tokens json_tokens [] = 0
messages_tokens json_tokens (m ∷ ms) =
    message_tokens json_tokens m.role (message_chars m) + messages_tokens json_tokens ms

-- `tools_size` is the length of the encoded tools, where they encode.
unfoldable pub estimated_tokens : (ℕ → ℕ) → Option ℕ → List Message → ℕ
estimated_tokens json_tokens tools_size messages =
    messages_tokens json_tokens messages
    + (elim tools_size [ some n ↦ json_tokens n | none ↦ 0 ])
    + answer_reserve_tokens

unfoldable pub room_for_more : (ℕ → ℕ) → Option ℕ → List Message → ℕ → Bool
room_for_more json_tokens tools_size messages addition =
    leb (estimated_tokens json_tokens tools_size messages + json_tokens addition)
      served_context_tokens

-- evidenceBudget, of the value of SROIAAA_MAX_EVIDENCE; `atoi` is strconv.Atoi.
unfoldable pub evidence_budget : (Text → Option ℤ) → Text → ℕ
evidence_budget atoi value = if is_empty value then max_evidence_json else (elim (atoi value) [
  | some n ↦ if above n 0 then to_nat n else max_evidence_json
  | none ↦ max_evidence_json
])

abbrev pub withheld_note : Text
withheld_note =
    10
    ∷ 10
    ∷ codes
        "This answer is incomplete: further evidence was withheld because returning it would have exceeded the model's context. Ask a narrower question to see the rest."

abbrev pub disclosing_words : List Text
disclosing_words = codes "withheld" ∷ codes "incomplete" ∷ codes "not all" ∷ codes "partial" ∷ []

abbrev pub call_signs : List Text
call_signs =
    tool_name
    ∷ codes "intent="
    ∷ codes "\"intent\":"
    ∷ codes "intent='"
    ∷ codes "let's execute"
    ∷ codes "lets execute"
    ∷ codes "i will now"
    ∷ codes "now i will"
    ∷ codes "let's construct"
    ∷ codes "i need to query"
    ∷ codes "execute this via the tool"
    ∷ []

module _ (tables : UnicodeTables) where
  unfoldable pub discloses : Text → Bool
  discloses answer = any (contains (to_lower tables answer)) disclosing_words

  unfoldable pub disclose_withheld : Text → Bool → Text
  disclose_withheld answer withheld =
      if not withheld then answer else if discloses answer then answer else answer ++ withheld_note

  unfoldable pub describes_a_call : Text → Bool
  describes_a_call answer =
      not (is_empty answer) && any (contains (to_lower tables answer)) call_signs

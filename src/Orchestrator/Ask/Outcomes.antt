-- ===== src/Orchestrator/Ask/Outcomes.antt =====
-- internal/orchestrator/session.go: what the loop of Ask keeps of the audit event from round to round.
use sroiaaa.Base.{
  ℕ, zero, suc, ◌+◌, ◌*◌, Bool, true, false, not, ◌&&◌, Option, none, some, List, [], ◌∷◌, ◌++◌,
  ◌≡◌, refl, sym, ◌∙◌, arith, Result, ok, err, if◌then◌else◌, ◌⊎◌, inl, inr, Bool-cases, any, ltb,
  ◌==◌,
}
use sroiaaa.Base.Text.{Text, UnicodeTables, text_eq, is_empty, trim_space, byte_len}
use sroiaaa.Broker.Types.{RouteRequest, RoutePlan, RouteError}
use sroiaaa.Broker.Since.{Instant, Calendar}
use sroiaaa.Broker.Router.{plan}
use sroiaaa.Connector.{Failure, execute_plan}
use sroiaaa.Connector.Evidence.{Evidence}
use sroiaaa.Orchestrator.{
  denied, Stage, empty_answer, model_answered_directly, answer_synthesized, record_stage,
  evidence_withheld_for_context, answered, failed, Progress, CallFailure, after_execution,
  after_plan, after_decode, run_one_call,
}
use sroiaaa.Orchestrator.Messages.{
  ToolCall, tool_name, discloses, disclose_withheld, describes_a_call, room_for_more,
}
use sroiaaa.Orchestrator.Ask.{
  Session, AskError, refused_call, no_answer, ending, LoopState, Turn, finish, continue,
  after_encoding, after_result, after_call, asked_state, answer_turn, after_complete, ask_turn,
  turn_or_else, ask_from,
}
use sroiaaa.Orchestrator.Ask.Withheld.{
  any-append, disclose_withheld-discloses, disclose_withheld-nonempty,
}

abbrev pub is_withholding : Stage × Bool → Bool
is_withholding (evidence_withheld_for_context, allowed) = true
is_withholding _ = false

-- Some evidence was withheld, as the trace has it.
abbrev pub has_withheld : Progress → Bool
has_withheld p = any is_withholding p.trace

-- Two events that agree on the answer, and traces that agree on what was withheld.
abbrev Kept : Progress → Progress → Type 0
Kept p q =
    (q.status ≡ p.status)
    × (q.answer ≡ p.answer)
    × (q.answer_chars ≡ p.answer_chars)
    × (has_withheld q ≡ has_withheld p)

-- A stage that withholds nothing leaves the trace as it was in that respect.
one_more :
    (trace : List (Stage × Bool)) (entry : Stage × Bool)
    → is_withholding entry ≡ false
    → any is_withholding (trace ++ entry ∷ []) ≡ any is_withholding trace
unfolding any
one_more trace entry h = any-append is_withholding trace (entry ∷ []) ∙ ground arith

module _ {W F : Type 0} (tables : UnicodeTables) (cal : Calendar) (s : Session W F) where
  one_call-Kept :
      (a b : Instant) (arguments : Text) (p : Progress) (w : W)
      → Kept p (run_one_call tables cal s.decode s.router s.registry a b arguments p w).progress
  unfolding run_one_call
  one_call-Kept a b arguments p w = decoding (s.decode arguments)
    where
      executing :
          (q : Progress) (evidence : List Evidence) (f : Option (Failure F)) (v : W)
          → Kept p q
          → Kept p (after_execution q evidence f v).progress
      executing q evidence none v k = k
      executing q evidence (some f) v k = (k.0, k.1, k.2, one_more q.trace _ refl ∙ k.3)

      planning : (o : Result RouteError RoutePlan) → Kept p (after_plan s.registry o p w).progress
      planning (err e) = (refl, refl, refl, one_more p.trace _ refl)
      planning (ok made) =
          let out = execute_plan s.registry made w in
          executing _ out.evidence out.failure out.world (refl, refl, refl, one_more p.trace _ refl)

      decoding :
          (o : Option RouteRequest)
          → Kept p (after_decode tables cal s.decode s.router s.registry a b o p w).progress
      decoding none = (refl, refl, refl, one_more p.trace _ refl)
      decoding (some request) = planning (plan tables cal s.router a b request)

  -- Between rounds: no answer yet, and the flag is set exactly if evidence was withheld.
  abbrev pub IsOpen : LoopState W → Type 0
  IsOpen st =
      (st.progress.status ≡ answered)
      × (st.progress.answer ≡ [])
      × (st.progress.answer_chars ≡ 0)
      × (has_withheld st.progress ≡ st.withheld)

  -- At the end: an answer is in the event, and says what was withheld; an error has none.
  abbrev pub IsSettled : Result (AskError F) Text → Progress → Type 0
  IsSettled (ok a) p =
      (p.status ≡ answered)
      × (p.answer ≡ a)
      × (p.answer_chars ≡ byte_len a)
      × (is_empty a ≡ false)
      × (has_withheld p ≡ true → discloses tables a ≡ true)
  IsSettled (err (refused_call cause)) p =
      (p.answer ≡ []) × (p.answer_chars ≡ 0) × (p.decision ≡ denied)
  IsSettled (err e) p = (p.answer ≡ []) × (p.answer_chars ≡ 0)

  abbrev IsFine : Turn W F → Type 0
  IsFine (finish out) = IsSettled out.result out.progress
  IsFine (continue st) = IsOpen st

  either-IsFine : (b : Bool) (x y : Turn W F) → IsFine x → IsFine y → IsFine (if b then x else y)
  either-IsFine true x y h k = h
  either-IsFine false x y h k = k

  after_result-IsFine :
      (call : ToolCall) (st : LoopState W) (r : Result (CallFailure F) (List Evidence))
      → IsOpen st
      → IsFine (after_result s call st r)
  unfolding any
  after_result-IsFine call st (err failure) h =
      either-IsFine failure.recoverable _ _ h (h.1, h.2, refl)
  after_result-IsFine call st (ok evidence) h = go (s.encode st.progress.plan evidence)
    where
      withheld_now :
          any is_withholding (st.progress.trace ++ (evidence_withheld_for_context, false) ∷ [])
          ≡ true
      withheld_now = any-append is_withholding st.progress.trace _ ∙ ground arith

      go : (o : Option Text) → IsFine (after_encoding s call evidence o st)
      go none = (h.1, h.2)
      go (some json) = either-IsFine (ltb s.budget (byte_len json)) _ _ h (
          either-IsFine (not (room_for_more s.json_tokens s.tools_size st.messages (byte_len json)))
            _ _ (h.0, h.1, h.2, withheld_now)
            (h.0, h.1, h.2, one_more st.progress.trace _ refl ∙ h.3))

  call-IsFine :
      (turn : ℕ) (call : ToolCall) (st : LoopState W)
      → IsOpen st
      → (let out =
            run_one_call tables cal s.decode s.router s.registry
              (s.clock (2 * turn))
              (s.clock (2 * turn + 1))
              call.arguments
              st.progress
              st.world in
          IsFine (after_call s call st out))
  call-IsFine turn call st h =
      let a = s.clock (2 * turn) in
      let b = s.clock (2 * turn + 1) in
      let out =
        run_one_call tables cal s.decode s.router s.registry a b call.arguments st.progress
          st.world in
      let k = one_call-Kept a b call.arguments st.progress st.world in
      after_result-IsFine call (record st { progress = out.progress; world = out.world }) out.result
        (k.0 ∙ h.0, k.1 ∙ h.1, k.2 ∙ h.2, k.3 ∙ h.3)

  answer_turn-IsFine :
      (turn : ℕ) (st : LoopState W) (answer : Text)
      → IsOpen st
      → IsFine (answer_turn s tables cal turn st answer)
  answer_turn-IsFine turn st answer h =
      either-IsFine (describes_a_call tables answer && ltb turn 4) _ _
        (h.0, h.1, h.2, one_more st.progress.trace _ refl ∙ h.3)
        (given (Bool-cases (is_empty answer)))
    where
      stage : Stage
      stage = if turn == 0 then model_answered_directly else answer_synthesized

      silent :
          (t : ℕ)
          → is_withholding (if t == 0 then model_answered_directly else answer_synthesized, true)
            ≡ false
      silent t = elim (Bool-cases (t == 0)) [ inl e ↦ rw e refl | inr e ↦ rw e refl ]

      final : Text
      final = disclose_withheld tables answer st.withheld

      told :
          has_withheld (record_stage stage true st.progress) ≡ true → discloses tables final ≡ true
      told w =
          let flag : st.withheld ≡ true =
            sym (one_more st.progress.trace _ (silent turn) ∙ h.3) ∙ w in
          rw flag (disclose_withheld-discloses tables answer)

      no_answer_turn : Turn W F
      no_answer_turn =
          ending (err no_answer)
            (record (record_stage empty_answer false st.progress) { status = failed }) st.world

      answer_end : Turn W F
      answer_end =
          ending (ok final)
            (record (record_stage stage true st.progress) {
              answer = final;
              answer_chars = byte_len final;
            })
            st.world

      given :
          (is_empty answer ≡ true) ⊎ (is_empty answer ≡ false)
          → IsFine (if is_empty answer then no_answer_turn else answer_end)
      given (inl e) = rw e (h.1, h.2)
      given (inr e) =
          rw e (h.0, refl, refl, disclose_withheld-nonempty tables answer st.withheld e, told)

  after_complete-IsFine :
      (turn : ℕ) (st : LoopState W) (o : Option (Text × List ToolCall))
      → IsOpen st
      → IsFine (after_complete s tables cal turn st o)
  after_complete-IsFine turn st none h = (h.1, h.2)
  after_complete-IsFine turn st (some (content, [])) h =
      answer_turn-IsFine turn st (trim_space content) h
  after_complete-IsFine turn st (some (content, call ∷ calls)) h =
      either-IsFine (text_eq call.name tool_name) _ _
        (call-IsFine turn call (asked_state st content (call ∷ calls) call)
          (h.0, h.1, h.2, one_more st.progress.trace _ refl ∙ h.3))
        (h.1, h.2)

  pub ask_from-IsSettled :
      (left turn : ℕ) (st : LoopState W)
      → IsOpen st
      → (let out = ask_from s tables cal left turn st in IsSettled out.result out.progress)
  unfolding ask_from ask_turn
  ask_from-IsSettled zero turn st h = (h.1, h.2)
  ask_from-IsSettled (suc left) turn st h =
      let answer = s.complete st.messages st.force st.world in
      go (ask_turn s tables cal turn st)
        (after_complete-IsFine turn (record st { force = false; world = answer.1 }) answer.0 h)
        (ask_from-IsSettled left (suc turn))
    where
      go :
          (t : Turn W F)
          → IsFine t
          → ((next : LoopState W)
              → IsOpen next
              → (let out = ask_from s tables cal left (suc turn) next in
                  IsSettled out.result out.progress))
          → (let out = turn_or_else s tables cal t (ask_from s tables cal left (suc turn)) in
              IsSettled out.result out.progress)
      go (finish out) fine later = fine
      go (continue next) fine later = later next fine

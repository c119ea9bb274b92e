-- ===== src/Orchestrator/Ask/Effects.antt =====
-- internal/orchestrator/session.go: what a question does to the gateway and to the sources.
use sroiaaa.Base.{
  ℕ, zero, suc, ◌+◌, ◌*◌, ◌≤◌, Bool, true, false, not, ◌&&◌, Option, none, some, List, [], ◌∷◌, ◌≡◌,
  refl, sym, ap, ◌∙◌, arith, Result, ok, err, if◌then◌else◌, length, All, ltb,
}
use sroiaaa.Base.Text.{Text, UnicodeTables, text_eq, is_empty, trim_space, byte_len}
use sroiaaa.Broker.Types.{RouteRequest, RouteStep, RoutePlan, RouteError}
use sroiaaa.Broker.Since.{Instant, Calendar}
use sroiaaa.Broker.Router.{plan, new_plan}
use sroiaaa.Broker.Router.Shape.{plan_inv}
use sroiaaa.Connector.{
  Connector, Failure, find_connector, execute_steps, execute_plan, run_step, after_step,
}
use sroiaaa.Connector.Evidence.{Evidence}
use sroiaaa.Orchestrator.{
  Progress, CallFailure, after_execution, after_plan, after_decode, run_one_call,
}
use sroiaaa.Orchestrator.Messages.{
  ToolCall, Message, tool_name, max_tool_calls, describes_a_call, room_for_more,
}
use sroiaaa.Orchestrator.Ask.{
  Session, LoopState, Turn, finish, continue, after_encoding, after_result, after_call, asked_state,
  answer_turn, after_complete, ask_turn, turn_or_else, ask_from, first_state, ask,
}

-- One round: a call of the gateway, and at most one execution of a step by a connector.
pub record Round (W F : Type 0) : Type 0 where
  pub messages : List Message
  pub force : Bool
  pub run : Option (RouteStep × Connector W Evidence F)

abbrev pub replay_run : {W F : Type 0} → Option (RouteStep × Connector W Evidence F) → W → W
replay_run none w = w
replay_run (some (step, c)) w = (c.execute step w).1

module _ {W F : Type 0} (tables : UnicodeTables) (cal : Calendar) (s : Session W F) where
  -- What the rounds leave of a state.
  abbrev pub replay : List (Round W F) → W → W
  replay [] w = w
  replay (round ∷ rounds) w =
      replay rounds (replay_run round.run (s.complete round.messages round.force w).1)

  -- The step is the one step of a plan that the router makes of a request that the model's text decodes to,
  -- and the connector is the one registered for its source.
  pub record IsPlanned (step : RouteStep) (c : Connector W Evidence F) : Type 0 where
    pub arguments : Text
    pub request : RouteRequest
    pub since_read : Instant
    pub until_read : Instant
    pub decoded : s.decode arguments ≡ some request
    pub planned :
        plan tables cal s.router since_read until_read request ≡ ok (new_plan request.intent step)
    pub registered : find_connector step.source s.registry ≡ some c

  abbrev pub IsAuthorizedRun : Option (RouteStep × Connector W Evidence F) → Type 0
  IsAuthorizedRun none = Unit {0}
  IsAuthorizedRun (some (step, c)) = IsPlanned step c

  abbrev pub IsAuthorized : Round W F → Type 0
  IsAuthorized round = IsAuthorizedRun round.run

  abbrev Ran : W → W → Type 0
  Ran w v =
      (run : Option (RouteStep × Connector W Evidence F)) × IsAuthorizedRun run
      × (v ≡ replay_run run w)

  after_execution-world :
      (p : Progress) (evidence : List Evidence) (f : Option (Failure F)) (w : W)
      → (after_execution p evidence f w).world ≡ w
  after_execution-world p evidence none w = refl
  after_execution-world p evidence (some f) w = refl

  step_run :
      (arguments : Text) (request : RouteRequest) (a b : Instant) (step : RouteStep) (w : W)
      → s.decode arguments ≡ some request
      → plan tables cal s.router a b request ≡ ok (new_plan request.intent step)
      → Ran w (execute_plan s.registry (new_plan request.intent step) w).world
  unfolding execute_plan execute_steps
  step_run arguments request a b step w decoded planned =
      go (find_connector step.source s.registry) refl
    where
      answer :
          (c : Connector W Evidence F) (r : Result F Evidence × W)
          → (after_step (execute_steps s.registry []) r).world ≡ r.1
      answer c (ok e, v) = refl
      answer c (err x, v) = refl

      go :
          (o : Option (Connector W Evidence F))
          → find_connector step.source s.registry ≡ o
          → Ran w (run_step (execute_steps s.registry []) step w o).world
      go none e = (none, tt, refl)
      go (some c) e = (
        some (step, c),
        record {
          arguments = arguments;
          request = request;
          since_read = a;
          until_read = b;
          decoded = decoded;
          planned = planned;
          registered = e;
        },
        answer c (c.execute step w),
      )

  one_call-Ran :
      (a b : Instant) (arguments : Text) (p : Progress) (w : W)
      → Ran w (run_one_call tables cal s.decode s.router s.registry a b arguments p w).world
  unfolding run_one_call
  one_call-Ran a b arguments p w = decoding (s.decode arguments) refl
    where
      planning :
          (request : RouteRequest) (o : Result RouteError RoutePlan)
          → s.decode arguments ≡ some request
          → plan tables cal s.router a b request ≡ o
          → Ran w (after_plan s.registry o p w).world
      planning request (err e) d h = (none, tt, refl)
      planning request (ok made) d h =
          let inv = plan_inv tables cal s.router a b request made h in
          let out = execute_plan s.registry made w in
          let (run, authorized, same) =
            step_run arguments request a b inv.step w d (h ∙ ap ok (sym inv.made)) in
          (
            run,
            authorized,
            after_execution-world _ out.evidence out.failure out.world
                ∙ ap (λ (q : RoutePlan). (execute_plan s.registry q w).world) (sym inv.made)
                ∙ same,
          )

      decoding :
          (o : Option RouteRequest)
          → s.decode arguments ≡ o
          → Ran w (after_decode tables cal s.decode s.router s.registry a b o p w).world
      decoding none d = (none, tt, refl)
      decoding (some request) d = planning request (plan tables cal s.router a b request) d refl

  abbrev turn_world : Turn W F → W
  turn_world (finish out) = out.world
  turn_world (continue st) = st.world

  either_world :
      (b : Bool) (x y : Turn W F) {w : W}
      → turn_world x ≡ w
      → turn_world y ≡ w
      → turn_world (if b then x else y) ≡ w
  either_world true x y h k = h
  either_world false x y h k = k

  after_result-world :
      (call : ToolCall) (st : LoopState W) (r : Result (CallFailure F) (List Evidence))
      → turn_world (after_result s call st r) ≡ st.world
  after_result-world call st (err failure) = either_world failure.recoverable _ _ refl refl
  after_result-world call st (ok evidence) = go (s.encode st.progress.plan evidence)
    where
      go : (o : Option Text) → turn_world (after_encoding s call evidence o st) ≡ st.world
      go none = refl
      go (some json) = either_world (ltb s.budget (byte_len json)) _ _ refl (
          either_world (not (room_for_more s.json_tokens s.tools_size st.messages (byte_len json)))
            _ _ refl refl)

  answer_turn-world :
      (turn : ℕ) (st : LoopState W) (answer : Text)
      → turn_world (answer_turn s tables cal turn st answer) ≡ st.world
  answer_turn-world turn st answer =
      either_world (describes_a_call tables answer && ltb turn 4) _ _ refl
        (either_world (is_empty answer) _ _ refl refl)

  either_Ran :
      (b : Bool) (x y : Turn W F) (w : W)
      → Ran w (turn_world x)
      → Ran w (turn_world y)
      → Ran w (turn_world (if b then x else y))
  either_Ran true x y w h k = h
  either_Ran false x y w h k = k

  call-Ran :
      (turn : ℕ) (call : ToolCall) (st : LoopState W) (p : Progress)
      → (let out =
            run_one_call tables cal s.decode s.router s.registry
              (s.clock (2 * turn))
              (s.clock (2 * turn + 1))
              call.arguments
              p
              st.world in
          Ran st.world (turn_world (after_call s call st out)))
  call-Ran turn call st p =
      let a = s.clock (2 * turn) in
      let b = s.clock (2 * turn + 1) in
      let out =
        run_one_call tables cal s.decode s.router s.registry a b call.arguments p st.world in
      let (run, authorized, same) = one_call-Ran a b call.arguments p st.world in
      (
        run,
        authorized,
        after_result-world call (record st { progress = out.progress; world = out.world })
              out.result
            ∙ same,
      )

  after_complete-Ran :
      (turn : ℕ) (st : LoopState W) (o : Option (Text × List ToolCall))
      → Ran st.world (turn_world (after_complete s tables cal turn st o))
  after_complete-Ran turn st none = (none, tt, refl)
  after_complete-Ran turn st (some (content, [])) =
      (none, tt, answer_turn-world turn st (trim_space content))
  after_complete-Ran turn st (some (content, call ∷ calls)) =
      either_Ran (text_eq call.name tool_name) _ _ st.world
        (call-Ran turn call (asked_state st content (call ∷ calls) call)
          (asked_state st content (call ∷ calls) call).progress)
        (none, tt, refl)

  turn_round :
      (turn : ℕ) (st : LoopState W)
      → (round : Round W F) × IsAuthorized round
        × (turn_world (ask_turn s tables cal turn st) ≡ replay (round ∷ []) st.world)
  unfolding ask_turn
  turn_round turn st =
      let answer = s.complete st.messages st.force st.world in
      let (run, authorized, same) =
        after_complete-Ran turn (record st { force = false; world = answer.1 }) answer.0 in
      (record { messages = st.messages; force = st.force; run = run }, authorized, same)

  -- The rounds of a loop with `left` rounds left.
  abbrev Bounded : ℕ → W → W → Type 0
  Bounded left w v =
      (rounds : List (Round W F)) × All IsAuthorized rounds
      × (length rounds ≤ left)
      × (v ≡ replay rounds w)

  ask_from-Bounded :
      (left turn : ℕ) (st : LoopState W)
      → Bounded left st.world (ask_from s tables cal left turn st).world
  unfolding ask_from
  ask_from-Bounded zero turn st = ([], tt, omega arith, refl)
  ask_from-Bounded (suc left) turn st =
      let (round, authorized, same) = turn_round turn st in
      go round authorized (ask_turn s tables cal turn st) same (ask_from-Bounded left (suc turn))
    where
      go :
          (round : Round W F)
          → IsAuthorized round
          → (t : Turn W F) → turn_world t ≡ replay (round ∷ []) st.world
          → ((next : LoopState W)
              → Bounded left next.world (ask_from s tables cal left (suc turn) next).world)
          → Bounded
              (suc left)
              st.world
              (turn_or_else s tables cal t (ask_from s tables cal left (suc turn))).world
      go round authorized (finish out) same later =
          (round ∷ [], (authorized, tt), omega arith, same)
      go round authorized (continue next) same later =
          let (rounds, all_authorized, few, end) = later next in
          (round ∷ rounds, (authorized, all_authorized), omega arith, end ∙ ap (replay rounds) same)

  -- Whatever the gateway answers and the connectors do: what a question does to them is a sequence of at
  -- most five rounds. A round is one call of the gateway and at most one execution of a step, which is the
  -- one step of a plan that the router made of a request that decoded, by the connector that is registered
  -- for its source.
  pub ask-IsAuthorized :
      (question : Text) (w : W)
      → (rounds : List (Round W F)) × All IsAuthorized rounds
        × (length rounds ≤ 5)
        × ((ask s tables cal question w).world ≡ replay rounds w)
  unfolding ask
  ask-IsAuthorized question w =
      ask_from-Bounded max_tool_calls 0 (first_state s tables cal question w)

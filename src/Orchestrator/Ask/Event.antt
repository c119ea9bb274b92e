-- ===== src/Orchestrator/Ask/Event.antt =====
-- internal/orchestrator/session.go: the answer of a question agrees with the event that is recorded of it.
use sroiaaa.Base.{
  ℕ, zero, suc, ◌<◌, true, false, [], ◌∷◌, ◌≡◌, ◌≢◌, refl, sym, subst, ◌∙◌, arith, Result, ok, err,
  ok-injective, any,
}
use sroiaaa.Base.Text.{Text, UnicodeTables, is_empty, byte_len}
use sroiaaa.Broker.Since.{Calendar}
use sroiaaa.Orchestrator.{denied, Status, answered, failed, Progress}
use sroiaaa.Orchestrator.Messages.{max_tool_calls, discloses}
use sroiaaa.Orchestrator.Ask.{
  Session, AskError, refused_call, client_failed, no_answer, unknown_tool, unencodable, gave_up,
  ask_from, close, close_event, first_state, ask,
}
use sroiaaa.Orchestrator.Ask.Outcomes.{has_withheld, IsOpen, IsSettled, ask_from-IsSettled}

module _ {W F : Type 0} (tables : UnicodeTables) (cal : Calendar) (s : Session W F) where
  -- What holds of a question and its event when the event is written.
  abbrev pub Agrees : Result (AskError F) Text → Progress → Type 0
  Agrees (ok a) p =
      (p.status ≡ answered) × (p.answer ≡ a) × (p.answer_chars ≡ byte_len a) × (is_empty a ≡ false)
  Agrees (err (refused_call cause)) p =
      (p.status ≡ failed) × (p.answer ≡ []) × (p.decision ≡ denied)
  Agrees (err e) p = (p.status ≡ failed) × (p.answer ≡ [])

  byte_len_pos : (a : Text) → is_empty a ≡ false → 0 < byte_len a
  unfolding byte_len
  byte_len_pos [] h = cc
  byte_len_pos (c ∷ a) h = ground arith

  close_none :
      (p : Progress)
      → p.answer_chars ≡ 0
      → ((close_event p).status ≡ failed)
        × ((close_event p).answer ≡ p.answer)
        × ((close_event p).decision ≡ p.decision)
  unfolding close_event
  close_none p h = go p.answer_chars p.status refl h
    where
      go :
          (n : ℕ) (status : Status)
          → p.status ≡ status
          → n ≡ 0
          → ((close n status p).status ≡ failed)
            × ((close n status p).answer ≡ p.answer)
            × ((close n status p).decision ≡ p.decision)
      go zero answered e k = (refl, refl, refl)
      go zero failed e k = (e, refl, refl)
      go (suc n) status e k = absurd (omega arith)

  close_some : (p : Progress) → 0 < p.answer_chars → close_event p ≡ p
  unfolding close_event
  close_some p h = go p.answer_chars p.status h
    where
      go : (n : ℕ) (status : Status) → 0 < n → close n status p ≡ p
      go zero status k = absurd (omega arith)
      go (suc n) answered k = refl
      go (suc n) failed k = refl

  settled-Agrees :
      (r : Result (AskError F) Text) (p : Progress)
      → IsSettled tables cal s r p
      → Agrees r (close_event p)
  settled-Agrees (ok a) p h =
      let same = close_some p (subst (λ n. 0 < n) (sym h.2) (byte_len_pos a h.3)) in
      subst (Agrees (ok a)) (sym same) (h.0, h.1, h.2, h.3)
  settled-Agrees (err (refused_call cause)) p h =
      let c = close_none p h.1 in (c.0, c.1 ∙ h.0, c.2 ∙ h.2)
  settled-Agrees (err client_failed) p h = let c = close_none p h.1 in (c.0, c.1 ∙ h.0)
  settled-Agrees (err no_answer) p h = let c = close_none p h.1 in (c.0, c.1 ∙ h.0)
  settled-Agrees (err unknown_tool) p h = let c = close_none p h.1 in (c.0, c.1 ∙ h.0)
  settled-Agrees (err unencodable) p h = let c = close_none p h.1 in (c.0, c.1 ∙ h.0)
  settled-Agrees (err gave_up) p h = let c = close_none p h.1 in (c.0, c.1 ∙ h.0)

  opened : (question : Text) (w : W) → IsOpen tables cal s (first_state s tables cal question w)
  unfolding any
  opened question w = (refl, refl, refl, refl)

  -- However a question ends, its event agrees with what Ask returns: with an answer the status is answered, and
  -- the event holds that answer, which is not empty, and its length; with an error the status is failed
  -- and there is no answer; and where the error is a refusal, the decision is denied.
  pub ask-Agrees :
      (question : Text) (w : W)
      → (let out = ask s tables cal question w in Agrees out.result out.progress)
  unfolding ask
  ask-Agrees question w =
      let out = ask_from s tables cal max_tool_calls 0 (first_state s tables cal question w) in
      settled-Agrees out.result out.progress (
        ask_from-IsSettled tables cal s max_tool_calls 0 (first_state s tables cal question w)
          (opened question w))

  closed_trace : (p : Progress) → has_withheld (close_event p) ≡ has_withheld p
  unfolding close_event
  closed_trace p = go p.answer_chars p.status
    where
      go : (n : ℕ) (status : Status) → has_withheld (close n status p) ≡ has_withheld p
      go zero answered = refl
      go zero failed = refl
      go (suc n) answered = refl
      go (suc n) failed = refl

  -- Where evidence was withheld to keep the conversation inside the context, by the trace, an answer says in
  -- one of four words that it is not whole.
  pub ask-discloses :
      (question : Text) (w : W) (answer : Text)
      → (ask s tables cal question w).result ≡ ok answer
      → has_withheld (ask s tables cal question w).progress ≡ true
      → discloses tables answer ≡ true
  unfolding ask
  ask-discloses question w answer e withheld =
      let out = ask_from s tables cal max_tool_calls 0 (first_state s tables cal question w) in
      go out.result out.progress
        (ask_from-IsSettled tables cal s max_tool_calls 0 (first_state s tables cal question w)
          (opened question w))
        e (sym (closed_trace out.progress) ∙ withheld)
    where
      go :
          (r : Result (AskError F) Text) (p : Progress)
          → IsSettled tables cal s r p
          → r ≡ ok answer
          → has_withheld p ≡ true
          → discloses tables answer ≡ true
      go (ok a) p h same k = subst (λ t. discloses tables t ≡ true) (ok-injective same) (h.4 k)
      go (err x) p h same k = absurd (refusal same)
        where
          refusal : ◌≢◌ {A = Result (AskError F) Text} (err x) (ok answer)
          refusal k = cc

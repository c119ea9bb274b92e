-- ===== src/Orchestrator/Audit/Laws.antt =====
-- internal/orchestrator/audit.go: what a question leaves in the audit file.
use sroiaaa.Base.{
  ℕ, zero, suc, ◌+◌, ◌-◌, ◌≤◌, ◌<◌, ◌⊎◌, true, some, List, [], ◌∷◌, ◌++◌, ◌≡◌, refl, arith, ltb,
  inl, inr, Bool-cases,
}
use sroiaaa.Base.Text.{Text, UnicodeTables, byte_len, rune_len}
use sroiaaa.Base.LogFile.{Sink}
use sroiaaa.Base.LogFile.Laws.{Line, record_event-Line}
use sroiaaa.Broker.Since.{Calendar}
use sroiaaa.Orchestrator.{Progress}
use sroiaaa.Orchestrator.Ask.{Session, ask}
use sroiaaa.Orchestrator.Ask.Event.{Agrees, ask-Agrees}
use sroiaaa.Orchestrator.Audit.{
  max_audit_answer, replacements, cut_bytes, ellipsis, cap_answer, capped, record_question,
  ask_and_audit,
}

replacements_len : (n : ℕ) → byte_len (replacements n) ≡ n + n + n
unfolding byte_len
replacements_len zero = omega arith
replacements_len (suc n) = omega (arith, replacements_len n)

-- A cut text is longer than the limit only by the replacement of a rune that the cut splits.
cut_bytes_len : (n : ℕ) (s : Text) → byte_len (cut_bytes n s) ≤ n + 6
unfolding cut_bytes byte_len
cut_bytes_len n [] = omega arith
cut_bytes_len n (c ∷ s) = ground (arith, replacements_len n, cut_bytes_len (n - rune_len c) s)

byte_len-append : (s t : Text) → byte_len (s ++ t) ≡ byte_len s + byte_len t
unfolding byte_len
byte_len-append [] t = omega arith
byte_len-append (c ∷ s) t = omega (arith, byte_len-append s t)

-- An answer of at most 8192 bytes is recorded as it is, and what is recorded of a longer one has at most
-- 8213 bytes.
pub cap_answer_bound :
    (answer : Text)
    → ((byte_len answer ≤ max_audit_answer) × (cap_answer answer ≡ answer))
      ⊎ ((max_audit_answer < byte_len answer) × (byte_len (cap_answer answer) ≤ 8213))
unfolding cap_answer
cap_answer_bound answer = elim (Bool-cases (ltb max_audit_answer (byte_len answer))) [
  | inl e ↦
      let cut = cut_bytes_len max_audit_answer answer in
      let added = byte_len-append (cut_bytes max_audit_answer answer) ellipsis in
      let dots : byte_len ellipsis ≡ 15 = unfold byte_len in refl in
      inr (ground (arith, e), rw e (omega (arith, cut, added, dots)))
  | inr e ↦ inl (ground (arith, e), rw e refl)
]

-- Where the write of the record succeeds: after a question, the audit file has grown by exactly one whole line,
-- the event of the question with its answer capped; and that event agrees with what Ask returns.
pub ask_and_audit-Line :
    {W F : Type 0} (tables : UnicodeTables) (cal : Calendar) (s : Session W F)
    (sink : Sink Progress) (question : Text) (w : W) (contents : List ℕ)
    → (record_question sink (ask s tables cal question w).progress contents).0 ≡ true
    → (let (out, after) = ask_and_audit s tables cal (some sink) question w contents in
        Line sink (capped out.progress) contents after
        × Agrees tables cal s out.result out.progress)
unfolding ask_and_audit record_question
ask_and_audit-Line tables cal s sink question w contents h =
    let event = (ask s tables cal question w).progress in
    (record_event-Line sink (capped event) contents h, ask-Agrees tables cal s question w)

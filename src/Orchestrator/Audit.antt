-- ===== src/Orchestrator/Audit.antt =====
-- internal/orchestrator/audit.go: the record of a question, at the end of the audit file.
pub mod Laws
use sroiaaa.Base.{
  ℕ, zero, suc, ◌-◌, Bool, true, false, Option, none, some, List, [], ◌∷◌, ◌++◌, ltb, if◌then◌else◌,
}
use sroiaaa.Base.Text.{Text, codes, byte_len, rune_len}
use sroiaaa.Base.LogFile.{Sink, record_event}
use sroiaaa.Broker.Since.{Calendar}
use sroiaaa.Base.Text.{UnicodeTables}
use sroiaaa.Orchestrator.{Progress}
use sroiaaa.Orchestrator.Ask.{Session, AskOutcome, ask}

abbrev pub max_audit_answer : ℕ
max_audit_answer = 8192

abbrev pub replacements : ℕ → Text
replacements zero = []
replacements (suc n) = 0xFFFD ∷ replacements n

-- `answer[:n]`. A rune that the cut splits is invalid UTF-8, and json.Marshal writes U+FFFD for each of its
-- bytes.
unfoldable pub cut_bytes : ℕ → Text → Text
cut_bytes n [] = []
cut_bytes n (c ∷ s) =
    let rest = cut_bytes (n - rune_len c) s in
    if ltb n (rune_len c) then replacements n else c ∷ rest

abbrev pub ellipsis : Text
ellipsis = 0x2026 ∷ codes " [truncated]"

unfoldable pub cap_answer : Text → Text
cap_answer answer =
    if ltb max_audit_answer (byte_len answer)
    then cut_bytes max_audit_answer answer ++ ellipsis
    else answer

abbrev pub capped : Progress → Progress
capped event = record event { answer = cap_answer event.answer }

unfoldable pub record_question : Sink Progress → Progress → List ℕ → Bool × List ℕ
record_question sink event contents = record_event sink (capped event) contents

-- A failed record is printed on standard error, and the answer is returned all the same.
abbrev pub write_audit : Option (Sink Progress) → Progress → List ℕ → List ℕ
write_audit none event contents = contents
write_audit (some sink) event contents = (record_question sink event contents).1

-- Ask, with the audit that it defers.
unfoldable pub ask_and_audit :
    {W F : Type 0}
    → Session W F
    → UnicodeTables
    → Calendar
    → Option (Sink Progress)
    → Text
    → W
    → List ℕ
    → AskOutcome W F × List ℕ
ask_and_audit s tables cal auditor question w contents =
    let out = ask s tables cal question w in (out, write_audit auditor out.progress contents)

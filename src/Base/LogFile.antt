-- ===== src/Base/LogFile.antt =====
-- The `Record` of internal/agent/audit.go and internal/orchestrator/audit.go: one event, one line at the end
-- of a file. The state is the contents of the file; the time stamp is part of the encoding.
pub mod Laws
use sroiaaa.Base.Tests.{◌==◌}
use sroiaaa.Base.Lists.{length, take}
use mathlib.Core.Bool.{Bool, true, false, not, ◌&&◌}
use mathlib.Core.Option.{Option, none, some}
use mathlib.Core.List.{List, [], ◌∷◌, ◌++◌}
use Prim.Native.Nat.{ℕ}

-- What os.File.Write says: how many bytes it wrote, and whether it failed.
pub record WriteReport : Type 0 where
  pub written : ℕ
  pub failed : Bool

-- The open audit file, and json.Marshal of an event with its time.
pub record Sink (E : Type 0) : Type 0 where
  pub encode : E → Option (List ℕ)
  pub write : (contents line : List ℕ) → WriteReport

module _ {E : Type 0} where
  -- The caller of Record sees whether the whole line was written; a short write stays in the file.
  unfoldable pub write_line : Sink E → List ℕ → List ℕ → Bool × List ℕ
  write_line sink line contents =
      let report = sink.write contents line in
      (not report.failed && report.written == length line, contents ++ take report.written line)

  abbrev pub write_encoded : Sink E → Option (List ℕ) → List ℕ → Bool × List ℕ
  write_encoded sink none contents = (false, contents)
  write_encoded sink (some encoded) contents = write_line sink (encoded ++ 10 ∷ []) contents

  unfoldable pub record_event : Sink E → E → List ℕ → Bool × List ℕ
  record_event sink event contents = write_encoded sink (sink.encode event) contents

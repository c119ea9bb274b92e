-- ===== src/Base/LogFile/Laws.antt =====
-- A record that succeeds is a whole line, and nothing before it changes.
use sroiaaa.Base.Lists.{length, take}
use sroiaaa.Base.LogFile.{Sink, write_line, write_encoded, record_event}
use mathlib.Core.Bool.{true}
use mathlib.Core.Option.{Option, none, some}
use mathlib.Core.List.{List, [], ◌∷◌, ◌++◌}
use mathlib.Core.Path.{◌≡◌, refl, ap, ◌∙◌}
use native.Mathlib.Omega.{arith}
use Prim.Native.Nat.{ℕ, zero, suc, ◌≤◌}

pub take-all : {A : Type 0} (n : ℕ) (xs : List A) → length xs ≤ n → take n xs ≡ xs
take-all zero [] h = refl
take-all zero (x ∷ xs) h = absurd (omega arith)
take-all (suc n) [] h = refl
take-all (suc n) (x ∷ xs) h = ap (λ r. x ∷ r) (take-all n xs (omega arith))

module _ {E : Type 0} where
  -- The whole line of an event stands at the end of the file.
  pub record Line (sink : Sink E) (event : E) (before after : List ℕ) : Type 0 where
    pub line : List ℕ
    pub encoded : sink.encode event ≡ some line
    pub appended : after ≡ before ++ (line ++ 10 ∷ [])

  write_line-true :
      (sink : Sink E) (line contents : List ℕ)
      → (write_line sink line contents).0 ≡ true
      → (write_line sink line contents).1 ≡ contents ++ line
  unfolding write_line
  write_line-true sink line contents h =
      let report = sink.write contents line in
      let whole : report.written ≡ length line = ground arith in
      ap (λ n. contents ++ take n line) whole
      ∙ ap (λ l. contents ++ l) (take-all (length line) line (ground arith))

  pub record_event-Line :
      (sink : Sink E) (event : E) (contents : List ℕ)
      → (record_event sink event contents).0 ≡ true
      → Line sink event contents (record_event sink event contents).1
  unfolding record_event
  record_event-Line sink event contents = go (sink.encode event) refl
    where
      go :
          (o : Option (List ℕ))
          → sink.encode event ≡ o
          → (write_encoded sink o contents).0 ≡ true
          → Line sink event contents (write_encoded sink o contents).1
      go none e k = absurd (cc)
      go (some line) e k = record {
        line = line;
        encoded = e;
        appended = write_line-true sink (line ++ 10 ∷ []) contents k;
      }

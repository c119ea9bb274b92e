-- ===== src/Connector/Rt/Query.antt =====
-- ticketSearchQuery and rtEscape of internal/connector/rt.go: the TicketSQL text that a search sends.
pub mod Literals
use mathlib.Core.List.{map}
use sroiaaa.Base.{ℕ, Bool, true, false, List, [], ◌∷◌, ◌++◌, if◌then◌else◌, ◌==◌}
use sroiaaa.Base.Text.{Text, codes, is_empty, join}

abbrev pub quote : ℕ
quote = 39

abbrev pub backslash : ℕ
backslash = 92

unfoldable pub rt_escape : Text → Text
rt_escape [] = []
rt_escape (c ∷ s) =
    let rest = rt_escape s in if c == quote then backslash ∷ quote ∷ rest else c ∷ rest

-- fmt.Sprintf("<word>'%s'", value).
unfoldable pub comparison : (word value : Text) → Text
comparison word value = word ++ (quote ∷ value ++ quote ∷ [])

abbrev pub active_statuses : Text
active_statuses = codes "(Status = 'new' OR Status = 'open' OR Status = 'stalled')"

abbrev pub queue_parts : List Text → List Text
queue_parts queues = map (λ queue. comparison (codes "Queue = ") (rt_escape queue)) queues

abbrev pub queue_part : List Text → List Text
queue_part [] = []
queue_part (queue ∷ queues) =
    (codes "(" ++ (join (codes " OR ") (queue_parts (queue ∷ queues)) ++ codes ")")) ∷ []

-- `if value != "" { parts = append(parts, …) }`.
abbrev pub optional_part : (word : Text) → (Text → Text) → Text → List Text
optional_part word escape [] = []
optional_part word escape (c ∷ s) = comparison word (escape (c ∷ s)) ∷ []

abbrev pub verbatim : Text → Text
verbatim s = s

unfoldable pub query_parts : (host owner since until : Text) → List Text → List Text
query_parts host owner since until queues =
    active_statuses
    ∷ (queue_part queues
        ++ (optional_part (codes "Subject LIKE ") rt_escape host
            ++ (optional_part (codes "Owner = ") rt_escape owner
                ++ (optional_part (codes "Created > ") verbatim since
                    ++ optional_part (codes "Created < ") verbatim until))))

unfoldable pub ticket_search_query : (host owner since until : Text) → List Text → Text
ticket_search_query host owner since until queues =
    join (codes " AND ") (query_parts host owner since until queues)

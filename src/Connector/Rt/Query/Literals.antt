-- ===== src/Connector/Rt/Query/Literals.antt =====
-- The string literals of a TicketSQL text, and which ones a search query has: a value stays inside its quotes.
use sroiaaa.Base.{
  Bool, true, not, ◌||◌, List, [], ◌∷◌, ◌++◌, ◌≡◌, refl, sym, ap, subst, ◌∙◌, arith, if◌then◌else◌,
  ◌==◌, append_assoc, append-nil, All, all,
}
use sroiaaa.Base.Text.{Text, codes, join}
use sroiaaa.Connector.Rt.Query.{
  quote, backslash, rt_escape, comparison, active_statuses, queue_parts, queue_part, optional_part,
  verbatim, query_parts, ticket_search_query,
}

-- A reader of literals: outside, inside one with what it has so far, or after a backslash inside one. A
-- backslash makes the rune after it part of the literal.
pub data Place : Type 0 where
  outside : Place
  inside : Text → Place
  escaped : Text → Place

unfoldable pub literals_from : Place → Text → List Text
literals_from p [] = []
literals_from outside (c ∷ s) =
    let opened = literals_from (inside []) s in
    let rest = literals_from outside s in if c == quote then opened else rest
literals_from (inside value) (c ∷ s) =
    let closed = literals_from outside s in
    let skipped = literals_from (escaped value) s in
    let longer = literals_from (inside (value ++ c ∷ [])) s in
    if c == quote then value ∷ closed else if c == backslash then skipped else longer
literals_from (escaped value) (c ∷ s) = literals_from (inside (value ++ c ∷ [])) s

unfoldable pub literals : Text → List Text
literals = literals_from outside

-- Has no backslash; has none and no quote.
unfoldable pub is_plain : Text → Bool
is_plain = all (λ c. not (c == backslash))

unfoldable pub is_bare : Text → Bool
is_bare = all (λ c. not (c == backslash || c == quote))

abbrev has_no_quote : Text → Bool
has_no_quote = all (λ c. not (c == quote))

-- What stands between literals is skipped.
skip :
    (s t : Text) → has_no_quote s ≡ true → literals_from outside (s ++ t) ≡ literals_from outside t
unfolding literals_from all
skip [] t h = refl
skip (c ∷ s) t h = ground (arith, skip s t)

-- An escaped value is read back to its closing quote.
read_escaped :
    (value done t : Text)
    → is_plain value ≡ true
    → literals_from (inside done) (rt_escape value ++ quote ∷ t)
      ≡ (done ++ value) ∷ literals_from outside t
unfolding literals_from rt_escape is_plain all
read_escaped [] done t h = ap (λ d. d ∷ literals_from outside t) (sym (append-nil done))
read_escaped (c ∷ value) done t h =
    let rest = read_escaped value (done ++ c ∷ []) t (ground arith) in
    let whole = rest ∙ ap (λ d. d ∷ literals_from outside t) (append_assoc done (c ∷ []) value) in
    ground (arith, whole)

read_bare :
    (value done t : Text)
    → is_bare value ≡ true
    → literals_from (inside done) (value ++ quote ∷ t) ≡ (done ++ value) ∷ literals_from outside t
unfolding literals_from is_bare all
read_bare [] done t h = ap (λ d. d ∷ literals_from outside t) (sym (append-nil done))
read_bare (c ∷ value) done t h =
    let rest = read_bare value (done ++ c ∷ []) t (ground arith) in
    let whole = rest ∙ ap (λ d. d ∷ literals_from outside t) (append_assoc done (c ∷ []) value) in
    ground (arith, whole)

-- A part whose literals are `values`, whatever follows.
abbrev Reads : Text → List Text → Type 0
Reads part values = (t : Text) → literals (part ++ t) ≡ values ++ literals t

no_quote-Reads : (part : Text) → has_no_quote part ≡ true → Reads part []
unfolding literals
no_quote-Reads part h t = skip part t h

append-Reads :
    (p q : Text) (vs ws : List Text) → Reads p vs → Reads q ws → Reads (p ++ q) (vs ++ ws)
append-Reads p q vs ws h k t =
    ap literals (append_assoc p q t)
    ∙ h (q ++ t)
    ∙ ap (λ r. vs ++ r) (k t)
    ∙ sym (append_assoc vs ws (literals t))

comparison-Reads :
    (word value : Text)
    → has_no_quote word ≡ true
    → is_plain value ≡ true
    → Reads (comparison word (rt_escape value)) (value ∷ [])
unfolding comparison literals literals_from
comparison-Reads word value h k = append-Reads word _ [] (value ∷ []) (no_quote-Reads word h) (λ t.
    ap (literals_from (inside [])) (append_assoc (rt_escape value) (quote ∷ []) t)
    ∙ read_escaped value [] t k)

bare-Reads :
    (word value : Text)
    → has_no_quote word ≡ true
    → is_bare value ≡ true
    → Reads (comparison word value) (value ∷ [])
unfolding comparison literals literals_from
bare-Reads word value h k = append-Reads word _ [] (value ∷ []) (no_quote-Reads word h) (λ t.
    ap (literals_from (inside [])) (append_assoc value (quote ∷ []) t) ∙ read_bare value [] t k)

-- The parts of a text, with the literals of all.
data ReadsAll : List Text → List Text → Type 0 where
  none_left : ReadsAll [] []
  next :
      (p : Text) (v : List Text) (ps : List Text) (vs : List Text)
      → Reads p v
      → ReadsAll ps vs
      → ReadsAll (p ∷ ps) (v ++ vs)

join-Reads :
    (sep : Text)
    → has_no_quote sep ≡ true
    → (ps vs : List Text) → ReadsAll ps vs
    → Reads (join sep ps) vs
unfolding join
join-Reads sep h _ _ none_left t = refl
join-Reads sep h _ _ (next p v _ _ r none_left) t =
    r t ∙ ap (λ l. l ++ literals t) (sym (append-nil v))
join-Reads sep h _ _ (next p v _ _ r (next q w qs ws k rest)) t =
    append-Reads p _ v (w ++ ws) r
      (append-Reads sep _ [] (w ++ ws) (no_quote-Reads sep h)
        (join-Reads sep h (q ∷ qs) (w ++ ws) (next q w qs ws k rest)))
      t

append-ReadsAll :
    (ps qs vs ws : List Text) → ReadsAll ps vs → ReadsAll qs ws → ReadsAll (ps ++ qs) (vs ++ ws)
append-ReadsAll _ qs _ ws none_left k = k
append-ReadsAll _ qs _ ws (next p v ps vs r rest) k =
    subst (ReadsAll (p ∷ ps ++ qs)) (sym (append_assoc v vs ws))
      (next p v (ps ++ qs) (vs ++ ws) r (append-ReadsAll ps qs vs ws rest k))

abbrev IsPlain : Text → Type 0
IsPlain s = is_plain s ≡ true

queue_parts-ReadsAll :
    (queues : List Text) → All IsPlain queues → ReadsAll (queue_parts queues) queues
unfolding all
queue_parts-ReadsAll [] h = none_left
queue_parts-ReadsAll (queue ∷ queues) h =
    next _ (queue ∷ []) _ queues (comparison-Reads (codes "Queue = ") queue refl h.0)
      (queue_parts-ReadsAll queues h.1)

queue_part-ReadsAll :
    (queues : List Text) → All IsPlain queues → ReadsAll (queue_part queues) queues
unfolding all
queue_part-ReadsAll [] h = none_left
queue_part-ReadsAll (queue ∷ queues) h =
    let listed =
      join-Reads (codes " OR ") refl _ (queue ∷ queues) (queue_parts-ReadsAll (queue ∷ queues) h) in
    let closed =
      append-Reads _ (codes ")") (queue ∷ queues) [] listed (no_quote-Reads (codes ")") refl) in
    let whole =
      append-Reads (codes "(") _ [] ((queue ∷ queues) ++ []) (no_quote-Reads (codes "(") refl)
        closed in
    subst (ReadsAll (queue_part (queue ∷ queues))) (append-nil _ ∙ append-nil _)
      (next _ ((queue ∷ queues) ++ []) [] [] whole none_left)

-- A value that is given.
abbrev pub given : Text → List Text
given [] = []
given (c ∷ s) = (c ∷ s) ∷ []

optional-escaped :
    (word value : Text)
    → has_no_quote word ≡ true
    → is_plain value ≡ true
    → ReadsAll (optional_part word rt_escape value) (given value)
optional-escaped word [] h k = none_left
optional-escaped word (c ∷ s) h k =
    next _ ((c ∷ s) ∷ []) [] [] (comparison-Reads word (c ∷ s) h k) none_left

optional-verbatim :
    (word value : Text)
    → has_no_quote word ≡ true
    → is_bare value ≡ true
    → ReadsAll (optional_part word verbatim value) (given value)
optional-verbatim word [] h k = none_left
optional-verbatim word (c ∷ s) h k =
    next _ ((c ∷ s) ∷ []) [] [] (bare-Reads word (c ∷ s) h k) none_left

active-Reads : Reads active_statuses (codes "new" ∷ codes "open" ∷ codes "stalled" ∷ [])
unfolding literals literals_from
active-Reads t = refl

-- Where no value has a backslash, and the dates have no quote: the string literals of a search query are the
-- three active statuses, every queue, and the values that are given, each whole and in its place.
pub ticket_search_query-literals :
    (host owner since until : Text) (queues : List Text)
    → is_plain host ≡ true
    → is_plain owner ≡ true
    → is_bare since ≡ true
    → is_bare until ≡ true
    → All IsPlain queues
    → literals (ticket_search_query host owner since until queues)
      ≡ (codes "new" ∷ codes "open" ∷ codes "stalled" ∷ [])
        ++ (queues ++ (given host ++ (given owner ++ (given since ++ given until))))
unfolding ticket_search_query query_parts all literals literals_from
ticket_search_query-literals host owner since until queues h o s u q =
    let dates =
      append-ReadsAll _ _ _ _ (optional-verbatim (codes "Created > ") since refl s)
        (optional-verbatim (codes "Created < ") until refl u) in
    let people =
      append-ReadsAll _ _ _ _ (optional-escaped (codes "Subject LIKE ") host refl h)
        (append-ReadsAll _ _ _ _ (optional-escaped (codes "Owner = ") owner refl o) dates) in
    let parts =
      next active_statuses (codes "new" ∷ codes "open" ∷ codes "stalled" ∷ []) _ _ active-Reads
        (append-ReadsAll _ _ _ _ (queue_part-ReadsAll queues q) people) in
    ap literals (sym (append-nil (ticket_search_query host owner since until queues)))
    ∙ join-Reads (codes " AND ") refl _ _ parts []
    ∙ append-nil _

-- ===== src/Broker/Sql/Laws.antt =====
-- internal/broker/sql.go: what an accepted query is.
use sroiaaa.Base.{
  ℕ, Bool, true, false, not, ◌&&◌, [], ◌∷◌, ◌++◌, ◌≡◌, ◌≢◌, ◌⊎◌, refl, ap, arith, ok, bind-ok,
  refuse_if-ok, refuse_if, All, Bool-cases, inl, inr, ltb, any, ◌≤◌, ◌<◌, ◌||◌,
}
use sroiaaa.Base.Text.{
  Text, UnicodeTables, codes, trim_space, trim_right, keep_right, contains, has_prefix, is_empty,
  is_control, byte_len, to_lower,
}
use sroiaaa.Base.Text.Laws.{trim_space_idem}
use sroiaaa.Broker.Sql.{
  validate_query, is_trailer, is_bad_rune, max_query_len, empty_query, long_query, control_rune,
  not_a_read,
}

-- The planner carries the trimmed query, and that is judged as the request's query was.
pub validate_query-trim_space :
    (tables : UnicodeTables) (q : Text)
    → validate_query tables (trim_space q) ≡ validate_query tables q
unfolding validate_query
validate_query-trim_space tables q = rw (trim_space_idem q)

-- A text without the one-rune text does not hold the rune.
contains-Lacks : (c : ℕ) (s : Text) → contains s (c ∷ []) ≡ false → All (λ d. d ≢ c) s
unfolding contains has_prefix
contains-Lacks c [] h = tt
contains-Lacks c (d ∷ s) h = (ground arith, contains-Lacks c s (ground arith))

-- `r` is `s` without a run of the runes that the trim takes away.
CutAt : (ℕ → Bool) → Text → Text → Type 0
CutAt p s r = (tail : Text) × (s ≡ r ++ tail) × All (λ d. p d ≡ true) tail

keep_right-CutAt :
    (p : ℕ → Bool) (c : ℕ) (s r : Text) → CutAt p s r → CutAt p (c ∷ s) (keep_right p c r)
unfolding CutAt
keep_right-CutAt p c s [] (tail, whole, trimmed) = elim (Bool-cases (p c)) [
  | inl e ↦ (c ∷ tail, rw (e, ← whole) refl, (e, trimmed))
  | inr e ↦ (tail, rw (e, ← whole) refl, trimmed)
]
keep_right-CutAt p c s (d ∷ r) (tail, whole, trimmed) = (tail, ap (λ x. c ∷ x) whole, trimmed)

trim_right-CutAt : (p : ℕ → Bool) (s : Text) → CutAt p s (trim_right p s)
unfolding trim_right
trim_right-CutAt p [] = unfold CutAt in ([], refl, tt)
trim_right-CutAt p (c ∷ s) = keep_right-CutAt p c s (trim_right p s) (trim_right-CutAt p s)

-- A tab, a line feed, a carriage return, or a rune that is no control character: those are 0 to 31 and 127 to
-- 159.
abbrev pub IsPrintable : ℕ → Type 0
IsPrintable r = (r ≡ 9) ⊎ (r ≡ 10) ⊎ (r ≡ 13) ⊎ ((32 ≤ r) × ((r < 127) ⊎ (160 ≤ r)))

is_bad_rune-IsPrintable : (r : ℕ) → is_bad_rune r ≡ false → IsPrintable r
unfolding is_bad_rune is_control
is_bad_rune-IsPrintable r h = ground arith

or_parts : (a b : Bool) → (a || b) ≡ false → (a ≡ false) × (b ≡ false)
or_parts true b h = absurd (cc)
or_parts false b h = (refl, h)

any-IsPrintable : (s : Text) → any is_bad_rune s ≡ false → All IsPrintable s
unfolding any
any-IsPrintable [] h = tt
any-IsPrintable (r ∷ s) h =
    let parts = or_parts (is_bad_rune r) (any is_bad_rune s) h in
    (is_bad_rune-IsPrintable r parts.0, any-IsPrintable s parts.1)

-- A query that reads and is one statement: its semicolons stand at the end, among white space.
pub record IsSingleRead (tables : UnicodeTables) (trimmed : Text) : Type 0 where
  pub nonempty : trimmed ≢ []
  pub short : byte_len trimmed ≤ max_query_len
  -- The control characters that it may hold are tabs and line breaks.
  pub clean : All IsPrintable trimmed
  pub reads :
      (has_prefix (to_lower tables trimmed) (codes "select") ≡ true)
      ⊎ (has_prefix (to_lower tables trimmed) (codes "with") ≡ true)
  pub body : Text
  pub trailer : Text
  pub split : trimmed ≡ body ++ trailer
  pub single : All (λ c. c ≢ b';') body
  pub trailing : All (λ c. is_trailer c ≡ true) trailer

-- An accepted query is, when trimmed, not empty, at most 8192 bytes, and without control characters except tabs
-- and line breaks; it begins with select or with in any case of letters, and holds semicolons only in a run
-- of semicolons and white space at its end.
pub validate_query_sound :
    (tables : UnicodeTables) (q : Text)
    → validate_query tables q ≡ ok tt
    → IsSingleRead tables (trim_space q)
unfolding validate_query CutAt
validate_query_sound tables q h =
    let t = trim_space q in
    let lowered = to_lower tables t in
    let (_, e₁, h₁) = bind-ok (refuse_if (is_empty t) empty_query) _ h in
    let (_, e₂, h₂) = bind-ok (refuse_if (ltb max_query_len (byte_len t)) long_query) _ h₁ in
    let (_, e₃, h₃) = bind-ok (refuse_if (any is_bad_rune t) control_rune) _ h₂ in
    let (_, e₄, h₄) =
      bind-ok
        (refuse_if
          (not (has_prefix lowered (codes "select")) && not (has_prefix lowered (codes "with")))
          not_a_read)
        _ h₃ in
    let (tail, whole, run) = trim_right-CutAt is_trailer t in
    record {
      nonempty = ground (arith, refuse_if-ok _ _ e₁);
      short = ground (arith, refuse_if-ok _ _ e₂);
      clean = any-IsPrintable t (refuse_if-ok _ _ e₃);
      reads = ground (arith, refuse_if-ok _ _ e₄);
      body = trim_right is_trailer t;
      trailer = tail;
      split = whole;
      single = contains-Lacks b';' (trim_right is_trailer t) (refuse_if-ok _ _ h₄);
      trailing = run;
    }

-- ===== src/Broker/Since/Overflow.antt =====
-- internal/broker/since.go: a window of days is a Duration times 24, and int64 wraps around.
use mathlib.Core.List.{reverse, reverse-append, reverse-reverse}
use sroiaaa.Base.{
  ap, ◌++◌, [], ◌∷◌, refl, ℕ, ◌+◌, ◌-◌, ◌*◌, ◌^◌, ◌≤◌, false, some, none, ◌≡◌, arith, ok, ltb,
}
use sroiaaa.Base.Int.{ℤ, pos}
use sroiaaa.Base.Text.{Text, UnicodeTables, codes, is_empty, byte_len, text_eq}
use sroiaaa.Broker.Since.{
  Instant, Calendar, max_since_age, wrap64, times24, word, last_is_d, parse_days, parse_since,
}
use sroiaaa.Broker.Since.Laws.{bound_intro}

-- 2^64 nanoseconds.
abbrev pub cycle : ℕ
cycle = 2 ^ 64

times24_wraps :
    (n : ℕ)
    → cycle ≤ 24 * n
    → 24 * n ≤ cycle + max_since_age
    → times24 (pos n) ≡ pos (24 * n - cycle)
unfolding times24 wrap64
times24_wraps n lo hi = ground arith

module _ (tables : UnicodeTables) (cal : Calendar) where
  last_is_d-append : (amount : Text) → last_is_d (reverse (amount ++ codes "d")) ≡ some amount
  last_is_d-append amount =
      rw (reverse-append amount (codes "d")) (ap some (reverse-reverse amount))

  -- The amount before a "d" is read as one of hours, times 24.
  parse_days-append :
      (amount : Text) (n : ℤ)
      → 2 ≤ byte_len (amount ++ codes "d")
      → cal.parse_duration (amount ++ codes "h") ≡ some n
      → parse_days tables cal (amount ++ codes "d") ≡ some (times24 n)
  unfolding parse_days
  parse_days-append amount n long hours =
      let enough : ltb (byte_len (amount ++ codes "d")) 2 ≡ false = ground (arith, long) in
      rw (enough, last_is_d-append amount, hours) refl

  is_empty-append : (amount : Text) → is_empty (amount ++ codes "d") ≡ false
  is_empty-append [] = refl
  is_empty-append (c ∷ amount) = refl

  -- A window of days, an amount with a d behind it, whose amount is n nanoseconds when it is read as one of
  -- hours: where 24 times n is longer than the 2^64 nanoseconds of an int64 by at most 400 days, it is
  -- not refused as too far back, but accepted as the little that is left of it. The text has 2 to 64
  -- bytes and is neither a date nor one of the two words that are tried before.
  pub parse_since_wraps :
      (amount : Text) (now : Instant) (n : ℕ)
      → 2 ≤ byte_len (amount ++ codes "d")
      → byte_len (amount ++ codes "d") ≤ 64
      → text_eq (word tables cal (amount ++ codes "d")) (codes "today") ≡ false
      → text_eq (word tables cal (amount ++ codes "d")) (codes "yesterday") ≡ false
      → cal.parse_rfc3339 (amount ++ codes "d") ≡ none
      → cal.parse_day (amount ++ codes "d") ≡ none
      → cal.parse_duration (amount ++ codes "h") ≡ some (pos n)
      → cycle ≤ 24 * n
      → 24 * n ≤ cycle + max_since_age
      → max_since_age ≤ now
      → parse_since tables cal (amount ++ codes "d") now ≡ ok (now - (24 * n - cycle))
  unfolding parse_since
  parse_since_wraps amount now n long short t y r d hours lo hi late =
      let e = is_empty-append amount in
      let s : ltb 64 (byte_len (amount ++ codes "d")) ≡ false = ground (arith, short) in
      let days = parse_days-append amount (pos n) long hours in
      rw (e, s, t, y, r, d, days, times24_wraps n lo hi)
        (bound_intro now (now - (24 * n - cycle)) (omega arith, omega arith))

-- ===== src/Broker/Since.antt =====
-- internal/broker/since.go: the bounds of a time window.
-- An instant is a number of nanoseconds, counted from one day before 1 January of the year 0, so
-- that every date with a four-digit year has one in every zone; `zero_time` is the instant of Go's
-- zero `time.Time`, 1 January of the year 1. What package time does with calendars, zones and
-- layouts is the interface `Calendar`, taken in the location of the caller's clock.
pub mod Laws
pub mod Format
pub mod Overflow
use mathlib.Core.List.{reverse}
use sroiaaa.Base.{
  ℕ, suc, ◌+◌, ◌-◌, ◌*◌, ◌%◌, ◌^◌, Bool, not, ◌||◌, Option, none, some, List, [], ◌∷◌, ◌++◌,
  if◌then◌else◌, ltb, ◌==◌, Result, ok, err, ◌>>=◌, ◌>>◌, refuse_if,
}
use sroiaaa.Base.Int.{ℤ, pos, negsuc, is_neg, eq_nat}
use sroiaaa.Base.Text.{
  Text, codes, UnicodeTables, to_lower, byte_len, is_empty, text_eq, trim_space,
}

abbrev pub Instant : Type 0
Instant = ℕ

abbrev pub second : ℕ
second = 1_000_000_000

abbrev pub minute : ℕ
minute = 60 * second

abbrev pub hour : ℕ
hour = 60 * minute

abbrev pub zero_time : Instant
zero_time = 367 * (24 * hour)

abbrev pub max_since_age : ℕ
max_since_age = 400 * (24 * hour)

pub record Calendar : Type 0 where
  -- time.Parse(time.RFC3339, s) and its inverse t.Format(time.RFC3339), in UTC.
  pub parse_rfc3339 : Text → Option Instant
  pub format_rfc3339 : Instant → Text
  -- time.ParseInLocation("2006-01-02", s, location).
  pub parse_day : Text → Option Instant
  -- time.ParseDuration, in nanoseconds.
  pub parse_duration : Text → Option ℤ
  -- The midnight that begins an instant's day, and `AddDate(0, 0, ±1)`.
  pub midnight : Instant → Instant
  pub next_day : Instant → Instant
  pub previous_day : Instant → Instant

-- Which check of a time bound failed.
pub data SinceFault : Type 0 where
  too_long in_the_future too_far_back not_a_window unrecognised : SinceFault

-- The value of an int64 that arithmetic has wrapped around.
unfoldable pub wrap64 : ℤ → ℤ
wrap64 (pos n) = let m = n % 2 ^ 64 in if ltb m (2 ^ 63) then pos m else negsuc (2 ^ 64 - m - 1)
wrap64 (negsuc n) = let m = n % 2 ^ 64 in if ltb m (2 ^ 63) then negsuc m else pos (2 ^ 64 - m - 1)

-- `days * 24` on a Duration.
unfoldable pub times24 : ℤ → ℤ
unfolding wrap64
times24 (pos n) = wrap64 (pos (24 * n))
times24 (negsuc n) = wrap64 (negsuc (24 * n + 23))

-- `now.Add(-window)`. The negation wraps at the smallest Duration, -2^63, which it leaves as it is.
unfoldable pub before : Instant → ℤ → Instant
before now (pos n) = now - n
before now (negsuc n) = if n == 2 ^ 63 - 1 then now - 2 ^ 63 else now + suc n

unfoldable pub bound : Instant → Instant → Result SinceFault Instant
bound moment now = do
  refuse_if (ltb (now + minute) moment) in_the_future
  refuse_if (ltb max_since_age (now - moment)) too_far_back
  ok moment

abbrev pub last_is_d : List ℕ → Option Text
last_is_d [] = none
last_is_d (c ∷ rest) = if c == b'd' then some (reverse rest) else none

module _ (tables : UnicodeTables) (cal : Calendar) where
  open cal use {
    parse_rfc3339, format_rfc3339, parse_day, parse_duration, midnight, next_day, previous_day,
  }

  abbrev pub scale : Option ℤ → Option ℤ
  scale none = none
  scale (some hours) = some (times24 hours)

  abbrev pub as_hours : Option Text → Option ℤ
  as_hours none = none
  as_hours (some amount) = scale (parse_duration (amount ++ codes "h"))

  -- The "7d" form, which ParseDuration does not read.
  unfoldable pub parse_days : Text → Option ℤ
  unfolding times24
  parse_days value = if ltb (byte_len value) 2 then none else as_hours (last_is_d (reverse value))

  abbrev pub word : Text → Text
  word value = to_lower tables (trim_space value)

  -- The forms in their order: a layout that reads the text decides.
  abbrev pub by_window : Option ℤ → Instant → Result SinceFault Instant
  by_window none now = err unrecognised
  by_window (some window) now =
      if is_neg window || eq_nat window 0 then err not_a_window else bound (before now window) now

  abbrev pub by_days : Option ℤ → Text → Instant → Result SinceFault Instant
  by_days none value now = by_window (parse_duration value) now
  by_days (some days) value now = bound (before now days) now

  abbrev pub by_day : Option Instant → Text → Instant → Result SinceFault Instant
  by_day none value now = by_days (parse_days value) value now
  by_day (some day) value now = bound day now

  abbrev pub by_moment : Option Instant → Text → Instant → Result SinceFault Instant
  by_moment none value now = by_day (parse_day value) value now
  by_moment (some moment) value now = bound moment now

  unfoldable pub parse_since : Text → Instant → Result SinceFault Instant
  unfolding bound before
  parse_since value now =
      if is_empty value
      then ok zero_time
      else if ltb 64 (byte_len value)
      then err too_long
      else if text_eq (word value) (codes "today")
      then bound (midnight now) now
      else if text_eq (word value) (codes "yesterday")
      then bound (previous_day (midnight now)) now
      else by_moment (parse_rfc3339 value) value now

  abbrev pub until_by_word : Text → Instant → Result SinceFault Instant
  until_by_word value ref =
      if text_eq (word value) (codes "today")
      then ok (next_day (midnight ref))
      else if text_eq (word value) (codes "yesterday")
      then ok (midnight ref)
      else parse_since value ref

  abbrev pub until_by_day : Option Instant → Text → Instant → Result SinceFault Instant
  until_by_day none value ref = until_by_word value ref
  until_by_day (some day) value ref = ok (next_day day)

  unfoldable pub parse_until : Text → Instant → Result SinceFault Instant
  unfolding parse_since
  parse_until value ref =
      if is_empty value then ok zero_time else until_by_day (parse_day value) value ref

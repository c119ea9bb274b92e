-- ===== src/Broker/Since/Format.antt =====
-- internal/broker/since.go: a bound that a step carries, read back.
use sroiaaa.Base.{
  ◌+◌, ◌*◌, ◌/◌, ◌≤◌, ◌<◌, false, some, none, [], ◌≡◌, ◌≢◌, ◌⊎◌, inl, inr, refl, ◌∙◌, arith, ok,
  err, ltb, ◌==◌, if◌then◌else◌, Bool-cases,
}
use sroiaaa.Base.Text.{Text, UnicodeTables, codes, is_empty, byte_len, text_eq}
use sroiaaa.Broker.Since.{
  Instant, Calendar, in_the_future, second, hour, minute, zero_time, bound, word, parse_since,
  parse_until,
}
use sroiaaa.Broker.Since.Laws.{InReach, bound_intro, bound_future}

-- 1 January of the year 0, and of the year 10000: between them a year has four digits.
abbrev pub year_0 : Instant
year_0 = 24 * hour

abbrev pub year_10000 : Instant
year_10000 = 3652426 * (24 * hour)

-- An instant without its fraction of a second, which RFC 3339 does not write.
abbrev pub whole : Instant → Instant
whole t = t / second * second

-- What package time documents of the layout RFC 3339, over the four-digit years.
pub record Rfc3339 (tables : UnicodeTables) (cal : Calendar) : Type 0 where
  pub reads :
      (t : Instant)
      → year_0 ≤ t
      → t < year_10000
      → cal.parse_rfc3339 (cal.format_rfc3339 t) ≡ some (whole t)
  pub fraction : (t : Instant) → cal.format_rfc3339 (whole t) ≡ cal.format_rfc3339 t
  -- The layout is no date alone, holds more than nothing and less than 64 bytes, and is no word.
  pub no_day : (t : Instant) → cal.parse_day (cal.format_rfc3339 t) ≡ none
  pub written : (t : Instant) → is_empty (cal.format_rfc3339 t) ≡ false
  pub short : (t : Instant) → ltb 64 (byte_len (cal.format_rfc3339 t)) ≡ false
  pub not_today :
      (t : Instant) → text_eq (word tables cal (cal.format_rfc3339 t)) (codes "today") ≡ false
  pub not_yesterday :
      (t : Instant) → text_eq (word tables cal (cal.format_rfc3339 t)) (codes "yesterday") ≡ false

-- A bound that reads back at `now`: there is none, or it is in reach.
abbrev pub Kept : Instant → Instant → Type 0
Kept now t =
    (t ≡ zero_time)
    ⊎ ((year_0 ≤ t) × (t < year_10000) × (whole t ≢ zero_time) × InReach now (whole t))

-- The instant that the text of a bound stands for.
abbrev pub settle : Instant → Instant
settle t = if t == zero_time then zero_time else whole t

-- A bound as Plan writes it into a step.
abbrev pub write_bound : Calendar → Instant → Text
write_bound cal t = if t == zero_time then [] else cal.format_rfc3339 t

module _ {tables : UnicodeTables} {cal : Calendar} (laws : Rfc3339 tables cal) where
  since-format :
      (t now : Instant)
      → year_0 ≤ t
      → t < year_10000
      → parse_since tables cal (cal.format_rfc3339 t) now ≡ bound (whole t) now
  unfolding parse_since
  since-format t now lo hi =
      rw (laws.written t, laws.short t, laws.not_today t, laws.not_yesterday t, laws.reads t lo hi)
        refl

  until-format :
      (t now : Instant)
      → year_0 ≤ t
      → t < year_10000
      → parse_until tables cal (cal.format_rfc3339 t) now ≡ bound (whole t) now
  unfolding parse_until
  until-format t now lo hi =
      rw
        (
          laws.written t,
          laws.no_day t,
          laws.not_today t,
          laws.not_yesterday t,
          laws.short t,
          laws.reads t lo hi,
          laws.written t,
        )
        refl

  near :
      (t now : Instant)
      → t == zero_time ≡ false
      → Kept now t
      → (year_0 ≤ t) × (t < year_10000) × InReach now (whole t)
  near t now e (inl z) = absurd (ground arith)
  near t now e (inr (lo, hi, _, k)) = (lo, hi, k)

  pub since-Kept :
      (t now : Instant)
      → Kept now t
      → parse_since tables cal (write_bound cal t) now ≡ ok (settle t)
  since-Kept t now k = elim (Bool-cases (t == zero_time)) [
    | inl e ↦ rw e (unfold parse_since in refl)
    | inr e ↦
        let (lo, hi, reach) = near t now e k in
        rw e (since-format t now lo hi ∙ bound_intro now (whole t) reach)
  ]

  pub until-Kept :
      (t now : Instant)
      → Kept now t
      → parse_until tables cal (write_bound cal t) now ≡ ok (settle t)
  until-Kept t now k = elim (Bool-cases (t == zero_time)) [
    | inl e ↦ rw e (unfold parse_until in refl)
    | inr e ↦
        let (lo, hi, reach) = near t now e k in
        rw e (until-format t now lo hi ∙ bound_intro now (whole t) reach)
  ]

  -- Writing the instant that was read gives the text again.
  pub write_bound-settle :
      (t now : Instant) → Kept now t → write_bound cal (settle t) ≡ write_bound cal t
  write_bound-settle t now k = elim (Bool-cases (t == zero_time)) [
    | inl e ↦ rw e refl
    | inr e ↦ rw (e, whole_nonzero e k) (laws.fraction t)
  ]
    where
      whole_nonzero : t == zero_time ≡ false → Kept now t → whole t == zero_time ≡ false
      whole_nonzero e (inl z) = absurd (ground arith)
      whole_nonzero e (inr (_, _, n, _)) = ground arith

  -- An upper bound that lies more than a minute ahead is refused when it is read back.
  pub until-ahead :
      (t now : Instant)
      → year_0 ≤ t
      → t < year_10000
      → t ≢ zero_time
      → now + minute < whole t
      → parse_until tables cal (write_bound cal t) now ≡ err in_the_future
  until-ahead t now lo hi nz far = elim (Bool-cases (t == zero_time)) [
    | inl e ↦ absurd (nz (ground arith))
    | inr e ↦ rw e (until-format t now lo hi ∙ bound_future (whole t) now far)
  ]

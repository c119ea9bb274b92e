-- ===== src/Broker/Since/Laws.antt =====
-- internal/broker/since.go: what a time bound can be.
use sroiaaa.Base.{
  ◌+◌, ◌≤◌, ◌<◌, Option, none, some, [], ◌∷◌, ◌≡◌, ◌≢◌, inl, inr, refl, arith, ok, err, Bool-cases,
  ltb, ◌==◌,
}
use sroiaaa.Base.Int.{ℤ, pos, negsuc}
use sroiaaa.Base.Text.{Text, UnicodeTables, codes, byte_len, text_eq}
use sroiaaa.Broker.Since.{
  Instant, Calendar, in_the_future, minute, max_since_age, bound, parse_since, word, by_window,
  by_days, by_day, by_moment, parse_days, before,
}

-- A bound that is kept is at most a minute ahead of the clock and at most 400 days behind it.
abbrev pub InReach : Instant → Instant → Type 0
InReach now t = (t ≤ now + minute) × (now ≤ t + max_since_age)

bound-InReach : (m now t : Instant) → bound m now ≡ ok t → (t ≡ m) × InReach now t
unfolding bound
bound-InReach m now t h = ground arith

pub bound_intro : (now t : Instant) → InReach now t → bound t now ≡ ok t
unfolding bound
bound_intro now t h = ground arith

pub bound_future : (m now : Instant) → now + minute < m → bound m now ≡ err in_the_future
unfolding bound
bound_future m now h = ground arith

module _ (tables : UnicodeTables) (cal : Calendar) where
  by_window-InReach :
      (d : Option ℤ) (now t : Instant) → by_window tables cal d now ≡ ok t → InReach now t
  by_window-InReach none now t h = absurd (cc)
  by_window-InReach (some (pos n)) now t h = elim (Bool-cases (n == 0)) [
    | inl e ↦ absurd (ground arith)
    | inr e ↦ (bound-InReach (before now (pos n)) now t (rw e at h)).1
  ]
  by_window-InReach (some (negsuc n)) now t h = absurd (cc)

  by_days-InReach :
      (d : Option ℤ) (value : Text) (now t : Instant)
      → by_days tables cal d value now ≡ ok t
      → InReach now t
  by_days-InReach none value now t h = by_window-InReach (cal.parse_duration value) now t h
  by_days-InReach (some d) value now t h = (bound-InReach (before now d) now t h).1

  by_day-InReach :
      (d : Option Instant) (value : Text) (now t : Instant)
      → by_day tables cal d value now ≡ ok t
      → InReach now t
  by_day-InReach none value now t h = by_days-InReach (parse_days tables cal value) value now t h
  by_day-InReach (some d) value now t h = (bound-InReach d now t h).1

  by_moment-InReach :
      (d : Option Instant) (value : Text) (now t : Instant)
      → by_moment tables cal d value now ≡ ok t
      → InReach now t
  by_moment-InReach none value now t h = by_day-InReach (cal.parse_day value) value now t h
  by_moment-InReach (some d) value now t h = (bound-InReach d now t h).1

  -- Whatever form it is written in, an accepted lower bound lies in reach of the clock.
  pub parse_since-InReach :
      (value : Text) (now t : Instant)
      → value ≢ []
      → parse_since tables cal value now ≡ ok t
      → InReach now t
  unfolding parse_since
  parse_since-InReach [] now t e h = absurd (e refl)
  parse_since-InReach (c ∷ s) now t e h = elim (Bool-cases (ltb 64 (byte_len (c ∷ s)))) [
    | inl long ↦ absurd (ground arith)
    | inr short ↦ elim (Bool-cases (text_eq (word tables cal (c ∷ s)) (codes "today"))) [
      | inl today ↦ (bound-InReach (cal.midnight now) now t (ground arith)).1
      | inr other ↦ elim (Bool-cases (text_eq (word tables cal (c ∷ s)) (codes "yesterday"))) [
        | inl yesterday ↦
            (bound-InReach (cal.previous_day (cal.midnight now)) now t (ground arith)).1
        | inr written ↦
            by_moment-InReach (cal.parse_rfc3339 (c ∷ s)) (c ∷ s) now t
              (rw (short, other, written) at h)
      ]
    ]
  ]

-- ===== src/Time/Periods.antt =====
-- entitlements/periods.py: quota windows. `now` is always given, and in UTC.
use chatfolio_backend.Prelude.{
  ℕ, ◌+◌, ◌-◌, ◌*◌, ◌/◌, ◌≤◌, ◌<◌, ◌≡◌, ◌≢◌, ◌⊎◌, inl, inr, Bool, ◌&&◌, true, false, arith, ◌==◌,
  Option, none, some, refl,
}
use chatfolio_backend.Time.Calendar.{
  DateTime, IsValid, day_micros, next_day, next_month, ordinal, instant,
}
use chatfolio_backend.Time.Order.{ordinal-next_day, ordinal-next_month}

pub data QuotaPeriod : Type 0 where
  lifetime monthly daily : QuotaPeriod

-- The strings "2026-10", "2026-10-16" and "lifetime", by their parts.
pub data PeriodKey : Type 0 where
  month_key : ℕ → ℕ → PeriodKey
  day_key : ℕ → ℕ → ℕ → PeriodKey
  lifetime_key : PeriodKey

unfoldable pub period_key : QuotaPeriod → DateTime → PeriodKey
period_key QuotaPeriod.monthly now = month_key now.year now.month
period_key QuotaPeriod.daily now = day_key now.year now.month now.day
period_key QuotaPeriod.lifetime now = lifetime_key

-- Equality of the strings.
unfoldable pub eq_key : PeriodKey → PeriodKey → Bool
eq_key (month_key y m) (month_key y' m') = (y == y') && (m == m')
eq_key (day_key y m d) (day_key y' m' d') = (y == y') && (m == m') && (d == d')
eq_key lifetime_key lifetime_key = true
eq_key _ _ = false

pub eq_key→eq : (a b : PeriodKey) → eq_key a b ≡ true → a ≡ b
unfolding eq_key
eq_key→eq (month_key y m) (month_key y' m') h = ground arith
eq_key→eq (day_key y m d) (day_key y' m' d') h = ground arith
eq_key→eq lifetime_key lifetime_key h = refl
eq_key→eq (month_key y m) (day_key y' m' d') h = cc
eq_key→eq (month_key y m) lifetime_key h = cc
eq_key→eq (day_key y m d) (month_key y' m') h = cc
eq_key→eq (day_key y m d) lifetime_key h = cc
eq_key→eq lifetime_key (month_key y m) h = cc
eq_key→eq lifetime_key (day_key y m d) h = cc

pub eq_key_refl : (a : PeriodKey) → eq_key a a ≡ true
unfolding eq_key
eq_key_refl (month_key y m) = ground arith
eq_key_refl (day_key y m d) = ground arith
eq_key_refl lifetime_key = refl

-- `_GRACE`
abbrev pub grace_micros : ℕ
grace_micros = 3 * day_micros

-- The first moment after the window: midnight, or the first of the next month. `replace` of the
-- day happens at once with the month, so the day is always in range.
unfoldable pub period_end : QuotaPeriod → DateTime → Option DateTime
period_end QuotaPeriod.lifetime now = none
period_end QuotaPeriod.daily now = some (record (next_day now) { micros = 0 })
period_end QuotaPeriod.monthly now = some (next_month now)

-- `int(total_seconds())` of a span that is not negative.
unfoldable pub seconds_until_period_end : QuotaPeriod → DateTime → Option ℕ
unfolding period_end
seconds_until_period_end period now = elim (period_end period now) [
  | none ↦ none
  | some end ↦ some ((instant end - instant now + grace_micros) / 1000000)
]

unfoldable pub period_start : QuotaPeriod → DateTime → Option DateTime
period_start QuotaPeriod.lifetime now = none
period_start QuotaPeriod.daily now = some (record now { micros = 0 })
period_start QuotaPeriod.monthly now = some (record now { day = 1; micros = 0 })

ordinal-micros : (d : DateTime) (m : ℕ) → ordinal (record d { micros = m }) ≡ ordinal d
unfolding ordinal
ordinal-micros d m = refl

next_month_micros : (d : DateTime) → (next_month d).micros ≡ 0
unfolding next_month
next_month_micros d = ground arith

after_grace :
    (a b : ℕ) → a < b → b + grace_micros < a + ((b - a + grace_micros) / 1000000 + 1) * 1000000
after_grace a b h = omega arith

grace_le : (a b : ℕ) → 259200 ≤ (b - a + grace_micros) / 1000000
grace_le a b = omega arith

-- From a valid date, a counter of a window that ends lives until that end and the three days of
-- grace, to the second, and at least three days; only lifetime windows have no end.
pub seconds_until_period_end_lem :
    (p : QuotaPeriod) (now : DateTime)
    → IsValid now
    → ((p ≡ QuotaPeriod.lifetime) × (seconds_until_period_end p now ≡ none))
      ⊎ ((p ≢ QuotaPeriod.lifetime)
          × ((end : DateTime) × (s : ℕ) × (period_end p now ≡ some end)
              × (seconds_until_period_end p now ≡ some s)
              × (instant now < instant end)
              × (instant end + grace_micros < instant now + (s + 1) * 1000000)
              × (259200 ≤ s)))
unfolding seconds_until_period_end
seconds_until_period_end_lem QuotaPeriod.lifetime now v = inl (refl, refl)
seconds_until_period_end_lem QuotaPeriod.daily now v =
    inr (λ e. cc, (_, _, refl, refl, after, after_grace _ _ after, grace_le _ _))
  where
    after : instant now < instant (record (next_day now) { micros = 0 })
    after =
        unfold instant in
        omega (arith, v.micros_lt, ordinal-next_day v, ordinal-micros (next_day now) 0)
seconds_until_period_end_lem QuotaPeriod.monthly now v =
    inr (λ e. cc, (_, _, refl, refl, after, after_grace _ _ after, grace_le _ _))
  where
    after : instant now < instant (next_month now)
    after =
        unfold instant in
        omega (arith, v.micros_lt, v.day_le, ordinal-next_month v, next_month_micros now)

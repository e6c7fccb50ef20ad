-- ===== src/Time/Calendar.antt =====
-- Python's `datetime` in UTC, as far as the program uses it: a civil date with the time of day in
-- microseconds.
use chatfolio_backend.Prelude.{
  ℕ, zero, suc, ◌+◌, ◌-◌, ◌*◌, ◌/◌, ◌%◌, ◌≤◌, ◌<◌, Bool, ◌&&◌, ◌||◌, not, ltb, ◌==◌, if◌then◌else◌,
}

pub record DateTime : Type 0 where
  pub year : ℕ
  pub month : ℕ
  pub day : ℕ
  pub micros : ℕ

abbrev pub day_micros : ℕ
day_micros = 86400000000

unfoldable pub is_leap : ℕ → Bool
is_leap y = (y % 4 == 0) && (not (y % 100 == 0) || (y % 400 == 0))

-- `calendar.monthrange(year, month)[1]`
unfoldable pub days_in_month : ℕ → ℕ → ℕ
days_in_month y m =
    if m == 2
    then if is_leap y then 29 else 28
    else if (m == 4) || (m == 6) || (m == 9) || (m == 11)
    then 30
    else 31

pub record IsValid (d : DateTime) : Type 0 where
  pub year_pos : 1 ≤ d.year
  pub month_pos : 1 ≤ d.month
  pub month_le : d.month ≤ 12
  pub day_pos : 1 ≤ d.day
  pub day_le : d.day ≤ days_in_month d.year d.month
  pub micros_lt : d.micros < day_micros

-- How `datetime` values compare: year, month, day and time of day, in this order.
unfoldable pub moment : DateTime → ℕ
moment d = ((d.year * 256 + d.month) * 256 + d.day) * 1099511627776 + d.micros

unfoldable pub next_day : DateTime → DateTime
next_day d =
    if ltb d.day (days_in_month d.year d.month)
    then record d { day = d.day + 1 }
    else if ltb d.month 12
    then record d { month = d.month + 1; day = 1 }
    else record d { year = d.year + 1; month = 1; day = 1 }

-- Midnight on the first of the month after.
unfoldable pub next_month : DateTime → DateTime
next_month d =
    if d.month == 12
    then record { year = d.year + 1; month = 1; day = 1; micros = 0 }
    else record { year = d.year; month = d.month + 1; day = 1; micros = 0 }

-- `d + timedelta(days=n)`
unfoldable pub add_days : ℕ → DateTime → DateTime
add_days zero d = d
add_days (suc n) d = add_days n (next_day d)

-- `d + timedelta(microseconds=n)`
unfoldable pub add_micros : ℕ → DateTime → DateTime
add_micros n d =
    add_days ((d.micros + n) / day_micros) (record d { micros = (d.micros + n) % day_micros })

-- `datetime.toordinal`: days since 1 January of year 1, which is day 1.
unfoldable pub days_before_year : ℕ → ℕ
days_before_year zero = 0
days_before_year (suc y) = y * 365 + y / 4 + y / 400 - y / 100

unfoldable pub days_before_month : ℕ → ℕ → ℕ
days_before_month y zero = 0
days_before_month y (suc zero) = 0
days_before_month y (suc (suc m)) = days_before_month y (suc m) + days_in_month y (suc m)

unfoldable pub ordinal : DateTime → ℕ
ordinal d = days_before_year d.year + days_before_month d.year d.month + d.day

-- The microseconds since the ordinal 0; differences of `datetime` values are differences of these.
unfoldable pub instant : DateTime → ℕ
instant d = ordinal d * day_micros + d.micros

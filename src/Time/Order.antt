-- ===== src/Time/Order.antt =====
-- Adding days keeps a date valid, moves it forward, and adds to its ordinal.
use chatfolio_backend.Prelude.{
  ℕ, zero, suc, ◌+◌, ◌*◌, ◌/◌, ◌%◌, ◌≤◌, ◌≡◌, refl, arith, if◌then◌else◌,
}
use chatfolio_backend.Time.Calendar.{
  DateTime, IsValid, day_micros, is_leap, days_in_month, moment, next_day, next_month, add_days,
  add_micros, days_before_year, days_before_month, ordinal, instant,
}

pub days_in_month_bounds : (y m : ℕ) → (28 ≤ days_in_month y m) × (days_in_month y m ≤ 31)
unfolding days_in_month
days_in_month_bounds y m = ground arith

pub next_day-IsValid : {d : DateTime} → IsValid d → IsValid (next_day d)
unfolding next_day
next_day-IsValid {d} v = ground (
  arith,
  days_in_month_bounds d.year d.month,
  days_in_month_bounds d.year (d.month + 1),
  days_in_month_bounds (d.year + 1) 1,
)

-- What one day adds to `moment` at least.
abbrev pub day_step : ℕ
day_step = 1099511627776

pub moment-next_day : {d : DateTime} → IsValid d → moment d + day_step ≤ moment (next_day d)
unfolding next_day moment
moment-next_day {d} v = ground (arith, days_in_month_bounds d.year d.month)

pub add_days-IsValid : (n : ℕ) (d : DateTime) → IsValid d → IsValid (add_days n d)
unfolding add_days
add_days-IsValid zero d v = v
add_days-IsValid (suc n) d v = add_days-IsValid n (next_day d) (next_day-IsValid v)

pub moment-add_days :
    (n : ℕ) (d : DateTime) → IsValid d → moment d + n * day_step ≤ moment (add_days n d)
unfolding add_days
moment-add_days zero d v = omega arith
moment-add_days (suc n) d v =
    omega (arith, moment-next_day v, moment-add_days n (next_day d) (next_day-IsValid v))

days_before_year-suc :
    (y : ℕ)
    → 1 ≤ y
    → days_before_year (y + 1) ≡ days_before_year y + (if is_leap y then 366 else 365)
unfolding days_before_year is_leap
days_before_year-suc zero h = absurd (omega arith)
days_before_year-suc (suc y) h = ground arith

days_before_month-suc :
    (y m : ℕ) → 1 ≤ m → days_before_month y (m + 1) ≡ days_before_month y m + days_in_month y m
unfolding days_before_month
days_before_month-suc y zero h = absurd (omega arith)
days_before_month-suc y (suc m) h = ground arith

days_before_december : (y : ℕ) → days_before_month y 12 + 31 ≡ (if is_leap y then 366 else 365)
unfolding days_before_month days_in_month
days_before_december y = ground arith

days_in_december : (y : ℕ) → days_in_month y 12 ≡ 31
unfolding days_in_month
days_in_december y = refl

days_before_january : (y : ℕ) → days_before_month y 1 ≡ 0
unfolding days_before_month
days_before_january y = refl

-- The next day is the one with the next ordinal.
pub ordinal-next_day : {d : DateTime} → IsValid d → ordinal (next_day d) ≡ ordinal d + 1
unfolding next_day ordinal
ordinal-next_day {d} v = ground (
  arith,
  days_before_year-suc d.year,
  days_before_month-suc d.year d.month,
  days_before_december d.year,
  days_in_december d.year,
  days_before_january (d.year + 1),
)

pub ordinal-add_days : (n : ℕ) (d : DateTime) → IsValid d → ordinal (add_days n d) ≡ ordinal d + n
unfolding add_days
ordinal-add_days zero d v = omega arith
ordinal-add_days (suc n) d v =
    omega (arith, ordinal-next_day v, ordinal-add_days n (next_day d) (next_day-IsValid v))

micros-add_days : (n : ℕ) (d : DateTime) → (add_days n d).micros ≡ d.micros
unfolding add_days next_day
micros-add_days zero d = refl
micros-add_days (suc n) d = ground (arith, micros-add_days n (next_day d))

micros-IsValid : {d : DateTime} (m : ℕ) → IsValid d → IsValid (record d { micros = m % day_micros })
micros-IsValid {d} m v = record {
  year_pos = v.year_pos;
  month_pos = v.month_pos;
  month_le = v.month_le;
  day_pos = v.day_pos;
  day_le = v.day_le;
  micros_lt = omega arith;
}

ordinal-micros : (d : DateTime) (m : ℕ) → ordinal (record d { micros = m }) ≡ ordinal d
unfolding ordinal
ordinal-micros d m = refl

moment-micros : (d : DateTime) (m : ℕ) → moment (record d { micros = m }) + d.micros ≡ moment d + m
unfolding moment
moment-micros d m = omega arith

-- `timedelta` arithmetic is exact: the instant moves by the microseconds that are added.
pub instant-add_micros :
    (n : ℕ) (d : DateTime) → IsValid d → instant (add_micros n d) ≡ instant d + n
unfolding add_micros instant
instant-add_micros n d v =
    let k = (d.micros + n) / day_micros in
    let e : DateTime = record d { micros = (d.micros + n) % day_micros } in
    omega (
      arith,
      ordinal-add_days k e (micros-IsValid (d.micros + n) v),
      micros-add_days k e,
      ordinal-micros d ((d.micros + n) % day_micros),
    )

pub moment-add_micros : (n : ℕ) (d : DateTime) → IsValid d → moment d + n ≤ moment (add_micros n d)
unfolding add_micros
moment-add_micros n d v =
    let k = (d.micros + n) / day_micros in
    let e : DateTime = record d { micros = (d.micros + n) % day_micros } in
    omega (
      arith,
      moment-add_days k e (micros-IsValid (d.micros + n) v),
      moment-micros d ((d.micros + n) % day_micros),
    )

-- The first of the next month comes after every day of this one, by the days that are left.
pub ordinal-next_month :
    {d : DateTime}
    → IsValid d
    → let e = next_month d in ordinal e + d.day ≡ ordinal d + days_in_month d.year d.month + 1
unfolding ordinal next_month
ordinal-next_month {d} v = ground (
  arith,
  days_before_year-suc d.year,
  days_before_month-suc d.year d.month,
  days_before_december d.year,
  days_in_december d.year,
  days_before_january (d.year + 1),
)

-- ===== src/Time/Duration.antt =====
-- entitlements/duration.py: when a purchased term ends.
use chatfolio_backend.Prelude.{
  ℕ, ◌+◌, ◌-◌, ◌*◌, ◌/◌, ◌%◌, ◌≤◌, ◌<◌, ◌≡◌, ◌≢◌, arith, Option, none, some, ◌⊎◌, inl, inr, refl,
}
use chatfolio_backend.Time.Order.{days_in_month_bounds, add_days-IsValid, moment-add_days}
use Prim.Native.Nat.{min}
use chatfolio_backend.Time.Calendar.{DateTime, IsValid, days_in_month, moment, add_days}

pub data DurationUnit : Type 0 where
  day month year lifetime : DurationUnit

-- Calendar-month arithmetic that clamps the day.
unfoldable pub add_months : DateTime → ℕ → DateTime
add_months start months =
    let month_index = start.month - 1 + months in
    let y = start.year + month_index / 12 in
    let m = month_index % 12 + 1 in
    record start { year = y; month = m; day = min start.day (days_in_month y m) }

-- `none` means that the plan never expires.
unfoldable pub compute_expiry : DateTime → DurationUnit → ℕ → Option DateTime
compute_expiry start DurationUnit.lifetime count = none
compute_expiry start DurationUnit.day count = some (add_days count start)
compute_expiry start DurationUnit.month count = some (add_months start count)
compute_expiry start DurationUnit.year count = some (add_months start (count * 12))

pub add_months-IsValid : (d : DateTime) (n : ℕ) → IsValid d → IsValid (add_months d n)
unfolding add_months
add_months-IsValid d n v =
    ground (arith, days_in_month_bounds (add_months d n).year (add_months d n).month)

-- For a valid date: the number of months since year 0 grows by exactly `n`, the time of day stays,
-- and the day of the month is the old one or the last of a shorter month.
pub add_months_lem :
    (d : DateTime) (n : ℕ)
    → IsValid d
    → let e = add_months d n in
      (e.year * 12 + e.month ≡ d.year * 12 + d.month + n)
      × (e.micros ≡ d.micros)
      × ((e.day ≡ d.day) ⊎ ((e.day ≡ days_in_month e.year e.month) × (e.day < d.day)))
unfolding add_months
add_months_lem d n v = (omega arith, refl, ground arith)

pub moment-add_months :
    (d : DateTime) (n : ℕ) → IsValid d → 1 ≤ n → moment d < moment (add_months d n)
unfolding moment add_months
moment-add_months d n v h = omega (arith, days_in_month_bounds d.year d.month)

pub compute_expiry-IsValid :
    (s : DateTime) (u : DurationUnit) (n : ℕ) {e : DateTime}
    → IsValid s
    → compute_expiry s u n ≡ some e
    → IsValid e
unfolding compute_expiry
compute_expiry-IsValid s DurationUnit.lifetime n v h = cc
compute_expiry-IsValid s DurationUnit.day n v h = ground (arith, add_days-IsValid n s v)
compute_expiry-IsValid s DurationUnit.month n v h = ground (arith, add_months-IsValid s n v)
compute_expiry-IsValid s DurationUnit.year n v h = ground (arith, add_months-IsValid s (n * 12) v)

-- Only a lifetime plan never expires; any other, of at least one unit, ends after it starts.
pub compute_expiry-later :
    (s : DateTime) (u : DurationUnit) (n : ℕ)
    → IsValid s
    → ((u ≡ DurationUnit.lifetime) × (compute_expiry s u n ≡ none))
      ⊎ ((u ≢ DurationUnit.lifetime)
          × (1 ≤ n → (e : DateTime) × (compute_expiry s u n ≡ some e) × (moment s < moment e)))
unfolding compute_expiry
compute_expiry-later s DurationUnit.lifetime n v = inl (refl, refl)
compute_expiry-later s DurationUnit.day n v =
    inr (λ e. cc, λ h. (add_days n s, refl, omega (arith, moment-add_days n s v)))
compute_expiry-later s DurationUnit.month n v =
    inr (λ e. cc, λ h. (add_months s n, refl, moment-add_months s n v h))
compute_expiry-later s DurationUnit.year n v =
    inr (λ e. cc, λ h. (add_months s (n * 12), refl, moment-add_months s (n * 12) v (omega arith)))

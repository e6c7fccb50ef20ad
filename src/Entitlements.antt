-- ===== src/Entitlements.antt =====
-- entitlements/types.py: what one user may do, as a snapshot.
pub mod Resolve
pub mod Snapshot
pub mod Service
pub mod Coherence
pub mod Cache
pub mod Overrides
pub mod Json
use chatfolio_backend.Prelude.{
  Bool, true, false, Option, none, some, List, [], ◌∷◌, String, if◌then◌else◌, get_or, ◌==◌,
}
use chatfolio_backend.Prelude.Int.{ℤ, pos, eq_ℤ}
use chatfolio_backend.Catalog.{FeatureKey, unlimited, eq_feature}
use chatfolio_backend.Time.Calendar.{DateTime}
use chatfolio_backend.Time.Periods.{QuotaPeriod}
use chatfolio_backend.Models.Billing.{SubscriptionSource}

pub record FeatureValue : Type 0 where
  pub int_value : Option ℤ
  pub bool_value : Option Bool
  pub period : Option QuotaPeriod

-- `FeatureValue()`
abbrev pub no_value : FeatureValue
no_value = record { int_value = none; bool_value = none; period = none }

-- The dict of values; its keys are the strings of `FeatureKey`.
abbrev pub Values : Type 0
Values = List (FeatureKey × FeatureValue)

abbrev pub lookup : FeatureKey → Values → Option FeatureValue
lookup k [] = none
lookup k ((j, v) ∷ m) = if eq_feature k j then some v else lookup k m

-- `values[k] = v`
abbrev pub insert : FeatureKey → FeatureValue → Values → Values
insert k v [] = (k, v) ∷ []
insert k v (e ∷ m) = if eq_feature k e.0 then (k, v) ∷ m else e ∷ insert k v m

-- "free", or the source of the subscription that granted the plan.
pub data Source : Type 0 where
  free : Source
  granted : SubscriptionSource → Source

pub record Entitlements : Type 0 where
  pub plan_slug : String
  pub plan_name : String
  pub source : Source
  pub subscription_expires_at : Option DateTime
  pub valid_until : Option DateTime
  pub values : Values

unfoldable pub value_of : Entitlements → FeatureKey → FeatureValue
value_of e k = get_or no_value (lookup k e.values)

-- A missing value is a limit of 0.
unfoldable pub limit : Entitlements → FeatureKey → ℤ
unfolding value_of
limit e k = get_or (pos 0) (value_of e k).int_value

unfoldable pub is_unlimited : Entitlements → FeatureKey → Bool
unfolding limit
is_unlimited e k = eq_ℤ (limit e k) unlimited

unfoldable pub enabled : Entitlements → FeatureKey → Bool
unfolding value_of
enabled e k = get_or false (value_of e k).bool_value

unfoldable pub period : Entitlements → FeatureKey → Option QuotaPeriod
unfolding value_of
period e k = (value_of e k).period

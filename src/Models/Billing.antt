-- ===== src/Models/Billing.antt =====
-- models/billing.py.
use chatfolio_backend.Prelude.{ℕ, Bool, Option, List, String}
use chatfolio_backend.Prelude.Int.{ℤ}
use chatfolio_backend.Time.Calendar.{DateTime}
use chatfolio_backend.Time.Duration.{DurationUnit}
use chatfolio_backend.Time.Periods.{QuotaPeriod, PeriodKey}
use chatfolio_backend.Catalog.{FeatureKey}
use chatfolio_backend.Models.Users.{User}

pub data SubscriptionStatus : Type 0 where
  active expired cancelled : SubscriptionStatus

pub data OrderStatus : Type 0 where
  paid revoked : OrderStatus

pub data LicenseStatus : Type 0 where
  active revoked : LicenseStatus

pub data SubscriptionSource : Type 0 where
  admin_grant trial support_kori_license native_gateway : SubscriptionSource

-- billing/strategy.py
pub data StrategyName : Type 0 where
  support_kori_license native_gateway : StrategyName

pub record PlanFeature : Type 0 where
  pub feature_key : FeatureKey
  pub int_value : Option ℤ
  pub bool_value : Option Bool
  pub period : Option QuotaPeriod

pub record Plan : Type 0 where
  pub id : ℕ
  pub slug : String
  pub name : String
  pub is_active : Bool
  pub is_public : Bool
  pub is_default_free : Bool
  pub price_minor : ℕ
  pub currency : String
  pub duration_unit : DurationUnit
  pub duration_count : ℕ
  pub external_product_ref : Option String
  pub trial_days : ℕ
  pub allowed_strategies : List StrategyName
  pub features : List PlanFeature

pub record Subscription : Type 0 where
  pub id : ℕ
  pub user_id : ℕ
  pub plan_id : ℕ
  pub status : SubscriptionStatus
  pub source : SubscriptionSource
  pub starts_at : DateTime
  pub expires_at : Option DateTime
  pub order_id : Option ℕ
  pub reminder_sent_at : Option DateTime

pub record EntitlementOverride : Type 0 where
  pub user_id : ℕ
  pub feature_key : FeatureKey
  pub int_value : Option ℤ
  pub bool_value : Option Bool
  pub expires_at : Option DateTime
  pub reason : String
  pub granted_by : Option ℕ

-- The primary key of `usage_counters`, which also names a Redis counter,
-- `q:{user}:{feature}:{period}`.
pub record QuotaKey : Type 0 where
  pub user : ℕ
  pub feature : FeatureKey
  pub period : PeriodKey

pub record Order : Type 0 where
  pub id : ℕ
  pub user_id : ℕ
  pub plan_id : ℕ
  pub strategy : StrategyName
  pub external_ref : String
  pub status : OrderStatus
  pub amount_minor : ℕ
  pub currency : String
  pub purchased_at : Option DateTime

pub record License : Type 0 where
  pub id : ℕ
  pub license_key_hash : String
  pub license_key_encrypted : String
  pub key_last4 : String
  pub user_id : ℕ
  pub plan_id : ℕ
  pub order_id : ℕ
  pub status : LicenseStatus
  pub validated_at : DateTime
  pub last_revalidated_at : Option DateTime

pub record Db : Type 0 where
  pub users : List User
  pub plans : List Plan
  pub subscriptions : List Subscription
  pub overrides : List EntitlementOverride
  pub orders : List Order
  pub licenses : List License
  pub usage : List (QuotaKey × ℕ)
  pub next_id : ℕ

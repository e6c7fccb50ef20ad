-- ===== src/Tests/Samples.antt =====
-- A small database: a free plan, a plan for sale with a trial, and two users of one phone number.
use chatfolio_backend.Prelude.{ℕ, true, false, none, some, List, [], ◌∷◌}
use chatfolio_backend.Prelude.Int.{pos}
use chatfolio_backend.Catalog.{FeatureKey}
use chatfolio_backend.Time.Calendar.{DateTime}
use chatfolio_backend.Time.Duration.{DurationUnit}
use chatfolio_backend.Time.Periods.{month_key}
use chatfolio_backend.Models.Users.{User, UserRole, TwoFactorMethod}
use chatfolio_backend.Models.Billing.{
  Db, Plan, Subscription, SubscriptionStatus, SubscriptionSource, StrategyName, QuotaKey,
}
use chatfolio_backend.Models.Redis.{Redis}
use chatfolio_backend.World.{World}

abbrev pub day : ℕ → DateTime
day d = record { year = 2026; month = 11; day = d; micros = 0 }

abbrev pub user_with : ℕ → User
user_with id = record {
  id = id;
  email = "ann@example.org";
  hashed_password = "";
  role = UserRole.candidate;
  is_active = true;
  phone = some "+8801";
  two_factor_enabled = true;
  two_factor_method = some TwoFactorMethod.phone;
}

abbrev pub free_plan : Plan
free_plan = record {
  id = 1;
  slug = "free";
  name = "Free";
  is_active = true;
  is_public = true;
  is_default_free = true;
  price_minor = 0;
  currency = "BDT";
  duration_unit = DurationUnit.lifetime;
  duration_count = 1;
  external_product_ref = none;
  trial_days = 0;
  allowed_strategies = [];
  features =
      record {
        feature_key = FeatureKey.links_max;
        int_value = some (pos 1);
        bool_value = none;
        period = none;
      }
      ∷ [];
}

abbrev pub gold : Plan
gold = record {
  id = 2;
  slug = "gold";
  name = "Gold";
  is_active = true;
  is_public = true;
  is_default_free = false;
  price_minor = 50000;
  currency = "BDT";
  duration_unit = DurationUnit.month;
  duration_count = 1;
  external_product_ref = some "gold-product";
  trial_days = 7;
  allowed_strategies = StrategyName.support_kori_license ∷ [];
  features =
      record {
        feature_key = FeatureKey.links_max;
        int_value = some (pos 5);
        bool_value = none;
        period = none;
      }
      ∷ [];
}

-- A subscription of user 10 to the plan for sale that ends on the given day.
abbrev pub until : ℕ → Subscription
until d = record {
  id = 5;
  user_id = 10;
  plan_id = 2;
  status = SubscriptionStatus.active;
  source = SubscriptionSource.admin_grant;
  starts_at = day 1;
  expires_at = some (day d);
  order_id = none;
  reminder_sent_at = none;
}

abbrev pub db_with : List Subscription → Db
db_with rows = record {
  users = user_with 10 ∷ user_with 11 ∷ [];
  plans = free_plan ∷ gold ∷ [];
  subscriptions = rows;
  overrides = [];
  orders = [];
  licenses = [];
  usage = [];
  next_id = 100;
}

abbrev pub redis : Redis
redis = record {
  faults = [];
  catalog_version = none;
  snapshots = [];
  counters = [];
  failed_attempts = [];
}

abbrev pub world_with : List Subscription → World
world_with rows = record { db = db_with rows; redis = redis }

abbrev pub chats : QuotaKey
chats = record { user = 10; feature = FeatureKey.recruiter_chats_limit; period = month_key 2026 11 }

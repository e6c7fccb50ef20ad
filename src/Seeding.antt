-- ===== src/Seeding.antt =====
-- The plans that a new installation starts with, and `ensure_catalog` (entitlements/catalog.py). The
-- copy of the pricing page is left out.
pub mod Seeded
use chatfolio_backend.Prelude.{
  ℕ, ◌+◌, Bool, true, false, Option, none, some, List, [], ◌∷◌, String, str_eq, ◌==◌, if◌then◌else◌,
  any_row, update_first, map,
}
use chatfolio_backend.Prelude.Int.{ℤ, pos}
use chatfolio_backend.Catalog.{FeatureKey, FeatureDef, unlimited, features, eq_feature}
use chatfolio_backend.Time.Duration.{DurationUnit}
use chatfolio_backend.Time.Periods.{QuotaPeriod}
use chatfolio_backend.Models.Billing.{Db, Plan, PlanFeature, StrategyName}

pub record PlanFeatureSeed : Type 0 where
  pub int_value : Option ℤ
  pub bool_value : Option Bool
  pub period : Option QuotaPeriod

pub record PlanSeed : Type 0 where
  pub slug : String
  pub name : String
  pub price_minor : ℕ
  pub duration_unit : DurationUnit
  pub duration_count : ℕ
  pub features : List (FeatureKey × PlanFeatureSeed)
  pub is_default_free : Bool
  pub currency : String

-- `_i`
abbrev pub amount : ℤ → Option QuotaPeriod → PlanFeatureSeed
amount n p = record { int_value = some n; bool_value = none; period = p }

-- `_b`
abbrev pub flag : Bool → PlanFeatureSeed
flag b = record { int_value = none; bool_value = some b; period = none }

abbrev pub free_features : List (FeatureKey × PlanFeatureSeed)
free_features =
    (FeatureKey.links_max, amount (pos 1) none)
    ∷ (FeatureKey.publishes_limit, amount (pos 3) (some QuotaPeriod.lifetime))
    ∷ (FeatureKey.custom_domains_max, amount (pos 0) none)
    ∷ (FeatureKey.recruiter_chats_limit, amount (pos 20) (some QuotaPeriod.monthly))
    ∷ (FeatureKey.chat_messages_per_session, amount unlimited none)
    ∷ (FeatureKey.ai_tokens_limit, amount (pos 200000) (some QuotaPeriod.monthly))
    ∷ (FeatureKey.chat_history_days, amount (pos 7) none)
    ∷ (FeatureKey.recruiter_insights, flag false)
    ∷ (FeatureKey.calendar_booking, flag true)
    ∷ (FeatureKey.meetings_limit, amount (pos 2) (some QuotaPeriod.lifetime))
    ∷ (FeatureKey.remove_badge, flag false)
    ∷ (FeatureKey.model_selection, flag false)
    ∷ []

abbrev pub premium_features : List (FeatureKey × PlanFeatureSeed)
premium_features =
    (FeatureKey.links_max, amount (pos 5) none)
    ∷ (FeatureKey.publishes_limit, amount unlimited (some QuotaPeriod.lifetime))
    ∷ (FeatureKey.custom_domains_max, amount (pos 5) none)
    ∷ (FeatureKey.recruiter_chats_limit, amount unlimited (some QuotaPeriod.monthly))
    ∷ (FeatureKey.chat_messages_per_session, amount unlimited none)
    ∷ (FeatureKey.ai_tokens_limit, amount (pos 5000000) (some QuotaPeriod.monthly))
    ∷ (FeatureKey.chat_history_days, amount unlimited none)
    ∷ (FeatureKey.recruiter_insights, flag true)
    ∷ (FeatureKey.calendar_booking, flag true)
    ∷ (FeatureKey.meetings_limit, amount unlimited (some QuotaPeriod.lifetime))
    ∷ (FeatureKey.remove_badge, flag true)
    ∷ (FeatureKey.model_selection, flag true)
    ∷ []

abbrev pub free_seed : PlanSeed
free_seed = record {
  slug = "free";
  name = "Free";
  price_minor = 0;
  duration_unit = DurationUnit.lifetime;
  duration_count = 0;
  features = free_features;
  is_default_free = true;
  currency = "BDT";
}

abbrev pub premium_seed : PlanSeed
premium_seed = record {
  slug = "premium";
  name = "Premium";
  price_minor = 50000;
  duration_unit = DurationUnit.month;
  duration_count = 6;
  features = premium_features;
  is_default_free = false;
  currency = "BDT";
}

abbrev pub default_plans : List PlanSeed
default_plans = free_seed ∷ premium_seed ∷ []

abbrev pub seeded_feature : FeatureKey × PlanFeatureSeed → PlanFeature
seeded_feature (key, v) = record {
  feature_key = key;
  int_value = v.int_value;
  bool_value = v.bool_value;
  period = v.period;
}

-- The columns that the seed does not give have the defaults of the table.
unfoldable pub seeded_plan : PlanSeed → ℕ → Plan
seeded_plan s id = record {
  id = id;
  slug = s.slug;
  name = s.name;
  is_active = true;
  is_public = true;
  is_default_free = s.is_default_free;
  price_minor = s.price_minor;
  currency = s.currency;
  duration_unit = s.duration_unit;
  duration_count = s.duration_count;
  external_product_ref = none;
  trial_days = 0;
  allowed_strategies = StrategyName.support_kori_license ∷ [];
  features = map seeded_feature s.features;
}

abbrev pub has_slug : String → Plan → Bool
has_slug slug p = str_eq p.slug slug

abbrev pub add_plan : PlanSeed → Db → Db
add_plan s db = record db { plans = seeded_plan s db.next_id ∷ db.plans; next_id = db.next_id + 1 }

-- The loop over the seeds; the slugs that exist were read before it.
unfoldable pub add_missing : List Plan → List PlanSeed → Db → Db
add_missing existing [] db = db
add_missing existing (s ∷ seeds) db =
    add_missing existing seeds (if any_row (has_slug s.slug) existing then db else add_plan s db)

-- A row of the feature table is added, or brought up to the definition.
unfoldable pub sync_feature : FeatureDef → List FeatureDef → List FeatureDef
sync_feature d rows =
    if any_row (λ r. eq_feature d.key r.key) rows
    then update_first (λ r. eq_feature d.key r.key) (λ _. d) rows
    else d ∷ rows

unfoldable pub sync_features : List FeatureDef → List FeatureDef → List FeatureDef
sync_features [] rows = rows
sync_features (d ∷ ds) rows = sync_features ds (sync_feature d rows)

-- The feature table and the others.
unfoldable pub ensure_catalog : List FeatureDef × Db → List FeatureDef × Db
ensure_catalog (rows, db) = (sync_features features rows, add_missing db.plans default_plans db)

-- ===== src/PlanAdmin.antt =====
-- services/plan_admin_service.py: how an administrator changes plans. Audit rows, the copy of the
-- pricing page and response bodies are left out.
pub mod Differences
pub mod Editing
pub mod Matrix
pub mod Edited
pub mod Rules
use chatfolio_backend.Prelude.{
  ℕ, ◌+◌, Bool, true, false, ◌&&◌, ◌||◌, not, Option, none, some, List, [], ◌∷◌, ◌++◌, map, String,
  str_eq, ◌==◌, ltb, is_none, or_else, if◌then◌else◌, first_row, any_row, update_first, delete_rows,
}
use chatfolio_backend.Prelude.Int.{ℤ, pos, eq_ℤ}
use chatfolio_backend.Errors.{
  Error, Result, ok, err, integrity, conflict, not_found, validation_failed,
}
use chatfolio_backend.Action.{
  Action, pure, raise, raise_if, gets, modify, lift, or_raise, ◌>>=◌, ◌>>◌,
}
use chatfolio_backend.Catalog.{
  FeatureKey, FeatureDef, FeatureValueType, features, features_by_key, eq_feature,
}
use chatfolio_backend.Catalog.Validation.{validate_feature_value}
use chatfolio_backend.Time.Duration.{DurationUnit}
use chatfolio_backend.Time.Periods.{QuotaPeriod}
use chatfolio_backend.Models.Billing.{Db, Plan, PlanFeature, StrategyName}
use chatfolio_backend.World.{World}
use chatfolio_backend.Entitlements.Cache.{bump_catalog_version}

-- The tables of the billing, and which plan offers which model.
pub record Pricing : Type 0 where
  pub world : World
  pub plan_models : List (ℕ × ℕ)
  pub models : List ℕ

-- schemas/admin_billing.py
pub record PlanFeatureValue : Type 0 where
  pub int_value : Option ℤ
  pub bool_value : Option Bool
  pub period : Option QuotaPeriod

pub record PlanCreateRequest : Type 0 where
  pub slug : String
  pub clone_from : Option String
  pub name : String
  pub is_active : Bool
  pub is_public : Bool
  pub price_minor : ℕ
  pub currency : String
  pub duration_unit : DurationUnit
  pub duration_count : ℕ
  pub external_product_ref : Option String
  pub trial_days : ℕ
  pub allowed_strategies : List StrategyName

unfoldable pub find_plan : ℕ → Pricing → Option Plan
find_plan id s = first_row (λ p. p.id == id) s.world.db.plans

-- `_plan`
abbrev pub the_plan : ℕ → Action Pricing Plan
the_plan id = gets (find_plan id) >>= or_raise (not_found "Plan not found.")

abbrev pub with_plans : (List Plan → List Plan) → Pricing → Pricing
with_plans f s = record s {
  world = record s.world { db = record s.world.db { plans = f s.world.db.plans } };
}

-- `_commit_and_bump`
unfoldable pub commit_and_bump : Pricing → Pricing
commit_and_bump s = record s {
  world = record s.world { redis = bump_catalog_version s.world.redis };
}

abbrev pub feature_row_of : FeatureKey → PlanFeature → Bool
feature_row_of k f = eq_feature f.feature_key k

abbrev pub closed : FeatureDef → FeatureValueType → PlanFeature
closed d FeatureValueType.int = record {
  feature_key = d.key;
  int_value = some (pos 0);
  bool_value = none;
  period = d.default_period;
}
closed d FeatureValueType.bool = record {
  feature_key = d.key;
  int_value = none;
  bool_value = some false;
  period = none;
}

-- `_closed_or_copied`
abbrev pub closed_or_copied : FeatureDef → Option PlanFeature → PlanFeature
closed_or_copied d (some f) = record f { feature_key = d.key }
closed_or_copied d none = closed d d.value_type

abbrev pub features_of : Option Plan → List PlanFeature
features_of none = []
features_of (some p) = p.features

-- Every feature of the catalogue, from the source or closed.
unfoldable pub complete_matrix : Option Plan → List FeatureDef → List PlanFeature
complete_matrix source [] = []
complete_matrix source (d ∷ ds) =
    closed_or_copied d (first_row (feature_row_of d.key) (features_of source))
    ∷ complete_matrix source ds

unfoldable pub new_plan : PlanCreateRequest → Option Plan → ℕ → Plan
unfolding features
new_plan r source id = record {
  id = id;
  slug = r.slug;
  name = r.name;
  is_active = r.is_active;
  is_public = r.is_public;
  is_default_free = false;
  price_minor = r.price_minor;
  currency = r.currency;
  duration_unit = r.duration_unit;
  duration_count = r.duration_count;
  external_product_ref = r.external_product_ref;
  trial_days = r.trial_days;
  allowed_strategies = r.allowed_strategies;
  features = complete_matrix source features;
}

abbrev pub plan_named : String → Plan → Bool
plan_named slug p = str_eq p.slug slug

abbrev or_missing : Option Plan → Result (Option Plan)
or_missing none = err (not_found "The plan to clone was not found.")
or_missing (some p) = ok (some p)

abbrev pub clone_source : Option String → Action Pricing (Option Plan)
clone_source none s = (ok none, s)
clone_source (some slug) s =
    if str_eq slug ""
    then (ok none, s)
    else (or_missing (first_row (plan_named slug) s.world.db.plans), s)

-- The models of a plan, under the id of another.
unfoldable pub copied_models : ℕ → ℕ → List (ℕ × ℕ) → List (ℕ × ℕ)
copied_models old new [] = []
copied_models old new ((p, m) ∷ rows) =
    let rest = copied_models old new rows in if p == old then (new, m) ∷ rest else rest

abbrev pub models_from : Option Plan → ℕ → List (ℕ × ℕ) → List (ℕ × ℕ)
models_from none new rows = rows
models_from (some p) new rows = copied_models p.id new rows ++ rows

abbrev pub insert_plan : Plan → Option Plan → Pricing → Pricing
insert_plan p source s = record s {
  world = record s.world {
    db = record s.world.db { plans = p ∷ s.world.db.plans; next_id = s.world.db.next_id + 1 };
  };
  plan_models = models_from source p.id s.plan_models;
}

unfoldable pub create_plan : PlanCreateRequest → Action Pricing Plan
create_plan r = do
  taken ← gets (λ s. any_row (plan_named r.slug) s.world.db.plans)
  raise_if taken (conflict "A plan with this slug already exists.")
  source ← clone_source r.clone_from
  p ← gets (λ s. new_plan r source s.world.db.next_id)
  modify (insert_plan p source)
  modify commit_and_bump
  pure p

-- The subscriptions, orders and licenses that refer to the plan keep the database from deleting it.
abbrev pub referred : ℕ → Db → Bool
referred id db =
    any_row (λ o. o.plan_id == id) db.orders || any_row (λ l. l.plan_id == id) db.licenses

unfoldable pub delete_plan : ℕ → Action Pricing (Unit {0})
delete_plan id = do
  p ← the_plan id
  raise_if p.is_default_free (validation_failed "The default free plan cannot be deleted.")
  subscribed ← gets (λ s. any_row (λ b. b.plan_id == p.id) s.world.db.subscriptions)
  raise_if subscribed (conflict "This plan has subscription history and cannot be deleted.")
  held ← gets (λ s. referred p.id s.world.db)
  raise_if held integrity
  modify (with_plans (delete_rows (λ q. q.id == p.id)))
  modify (λ s. record s { plan_models = delete_rows (λ m. m.0 == p.id) s.plan_models })
  modify commit_and_bump

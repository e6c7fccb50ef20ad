-- ===== src/PlanAdmin/Editing.antt =====
-- services/plan_admin_service.py: `update_plan`, `update_features` and `set_plan_models`.
use chatfolio_backend.Prelude.{
  ℕ, Bool, true, false, ◌&&◌, ◌||◌, not, Option, none, some, List, [], ◌∷◌, String, str_eq, ◌==◌,
  ltb, is_none, or_else, if◌then◌else◌, first_row, any_row, update_first, delete_rows,
}
use chatfolio_backend.Errors.{validation_failed}
use chatfolio_backend.Action.{Action, pure, raise_if, gets, modify, ◌>>=◌, ◌>>◌}
use chatfolio_backend.Catalog.{FeatureDef, features_by_key, eq_feature}
use chatfolio_backend.Catalog.Validation.{validate_feature_value}
use chatfolio_backend.Time.Duration.{DurationUnit}
use chatfolio_backend.Time.Periods.{QuotaPeriod}
use chatfolio_backend.Models.Billing.{Plan, PlanFeature, StrategyName}
use chatfolio_backend.PlanAdmin.Differences.{
  Patch, unset, null, set, differs, differs_or_null, row_differs, eq_bool, eq_unit, eq_strategies,
}
use chatfolio_backend.PlanAdmin.{
  Pricing, PlanFeatureValue, the_plan, with_plans, commit_and_bump, feature_row_of,
}

module _ {A : Type 0} where
  abbrev pub is_null : Patch A → Bool
  is_null unset = false
  is_null null = true
  is_null (set _) = false

  abbrev pub is_set : Patch A → Bool
  is_set unset = false
  is_set _ = true

  -- `updates.get(field, old)`, where a null has been refused.
  abbrev pub patched : A → Patch A → A
  patched old unset = old
  patched old null = old
  patched old (set a) = a

  abbrev pub patched_or_null : Option A → Patch A → Option A
  patched_or_null old unset = old
  patched_or_null old null = none
  patched_or_null old (set a) = some a

-- schemas/admin_billing.py
pub record PlanUpdateRequest : Type 0 where
  pub name : Patch String
  pub is_active : Patch Bool
  pub is_public : Patch Bool
  pub price_minor : Patch ℕ
  pub currency : Patch String
  pub duration_unit : Patch DurationUnit
  pub duration_count : Patch ℕ
  pub external_product_ref : Patch String
  pub trial_days : Patch ℕ
  pub allowed_strategies : Patch (List StrategyName)

-- A null in a field that must keep a value.
unfoldable pub has_null : PlanUpdateRequest → Bool
has_null u =
    is_null u.name
    || is_null u.is_active
    || is_null u.is_public
    || is_null u.price_minor
    || is_null u.currency
    || is_null u.duration_unit
    || is_null u.duration_count
    || is_null u.trial_days
    || is_null u.allowed_strategies

abbrev pub turns_off : Patch Bool → Bool
turns_off (set false) = true
turns_off _ = false

abbrev pub is_lifetime : DurationUnit → Bool
is_lifetime DurationUnit.lifetime = true
is_lifetime _ = false

unfoldable pub patched_plan : PlanUpdateRequest → Plan → Plan
patched_plan u p = record p {
  name = patched p.name u.name;
  is_active = patched p.is_active u.is_active;
  is_public = patched p.is_public u.is_public;
  price_minor = patched p.price_minor u.price_minor;
  currency = patched p.currency u.currency;
  duration_unit = patched p.duration_unit u.duration_unit;
  duration_count = patched p.duration_count u.duration_count;
  external_product_ref = patched_or_null p.external_product_ref u.external_product_ref;
  trial_days = patched p.trial_days u.trial_days;
  allowed_strategies = patched p.allowed_strategies u.allowed_strategies;
}

-- `changes` has an entry.
unfoldable pub changes : PlanUpdateRequest → Plan → Bool
changes u p =
    differs str_eq p.name u.name
    || differs eq_bool p.is_active u.is_active
    || differs eq_bool p.is_public u.is_public
    || differs ◌==◌ p.price_minor u.price_minor
    || differs str_eq p.currency u.currency
    || differs eq_unit p.duration_unit u.duration_unit
    || differs ◌==◌ p.duration_count u.duration_count
    || differs_or_null str_eq p.external_product_ref u.external_product_ref
    || differs ◌==◌ p.trial_days u.trial_days
    || differs eq_strategies p.allowed_strategies u.allowed_strategies

-- The plan's new fields, where there are changes.
unfoldable pub save_plan : Bool → Plan → Pricing → Pricing
save_plan changed new s =
    if changed
    then commit_and_bump (with_plans (update_first (λ p. p.id == new.id) (λ _. new)) s)
    else s

unfoldable pub update_plan : ℕ → PlanUpdateRequest → Action Pricing Plan
update_plan id u = do
  p ← the_plan id
  raise_if (has_null u) (validation_failed "A field cannot be null.")
  raise_if (p.is_default_free && turns_off u.is_active)
      (validation_failed "The default free plan cannot be deactivated.")
  raise_if (p.is_default_free && (is_set u.duration_unit || is_set u.duration_count))
      (validation_failed "The default free plan has no duration.")
  raise_if
      (is_lifetime (patched p.duration_unit u.duration_unit)
        && not (patched p.duration_count u.duration_count == 0))
      (validation_failed "A lifetime plan must have duration_count 0.")
  raise_if
      (not (is_lifetime (patched p.duration_unit u.duration_unit))
        && ltb (patched p.duration_count u.duration_count) 1)
      (validation_failed "duration_count must be at least 1.")
  modify (save_plan (changes u p) (patched_plan u p))
  pure (patched_plan u p)

abbrev pub problem_of : Option FeatureDef → PlanFeatureValue → Bool
problem_of none v = true
problem_of (some d) v = not (is_none (validate_feature_value d v.int_value v.bool_value v.period))

-- An entry of the payload that is refused: an unknown key, or a value that the feature does not take.
unfoldable pub is_refused : String × PlanFeatureValue → Bool
is_refused (key, v) = problem_of (features_by_key key) v

abbrev pub period_of_row : Option PlanFeature → Option QuotaPeriod
period_of_row none = none
period_of_row (some f) = f.period

-- A flow feature keeps its period, or takes the catalogue's, unless the payload sets one.
unfoldable pub row_for : FeatureDef → Option PlanFeature → PlanFeatureValue → PlanFeature
row_for d existing v = record {
  feature_key = d.key;
  int_value = v.int_value;
  bool_value = v.bool_value;
  period = or_else v.period (
      if is_none d.default_period then none else or_else (period_of_row existing) d.default_period);
}

unfoldable pub put_row : PlanFeature → List PlanFeature → List PlanFeature
put_row f [] = f ∷ []
put_row f (g ∷ gs) = if eq_feature g.feature_key f.feature_key then f ∷ gs else g ∷ put_row f gs

abbrev pub put_known : Option FeatureDef → PlanFeatureValue → List PlanFeature → List PlanFeature
put_known none v rows = rows
put_known (some d) v rows = put_row (row_for d (first_row (feature_row_of d.key) rows) v) rows

-- The loop over the payload.
unfoldable pub put_all : List (String × PlanFeatureValue) → List PlanFeature → List PlanFeature
put_all [] rows = rows
put_all ((key, v) ∷ vs) rows = put_all vs (put_known (features_by_key key) v rows)

abbrev pub entry_differs : Option FeatureDef → PlanFeatureValue → List PlanFeature → Bool
entry_differs none v rows = false
entry_differs (some d) v rows =
    let existing = first_row (feature_row_of d.key) rows in
    row_differs existing (row_for d existing v)

unfoldable pub update_features : ℕ → List (String × PlanFeatureValue) → Action Pricing Plan
update_features id payload = do
  p ← the_plan id
  raise_if (any_row is_refused payload) (validation_failed "A feature value was refused.")
  let new : Plan = record p { features = put_all payload p.features }
  modify (save_plan (any_row (λ e. entry_differs (features_by_key e.0) e.1 p.features) payload) new)
  pure new

abbrev pub holds : List ℕ → ℕ → Bool
holds ms m = any_row (λ k. k == m) ms

abbrev pub offers : ℕ → ℕ → ℕ × ℕ → Bool
offers plan model (p, m) = (p == plan) && (m == model)

-- The rows of the plan for models that are no longer wanted.
abbrev pub unwanted : ℕ → List ℕ → ℕ × ℕ → Bool
unwanted plan wanted (p, m) = (p == plan) && not (holds wanted m)

-- `for model_id in wanted - current`
unfoldable pub add_models : ℕ → List ℕ → List (ℕ × ℕ) → List (ℕ × ℕ)
add_models plan [] rows = rows
add_models plan (m ∷ ms) rows =
    add_models plan ms (if any_row (offers plan m) rows then rows else (plan, m) ∷ rows)

abbrev pub new_model : ℕ → List (ℕ × ℕ) → ℕ → Bool
new_model plan rows m = not (any_row (offers plan m) rows)

-- `wanted != current`
abbrev pub models_change : ℕ → List ℕ → List (ℕ × ℕ) → Bool
models_change plan wanted rows =
    any_row (new_model plan rows) wanted || any_row (unwanted plan wanted) rows

abbrev pub save_models : ℕ → List ℕ → Pricing → Pricing
save_models plan wanted s =
    if models_change plan wanted s.plan_models
    then commit_and_bump (record s {
      plan_models = delete_rows (unwanted plan wanted) (add_models plan wanted s.plan_models);
    })
    else s

unfoldable pub set_plan_models : ℕ → List ℕ → Action Pricing Plan
set_plan_models id wanted = do
  p ← the_plan id
  missing ← gets (λ s. any_row (λ m. not (holds s.models m)) wanted)
  raise_if missing (validation_failed "One or more model ids do not exist.")
  modify (save_models p.id wanted)
  pure p

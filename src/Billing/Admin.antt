-- ===== src/Billing/Admin.antt =====
-- SubscriptionAdminService (services/subscription_admin_service.py): manual grants, revocations
-- and overrides. The audit rows and the response bodies are left out.
use chatfolio_backend.Prelude.{
  ℕ, Bool, false, ◌&&◌, not, Option, none, some, List, [], ◌∷◌, String, str_eq, ◌==◌, leb,
  if◌then◌else◌, first_row, any_row, update_first, is_none,
}
use chatfolio_backend.Prelude.Int.{ℤ}
use chatfolio_backend.Errors.{not_found, validation_failed}
use chatfolio_backend.Action.{Action, raise_if, modify, gets, or_raise, ◌>>=◌, ◌>>◌}
use chatfolio_backend.Catalog.{FeatureKey, features_by_key, eq_feature}
use chatfolio_backend.Catalog.Validation.{validate_feature_value}
use chatfolio_backend.Time.Calendar.{DateTime, moment}
use chatfolio_backend.Models.Users.{User}
use chatfolio_backend.Models.Billing.{Plan, Subscription, SubscriptionSource, EntitlementOverride}
use chatfolio_backend.World.{World}
use chatfolio_backend.Billing.Grant.{
  find_active, cancel_active, expiry_of_term, add_subscription, new_subscription,
}
use chatfolio_backend.Billing.Trial.{commit_and_invalidate}

pub record SubscriptionGrantRequest : Type 0 where
  pub plan_slug : String
  pub expires_at : Option DateTime
  pub reason : String

unfoldable pub find_user : ℕ → World → Option User
find_user id w = first_row (λ u. u.id == id) w.db.users

unfoldable pub find_plan_by_slug : String → World → Option Plan
find_plan_by_slug slug w = first_row (λ p. str_eq p.slug slug) w.db.plans

-- `expires_at <= now`
abbrev pub is_past : DateTime → Option DateTime → Bool
is_past now none = false
is_past now (some e) = leb (moment e) (moment now)

-- The end that the admin gives, or that of a term of the plan.
abbrev pub granted_expiry :
    Plan → DateTime → Option Subscription → Option DateTime → Option DateTime
granted_expiry plan now active (some e) = some e
granted_expiry plan now active none = expiry_of_term plan now active

unfoldable pub grant : ℕ → SubscriptionGrantRequest → DateTime → Action World (Unit {0})
grant user payload now = do
  _ ← gets (find_user user) >>= or_raise (not_found "User not found.")
  plan ← gets (find_plan_by_slug payload.plan_slug) >>= or_raise (not_found "Plan not found.")
  raise_if plan.is_default_free
      (validation_failed "The free plan needs no subscription — revoke the current one instead.")
  raise_if (not plan.is_active) (validation_failed "This plan is inactive and cannot be granted.")
  active ← gets (find_active user)
  raise_if (is_past now payload.expires_at) (validation_failed "expires_at must be in the future.")
  modify (cancel_active user)
  _ ← add_subscription (
      new_subscription user plan SubscriptionSource.admin_grant now
        (granted_expiry plan now active payload.expires_at) none)
  modify (commit_and_invalidate user)

unfoldable pub revoke : ℕ → Action World (Unit {0})
revoke user = do
  _ ← gets (find_user user) >>= or_raise (not_found "User not found.")
  _ ← gets (find_active user) >>= or_raise (not_found "This user has no active subscription.")
  modify (cancel_active user)
  modify (commit_and_invalidate user)

pub record OverrideSetRequest : Type 0 where
  pub int_value : Option ℤ
  pub bool_value : Option Bool
  pub expires_at : Option DateTime
  pub reason : String

abbrev pub override_of : ℕ → FeatureKey → EntitlementOverride → Bool
override_of user key o = (o.user_id == user) && eq_feature key o.feature_key

unfoldable pub new_override : ℕ → ℕ → FeatureKey → OverrideSetRequest → EntitlementOverride
new_override admin user key p = record {
  user_id = user;
  feature_key = key;
  int_value = p.int_value;
  bool_value = p.bool_value;
  expires_at = p.expires_at;
  reason = p.reason;
  granted_by = some admin;
}

-- The existing row is changed, or a new one added.
unfoldable pub put_override :
    EntitlementOverride → List EntitlementOverride → List EntitlementOverride
put_override o rows =
    if any_row (override_of o.user_id o.feature_key) rows
    then update_first (override_of o.user_id o.feature_key) (λ _. o) rows
    else o ∷ rows

unfoldable pub set_override :
    ℕ → ℕ → String → OverrideSetRequest → DateTime → Action World (Unit {0})
unfolding put_override
set_override admin user key payload now = do
  _ ← gets (find_user user) >>= or_raise (not_found "User not found.")
  definition ← or_raise (not_found "Unknown feature.") (features_by_key key)
  raise_if
      (not (is_none (validate_feature_value definition payload.int_value payload.bool_value none)))
      (validation_failed "")
  raise_if (is_past now payload.expires_at) (validation_failed "expires_at must be in the future.")
  modify (λ w. record w {
    db = record w.db {
      overrides = put_override (new_override admin user definition.key payload) w.db.overrides;
    };
  })
  modify (commit_and_invalidate user)

-- `session.delete` of the row that was found.
abbrev pub remove_first {ℓ} : {A : Type ℓ} → (A → Bool) → List A → List A
remove_first p [] = []
remove_first p (x ∷ xs) = let rest = remove_first p xs in if p x then xs else x ∷ rest

-- The key is that of a known feature: rows refer to the feature table.
unfoldable pub delete_override : ℕ → FeatureKey → Action World (Unit {0})
delete_override user key = do
  _ ← gets (find_user user) >>= or_raise (not_found "User not found.")
  found ← gets (λ w. any_row (override_of user key) w.db.overrides)
  raise_if (not found) (not_found "No override exists for this feature.")
  modify (λ w. record w {
    db = record w.db { overrides = remove_first (override_of user key) w.db.overrides };
  })
  modify (commit_and_invalidate user)

-- ===== src/Entitlements/Overrides.antt =====
-- Which value wins: an override field by field, then the plan's.
use chatfolio_backend.Prelude.{
  ℕ, ◌≡◌, refl, Bool, false, Option, none, some, List, [], ◌∷◌, if◌then◌else◌, get_or, or_else,
  first_row, any_row, arith,
}
use chatfolio_backend.Errors.{Result, ok, err}
use chatfolio_backend.Catalog.{FeatureKey, eq_feature, place}
use chatfolio_backend.Time.Calendar.{DateTime}
use chatfolio_backend.Models.Billing.{Db, Plan, Subscription, EntitlementOverride}
use chatfolio_backend.Entitlements.{
  FeatureValue, no_value, Values, lookup, insert, Entitlements, Source, free, granted,
}
use chatfolio_backend.Entitlements.Resolve.{
  overridden, apply_overrides, live_overrides, active_subscription, plan_values, plan_of,
  default_free_plan, snapshot, assemble, resolve,
}

pub lookup-insert :
    (j k : FeatureKey) (v : FeatureValue) (m : Values)
    → lookup j (insert k v m) ≡ (if eq_feature j k then some v else lookup j m)
lookup-insert j k v [] = refl
lookup-insert j k v (e ∷ m) = ground (arith, lookup-insert j k v m)

abbrev pub about : FeatureKey → EntitlementOverride → Bool
about k o = eq_feature k o.feature_key

-- The unique constraint on (user, feature), for the rows of one user.
abbrev pub IsUnique : List EntitlementOverride → Type 0
IsUnique [] = Unit
IsUnique (o ∷ os) = (any_row (about o.feature_key) os ≡ false) × IsUnique os

-- The value that the plan gives, with the fields that the override sets put in its place.
abbrev pub effective : Option EntitlementOverride → Option FeatureValue → Option FeatureValue
effective none base = base
effective (some o) base = some (record {
  int_value = or_else o.int_value (get_or no_value base).int_value;
  bool_value = or_else o.bool_value (get_or no_value base).bool_value;
  period = (get_or no_value base).period;
})

lookup-overridden :
    (k : FeatureKey) (o : EntitlementOverride) (m : Values)
    → lookup k (overridden o m)
      ≡ (if about k o then effective (some o) (lookup o.feature_key m) else lookup k m)
unfolding overridden
lookup-overridden k o m = ground (
  arith,
  lookup-insert k o.feature_key
      (record {
        int_value = or_else o.int_value (get_or no_value (lookup o.feature_key m)).int_value;
        bool_value = or_else o.bool_value (get_or no_value (lookup o.feature_key m)).bool_value;
        period = (get_or no_value (lookup o.feature_key m)).period;
      })
      m,
)

lookup-place : (j k : FeatureKey) (m : Values) → place j ≡ place k → lookup j m ≡ lookup k m
lookup-place j k [] h = refl
lookup-place j k (e ∷ m) h = ground (arith, lookup-place j k m h)

any-first :
    (j k : FeatureKey) (os : List EntitlementOverride)
    → place j ≡ place k
    → any_row (about k) os ≡ false
    → first_row (about j) os ≡ none
any-first j k [] h e = refl
any-first j k (o ∷ os) h e = ground (arith, any-first j k os h)

pub lookup-apply_overrides :
    (k : FeatureKey) (os : List EntitlementOverride) (m : Values)
    → IsUnique os
    → lookup k (apply_overrides os m) ≡ effective (first_row (about k) os) (lookup k m)
unfolding apply_overrides
lookup-apply_overrides k [] m u = refl
lookup-apply_overrides k (o ∷ os) m u = ground (
  arith,
  lookup-apply_overrides k os (overridden o m) u.1,
  lookup-overridden k o m,
  lookup-place o.feature_key k m,
  any-first k o.feature_key os,
)

-- The plan that counts: the active subscription's, or the default free one.
unfoldable pub chosen_plan : Db → Option Subscription → Result Plan
chosen_plan db (some s) = plan_of db s.plan_id
chosen_plan db none = default_free_plan db

lookup-snapshot :
    (r : Result Plan) (src : Source) (o : Option DateTime) (os : List EntitlementOverride)
    (e : Entitlements)
    → IsUnique os
    → snapshot r src o os ≡ ok e
    → (p : Plan) × (r ≡ ok p)
      × (e.plan_slug ≡ p.slug)
      × (e.source ≡ src)
      × ((k : FeatureKey)
          → lookup k e.values ≡ effective (first_row (about k) os) (lookup k (plan_values p)))
unfolding snapshot
lookup-snapshot (ok p) src o os e u h = (
  p,
  refl,
  ground arith,
  ground arith,
  λ k. rw (values-eq) (lookup-apply_overrides k os (plan_values p) u),
)
  where
    values-eq : e.values ≡ apply_overrides os (plan_values p)
    values-eq = ground arith
lookup-snapshot (err x) src o os e u h = cc

unfoldable pub source_of : Option Subscription → Source
source_of (some s) = granted s.source
source_of none = free

-- The order of precedence, where resolving gives an answer and the user has at most one live
-- override of a feature: a live override wins field by field over the plan, the period is always
-- the plan's, and the plan is the active subscription's or, with none, the default free one.
pub resolve-effective :
    (db : Db) (user : ℕ) (now : DateTime) (e : Entitlements)
    → IsUnique (live_overrides db user now)
    → resolve db user now ≡ ok e
    → (p : Plan) × (chosen_plan db (active_subscription db user now) ≡ ok p)
      × (e.plan_slug ≡ p.slug)
      × (e.source ≡ source_of (active_subscription db user now))
      × ((k : FeatureKey)
          → lookup k e.values
            ≡ effective
                (first_row (about k) (live_overrides db user now))
                (lookup k (plan_values p)))
unfolding resolve
resolve-effective db user now e u h = go (active_subscription db user now) h
  where
    go :
        (o : Option Subscription)
        → assemble db o (live_overrides db user now) ≡ ok e
        → (p : Plan) × (chosen_plan db o ≡ ok p)
          × (e.plan_slug ≡ p.slug)
          × (e.source ≡ source_of o)
          × ((k : FeatureKey)
              → lookup k e.values
                ≡ effective
                    (first_row (about k) (live_overrides db user now))
                    (lookup k (plan_values p)))
    go (some s) g = unfold chosen_plan source_of assemble in lookup-snapshot _ _ _ _ e u g
    go none g = unfold chosen_plan source_of assemble in lookup-snapshot _ _ _ _ e u g

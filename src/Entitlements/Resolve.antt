-- ===== src/Entitlements/Resolve.antt =====
-- EntitlementService._resolve (services/entitlement_service.py): override over subscription over
-- the default free plan, judged by the clock on every read.
use chatfolio_backend.Prelude.{
  ℕ, Bool, true, false, ◌&&◌, Option, none, some, List, [], ◌∷◌, ◌++◌, ◌==◌, ltb, if◌then◌else◌,
  get_or, or_else, first_row, where_rows,
}
use chatfolio_backend.Errors.{Result, ok, err, service_unavailable, runtime}
use chatfolio_backend.Time.Calendar.{DateTime, moment}
use chatfolio_backend.Models.Billing.{
  Db, Plan, PlanFeature, Subscription, SubscriptionStatus, EntitlementOverride,
}
use chatfolio_backend.Entitlements.{
  no_value, Values, lookup, insert, Source, free, granted, Entitlements,
}

abbrev pub is_active : SubscriptionStatus → Bool
is_active SubscriptionStatus.active = true
is_active _ = false

-- `expires_at IS NULL OR expires_at > now`
abbrev pub unexpired : DateTime → Option DateTime → Bool
unexpired now none = true
unexpired now (some e) = ltb (moment now) (moment e)

unfoldable pub grants : ℕ → DateTime → Subscription → Bool
grants user now s = (s.user_id == user) && is_active s.status && unexpired now s.expires_at

unfoldable pub applies : ℕ → DateTime → EntitlementOverride → Bool
applies user now o = (o.user_id == user) && unexpired now o.expires_at

unfoldable pub active_subscription : Db → ℕ → DateTime → Option Subscription
active_subscription db user now = first_row (grants user now) db.subscriptions

unfoldable pub live_overrides : Db → ℕ → DateTime → List EntitlementOverride
live_overrides db user now = where_rows (applies user now) db.overrides

unfoldable pub default_free_plan : Db → Result Plan
default_free_plan db = elim (first_row (λ p. p.is_default_free) db.plans) [
  | none ↦ err (service_unavailable "")
  | some plan ↦ ok plan
]

-- `subscription.plan`; the foreign key rules the second case out.
unfoldable pub plan_of : Db → ℕ → Result Plan
plan_of db id = elim (first_row (λ p. p.id == id) db.plans) [
  | none ↦ err runtime
  | some plan ↦ ok plan
]

abbrev pub plan_values_from : Values → List PlanFeature → Values
plan_values_from m [] = m
plan_values_from m (f ∷ fs) =
    plan_values_from
      (insert f.feature_key
        (record { int_value = f.int_value; bool_value = f.bool_value; period = f.period }) m)
      fs

unfoldable pub plan_values : Plan → Values
plan_values p = plan_values_from [] p.features

-- One round of the loop over the overrides.
unfoldable pub overridden : EntitlementOverride → Values → Values
overridden o values =
    let base = get_or no_value (lookup o.feature_key values) in
    insert o.feature_key
      (record {
        int_value = or_else o.int_value base.int_value;
        bool_value = or_else o.bool_value base.bool_value;
        period = base.period;
      })
      values

unfoldable pub apply_overrides : List EntitlementOverride → Values → Values
apply_overrides [] values = values
apply_overrides (o ∷ os) values = apply_overrides os (overridden o values)

abbrev pub to_list : Option DateTime → List DateTime
to_list none = []
to_list (some d) = d ∷ []

unfoldable pub expiries : List EntitlementOverride → List DateTime
expiries [] = []
expiries (o ∷ os) = to_list o.expires_at ++ expiries os

-- Python's `min`, which keeps the first of equal values; `None` for an empty list.
unfoldable pub earliest : List DateTime → Option DateTime
earliest [] = none
earliest (d ∷ ds) = elim (earliest ds) [
  | none ↦ some d
  | some e ↦ some (if ltb (moment e) (moment d) then e else d)
]

unfoldable pub snapshot :
    Result Plan → Source → Option DateTime → List EntitlementOverride → Result Entitlements
snapshot (err e) source expires_at overrides = err e
snapshot (ok p) source expires_at overrides = ok (record {
  plan_slug = p.slug;
  plan_name = p.name;
  source = source;
  subscription_expires_at = expires_at;
  valid_until = earliest (to_list expires_at ++ expiries overrides);
  values = apply_overrides overrides (plan_values p);
})

-- The body of `_resolve` behind its two reads.
unfoldable pub assemble : Db → Option Subscription → List EntitlementOverride → Result Entitlements
unfolding snapshot
assemble db (some s) overrides =
    snapshot (plan_of db s.plan_id) (granted s.source) s.expires_at overrides
assemble db none overrides = snapshot (default_free_plan db) free none overrides

unfoldable pub resolve : Db → ℕ → DateTime → Result Entitlements
unfolding assemble active_subscription live_overrides
resolve db user now = assemble db (active_subscription db user now) (live_overrides db user now)

-- ===== src/Tests/OfEntitlements.antt =====
-- The theorems on entitlements and on the catalogue at concrete inputs.
use chatfolio_backend.Prelude.{◌≡◌, refl, none, some, [], ◌∷◌, arith, first_row}
use chatfolio_backend.Prelude.Int.{pos}
use chatfolio_backend.Errors.{ok}
use chatfolio_backend.Catalog.{FeatureKey}
use chatfolio_backend.Time.Calendar.{moment}
use chatfolio_backend.Models.Billing.{Db, Plan, SubscriptionSource}
use chatfolio_backend.Models.Redis.{Redis}
use chatfolio_backend.Entitlements.{Entitlements, Source, granted, FeatureValue, lookup}
use chatfolio_backend.Entitlements.Resolve.{
  resolve, active_subscription, live_overrides, plan_values,
}
use chatfolio_backend.Entitlements.Snapshot.{resolve-IsFresh}
use chatfolio_backend.Entitlements.Overrides.{
  about, effective, chosen_plan, source_of, resolve-effective,
}
use chatfolio_backend.Entitlements.Cache.{catalog_version}
use chatfolio_backend.Entitlements.Service.{get}
use chatfolio_backend.Entitlements.Coherence.{IsCoherent, get-eq-resolve}
use chatfolio_backend.Tests.Samples.{day, until, db_with, redis}

abbrev db : Db
db = db_with (until 20 ∷ [])

abbrev five_links : FeatureValue
five_links = record { int_value = some (pos 5); bool_value = none; period = none }

abbrev gold_until_20 : Entitlements
gold_until_20 = record {
  plan_slug = "gold";
  plan_name = "Gold";
  source = granted SubscriptionSource.admin_grant;
  subscription_expires_at = some (day 20);
  valid_until = some (day 20);
  values = (FeatureKey.links_max, five_links) ∷ [];
}

resolve-IsFresh_example : resolve db 10 (day 19) ≡ ok gold_until_20
unfolding resolve moment chatfolio_backend.Entitlements.Resolve.grants
    chatfolio_backend.Entitlements.Resolve.plan_of chatfolio_backend.Entitlements.Resolve.earliest
    chatfolio_backend.Entitlements.Resolve.apply_overrides
    chatfolio_backend.Entitlements.Resolve.expiries plan_values
resolve-IsFresh_example =
    resolve-IsFresh db 10 (day 15) (day 19) gold_until_20 (ground arith) refl refl

resolve-effective_example :
    (p : Plan) × (chosen_plan db (active_subscription db 10 (day 15)) ≡ ok p)
    × (gold_until_20.plan_slug ≡ p.slug)
    × (gold_until_20.source ≡ source_of (active_subscription db 10 (day 15)))
    × ((k : FeatureKey)
        → lookup k gold_until_20.values
          ≡ effective
              (first_row (about k) (live_overrides db 10 (day 15)))
              (lookup k (plan_values p)))
unfolding resolve chatfolio_backend.Entitlements.Resolve.grants moment
    chatfolio_backend.Entitlements.Resolve.plan_of chatfolio_backend.Entitlements.Resolve.earliest
    chatfolio_backend.Entitlements.Resolve.apply_overrides
    chatfolio_backend.Entitlements.Resolve.expiries plan_values
resolve-effective_example = resolve-effective db 10 (day 15) gold_until_20 tt refl

-- The cache after the first read of user 10.
empty-IsCoherent : IsCoherent db (day 15) redis
empty-IsCoherent = record { past = λ u e h. cc; no_future = λ v u h. refl }

get-eq-resolve_example : (get db 10 (day 15) redis).0 ≡ resolve db 10 (day 15)
unfolding catalog_version chatfolio_backend.Models.Redis.command
get-eq-resolve_example = get-eq-resolve 10 empty-IsCoherent refl

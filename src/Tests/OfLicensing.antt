-- ===== src/Tests/OfLicensing.antt =====
-- The theorems on licenses, on the guard and on the first start at concrete inputs.
use chatfolio_backend.Prelude.{◌≡◌, refl, inl, ◌↔◌, true, none, some, [], ◌∷◌, arith}
use chatfolio_backend.Prelude.Int.{pos}
use chatfolio_backend.Errors.{ok, err, service_unavailable, runtime}
use chatfolio_backend.Catalog.{FeatureKey}
use chatfolio_backend.Models.Billing.{License, LicenseStatus, StrategyName}
use chatfolio_backend.World.{World}
use chatfolio_backend.Entitlements.{Entitlements, Source, free, enabled, limit}
use chatfolio_backend.Entitlements.Resolve.{resolve, default_free_plan}
use chatfolio_backend.Entitlements.Coherence.{IsCoherent}
use chatfolio_backend.Entitlements.Cache.{catalog_version}
use chatfolio_backend.Quota.{db_used, quota_key}
use chatfolio_backend.Quota.Exact.{spec_consume}
use chatfolio_backend.Guard.{guard_consume, require_feature}
use chatfolio_backend.Guard.Enforced.{guard_consume_lem, require_feature_iff, as_unit}
use chatfolio_backend.Licensing.{PurchaseVerification, Outside, BillingSettings, license_by_hash}
use chatfolio_backend.Licensing.Activate.{activate_license}
use chatfolio_backend.Licensing.Bound.{activate_license-Refuses, activate_license-one_user}
use chatfolio_backend.Licensing.Outcomes.{Refuses}
use chatfolio_backend.Licensing.Revoke.{Outcome, revalidate_all}
use chatfolio_backend.Licensing.Outage.{IsUnreachable, revalidate_all-outage}
use chatfolio_backend.Tests.Samples.{day, user_with, until, db_with, redis, world_with}

-- A seller that takes every key for genuine.
abbrev trusting : Outside
trusting = record {
  is_registered = true;
  verify = λ key ref. ok (record { valid = true; purchased_at = some (day 10) });
  digest = λ key. key;
  encrypt = λ key. key;
  decrypt = λ key. ok key;
  strip = λ key. key;
  last4 = λ key. key;
  product_id = "chatfolio";
  max_failed_attempts_per_hour = 5;
}

abbrev unreachable : Outside
unreachable = record trusting { verify = λ key ref. err (service_unavailable "") }

abbrev settings : BillingSettings
settings = record {
  enabled_strategies = StrategyName.support_kori_license ∷ [];
  max_activation_delay_days = none;
}

abbrev license : License
license = record {
  id = 7;
  license_key_hash = "KORI-1234";
  license_key_encrypted = "KORI-1234";
  key_last4 = "1234";
  user_id = 10;
  plan_id = 2;
  order_id = 6;
  status = LicenseStatus.active;
  validated_at = day 1;
  last_revalidated_at = none;
}

abbrev licensed : World
licensed = record (world_with []) {
  db = record (db_with []) {
    licenses = license ∷ [];
    subscriptions = record (until 20) { order_id = some 6 } ∷ [];
  };
}

activate_license-Refuses_example :
    Refuses licensed.db
      (activate_license trusting settings (user_with 11) "KORI-1234" none (day 15) licensed)
unfolding license_by_hash
activate_license-Refuses_example =
    activate_license-Refuses trusting settings (user_with 11) "KORI-1234" none (day 15) licensed
      license refl (inl (λ k. ground arith))

activate_license-one_user_example :
    let w' =
      (activate_license trusting settings
        (user_with 10)
        "KORI-9999"
        none
        (day 15)
        (world_with [])).1 in
    Refuses w'.db (activate_license trusting settings (user_with 11) "KORI-9999" none (day 16) w')
unfolding activate_license chatfolio_backend.Licensing.ensure_attempt_budget
    chatfolio_backend.Licensing.failures chatfolio_backend.Quota.send
    chatfolio_backend.Models.Redis.command license_by_hash
    chatfolio_backend.Licensing.Activate.known_or_new
    chatfolio_backend.Licensing.Activate.activate_new
    chatfolio_backend.Licensing.Activate.sellable_plans
    chatfolio_backend.Licensing.Activate.resolve_plan chatfolio_backend.Licensing.Activate.accept
    chatfolio_backend.Licensing.Activate.too_old chatfolio_backend.Licensing.Activate.claim
    chatfolio_backend.Licensing.Activate.add_license
    chatfolio_backend.Licensing.Activate.new_license
    chatfolio_backend.Billing.Grant.grant_from_purchase
    chatfolio_backend.Billing.Grant.cancel_active chatfolio_backend.Billing.Grant.add_order
    chatfolio_backend.Billing.Grant.add_subscription chatfolio_backend.Billing.Grant.clashes
activate_license-one_user_example =
    activate_license-one_user trusting settings (user_with 10) (user_with 11) "KORI-9999" none none
      (day 15) (day 16) (world_with []) (λ k. ground arith) refl

unreachable-IsUnreachable : IsUnreachable unreachable
unfolding IsUnreachable
unreachable-IsUnreachable key ref = ("", refl)

abbrev nothing_yet : Outcome
nothing_yet = record { still_valid = 0; revoked = 0; unknown = 0 }

revalidate_all-outage_example :
    revalidate_all unreachable (day 15) (license ∷ license ∷ []) nothing_yet licensed
    ≡ (ok (record nothing_yet { unknown = 2 }), licensed)
revalidate_all-outage_example =
    revalidate_all-outage unreachable (day 15) (license ∷ license ∷ []) nothing_yet licensed
      unreachable-IsUnreachable (("KORI-1234", refl), (("KORI-1234", refl), tt))

-- A seller whose answers make no sense: the second license of the batch ends the job.
abbrev broken : Outside
broken = record trusting { verify = λ key ref. err runtime }

revalidate_all-aborts :
    revalidate_all broken (day 15) (license ∷ license ∷ []) nothing_yet licensed
    ≡ (err runtime, licensed)
unfolding revalidate_all chatfolio_backend.Licensing.Revoke.revalidate_license
revalidate_all-aborts = refl

abbrev free_now : Entitlements
free_now = record {
  plan_slug = "free";
  plan_name = "Free";
  source = free;
  subscription_expires_at = none;
  valid_until = none;
  values =
      (FeatureKey.links_max, record { int_value = some (pos 1); bool_value = none; period = none })
      ∷ [];
}

empty-IsCoherent : IsCoherent (db_with []) (day 15) redis
empty-IsCoherent = record { past = λ u e h. cc; no_future = λ v u h. refl }

guard_consume_example :
    let k = quota_key 10 FeatureKey.recruiter_chats_limit free_now (day 15) in
    let spec =
      spec_consume k
        (limit free_now FeatureKey.recruiter_chats_limit)
        1
        (db_used k (world_with [])) in
    ((guard_consume 10 FeatureKey.recruiter_chats_limit 1 (day 15) (world_with [])).0
      ≡ as_unit spec.0)
    × (db_used k (guard_consume 10 FeatureKey.recruiter_chats_limit 1 (day 15) (world_with [])).1
        ≡ spec.1)
unfolding chatfolio_backend.Quota.Counters.find resolve default_free_plan
    chatfolio_backend.Entitlements.Resolve.earliest
    chatfolio_backend.Entitlements.Resolve.apply_overrides
    chatfolio_backend.Entitlements.Resolve.expiries
    chatfolio_backend.Entitlements.Resolve.plan_values
guard_consume_example =
    guard_consume_lem 10 FeatureKey.recruiter_chats_limit 1 (day 15) (world_with []) free_now refl
      empty-IsCoherent (inl refl) refl

require_feature_example :
    ((require_feature 10 FeatureKey.remove_badge (day 15) (world_with [])).0 ≡ ok free_now)
    ↔ (enabled free_now FeatureKey.remove_badge ≡ true)
unfolding catalog_version chatfolio_backend.Models.Redis.command resolve default_free_plan
    chatfolio_backend.Entitlements.Resolve.earliest
    chatfolio_backend.Entitlements.Resolve.apply_overrides
    chatfolio_backend.Entitlements.Resolve.expiries
    chatfolio_backend.Entitlements.Resolve.plan_values
require_feature_example =
    require_feature_iff 10 FeatureKey.remove_badge (day 15) (world_with []) free_now
      empty-IsCoherent refl refl

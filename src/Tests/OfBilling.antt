-- ===== src/Tests/OfBilling.antt =====
-- The theorems on subscriptions at concrete inputs.
use chatfolio_backend.Prelude.{◌<◌, ◌≡◌, ◌≢◌, refl, none, some, List, [], ◌∷◌, arith}
use chatfolio_backend.Errors.{Result, ok, err, conflict}
use chatfolio_backend.Time.Calendar.{DateTime, moment, IsValid, days_in_month}
use chatfolio_backend.Models.Billing.{Subscription, StrategyName, Order}
use chatfolio_backend.World.{World}
use chatfolio_backend.Entitlements.Resolve.{active_subscription, resolve}
use chatfolio_backend.Billing.Grant.{active_of, trial_of, grant_from_purchase, expiry_of_term}
use chatfolio_backend.Billing.Trial.{start_trial, commit_and_invalidate}
use chatfolio_backend.Billing.Jobs.{expire_subscriptions_job}
use chatfolio_backend.Billing.OneActive.{IsOneActive}
use chatfolio_backend.Billing.Once.{start_trial-once, start_trial-one_phone, start_trial-stale}
use chatfolio_backend.Billing.Terms.{EndsAt, expiry_of_term-renewal}
use chatfolio_backend.Billing.Purchase.{
  purchased, bought_order, bought_term, grant_from_purchase-resolve,
}
use chatfolio_backend.Billing.Frame.{expire_subscriptions_job-resolve}
use chatfolio_backend.Entitlements.Resolve.{live_overrides}
use chatfolio_backend.Time.Duration.{DurationUnit}
use chatfolio_backend.Billing.Grant.{find_active, cancel_active, same_ref, new_order}
use chatfolio_backend.Tests.Samples.{day, user_with, gold, until, db_with, world_with}

abbrev one_row : List Subscription
one_row = until 20 ∷ []

one_row-IsOneActive : IsOneActive one_row
unfolding IsOneActive
one_row-IsOneActive u = ground arith

day-IsValid : IsValid (day 15)
unfolding days_in_month
day-IsValid = record {
  year_pos = ground arith;
  month_pos = ground arith;
  month_le = ground arith;
  day_pos = ground arith;
  day_le = ground arith;
  micros_lt = ground arith;
}

day20-IsValid : IsValid (day 20)
unfolding days_in_month
day20-IsValid = record {
  year_pos = ground arith;
  month_pos = ground arith;
  month_le = ground arith;
  day_pos = ground arith;
  day_le = ground arith;
  micros_lt = ground arith;
}

start_trial-once_example :
    (start_trial
      (user_with 10)
      "gold"
      (day 26)
      (start_trial (user_with 10) "gold" (day 25) (world_with [])).1).0
    ≢ ok tt
unfolding start_trial chatfolio_backend.Billing.Trial.offers_trial
    chatfolio_backend.Billing.Trial.trial_eligibility_problem
    chatfolio_backend.Billing.Trial.has_verified_phone
    chatfolio_backend.Billing.Grant.add_subscription chatfolio_backend.Billing.Grant.clashes
    chatfolio_backend.Billing.Trial.trial_subscription
start_trial-once_example =
    start_trial-once (user_with 10) "gold" "gold" (day 25) (day 26) (world_with []) refl

start_trial-one_phone_example :
    (start_trial
      (user_with 11)
      "gold"
      (day 26)
      (start_trial (user_with 10) "gold" (day 25) (world_with [])).1).0
    ≢ ok tt
unfolding start_trial chatfolio_backend.Billing.Trial.offers_trial
    chatfolio_backend.Billing.Trial.trial_eligibility_problem
    chatfolio_backend.Billing.Trial.has_verified_phone
    chatfolio_backend.Billing.Grant.add_subscription chatfolio_backend.Billing.Grant.clashes
    chatfolio_backend.Billing.Trial.trial_subscription
start_trial-one_phone_example =
    start_trial-one_phone (user_with 10) (user_with 11) "gold" "gold" (day 25) (day 26)
      (world_with []) refl refl

start_trial-stale_example :
    start_trial (user_with 10) "gold" (day 25) (world_with one_row)
    ≡ (err (conflict "You have already used your free trial."), world_with one_row)
unfolding start_trial chatfolio_backend.Billing.Trial.offers_trial
    chatfolio_backend.Billing.Trial.trial_eligibility_problem
    chatfolio_backend.Billing.Trial.has_verified_phone
    chatfolio_backend.Billing.Trial.phone_had_trial chatfolio_backend.Entitlements.Resolve.grants
    moment
start_trial-stale_example =
    start_trial-stale (user_with 10) "gold" (day 25) (world_with one_row) gold refl refl refl refl

abbrev buy : Result (Order × Subscription) × World
buy =
    grant_from_purchase 10 gold StrategyName.support_kori_license "inv-1" none (day 15)
      (world_with one_row)

expire_subscriptions_job-resolve_example :
    resolve (expire_subscriptions_job (day 25) (db_with one_row)).0 10 (day 26)
    ≡ resolve (db_with one_row) 10 (day 26)
unfolding moment
expire_subscriptions_job-resolve_example =
    expire_subscriptions_job-resolve (db_with one_row) 10 (day 25) (day 26) (ground arith)

expiry_of_term-renewal_example :
    (e : DateTime) × (expiry_of_term gold (day 15) (some (until 20)) ≡ some e)
    × (moment (day 15) < moment e)
    × (moment (day 20) < moment e)
expiry_of_term-renewal_example =
    expiry_of_term-renewal gold (day 15) (day 20) (until 20) refl refl day-IsValid day20-IsValid
      (λ k. cc) (ground arith)

abbrev order_bought : Order
order_bought =
    record (bought_order 10 gold StrategyName.support_kori_license "inv-1" none (day 15)
      (world_with one_row)) { id = 100 }

abbrev term_bought : Subscription
term_bought =
    record (bought_term 10 gold StrategyName.support_kori_license "inv-1" none (day 15)
      (world_with one_row) 100) { id = 101 }

grant_from_purchase-resolve_example :
    (active_subscription
        (purchased 10 gold StrategyName.support_kori_license "inv-1" none
          (day 15)
          (world_with one_row)).db
        10
        (day 28)
      ≡ some term_bought)
    × (term_bought.plan_id ≡ gold.id)
    × EndsAt gold (day 15) (some (until 20)) term_bought.expires_at
    × (term_bought.order_id ≡ some order_bought.id)
unfolding grant_from_purchase chatfolio_backend.Billing.Grant.add_order cancel_active
    chatfolio_backend.Billing.Grant.add_subscription chatfolio_backend.Billing.Grant.clashes
    expiry_of_term chatfolio_backend.Time.Duration.compute_expiry moment
    chatfolio_backend.Time.Duration.add_months find_active days_in_month
grant_from_purchase-resolve_example =
    grant_from_purchase-resolve 10 gold StrategyName.support_kori_license "inv-1" none (day 15)
      (world_with one_row) order_bought term_bought
      (purchased 10 gold StrategyName.support_kori_license "inv-1" none (day 15)
        (world_with one_row))
      (day 28) refl one_row-IsOneActive refl

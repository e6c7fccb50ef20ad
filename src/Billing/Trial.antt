-- ===== src/Billing/Trial.antt =====
-- `BillingService.start_trial` and `_trial_eligibility_problem` (services/billing_service.py).
-- Requests of one user are serialised by a lock, so each runs as one step here.
use chatfolio_backend.Prelude.{
  ℕ, Bool, true, false, ◌&&◌, not, Option, none, some, List, String, str_eq, ◌==◌, leb,
  if◌then◌else◌, first_row, any_row,
}
use chatfolio_backend.Errors.{
  Error, Result, ok, err, integrity, conflict, not_found, phone_verification_required,
}
use chatfolio_backend.Action.{Action}
use chatfolio_backend.Time.Calendar.{DateTime, add_days}
use chatfolio_backend.Models.Users.{User, TwoFactorMethod}
use chatfolio_backend.Models.Billing.{Db, Plan, Subscription, SubscriptionSource}
use chatfolio_backend.World.{World}
use chatfolio_backend.Entitlements.Resolve.{grants}
use chatfolio_backend.Entitlements.Cache.{invalidate}
use chatfolio_backend.Billing.Grant.{is_trial, trial_of, add_subscription, new_subscription}

-- A text that is neither missing nor empty.
abbrev pub given : Option String → Bool
given none = false
given (some s) = not (str_eq s "")

abbrev pub by_phone : Option TwoFactorMethod → Bool
by_phone (some TwoFactorMethod.phone) = true
by_phone (some TwoFactorMethod.both) = true
by_phone _ = false

abbrev pub same_phone : Option String → Option String → Bool
same_phone (some p) (some q) = str_eq p q
same_phone _ _ = false

-- The phone went through the enrolment of the second factor.
unfoldable pub has_verified_phone : User → Bool
has_verified_phone u = given u.phone && u.two_factor_enabled && by_phone u.two_factor_method

-- A trial of any account with this phone number.
unfoldable pub phone_had_trial : Option String → List User → Subscription → Bool
phone_had_trial phone users s =
    is_trial s.source && any_row (λ u. (u.id == s.user_id) && same_phone u.phone phone) users

unfoldable pub trial_eligibility_problem : Db → User → DateTime → Option Error
trial_eligibility_problem db user now =
    if not (has_verified_phone user)
    then some phone_verification_required
    else if any_row (trial_of user.id) db.subscriptions
    then some (conflict "You have already used your free trial.")
    else if any_row (phone_had_trial user.phone db.users) db.subscriptions
    then some (conflict "A free trial was already used with this phone number.")
    else if any_row (grants user.id now) db.subscriptions
    then some (conflict "You already have an active plan.")
    else none

unfoldable pub offers_trial : Plan → Bool
offers_trial p = p.is_active && not p.is_default_free && not (leb p.trial_days 0)

unfoldable pub trial_subscription : User → Plan → DateTime → Subscription
trial_subscription user plan now =
    new_subscription user.id plan SubscriptionSource.trial now (some (add_days plan.trial_days now))
      none

abbrev pub commit_and_invalidate : ℕ → World → World
commit_and_invalidate user w = record w { redis = invalidate user w.redis }

-- The insert, with the handler of `IntegrityError`.
abbrev pub inserted : ℕ → Result Subscription × World → Result (Unit {0}) × World
inserted user (ok _, w) = (ok tt, commit_and_invalidate user w)
inserted user (err integrity, w) = (err (conflict "You have already used your free trial."), w)
inserted user (err e, w) = (err e, w)

abbrev pub or_problem : Option Error → Result (Unit {0}) × World → World → Result (Unit {0}) × World
or_problem none outcome w = outcome
or_problem (some e) outcome w = (err e, w)

unfoldable pub start_with : User → Option Plan → DateTime → Action World (Unit {0})
start_with user none now w = (err (not_found "No free trial is available for this plan."), w)
start_with user (some plan) now w =
    if offers_trial plan
    then or_problem (trial_eligibility_problem w.db user now)
        (inserted user.id (add_subscription (trial_subscription user plan now) w)) w
    else (err (not_found "No free trial is available for this plan."), w)

unfoldable pub start_trial : User → String → DateTime → Action World (Unit {0})
unfolding start_with
start_trial user slug now w = start_with user (first_row (λ p. str_eq p.slug slug) w.db.plans) now w

-- ===== src/Licensing.antt =====
-- License keys (services/billing_service.py): activation, the throttle of wrong keys, revocation
-- and re-validation. The seller's answer and the functions on a key's text are parameters.
pub mod Activate
pub mod Outcomes
pub mod Bound
pub mod Revoke
pub mod Outage
use chatfolio_backend.Prelude.{
  ℕ, ◌+◌, ◌*◌, Bool, true, false, ◌&&◌, not, Option, none, some, List, [], ◌∷◌, String, str_eq,
  ◌==◌, ltb, leb, if◌then◌else◌, first_row, update_rows,
}
use chatfolio_backend.Errors.{Error, Result, ok, err, validation_failed, too_many_requests}
use chatfolio_backend.Action.{Action, pure, raise, raise_if, gets, ◌>>=◌, ◌>>◌}
use chatfolio_backend.Time.Calendar.{DateTime}
use chatfolio_backend.Models.Users.{User}
use chatfolio_backend.Models.Billing.{Db, Plan, License, LicenseStatus, StrategyName, Subscription}
use chatfolio_backend.Models.Redis.{Redis}
use chatfolio_backend.World.{World}
use chatfolio_backend.Quota.{send}
use chatfolio_backend.Entitlements.Resolve.{is_active, unexpired}

-- billing/strategy.py; the seller's raw answer is left out.
pub record PurchaseVerification : Type 0 where
  pub valid : Bool
  pub purchased_at : Option DateTime

-- What an activation is given from outside: whether the seller's strategy is registered, the seller,
-- the digest and the encryption of a key,
-- what Python's `strip` and `[-4:]` give for it, and the settings of the seller.
pub record Outside : Type 0 where
  pub is_registered : Bool
  pub verify : String → String → Result PurchaseVerification
  pub digest : String → String
  pub encrypt : String → String
  pub decrypt : String → Result String
  pub strip : String → String
  pub last4 : String → String
  pub product_id : String
  pub max_failed_attempts_per_hour : ℕ

-- services/billing_settings_service.py
pub record BillingSettings : Type 0 where
  pub enabled_strategies : List StrategyName
  pub max_activation_delay_days : Option ℕ

abbrev pub invalid_license : Error
invalid_license = validation_failed "This license key is not valid."

abbrev pub expired_license : Error
expired_license =
    validation_failed
      "This license has already been used and has expired. Please purchase a new one."

unfoldable pub license_by_hash : String → World → Option License
license_by_hash h w = first_row (λ l. str_eq l.license_key_hash h) w.db.licenses

-- The counter of wrong keys, `billing:failed:{user}`.
unfoldable pub failures : ℕ → List (ℕ × ℕ) → Option ℕ
failures user [] = none
failures user ((u, n) ∷ l) = if u == user then some n else failures user l

unfoldable pub count_failure : ℕ → List (ℕ × ℕ) → List (ℕ × ℕ)
count_failure user [] = (user, 1) ∷ []
count_failure user ((u, n) ∷ l) =
    if u == user then (u, n + 1) ∷ l else (u, n) ∷ count_failure user l

-- A failed read lets the attempt pass.
abbrev pub within_budget : ℕ → Result (Option ℕ) × World → Result (Unit {0}) × World
within_budget most (err _, w) = (ok tt, w)
within_budget most (ok none, w) = (ok tt, w)
within_budget most (ok (some n), w) =
    raise_if (leb most n)
      (too_many_requests "Too many invalid license attempts. Please try again later.") w

unfoldable pub ensure_attempt_budget : Outside → ℕ → Action World (Unit {0})
ensure_attempt_budget x user w =
    within_budget x.max_failed_attempts_per_hour
      (send (λ r. (failures user r.failed_attempts, r)) w)

-- `INCR`; the lifetime of an hour that the first failure sets is the row's going away.
unfoldable pub record_failed_attempt : ℕ → World → World
record_failed_attempt user w =
    (send (λ r. (tt, record r { failed_attempts = count_failure user r.failed_attempts })) w).1

abbrev pub is_live : LicenseStatus → Bool
is_live LicenseStatus.active = true
is_live LicenseStatus.revoked = false

abbrev pub ordered_by : ℕ → Option ℕ → Bool
ordered_by order none = false
ordered_by order (some o) = o == order

abbrev pub still_running : DateTime → Option Subscription → Bool
still_running now none = false
still_running now (some s) = is_active s.status && unexpired now s.expires_at

unfoldable pub existing_license_outcome : License → User → DateTime → Action World (Unit {0})
existing_license_outcome l user now w =
    if not (l.user_id == user.id)
    then (err invalid_license, record_failed_attempt user.id w)
    else if not (is_live l.status)
    then (err invalid_license, w)
    else if still_running now (first_row (λ s. ordered_by l.order_id s.order_id) w.db.subscriptions)
    then (ok tt, w)
    else (err expired_license, w)

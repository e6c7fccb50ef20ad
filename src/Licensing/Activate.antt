-- ===== src/Licensing/Activate.antt =====
-- `activate_license` and its helpers (services/billing_service.py).
use Prim.Native.String.{count}
use chatfolio_backend.Prelude.{
  ℕ, ◌+◌, ◌*◌, Bool, false, ◌&&◌, ◌||◌, not, Option, none, some, List, [], ◌∷◌, String, str_eq, ltb,
  leb, if◌then◌else◌, first_row, where_rows, any_row,
}
use chatfolio_backend.Errors.{
  Result, ok, err, integrity, conflict, not_found, validation_failed, service_unavailable,
}
use chatfolio_backend.Action.{Action, raise_if, gets, lift, ◌>>=◌, ◌>>◌}
use chatfolio_backend.Time.Calendar.{DateTime, instant, day_micros}
use chatfolio_backend.Models.Users.{User}
use chatfolio_backend.Models.Billing.{Plan, License, LicenseStatus, StrategyName}
use chatfolio_backend.World.{World}
use chatfolio_backend.Billing.Grant.{same_strategy, grant_from_purchase}
use chatfolio_backend.Billing.Trial.{commit_and_invalidate}
use chatfolio_backend.Licensing.{
  PurchaseVerification, Outside, BillingSettings, invalid_license, license_by_hash,
  ensure_attempt_budget, record_failed_attempt, existing_license_outcome,
}

abbrev pub seller : StrategyName
seller = StrategyName.support_kori_license

unfoldable pub sellable_plans : World → List Plan
sellable_plans w = where_rows (λ p. p.is_active && p.is_public && not p.is_default_free) w.db.plans

abbrev pub only_plan : List Plan → Result Plan
only_plan (p ∷ []) = ok p
only_plan _ = err (validation_failed "Choose which plan this license is for.")

abbrev pub chosen : Option Plan → Result Plan
chosen none = err (not_found "That plan cannot be activated this way.")
chosen (some p) = ok p

unfoldable pub resolve_plan : Option String → List Plan → Result Plan
resolve_plan none plans = only_plan plans
resolve_plan (some slug) plans = chosen (first_row (λ p. str_eq p.slug slug) plans)

-- `external_product_ref or product_id`
abbrev pub product_ref : Outside → Option String → String
product_ref x none = x.product_id
product_ref x (some r) = if str_eq r "" then x.product_id else r

-- Bought more days ago than the settings allow.
unfoldable pub too_old : Option ℕ → Option DateTime → DateTime → Bool
too_old none bought now = false
too_old (some days) none now = false
too_old (some days) (some bought) now = ltb (instant bought + days * day_micros) (instant now)

unfoldable pub new_license : Outside → String → User → Plan → ℕ → DateTime → License
new_license x key user plan order now = record {
  id = 0;
  license_key_hash = x.digest key;
  license_key_encrypted = x.encrypt key;
  key_last4 = x.last4 key;
  user_id = user.id;
  plan_id = plan.id;
  order_id = order;
  status = LicenseStatus.active;
  validated_at = now;
  last_revalidated_at = none;
}

-- The insert; `license_key_hash` is unique.
unfoldable pub add_license : License → Action World (Unit {0})
add_license l w =
    if any_row (λ m. str_eq m.license_key_hash l.license_key_hash) w.db.licenses
    then (err integrity, w)
    else (
      ok tt,
      record w {
        db = record w.db {
          licenses = record l { id = w.db.next_id } ∷ w.db.licenses;
          next_id = w.db.next_id + 1;
        };
      },
    )

-- The body of the savepoint.
unfoldable pub claim :
    Outside → String → User → Plan → Option DateTime → DateTime → Action World (Unit {0})
claim x key user plan bought now = do
  granted ← grant_from_purchase user.id plan seller (x.digest key) bought now
  add_license (new_license x key user plan granted.0.id now)

abbrev pub raced : Option License → User → DateTime → Action World (Unit {0})
raced none user now w = (err (conflict "Another activation is in progress. Please try again."), w)
raced (some l) user now w = existing_license_outcome l user now w

-- The end of the savepoint: a refused row takes back all that it wrote.
abbrev pub claimed :
    String → User → DateTime → World → Result (Unit {0}) × World → Result (Unit {0}) × World
claimed h user now before (ok _, w) = (ok tt, commit_and_invalidate user.id w)
claimed h user now before (err integrity, w) = raced (license_by_hash h before) user now before
claimed h user now before (err e, w) = (err e, w)

-- What follows the seller's answer.
unfoldable pub accept :
    Outside
    → BillingSettings
    → String
    → User
    → Plan
    → PurchaseVerification
    → DateTime
    → Action World (Unit {0})
accept x settings key user plan v now w =
    if not v.valid
    then (err invalid_license, record_failed_attempt user.id w)
    else if too_old settings.max_activation_delay_days v.purchased_at now
    then (
      err (
          validation_failed
            "This license was bought too long ago to be activated. Please contact support."),
      record_failed_attempt user.id w,
    )
    else claimed (x.digest key) user now w (claim x key user plan v.purchased_at now w)

unfoldable pub activate_new :
    Outside → BillingSettings → String → User → Option String → DateTime → Action World (Unit {0})
activate_new x settings key user slug now = do
  plans ← gets (λ w.
      where_rows (λ p. any_row (same_strategy seller) p.allowed_strategies) (sellable_plans w))
  plan ← lift (resolve_plan slug plans)
  raise_if (str_eq (product_ref x plan.external_product_ref) "")
      (service_unavailable "Activation is not available right now.")
  v ← lift (x.verify key (product_ref x plan.external_product_ref))
  accept x settings key user plan v now

-- Our own records first, then the seller.
unfoldable pub known_or_new :
    Outside
    → BillingSettings
    → String
    → User
    → Option String
    → DateTime
    → Option License
    → Action World (Unit {0})
known_or_new x settings key user slug now (some l) = existing_license_outcome l user now
known_or_new x settings key user slug now none = activate_new x settings key user slug now

unfoldable pub activate_license :
    Outside → BillingSettings → User → String → Option String → DateTime → Action World (Unit {0})
activate_license x settings user license_key slug now = do
  raise_if (not x.is_registered || not (any_row (same_strategy seller) settings.enabled_strategies))
      (not_found "This way of activating a plan is not available.")
  let key = x.strip license_key
  raise_if (not (leb 6 (count key) && leb (count key) 200)) invalid_license
  ensure_attempt_budget x user.id
  existing ← gets (license_by_hash (x.digest key))
  known_or_new x settings key user slug now existing

-- ===== src/Licensing/Bound.antt =====
-- One key, one user: whatever is submitted, a key that was activated belongs to its user for good.
use Prim.Native.String.{count}
use chatfolio_backend.Prelude.{
  ℕ, ◌≡◌, ◌≢◌, refl, sym, ap, ◌∙◌, ◌⊎◌, inl, ◌&&◌, ◌||◌, not, Option, none, some, String, str_eq,
  leb, where_rows, any_row,
}
use chatfolio_backend.Errors.{Result, ok, err, not_found, service_unavailable}
use chatfolio_backend.Action.{Action, lift, raise_if}
use chatfolio_backend.Time.Calendar.{DateTime}
use chatfolio_backend.Models.Users.{User}
use chatfolio_backend.Models.Billing.{License, LicenseStatus}
use chatfolio_backend.World.{World}
use chatfolio_backend.Quota.{send}
use chatfolio_backend.Quota.Tallied.{send-db}
use chatfolio_backend.Billing.Grant.{same_strategy}
use chatfolio_backend.Licensing.{
  Outside, BillingSettings, license_by_hash, invalid_license, within_budget, ensure_attempt_budget,
  existing_license_outcome, failures,
}
use chatfolio_backend.Licensing.Activate.{
  activate_new, known_or_new, activate_license, seller, product_ref, resolve_plan, sellable_plans,
}
use chatfolio_backend.Licensing.Outcomes.{
  Binds, Refuses, proceed-Binds, proceed-Refuses, existing_license_outcome-Refuses,
  existing_license_outcome-Binds, accept-Binds,
}

activate_new-Binds :
    (x : Outside) (settings : BillingSettings) (key : String) (user : User) (slug : Option String)
    (now : DateTime) (w : World)
    → Binds (x.digest key) user (activate_new x settings key user slug now w)
unfolding activate_new
activate_new-Binds x settings key user slug now w =
    proceed-Binds (x.digest key) user
      (lift
        (resolve_plan slug (
          where_rows (λ p. any_row (same_strategy seller) p.allowed_strategies) (sellable_plans w)))
        w)
      _
      (λ plan v.
        proceed-Binds (x.digest key) user
          (raise_if (str_eq (product_ref x plan.external_product_ref) "")
            (service_unavailable "Activation is not available right now.") v)
          _
          (λ _ u.
            proceed-Binds (x.digest key) user
              (lift (x.verify key (product_ref x plan.external_product_ref)) u) _
              (λ answer y. accept-Binds x settings key user plan answer now y)))

known_or_new-Binds :
    (x : Outside) (settings : BillingSettings) (key : String) (user : User) (slug : Option String)
    (now : DateTime) (o : Option License) (w : World)
    → license_by_hash (x.digest key) w ≡ o
    → Binds (x.digest key) user (known_or_new x settings key user slug now o w)
unfolding known_or_new
known_or_new-Binds x settings key user slug now (some l) w e =
    existing_license_outcome-Binds (x.digest key) l user now w e
known_or_new-Binds x settings key user slug now none w e =
    activate_new-Binds x settings key user slug now w

-- The two guards before the budget.
abbrev allowed : Outside → BillingSettings → Action World (Unit {0})
allowed x settings =
    raise_if
      (not x.is_registered || not (any_row (same_strategy seller) settings.enabled_strategies))
      (not_found "This way of activating a plan is not available.")

abbrev long_enough : String → Action World (Unit {0})
long_enough key = raise_if (not (leb 6 (count key) && leb (count key) 200)) invalid_license

within_budget-world : (most : ℕ) (x : Result (Option ℕ) × World) → (within_budget most x).1 ≡ x.1
within_budget-world most (err _, w) = refl
within_budget-world most (ok none, w) = refl
within_budget-world most (ok (some n), w) = refl

budget-db : (x : Outside) (user : ℕ) (w : World) → (ensure_attempt_budget x user w).1.db ≡ w.db
unfolding ensure_attempt_budget
budget-db x user w =
    ap (λ v. v.db)
      (within_budget-world x.max_failed_attempts_per_hour
        (send (λ r. (failures user r.failed_attempts, r)) w))
    ∙ send-db (λ r. (failures user r.failed_attempts, r)) w

-- Every activation that returns leaves the key bound to the user who submitted it, whether the key
-- was new or known.
pub activate_license-Binds :
    (x : Outside) (settings : BillingSettings) (user : User) (text : String) (slug : Option String)
    (now : DateTime) (w : World)
    → Binds (x.digest (x.strip text)) user (activate_license x settings user text slug now w)
unfolding activate_license
activate_license-Binds x settings user text slug now w =
    proceed-Binds (x.digest (x.strip text)) user (allowed x settings w) _ (λ _ v.
      proceed-Binds (x.digest (x.strip text)) user (long_enough (x.strip text) v) _ (λ _ u.
        proceed-Binds (x.digest (x.strip text)) user (ensure_attempt_budget x user.id u) _ (λ _ y.
          known_or_new-Binds x settings (x.strip text) user slug now
            (license_by_hash (x.digest (x.strip text)) y) y refl)))

-- A submitted key whose license belongs to another user, or is revoked, ends in an error, whatever
-- plan is asked for, and no table changes.
pub activate_license-Refuses :
    (x : Outside) (settings : BillingSettings) (user : User) (text : String) (slug : Option String)
    (now : DateTime) (w : World) (l : License)
    → license_by_hash (x.digest (x.strip text)) w ≡ some l
    → (l.user_id ≢ user.id) ⊎ (l.status ≡ LicenseStatus.revoked)
    → Refuses w.db (activate_license x settings user text slug now w)
unfolding activate_license
activate_license-Refuses x settings user text slug now w l known why =
    proceed-Refuses w.db (allowed x settings w) _ refl (λ _ v e.
      proceed-Refuses w.db (long_enough (x.strip text) v) _ e (λ _ u f.
        proceed-Refuses w.db (ensure_attempt_budget x user.id u) _ (budget-db x user.id u ∙ f)
          (λ _ y g. rw (same y g) (still y g))))
  where
    still : (y : World) → y.db ≡ w.db → Refuses w.db (existing_license_outcome l user now y)
    still y g =
        let (refused, kept) = existing_license_outcome-Refuses l user now y why in
        (refused, kept ∙ g)

    by_hash :
        (y : World)
        → y.db ≡ w.db
        → license_by_hash (x.digest (x.strip text)) y ≡ license_by_hash (x.digest (x.strip text)) w
    by_hash y g = unfold license_by_hash in rw (g) refl

    same :
        (y : World)
        → y.db ≡ w.db
        → known_or_new x settings
            (x.strip text)
            user
            slug
            now
            (license_by_hash (x.digest (x.strip text)) y)
          ≡ existing_license_outcome l user now
    same y g =
        ap (known_or_new x settings (x.strip text) user slug now) (by_hash y g ∙ known)
        ∙ (unfold known_or_new in refl)

-- One key, one user. From the state that a user's successful activation leaves, another user's
-- activation of the same key returns an error and changes no table, at any time and for any plan.
pub activate_license-one_user :
    (x : Outside) (settings : BillingSettings) (user other : User) (text : String)
    (slug slug' : Option String) (now now' : DateTime) (w : World)
    → user.id ≢ other.id
    → (activate_license x settings user text slug now w).0 ≡ ok tt
    → let w' = (activate_license x settings user text slug now w).1 in
      Refuses w'.db (activate_license x settings other text slug' now' w')
activate_license-one_user x settings user other text slug slug' now now' w apart done =
    let (l, bound, mine) = activate_license-Binds x settings user text slug now w done in
    activate_license-Refuses x settings other text slug' now'
      (activate_license x settings user text slug now w).1 l bound (inl (λ k. apart (sym mine ∙ k)))

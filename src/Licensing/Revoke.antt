-- ===== src/Licensing/Revoke.antt =====
-- `revoke_license`, `revalidate_license` and `admin_revoke_license` (services/billing_service.py),
-- and the loop of `revalidate_licenses_job` (workers/jobs_billing.py).
use chatfolio_backend.Prelude.{
  ℕ, ◌+◌, ◌≡◌, Bool, true, false, ◌&&◌, ◌||◌, not, Option, none, some, List, [], ◌∷◌, String,
  str_eq, ◌==◌, first_row, any_row, update_first, arith, count_rows, ◌-◌, ◌≤◌, if◌then◌else◌,
}
use chatfolio_backend.Errors.{Result, ok, err, conflict, not_found, service_unavailable, runtime}
use chatfolio_backend.Action.{Action, raise_if, gets, or_raise, modify, ◌>>=◌, ◌>>◌}
use chatfolio_backend.Time.Calendar.{DateTime}
use chatfolio_backend.Models.Billing.{
  Plan, License, LicenseStatus, Order, OrderStatus, Subscription,
}
use chatfolio_backend.World.{World}
use chatfolio_backend.Entitlements.Resolve.{is_active}
use chatfolio_backend.Billing.Grant.{cancel}
use chatfolio_backend.Billing.Trial.{commit_and_invalidate}
use chatfolio_backend.Billing.OneActive.{count-any}
use chatfolio_backend.Licensing.{PurchaseVerification, Outside, is_live, ordered_by}
use chatfolio_backend.Licensing.Activate.{product_ref}

abbrev pub revoked_license : License → License
revoked_license l = record l { status = LicenseStatus.revoked }

abbrev pub revoked_order : Order → Order
revoked_order o = record o { status = OrderStatus.revoked }

-- The active subscription of an order.
abbrev pub active_for : ℕ → Subscription → Bool
active_for order s = ordered_by order s.order_id && is_active s.status

unfoldable pub revoke_license : License → World → World
revoke_license l w = commit_and_invalidate l.user_id (record w {
  db = record w.db {
    licenses = update_first (λ m. m.id == l.id) revoked_license w.db.licenses;
    orders = update_first (λ o. o.id == l.order_id) revoked_order w.db.orders;
    subscriptions = update_first (active_for l.order_id) cancel w.db.subscriptions;
  };
})

-- `plan.external_product_ref if plan else None`
abbrev pub ref_of : Option Plan → Option String
ref_of none = none
ref_of (some p) = p.external_product_ref

unfoldable pub mark_valid : License → DateTime → World → World
mark_valid l now w = record w {
  db = record w.db {
    licenses =
        update_first (λ m. m.id == l.id) (λ m. record m { last_revalidated_at = some now })
          w.db.licenses;
  };
}

-- What is done with the seller's answer.
abbrev pub judged : License → DateTime → Result PurchaseVerification → Action World (Option Bool)
judged l now (err (service_unavailable m)) w = (ok none, w)
judged l now (err e) w = (err e, w)
judged l now (ok v) w =
    if v.valid then (ok (some true), mark_valid l now w) else (ok (some false), revoke_license l w)

-- A key that cannot be decrypted is an exception.
abbrev pub questioned :
    Outside → License → DateTime → String → Result String → Action World (Option Bool)
questioned x l now ref (err e) w = (err e, w)
questioned x l now ref (ok key) w = judged l now (x.verify key ref) w

-- `some true` for a license that is still valid, `some false` for one that was revoked, `none` for
-- an answer that could not be had.
unfoldable pub revalidate_license : Outside → License → DateTime → Action World (Option Bool)
revalidate_license x l now w =
    let ref = product_ref x (ref_of (first_row (λ p. p.id == l.plan_id) w.db.plans)) in
    if str_eq ref "" || not x.is_registered
    then (ok none, w)
    else questioned x l now ref (x.decrypt l.license_key_encrypted) w

unfoldable pub admin_revoke_license : ℕ → Action World (Unit {0})
admin_revoke_license id = do
  l ←
      gets (λ w. first_row (λ m. m.id == id) w.db.licenses)
      >>= or_raise (not_found "License not found.")
  raise_if (not (is_live l.status)) (conflict "This license is already revoked.")
  modify (revoke_license l)

-- How many licenses were found valid, were revoked, or could not be judged.
pub record Outcome : Type 0 where
  pub still_valid : ℕ
  pub revoked : ℕ
  pub unknown : ℕ

abbrev pub tallied : Option Bool → Outcome → Outcome
tallied (some true) o = record o { still_valid = o.still_valid + 1 }
tallied (some false) o = record o { revoked = o.revoked + 1 }
tallied none o = record o { unknown = o.unknown + 1 }

-- After an exception the handler rolls back, and that expires every license the loop still holds. To
-- read the next one outside of an awaited query is an exception, and so it is in the handler.
abbrev pub after_rollback : List License → Outcome → World → Result Outcome × World
after_rollback [] o w = (ok o, w)
after_rollback (l ∷ ls) o w = (err runtime, w)

-- The loop over the licenses that the query selected.
unfoldable pub revalidate_all :
    Outside → DateTime → List License → Outcome → World → Result Outcome × World
revalidate_all x now [] o w = (ok o, w)
revalidate_all x now (l ∷ ls) o w =
    let (r, w') = revalidate_license x l now w in
    elim r [
      | ok answer ↦ revalidate_all x now ls (tallied answer o) w'
      | err e ↦ after_rollback ls (tallied none o) w
    ]

cancelled-count :
    (order : ℕ) (rows : List Subscription)
    → count_rows (active_for order) (update_first (active_for order) cancel rows)
      ≡ count_rows (active_for order) rows - 1
cancelled-count order [] = omega arith
cancelled-count order (s ∷ rows) = ground (arith, cancelled-count order rows)

-- After a revocation no active subscription stems from the license's order, where at most one did.
pub revoke_license-ends :
    (l : License) (w : World)
    → count_rows (active_for l.order_id) w.db.subscriptions ≤ 1
    → any_row (active_for l.order_id) (revoke_license l w).db.subscriptions ≡ false
unfolding revoke_license
revoke_license-ends l w one = ground (
  arith,
  cancelled-count l.order_id w.db.subscriptions,
  count-any (active_for l.order_id)
      (update_first (active_for l.order_id) cancel w.db.subscriptions),
)

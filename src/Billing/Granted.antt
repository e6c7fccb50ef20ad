-- ===== src/Billing/Granted.antt =====
-- What an admin's grant, revocation and override bring about.
use chatfolio_backend.Prelude.{
  ℕ, ◌≡◌, ◌≢◌, refl, ◌⊎◌, inl, inr, true, false, none, some, List, [], ◌∷◌, first_row, any_row,
  arith, Bool-cases, Option-cases,
}
use chatfolio_backend.Errors.{Error, Result, ok, err, integrity, not_found, validation_failed}
use chatfolio_backend.Time.Calendar.{DateTime}
use chatfolio_backend.Models.Billing.{Plan, Subscription, SubscriptionSource}
use chatfolio_backend.World.{World}
use chatfolio_backend.Entitlements.Resolve.{grants, active_subscription}
use chatfolio_backend.Billing.Grant.{
  active_of, clashes, find_active, cancel_active, new_subscription,
}
use chatfolio_backend.Billing.Trial.{commit_and_invalidate}
use chatfolio_backend.Billing.Admin.{
  SubscriptionGrantRequest, find_user, find_plan_by_slug, is_past, granted_expiry, grant, revoke,
}
use chatfolio_backend.Billing.OneActive.{IsOneActive, cancel_active-any}
use chatfolio_backend.Billing.Purchase.{subscribed, add_subscription-free}

no_result : (e : Error) (r : Result (Unit {0})) → r ≡ ok tt → r ≢ err e
no_result e r is h = cc

grants-active :
    (user : ℕ) (t : DateTime) (rows : List Subscription)
    → any_row (active_of user) rows ≡ false
    → first_row (grants user t) rows ≡ none
unfolding grants
grants-active user t [] h = refl
grants-active user t (s ∷ rows) h = ground (arith, grants-active user t rows)

-- A revocation is refused with nothing changed, or it cancels the active subscription.
revoke-cases :
    (user : ℕ) (w : World)
    → ((e : Error) × (revoke user w ≡ (err e, w)))
      ⊎ (revoke user w ≡ (ok tt, commit_and_invalidate user (cancel_active user w)))
unfolding revoke
revoke-cases user w = elim (Option-cases (find_user user w)) [
  | inl e ↦ inl (not_found "User not found.", rw e refl)
  | inr (u, e) ↦ elim (Option-cases (find_active user w)) [
    | inl f ↦ inl (not_found "This user has no active subscription.", rw (e, f) refl)
    | inr (s, f) ↦ inr (rw (e, f) refl)
  ]
]

-- A revocation that returns, from a state with at most one active subscription for each user,
-- leaves the user with no subscription that counts at any time.
pub revoke-free :
    (user : ℕ) (w : World) (t : DateTime)
    → IsOneActive w.db.subscriptions
    → (revoke user w).0 ≡ ok tt
    → active_subscription (revoke user w).1.db user t ≡ none
revoke-free user w t one h = elim (revoke-cases user w) [
  | inl (e, is) ↦ elim (no_result e (revoke user w).0 h (rw is refl)) [ ]
  | inr is ↦ rw is (
      unfold active_subscription in
      grants-active user t (cancel_active user w).db.subscriptions (cancel_active-any user w one))
]

-- The subscription that a grant writes.
abbrev pub granted_row : ℕ → SubscriptionGrantRequest → DateTime → World → Plan → Subscription
granted_row user payload now w plan =
    new_subscription user plan SubscriptionSource.admin_grant now
      (granted_expiry plan now (find_active user w) payload.expires_at) none

module _ (user : ℕ) (payload : SubscriptionGrantRequest) (now : DateTime) (w : World) where
  free :
      (plan : Plan)
      → IsOneActive w.db.subscriptions
      → clashes (granted_row user payload now w plan) (cancel_active user w).db.subscriptions
        ≡ false
  unfolding clashes
  free plan one = rw (cancel_active-any user w one) refl

  -- From a state with at most one active subscription for each user, a grant is refused with
  -- nothing changed, never by the database, or it goes through as a whole; the latter only for a
  -- plan that is active and not the free one, with an end that lies ahead.
  pub grant-cases :
      IsOneActive w.db.subscriptions
      → ((e : Error) × (e ≢ integrity) × (grant user payload now w ≡ (err e, w)))
        ⊎ ((plan : Plan) × (find_plan_by_slug payload.plan_slug w ≡ some plan)
            × (plan.is_default_free ≡ false)
            × (plan.is_active ≡ true)
            × (is_past now payload.expires_at ≡ false)
            × (grant user payload now w ≡ (
              ok tt,
              commit_and_invalidate user
                  (subscribed (granted_row user payload now w plan) (cancel_active user w)),
            )))
  unfolding grant
  grant-cases one = elim (Option-cases (find_user user w)) [
    | inl e ↦ inl (not_found "User not found.", λ k. cc, rw e refl)
    | inr (u, e) ↦ elim (Option-cases (find_plan_by_slug payload.plan_slug w)) [
      | inl f ↦ inl (not_found "Plan not found.", λ k. cc, rw (e, f) refl)
      | inr (plan, f) ↦ elim (Bool-cases plan.is_default_free) [
        | inl g ↦ inl (
          validation_failed "The free plan needs no subscription — revoke the current one instead.",
          λ k. cc,
          rw (e, f, g) refl,
        )
        | inr g ↦ elim (Bool-cases plan.is_active) [
          | inr i ↦ inl (
            validation_failed "This plan is inactive and cannot be granted.",
            λ k. cc,
            rw (e, f, g, i) refl,
          )
          | inl i ↦ elim (Bool-cases (is_past now payload.expires_at)) [
            | inl p ↦ inl (
              validation_failed "expires_at must be in the future.",
              λ k. cc,
              rw (e, f, g, i, p) refl,
            )
            | inr p ↦ inr (
              plan,
              f,
              g,
              i,
              p,
              rw (e, f) simp (g, i, p) rw
                  (add_subscription-free (granted_row user payload now w plan)
                    (cancel_active user w) (free plan one))
                  refl,
            )
          ]
        ]
      ]
    ]
  ]

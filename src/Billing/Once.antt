-- ===== src/Billing/Once.antt =====
-- The free trial: once for a user and once for a phone number.
use chatfolio_backend.Prelude.{
  ◌≡◌, ◌≢◌, refl, ◌⊎◌, inl, inr, true, false, ◌&&◌, Option, none, some, String, str_eq, ◌==◌,
  first_row, any_row, arith, Bool-cases, Option-cases,
}
use chatfolio_backend.Errors.{Error, Result, ok, err, integrity, conflict, not_found}
use chatfolio_backend.Time.Calendar.{DateTime}
use chatfolio_backend.Models.Users.{User}
use chatfolio_backend.Models.Billing.{Db, Plan, Subscription}
use chatfolio_backend.World.{World}
use chatfolio_backend.Billing.Grant.{trial_of, active_of, clashes, add_subscription}
use chatfolio_backend.Billing.Trial.{
  has_verified_phone, same_phone, phone_had_trial, trial_eligibility_problem, offers_trial,
  trial_subscription, commit_and_invalidate, start_with, start_trial,
}
use chatfolio_backend.Billing.OneActive.{
  IsOneActive, IsOneTrial, add_subscription-IsOneActive, add_subscription-IsOneTrial,
}
use chatfolio_backend.Billing.Purchase.{subscribed, add_subscription-free}

abbrev no_offer : Error
no_offer = not_found "No free trial is available for this plan."

abbrev used_up : Error
used_up = conflict "You have already used your free trial."

no_result : (e : Error) (r : Result (Unit {0})) → r ≡ ok tt → r ≢ err e
no_result e r is h = cc

module _ (user : User) (slug : String) (now : DateTime) (w : World) where
  abbrev asked : Option Plan
  asked = first_row (λ p. str_eq p.slug slug) w.db.plans

  abbrev row : Plan → Subscription
  row plan = trial_subscription user plan now

  add-cases :
      (s : Subscription)
      → ((clashes s w.db.subscriptions ≡ true) × (add_subscription s w ≡ (err integrity, w)))
        ⊎ ((clashes s w.db.subscriptions ≡ false)
            × (add_subscription s w ≡ (ok (record s { id = w.db.next_id }), subscribed s w)))
  unfolding add_subscription
  add-cases s = elim (Bool-cases (clashes s w.db.subscriptions)) [
    | inl e ↦ inl (e, rw e refl)
    | inr e ↦ inr (e, rw e refl)
  ]

  -- All that can happen: an error with nothing written, or the trial with the cache's row dropped.
  pub start_trial-cases :
      ((e : Error) × (start_trial user slug now w ≡ (err e, w)))
      ⊎ ((plan : Plan) × (asked ≡ some plan)
          × (offers_trial plan ≡ true)
          × (trial_eligibility_problem w.db user now ≡ none)
          × (clashes (row plan) w.db.subscriptions ≡ false)
          × (start_trial user slug now w
              ≡ (ok tt, commit_and_invalidate user.id (subscribed (row plan) w))))
  unfolding start_trial start_with
  start_trial-cases = go asked refl
    where
      go :
          (o : Option Plan)
          → asked ≡ o
          → ((e : Error) × (start_trial user slug now w ≡ (err e, w)))
            ⊎ ((plan : Plan) × (asked ≡ some plan)
                × (offers_trial plan ≡ true)
                × (trial_eligibility_problem w.db user now ≡ none)
                × (clashes (row plan) w.db.subscriptions ≡ false)
                × (start_trial user slug now w
                    ≡ (ok tt, commit_and_invalidate user.id (subscribed (row plan) w))))
      go none h = inl (no_offer, rw h refl)
      go (some plan) h = elim (Bool-cases (offers_trial plan)) [
        | inr not_offered ↦ inl (no_offer, rw (h, start_with, not_offered) refl)
        | inl offers ↦ elim (Option-cases (trial_eligibility_problem w.db user now)) [
          | inr (e, problem) ↦ inl (e, rw (h, start_with, offers, problem) refl)
          | inl fine ↦ elim (add-cases (row plan)) [
            | inl (_, a) ↦ inl (used_up, rw (h, start_with, offers, fine, a) refl)
            | inr (free, a) ↦
                inr (plan, h, offers, fine, free, rw (h, start_with, offers, fine, a) refl)
          ]
        ]
      ]

  -- A trial that does not start writes nothing: neither a row nor the cache.
  pub start_trial-err :
      (e : Error) → (start_trial user slug now w).0 ≡ err e → (start_trial user slug now w).1 ≡ w
  start_trial-err e h = elim start_trial-cases [
    | inl (_, is) ↦ rw is refl
    | inr (_, _, _, _, _, is) ↦
        elim (no_result e (start_trial user slug now w).0 (rw is refl) h) [ ]
  ]

  -- A call for a trial, whatever its outcome, leaves at most one active subscription and at most
  -- one trial for each user where that was so before.
  pub start_trial-rules :
      IsOneActive w.db.subscriptions
      → IsOneTrial w.db.subscriptions
      → IsOneActive (start_trial user slug now w).1.db.subscriptions
        × IsOneTrial (start_trial user slug now w).1.db.subscriptions
  start_trial-rules one trial = elim start_trial-cases [
    | inl (_, is) ↦ rw is (one, trial)
    | inr (plan, _, _, _, free, is) ↦ rw is (
      rw (add_subscription-free (row plan) w free) at
          (add_subscription-IsOneActive (row plan) w one),
      rw (add_subscription-free (row plan) w free) at
          (add_subscription-IsOneTrial (row plan) w trial),
    )
  ]

-- A stored trial stands in the way of another, for its user and for its phone number.
problem-same_user :
    (db : Db) (user : User) (now : DateTime)
    → any_row (trial_of user.id) db.subscriptions ≡ true
    → trial_eligibility_problem db user now ≢ none
unfolding trial_eligibility_problem
problem-same_user db user now h = elim (Bool-cases (has_verified_phone user)) [
  | inl e ↦ rw (e, h) (λ k. cc)
  | inr e ↦ rw e (λ k. cc)
]

problem-same_phone :
    (db : Db) (user : User) (now : DateTime)
    → any_row (phone_had_trial user.phone db.users) db.subscriptions ≡ true
    → trial_eligibility_problem db user now ≢ none
unfolding trial_eligibility_problem
problem-same_phone db user now h = elim (Bool-cases (has_verified_phone user)) [
  | inl e ↦ elim (Bool-cases (any_row (trial_of user.id) db.subscriptions)) [
    | inl t ↦ rw (e, t) (λ k. cc)
    | inr t ↦ rw (e, t, h) (λ k. cc)
  ]
  | inr e ↦ rw e (λ k. cc)
]

-- One trial for a user: from the state that a started trial leaves, no other trial of the user
-- starts, of any plan, at any time.
pub start_trial-once :
    (user : User) (slug slug' : String) (now now' : DateTime) (w : World)
    → (start_trial user slug now w).0 ≡ ok tt
    → (start_trial user slug' now' (start_trial user slug now w).1).0 ≢ ok tt
start_trial-once user slug slug' now now' w h k = elim (start_trial-cases user slug now w) [
  | inl (e, is) ↦ no_result e (start_trial user slug now w).0 h (rw is refl)
  | inr (plan, _, _, _, _, is) ↦
      elim (start_trial-cases user slug' now' (start_trial user slug now w).1) [
        | inl (e, later) ↦ no_result e _ k (rw later refl)
        | inr (_, _, _, fine, _, _) ↦
            problem-same_user _ user now' (trial_there user plan now w) (rw is at fine)
      ]
]
  where
    trial_there :
        (u : User) (p : Plan) (t : DateTime) (v : World)
        → any_row
            (trial_of u.id)
            (commit_and_invalidate u.id (subscribed (row u slug t v p) v)).db.subscriptions
          ≡ true
    trial_there u p t v = unfold trial_subscription in ground arith

-- One trial for a phone number: from the state that a started trial leaves, no trial starts for a
-- user with the phone number that the first user's row has.
pub start_trial-one_phone :
    (user other : User) (slug slug' : String) (now now' : DateTime) (w : World)
    → any_row (λ u. (u.id == user.id) && same_phone u.phone other.phone) w.db.users ≡ true
    → (start_trial user slug now w).0 ≡ ok tt
    → (start_trial other slug' now' (start_trial user slug now w).1).0 ≢ ok tt
start_trial-one_phone user other slug slug' now now' w same h k =
    elim (start_trial-cases user slug now w) [
      | inl (e, is) ↦ no_result e (start_trial user slug now w).0 h (rw is refl)
      | inr (plan, _, _, _, _, is) ↦
          elim (start_trial-cases other slug' now' (start_trial user slug now w).1) [
            | inl (e, later) ↦ no_result e _ k (rw later refl)
            | inr (_, _, _, fine, _, _) ↦
                problem-same_phone _ other now' (trial_there user plan now w same) (rw is at fine)
          ]
    ]
  where
    trial_there :
        (u : User) (p : Plan) (t : DateTime) (v : World)
        → any_row (λ x. (x.id == u.id) && same_phone x.phone other.phone) v.db.users ≡ true
        → any_row
            (phone_had_trial other.phone v.db.users)
            (commit_and_invalidate u.id (subscribed (row u slug t v p) v)).db.subscriptions
          ≡ true
    trial_there u p t v m = unfold trial_subscription phone_had_trial in rw m refl

-- A user who passes every check for a plan that offers a trial, but has a row that is still marked
-- active, gets the error of a used trial, and nothing changes. Such a row is one whose end has
-- passed and that the expiry job has not seen yet.
pub start_trial-stale :
    (user : User) (slug : String) (now : DateTime) (w : World) (plan : Plan)
    → first_row (λ p. str_eq p.slug slug) w.db.plans ≡ some plan
    → offers_trial plan ≡ true
    → trial_eligibility_problem w.db user now ≡ none
    → any_row (active_of user.id) w.db.subscriptions ≡ true
    → start_trial user slug now w ≡ (err (conflict "You have already used your free trial."), w)
unfolding start_trial start_with add_subscription
start_trial-stale user slug now w plan found offers fine stale =
    rw (found, start_with, offers, fine, clash) refl
  where
    clash : clashes (row user slug now w plan) w.db.subscriptions ≡ true
    clash = unfold clashes trial_subscription in rw stale refl

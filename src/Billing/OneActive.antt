-- ===== src/Billing/OneActive.antt =====
-- The partial unique index `uq_subscriptions_one_active_per_user`, and what it is for: every
-- change of the table leaves a user at most one active subscription.
use chatfolio_backend.Prelude.{
  ℕ, ◌-◌, ◌≤◌, ◌≡◌, refl, Bool, false, not, List, [], ◌∷◌, ◌==◌, if◌then◌else◌, any_row,
  update_first, update_rows, count_rows, arith,
}
use chatfolio_backend.Time.Calendar.{DateTime}
use chatfolio_backend.Models.Billing.{Db, Subscription}
use chatfolio_backend.World.{World}
use chatfolio_backend.Billing.Grant.{
  active_of, trial_of, cancel, clashes, add_subscription, cancel_active,
}
use chatfolio_backend.Billing.Jobs.{lapsed, expire, expire_subscriptions_job}

-- At most one active subscription for each user.
unfoldable pub IsOneActive : List Subscription → Type 0
IsOneActive rows = (user : ℕ) → count_rows (active_of user) rows ≤ 1

-- At most one trial ever for each user.
unfoldable pub IsOneTrial : List Subscription → Type 0
IsOneTrial rows = (user : ℕ) → count_rows (trial_of user) rows ≤ 1

pub count-any {ℓ} :
    {A : Type ℓ} (p : A → Bool) (rows : List A) → any_row p rows ≡ not (count_rows p rows == 0)
count-any p [] = ground arith
count-any p (x ∷ rows) = ground (arith, count-any p rows)

count-cancel :
    (user u : ℕ) (rows : List Subscription)
    → count_rows (active_of u) (update_first (active_of user) cancel rows)
      ≡ count_rows (active_of u) rows - (if user == u then 1 else 0)
count-cancel user u [] = ground arith
count-cancel user u (s ∷ rows) = ground (arith, count-cancel user u rows)

trials-cancel :
    (user u : ℕ) (rows : List Subscription)
    → count_rows (trial_of u) (update_first (active_of user) cancel rows)
      ≡ count_rows (trial_of u) rows
trials-cancel user u [] = refl
trials-cancel user u (s ∷ rows) = ground (arith, trials-cancel user u rows)

count-expire :
    (now : DateTime) (u : ℕ) (rows : List Subscription)
    → count_rows (active_of u) (update_rows (lapsed now) expire rows)
      ≤ count_rows (active_of u) rows
count-expire now u [] = omega arith
count-expire now u (s ∷ rows) = ground (arith, count-expire now u rows)

pub cancel_active-IsOneActive :
    (user : ℕ) (w : World)
    → IsOneActive w.db.subscriptions
    → IsOneActive (cancel_active user w).db.subscriptions
unfolding cancel_active IsOneActive
cancel_active-IsOneActive user w one u =
    omega (arith, one u, count-cancel user u w.db.subscriptions)

-- Where there was one active subscription at most, none is left.
pub cancel_active-any :
    (user : ℕ) (w : World)
    → IsOneActive w.db.subscriptions
    → any_row (active_of user) (cancel_active user w).db.subscriptions ≡ false
unfolding cancel_active IsOneActive
cancel_active-any user w one = ground (
  arith,
  one user,
  count-cancel user user w.db.subscriptions,
  count-any (active_of user) (update_first (active_of user) cancel w.db.subscriptions),
)

-- The index at work: an insert that would break the rule raises, and any other keeps it.
pub add_subscription-IsOneActive :
    (s : Subscription) (w : World)
    → IsOneActive w.db.subscriptions
    → IsOneActive (add_subscription s w).1.db.subscriptions
unfolding add_subscription IsOneActive clashes
add_subscription-IsOneActive s w one u =
    ground (arith, one u, count-any (active_of s.user_id) w.db.subscriptions)

-- The same of the trials.
pub add_subscription-IsOneTrial :
    (s : Subscription) (w : World)
    → IsOneTrial w.db.subscriptions
    → IsOneTrial (add_subscription s w).1.db.subscriptions
unfolding add_subscription IsOneTrial clashes
add_subscription-IsOneTrial s w one u =
    ground (arith, one u, count-any (trial_of s.user_id) w.db.subscriptions)

pub cancel_active-IsOneTrial :
    (user : ℕ) (w : World)
    → IsOneTrial w.db.subscriptions
    → IsOneTrial (cancel_active user w).db.subscriptions
unfolding cancel_active IsOneTrial
cancel_active-IsOneTrial user w one u =
    omega (arith, one u, trials-cancel user u w.db.subscriptions)

-- The housekeeping job keeps the rule.
pub expire_subscriptions_job-IsOneActive :
    (now : DateTime) (db : Db)
    → IsOneActive db.subscriptions
    → IsOneActive (expire_subscriptions_job now db).0.subscriptions
unfolding expire_subscriptions_job IsOneActive
expire_subscriptions_job-IsOneActive now db one u =
    omega (arith, one u, count-expire now u db.subscriptions)

-- ===== src/Billing/Frame.antt =====
-- What the changes of subscriptions leave alone: the entitlements of other users, and those that
-- lie ahead when the housekeeping job runs.
use chatfolio_backend.Prelude.{
  ℕ, ◌≤◌, ◌≡◌, ◌≢◌, refl, true, false, Option, none, some, List, [], ◌∷◌, first_row, update_first,
  update_rows, arith, Bool-cases, inl, inr,
}
use chatfolio_backend.Time.Calendar.{DateTime, moment}
use chatfolio_backend.Models.Billing.{Db, Subscription}
use chatfolio_backend.World.{World}
use chatfolio_backend.Entitlements.Resolve.{
  grants, active_subscription, live_overrides, plan_of, default_free_plan, assemble, resolve,
}
use chatfolio_backend.Billing.Grant.{active_of, cancel, cancel_active, add_subscription}
use chatfolio_backend.Billing.Jobs.{lapsed, expire, expire_subscriptions_job}

-- Resolving reads the plans, the overrides and the subscription that counts.
pub resolve-reads :
    (db db' : Db) (user : ℕ) (t : DateTime)
    → db.plans ≡ db'.plans
    → db.overrides ≡ db'.overrides
    → active_subscription db user t ≡ active_subscription db' user t
    → resolve db user t ≡ resolve db' user t
unfolding resolve
resolve-reads db db' user t plans overrides same =
    rw (same, assemble-reads (active_subscription db' user t) (live_overrides db user t), live) refl
  where
    live : live_overrides db user t ≡ live_overrides db' user t
    live = unfold live_overrides in rw (overrides) refl

    assemble-reads : (o : Option Subscription) (l : _) → assemble db o l ≡ assemble db' o l
    assemble-reads (some s) l = unfold assemble plan_of in rw (plans) refl
    assemble-reads none l = unfold assemble default_free_plan in rw (plans) refl

cancel-other :
    (user other : ℕ) (t : DateTime) (rows : List Subscription)
    → user ≢ other
    → first_row (grants other t) (update_first (active_of user) cancel rows)
      ≡ first_row (grants other t) rows
unfolding grants
cancel-other user other t [] h = refl
cancel-other user other t (s ∷ rows) h = ground (arith, cancel-other user other t rows h)

pub cancel_active-other :
    (user other : ℕ) (t : DateTime) (w : World)
    → user ≢ other
    → resolve (cancel_active user w).db other t ≡ resolve w.db other t
unfolding cancel_active
cancel_active-other user other t w h =
    resolve-reads _ w.db other t refl refl
      (unfold active_subscription in cancel-other user other t w.db.subscriptions h)

pub add_subscription-other :
    (s : Subscription) (other : ℕ) (t : DateTime) (w : World)
    → s.user_id ≢ other
    → resolve (add_subscription s w).1.db other t ≡ resolve w.db other t
unfolding add_subscription
add_subscription-other s other t w h =
    resolve-reads _ w.db other t (ground arith) (ground arith)
      (unfold active_subscription grants in ground arith)

expire-one :
    (now t : DateTime) (user : ℕ) (s : Subscription)
    → moment now ≤ moment t
    → lapsed now s ≡ true
    → (grants user t s ≡ false) × (grants user t (expire s) ≡ false)
unfolding grants
expire-one now t user s h over = (past s.expires_at refl, ground arith)
  where
    past : (o : Option DateTime) → s.expires_at ≡ o → grants user t s ≡ false
    past none e = ground arith
    past (some d) e = ground arith

expire-ahead :
    (now t : DateTime) (user : ℕ) (rows : List Subscription)
    → moment now ≤ moment t
    → first_row (grants user t) (update_rows (lapsed now) expire rows)
      ≡ first_row (grants user t) rows
expire-ahead now t user [] h = refl
expire-ahead now t user (s ∷ rows) h = elim (Bool-cases (lapsed now s)) [
  | inl over ↦
      let (before, after) = expire-one now t user s h over in
      rw (over, before, after) (expire-ahead now t user rows h)
  | inr not_over ↦ rw (not_over, expire-ahead now t user rows h) refl
]

-- The expiry job is housekeeping: at any time from its run on, every user resolves as if it had not
-- run.
pub expire_subscriptions_job-resolve :
    (db : Db) (user : ℕ) (now t : DateTime)
    → moment now ≤ moment t
    → resolve (expire_subscriptions_job now db).0 user t ≡ resolve db user t
unfolding expire_subscriptions_job
expire_subscriptions_job-resolve db user now t h =
    resolve-reads _ db user t refl refl
      (unfold active_subscription in expire-ahead now t user db.subscriptions h)

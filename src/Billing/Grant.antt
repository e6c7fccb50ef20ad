-- ===== src/Billing/Grant.antt =====
-- The rows that a purchase writes: `BillingService.grant_from_purchase`
-- (services/billing_service.py) and the constraints of the tables that it writes to.
use chatfolio_backend.Prelude.{
  ℕ, ◌+◌, Bool, true, false, ◌&&◌, ◌||◌, Option, none, some, List, ◌∷◌, String, str_eq, ◌==◌, ltb,
  if◌then◌else◌, first_row, any_row, update_first,
}
use chatfolio_backend.Errors.{ok, err, integrity}
use chatfolio_backend.Action.{Action, pure, modify, gets, ◌>>=◌, ◌>>◌}
use chatfolio_backend.Time.Calendar.{DateTime, moment}
use chatfolio_backend.Time.Duration.{compute_expiry}
use chatfolio_backend.Models.Billing.{
  Plan, Subscription, SubscriptionStatus, SubscriptionSource, StrategyName, Order, OrderStatus,
}
use chatfolio_backend.World.{World}
use chatfolio_backend.Entitlements.Resolve.{is_active}

abbrev pub is_trial : SubscriptionSource → Bool
is_trial SubscriptionSource.trial = true
is_trial _ = false

-- `user_id = user AND status = 'active'`
abbrev pub active_of : ℕ → Subscription → Bool
active_of user s = (s.user_id == user) && is_active s.status

abbrev pub trial_of : ℕ → Subscription → Bool
trial_of user s = (s.user_id == user) && is_trial s.source

-- `uq_subscriptions_one_active_per_user` and `uq_subscriptions_one_trial_per_user`
unfoldable pub clashes : Subscription → List Subscription → Bool
clashes s rows =
    (is_active s.status && any_row (active_of s.user_id) rows)
    || (is_trial s.source && any_row (trial_of s.user_id) rows)

-- `session.add(subscription)` and a flush. The row gets the next id.
unfoldable pub add_subscription : Subscription → Action World Subscription
add_subscription s w =
    let row : Subscription = record s { id = w.db.next_id } in
    if clashes s w.db.subscriptions then (err integrity, w) else (
      ok row,
      record w {
        db = record w.db { subscriptions = row ∷ w.db.subscriptions; next_id = w.db.next_id + 1 };
      },
    )

abbrev pub same_strategy : StrategyName → StrategyName → Bool
same_strategy StrategyName.support_kori_license StrategyName.support_kori_license = true
same_strategy StrategyName.native_gateway StrategyName.native_gateway = true
same_strategy _ _ = false

-- `UNIQUE(strategy, external_ref)`
abbrev pub same_ref : Order → Order → Bool
same_ref o p = same_strategy p.strategy o.strategy && str_eq p.external_ref o.external_ref

unfoldable pub add_order : Order → Action World Order
add_order o w =
    let row : Order = record o { id = w.db.next_id } in
    if any_row (same_ref o) w.db.orders then (err integrity, w) else (
      ok row,
      record w { db = record w.db { orders = row ∷ w.db.orders; next_id = w.db.next_id + 1 } },
    )

abbrev pub cancel : Subscription → Subscription
cancel s = record s { status = SubscriptionStatus.cancelled }

-- The read of the active subscription, and its cancellation where there is one.
unfoldable pub find_active : ℕ → World → Option Subscription
find_active user w = first_row (active_of user) w.db.subscriptions

unfoldable pub cancel_active : ℕ → World → World
cancel_active user w = record w {
  db = record w.db { subscriptions = update_first (active_of user) cancel w.db.subscriptions };
}

-- A term of the plan that the user already has begins when the current one ends.
unfoldable pub start_of_term : Plan → DateTime → Option Subscription → DateTime
start_of_term plan now none = now
start_of_term plan now (some s) = elim s.expires_at [
  | none ↦ now
  | some end ↦ if (s.plan_id == plan.id) && ltb (moment now) (moment end) then end else now
]

unfoldable pub expiry_of_term : Plan → DateTime → Option Subscription → Option DateTime
unfolding start_of_term
expiry_of_term plan now active =
    compute_expiry (start_of_term plan now active) plan.duration_unit plan.duration_count

-- `SubscriptionSource(strategy.value)`
abbrev pub source_for : StrategyName → SubscriptionSource
source_for StrategyName.support_kori_license = SubscriptionSource.support_kori_license
source_for StrategyName.native_gateway = SubscriptionSource.native_gateway

abbrev pub new_subscription :
    ℕ → Plan → SubscriptionSource → DateTime → Option DateTime → Option ℕ → Subscription
new_subscription user plan source now expires order = record {
  id = 0;
  user_id = user;
  plan_id = plan.id;
  status = SubscriptionStatus.active;
  source = source;
  starts_at = now;
  expires_at = expires;
  order_id = order;
  reminder_sent_at = none;
}

abbrev pub new_order : ℕ → Plan → StrategyName → String → Option DateTime → Order
new_order user plan strategy ref purchased_at = record {
  id = 0;
  user_id = user;
  plan_id = plan.id;
  strategy = strategy;
  external_ref = ref;
  status = OrderStatus.paid;
  amount_minor = plan.price_minor;
  currency = plan.currency;
  purchased_at = purchased_at;
}

-- The seller's raw answer, kept for audit, is left out of the order.
unfoldable pub grant_from_purchase :
    ℕ
    → Plan
    → StrategyName
    → String
    → Option DateTime
    → DateTime
    → Action World (Order × Subscription)
grant_from_purchase user plan strategy ref purchased_at now = do
  active ← gets (find_active user)
  let expires_at = expiry_of_term plan now active
  modify (cancel_active user)
  order ← add_order (new_order user plan strategy ref purchased_at)
  subscription ←
      add_subscription
        (new_subscription user plan (source_for strategy) now expires_at (some order.id))
  pure (order, subscription)

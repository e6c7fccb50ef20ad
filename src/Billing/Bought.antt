-- ===== src/Billing/Bought.antt =====
-- The rows that a purchase leaves: `grant_from_purchase` (services/billing_service.py).
use chatfolio_backend.Prelude.{
  ℕ, ◌≡◌, Bool, ◌&&◌, List, ◌∷◌, String, str_eq, ◌==◌, any_row, update_rows,
}
use chatfolio_backend.Errors.{Result, ok, err, integrity}
use chatfolio_backend.Models.Billing.{
  Plan, Subscription, SubscriptionStatus, StrategyName, Order, OrderStatus,
}
use chatfolio_backend.World.{World}
use chatfolio_backend.Entitlements.Resolve.{is_active}
use chatfolio_backend.Billing.Grant.{same_strategy}

-- The subscriptions, with those of the user that were active cancelled.
abbrev pub without_active : ℕ → List Subscription → List Subscription
without_active user rows =
    update_rows (λ r. (r.user_id == user) && is_active r.status)
      (λ r. record r { status = SubscriptionStatus.cancelled }) rows

-- A paid order of the plan at its price.
pub record IsSale (user : ℕ) (plan : Plan) (strategy : StrategyName) (ref : String) (o : Order)
    : Type 0 where
  pub buyer : o.user_id ≡ user
  pub item : o.plan_id ≡ plan.id
  pub channel : o.strategy ≡ strategy
  pub reference : o.external_ref ≡ ref
  pub paid : o.status ≡ OrderStatus.paid
  pub amount : o.amount_minor ≡ plan.price_minor
  pub money : o.currency ≡ plan.currency

-- An order of the strategy has the reference.
abbrev pub is_used : StrategyName → String → List Order → Bool
is_used strategy ref orders =
    any_row (λ p. same_strategy p.strategy strategy && str_eq p.external_ref ref) orders

-- The rows after a purchase that was refused, and after one that returned.
abbrev pub Refused : ℕ → World → Result (Order × Subscription) × World → Type 0
Refused user w (r, v) =
    (r ≡ err integrity)
    × (v.db.orders ≡ w.db.orders)
    × (v.db.subscriptions ≡ without_active user w.db.subscriptions)

abbrev pub Sold :
    ℕ → Plan → StrategyName → String → World → Result (Order × Subscription) × World → Type 0
Sold user plan strategy ref w (r, v) =
    (o : Order) × (s : Subscription) × (r ≡ ok (o, s))
    × IsSale user plan strategy ref o
    × (v.db.orders ≡ o ∷ w.db.orders)
    × (v.db.subscriptions ≡ s ∷ without_active user w.db.subscriptions)

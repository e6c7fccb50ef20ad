-- ===== src/Billing/Purchase.antt =====
-- What `grant_from_purchase` brings about, on every branch.
use chatfolio_backend.Prelude.{
  ℕ, ◌+◌, ◌≡◌, ◌≢◌, refl, ◌∙◌, sym, ◌⊎◌, inl, inr, true, false, Option, some, ◌∷◌, String, any_row,
  first_row, arith, Bool-cases,
}
use chatfolio_backend.Errors.{Result, ok, err, integrity}
use chatfolio_backend.Time.Calendar.{DateTime}
use chatfolio_backend.Models.Billing.{Plan, Subscription, StrategyName, Order}
use chatfolio_backend.World.{World}
use chatfolio_backend.Entitlements.Resolve.{
  is_active, unexpired, grants, active_subscription, resolve,
}
use chatfolio_backend.Billing.Grant.{
  active_of, same_ref, clashes, add_subscription, add_order, find_active, cancel_active,
  expiry_of_term, source_for, new_subscription, new_order, grant_from_purchase,
}
use chatfolio_backend.Billing.OneActive.{
  IsOneActive, cancel_active-any, cancel_active-IsOneActive, add_subscription-IsOneActive,
}
use chatfolio_backend.Billing.Terms.{EndsAt, expiry_of_term-EndsAt}
use chatfolio_backend.Billing.Frame.{resolve-reads, cancel_active-other, add_subscription-other}

-- The world after the order is written.
abbrev pub ordered : Order → World → World
ordered o w = record w {
  db = record w.db {
    orders = record o { id = w.db.next_id } ∷ w.db.orders;
    next_id = w.db.next_id + 1;
  };
}

add_order-cases :
    (o : Order) (w : World)
    → ((any_row (same_ref o) w.db.orders ≡ true) × (add_order o w ≡ (err integrity, w)))
      ⊎ ((any_row (same_ref o) w.db.orders ≡ false)
          × (add_order o w ≡ (ok (record o { id = w.db.next_id }), ordered o w)))
unfolding add_order
add_order-cases o w = elim (Bool-cases (any_row (same_ref o) w.db.orders)) [
  | inl e ↦ inl (e, rw e refl)
  | inr e ↦ inr (e, rw e refl)
]

-- The world after the row is written.
abbrev pub subscribed : Subscription → World → World
subscribed s w = record w {
  db = record w.db {
    subscriptions = record s { id = w.db.next_id } ∷ w.db.subscriptions;
    next_id = w.db.next_id + 1;
  };
}

pub add_subscription-free :
    (s : Subscription) (w : World)
    → clashes s w.db.subscriptions ≡ false
    → add_subscription s w ≡ (ok (record s { id = w.db.next_id }), subscribed s w)
unfolding add_subscription
add_subscription-free s w e = rw e refl

subscribed-IsOneActive :
    (s : Subscription) (w : World)
    → clashes s w.db.subscriptions ≡ false
    → IsOneActive w.db.subscriptions
    → IsOneActive (subscribed s w).db.subscriptions
subscribed-IsOneActive s w free one =
    rw (add_subscription-free s w free) at (add_subscription-IsOneActive s w one)

subscribed-other :
    (s : Subscription) (w : World) (other : ℕ) (t : DateTime)
    → s.user_id ≢ other
    → clashes s w.db.subscriptions ≡ false
    → resolve (subscribed s w).db other t ≡ resolve w.db other t
subscribed-other s w other t h free =
    rw (add_subscription-free s w free) at (add_subscription-other s other t w h)

active-subscribed :
    (s : Subscription) (w : World) (t : DateTime)
    → is_active s.status ≡ true
    → unexpired t s.expires_at ≡ true
    → active_subscription (subscribed s w).db s.user_id t ≡ some (record s { id = w.db.next_id })
unfolding active_subscription grants
active-subscribed s w t h k = ground arith

resolve-ordered :
    (o : Order) (w : World) (user : ℕ) (t : DateTime)
    → resolve (ordered o w).db user t ≡ resolve w.db user t
unfolding active_subscription
resolve-ordered o w user t = resolve-reads (ordered o w).db w.db user t refl refl refl

module _ (user : ℕ) (plan : Plan) (strategy : StrategyName) (ref : String)
    (bought : Option DateTime) (now : DateTime) (w : World) where
  abbrev pub bought_order : Order
  bought_order = new_order user plan strategy ref bought

  abbrev pub bought_term : ℕ → Subscription
  bought_term order =
      new_subscription user plan (source_for strategy) now
        (expiry_of_term plan now (find_active user w)) (some order)

  abbrev pub purchased : World
  purchased = subscribed (bought_term w.db.next_id) (ordered bought_order (cancel_active user w))

  no_clash :
      (order : ℕ) (v : World)
      → any_row (active_of user) v.db.subscriptions ≡ false
      → clashes (bought_term order) v.db.subscriptions ≡ false
  unfolding clashes
  no_clash order v h = elim strategy [
    | StrategyName.support_kori_license ↦ ground arith
    | StrategyName.native_gateway ↦ ground arith
  ]

  -- A purchase whose reference is new returns; one whose reference was used raises.
  pub grant_from_purchase-cases :
      IsOneActive w.db.subscriptions
      → ((any_row (same_ref bought_order) w.db.orders ≡ true)
          × (grant_from_purchase user plan strategy ref bought now w
              ≡ (err integrity, cancel_active user w)))
        ⊎ ((any_row (same_ref bought_order) w.db.orders ≡ false)
            × (grant_from_purchase user plan strategy ref bought now w ≡ (
              ok (
                record bought_order { id = w.db.next_id },
                record (bought_term w.db.next_id) { id = w.db.next_id + 1 },
              ),
              purchased,
            )))
  unfolding grant_from_purchase add_subscription expiry_of_term cancel_active
  grant_from_purchase-cases one = elim (add_order-cases bought_order (cancel_active user w)) [
    | inl (used, e) ↦ inl (unfold cancel_active in used, rw (e) refl)
    | inr (fresh, e) ↦ inr (unfold cancel_active in fresh, rw (e, added) refl)
  ]
    where
      added :
          add_subscription (bought_term w.db.next_id) (ordered bought_order (cancel_active user w))
          ≡ (ok (record (bought_term w.db.next_id) { id = w.db.next_id + 1 }), purchased)
      added =
          unfold cancel_active in
          add_subscription-free (bought_term w.db.next_id)
            (ordered bought_order (cancel_active user w))
            (no_clash w.db.next_id (cancel_active user w) (cancel_active-any user w one))

  room :
      IsOneActive w.db.subscriptions
      → clashes
          (bought_term w.db.next_id)
          (ordered bought_order (cancel_active user w)).db.subscriptions
        ≡ false
  room one = no_clash w.db.next_id (cancel_active user w) (cancel_active-any user w one)

  -- A purchase, also one that raises, leaves at most one active subscription for each user where
  -- there was at most one.
  pub grant_from_purchase-IsOneActive :
      IsOneActive w.db.subscriptions
      → IsOneActive (grant_from_purchase user plan strategy ref bought now w).1.db.subscriptions
  grant_from_purchase-IsOneActive one = elim (grant_from_purchase-cases one) [
    | inl (_, e) ↦ rw (e) (cancel_active-IsOneActive user w one)
    | inr (_, e) ↦ rw (e) (
        subscribed-IsOneActive (bought_term w.db.next_id)
          (ordered bought_order (cancel_active user w)) (room one)
          (cancel_active-IsOneActive user w one))
  ]

  -- After a purchase that returned, from a state with at most one active subscription for each
  -- user, the new subscription is the one that counts at any time before its end; it is for the
  -- plan and the order bought. Its term is counted from the end of the user's active subscription,
  -- where that is of the same plan and has an end that is still to come, and otherwise from now.
  pub grant_from_purchase-resolve :
      (o : Order) (s : Subscription) (v : World) (t : DateTime)
      → grant_from_purchase user plan strategy ref bought now w ≡ (ok (o, s), v)
      → IsOneActive w.db.subscriptions
      → unexpired t s.expires_at ≡ true
      → (active_subscription v.db user t ≡ some s)
        × (s.plan_id ≡ plan.id)
        × EndsAt plan now (first_row (active_of user) w.db.subscriptions) s.expires_at
        × (s.order_id ≡ some o.id)
  unfolding cancel_active
  grant_from_purchase-resolve o s v t h one ahead = elim (grant_from_purchase-cases one) [
    | inl (_, e) ↦ cc
    | inr (_, e) ↦ same (sym e ∙ h)
  ]
    where
      Bought : Type 0
      Bought =
          ◌≡◌ {A = Result (Order × Subscription) × World}
            (
              ok (
                record bought_order { id = w.db.next_id },
                record (bought_term w.db.next_id) { id = w.db.next_id + 1 },
              ),
              purchased,
            )
            (ok (o, s), v)

      row-eq : Bought → s ≡ record (bought_term w.db.next_id) { id = w.db.next_id + 1 }
      row-eq k = ground arith

      world-eq : Bought → v ≡ purchased
      world-eq k = ground arith

      order-eq : Bought → o ≡ record bought_order { id = w.db.next_id }
      order-eq k = ground arith

      same :
          Bought
          → (active_subscription v.db user t ≡ some s)
            × (s.plan_id ≡ plan.id)
            × EndsAt plan now (first_row (active_of user) w.db.subscriptions) s.expires_at
            × (s.order_id ≡ some o.id)
      same k =
          rw (world-eq k, row-eq k)
            (
              active-subscribed (bought_term w.db.next_id)
                  (ordered bought_order (cancel_active user w)) t refl (rw (row-eq k) at ahead),
              refl,
              unfold find_active in (expiry_of_term-EndsAt plan now (find_active user w)),
              rw (order-eq k) refl,
            )

  -- A purchase changes no other user's entitlements, at any time, from a state with at most one
  -- active subscription for each user.
  pub grant_from_purchase-other :
      (other : ℕ) (t : DateTime)
      → user ≢ other
      → IsOneActive w.db.subscriptions
      → resolve (grant_from_purchase user plan strategy ref bought now w).1.db other t
        ≡ resolve w.db other t
  grant_from_purchase-other other t h one = elim (grant_from_purchase-cases one) [
    | inl (_, e) ↦ rw (e) (cancel_active-other user other t w h)
    | inr (_, e) ↦ rw (e) (
        subscribed-other (bought_term w.db.next_id) (ordered bought_order (cancel_active user w))
          other t h (room one)
        ∙ resolve-ordered bought_order (cancel_active user w) other t
        ∙ cancel_active-other user other t w h)
  ]

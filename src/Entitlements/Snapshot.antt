-- ===== src/Entitlements/Snapshot.antt =====
-- A snapshot stays true until `valid_until`: resolving later gives the same snapshot.
use chatfolio_backend.Prelude.{
  ℕ, ◌≤◌, ◌<◌, ◌≡◌, refl, true, Option, none, some, List, [], ◌∷◌, ◌++◌, where_rows, All, arith,
}
use chatfolio_backend.Prelude.Rows.{
  first_row-narrow, first_row-narrow_none, where_rows-narrow, first_row-passes,
}
use chatfolio_backend.Errors.{Result, ok, err}
use chatfolio_backend.Time.Calendar.{DateTime, moment}
use chatfolio_backend.Models.Billing.{Db, Plan, Subscription, EntitlementOverride}
use chatfolio_backend.Entitlements.{Entitlements, Source, free, granted}
use chatfolio_backend.Entitlements.Resolve.{
  unexpired, grants, applies, active_subscription, live_overrides, to_list, expiries, earliest,
  plan_of, default_free_plan, snapshot, assemble, resolve,
}

-- `valid_until is None or valid_until > now`, as `EntitlementService.get` tests it.
abbrev pub IsFresh : Entitlements → DateTime → Type 0
IsFresh e now = unexpired now e.valid_until ≡ true

abbrev AllAfter : ℕ → List DateTime → Type 0
AllAfter t [] = Unit {0}
AllAfter t (d ∷ ds) = (t < moment d) × AllAfter t ds

earliest-AllAfter :
    (t : DateTime) (ds : List DateTime) → unexpired t (earliest ds) ≡ true → AllAfter (moment t) ds
unfolding earliest
earliest-AllAfter t [] h = tt
earliest-AllAfter t (d ∷ ds) h = ground (arith, earliest-AllAfter t ds)

AllAfter-append :
    (t : ℕ) (xs ys : List DateTime) → AllAfter t (xs ++ ys) → AllAfter t xs × AllAfter t ys
AllAfter-append t [] ys h = (tt, h)
AllAfter-append t (x ∷ xs) ys h = ground (arith, AllAfter-append t xs ys)

abbrev end_of : Option Subscription → Option DateTime
end_of none = none
end_of (some s) = s.expires_at

valid_until-snapshot :
    (r : Result Plan) (src : Source) (o : Option DateTime) (l : List EntitlementOverride)
    (e : Entitlements)
    → snapshot r src o l ≡ ok e
    → e.valid_until ≡ earliest (to_list o ++ expiries l)
unfolding snapshot
valid_until-snapshot (ok p) src o l e h = ground arith
valid_until-snapshot (err x) src o l e h = cc

valid_until-assemble :
    (db : Db) (o : Option Subscription) (l : List EntitlementOverride) (e : Entitlements)
    → assemble db o l ≡ ok e
    → e.valid_until ≡ earliest (to_list (end_of o) ++ expiries l)
unfolding assemble
valid_until-assemble db (some s) l e h =
    valid_until-snapshot (plan_of db s.plan_id) (granted s.source) s.expires_at l e h
valid_until-assemble db none l e h = valid_until-snapshot (default_free_plan db) free none l e h

module _ (now t : DateTime) (later : moment now ≤ moment t) where
  -- What is not over later is not over now.
  unexpired-earlier : (o : Option DateTime) → unexpired t o ≡ true → unexpired now o ≡ true
  unexpired-earlier none h = refl
  unexpired-earlier (some e) h = ground arith

  still : (o : Option DateTime) → AllAfter (moment t) (to_list o) → unexpired t o ≡ true
  still none h = refl
  still (some e) h = ground arith

  grants-earlier : (user : ℕ) (s : Subscription) → grants user t s ≡ true → grants user now s ≡ true
  unfolding grants
  grants-earlier user s h = ground (arith, unexpired-earlier s.expires_at)

  grants-still :
      (user : ℕ) (s : Subscription)
      → grants user now s ≡ true
      → AllAfter (moment t) (to_list s.expires_at)
      → grants user t s ≡ true
  unfolding grants
  grants-still user s h k = ground (arith, still s.expires_at k)

  applies-earlier :
      (user : ℕ) (o : EntitlementOverride) → applies user t o ≡ true → applies user now o ≡ true
  unfolding applies
  applies-earlier user o h = ground (arith, unexpired-earlier o.expires_at)

  applies-still_one :
      (user : ℕ) (o : EntitlementOverride)
      → applies user now o ≡ true
      → AllAfter (moment t) (to_list o.expires_at)
      → applies user t o ≡ true
  unfolding applies
  applies-still_one user o h k = ground (arith, still o.expires_at k)

  applies-still :
      (user : ℕ) (l : List EntitlementOverride)
      → AllAfter (moment t) (expiries (where_rows (applies user now) l))
      → All (λ o. applies user t o ≡ true) (where_rows (applies user now) l)
  unfolding expiries
  applies-still user [] h = tt
  applies-still user (o ∷ l) h = ground (
    arith,
    applies-still user l,
    applies-still_one user o,
    AllAfter-append (moment t) (to_list o.expires_at) (expiries (where_rows (applies user now) l)),
  )

  overrides-still :
      (db : Db) (user : ℕ)
      → AllAfter (moment t) (expiries (live_overrides db user now))
      → live_overrides db user t ≡ live_overrides db user now
  unfolding live_overrides
  overrides-still db user h =
      where_rows-narrow (applies user now) (applies user t) (applies-earlier user) db.overrides
        (applies-still user db.overrides h)

  -- The subscription that is read is the same one, while its end lies ahead.
  subscription-still :
      (db : Db) (user : ℕ) (o : Option Subscription)
      → active_subscription db user now ≡ o
      → AllAfter (moment t) (to_list (end_of o))
      → active_subscription db user t ≡ o
  unfolding active_subscription
  subscription-still db user none e h =
      first_row-narrow_none (grants user now) (grants user t) (grants-earlier user) db.subscriptions
        e
  subscription-still db user (some s) e h =
      first_row-narrow (grants user now) (grants user t) (grants-earlier user) db.subscriptions s e
        (grants-still user s (first_row-passes (grants user now) s db.subscriptions e) h)

-- What was resolved earlier and is still fresh is what resolving the same tables anew gives.
pub resolve-IsFresh :
    (db : Db) (user : ℕ) (now t : DateTime) (e : Entitlements)
    → moment now ≤ moment t
    → resolve db user now ≡ ok e
    → IsFresh e t
    → resolve db user t ≡ ok e
unfolding resolve
resolve-IsFresh db user now t e later r fresh =
    rw
      (
        subscription-still now t later db user (active_subscription db user now) refl ahead.0,
        overrides-still now t later db user ahead.1,
      )
      r
  where
    ends : List DateTime
    ends =
        to_list (end_of (active_subscription db user now)) ++ expiries (live_overrides db user now)

    ahead :
        AllAfter (moment t) (to_list (end_of (active_subscription db user now)))
        × AllAfter (moment t) (expiries (live_overrides db user now))
    ahead = AllAfter-append (moment t) _ _ (
        earliest-AllAfter t ends
          (rw (valid_until-assemble db _ (live_overrides db user now) e r) at fresh))

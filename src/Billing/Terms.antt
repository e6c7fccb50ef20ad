-- ===== src/Billing/Terms.antt =====
-- How long a term runs: buying the same plan again adds to the running term.
use chatfolio_backend.Prelude.{
  ◌≤◌, ◌<◌, ◌≡◌, ◌≢◌, ◌⊎◌, refl, inl, inr, none, Option, Bool-cases, ltb→lt, ltb→le, Bool, true,
  false, ◌&&◌, some, ◌==◌, ltb, if◌then◌else◌, arith,
}
use chatfolio_backend.Time.Calendar.{DateTime, IsValid, moment}
use chatfolio_backend.Time.Duration.{DurationUnit, compute_expiry, compute_expiry-later}
use chatfolio_backend.Models.Billing.{Plan, Subscription}
use chatfolio_backend.Billing.Grant.{start_of_term, expiry_of_term}

-- The end of a running term of the same plan, and otherwise the clock.
start_of_term-bounds :
    (plan : Plan) (now end : DateTime) (s : Subscription)
    → s.expires_at ≡ some end
    → s.plan_id ≡ plan.id
    → IsValid now
    → IsValid end
    → let start = start_of_term plan now (some s) in
      IsValid start × (moment now ≤ moment start) × (moment end ≤ moment start)
unfolding start_of_term
start_of_term-bounds plan now end s h p v u = rw h (go (ltb (moment now) (moment end)) refl)
  where
    go :
        (b : Bool)
        → ltb (moment now) (moment end) ≡ b
        → let start =
            if (s.plan_id == plan.id) && ltb (moment now) (moment end) then end else now in
          IsValid start × (moment now ≤ moment start) × (moment end ≤ moment start)
    go true e = rw (p, e) ground arith
    go false e = rw (p, e) ground arith

-- Renewing never costs time. Where a plan that is not for life is bought again, for one unit at
-- least, by a user whose current term has an end, and the dates are valid, the new term ends after
-- now and after the current one.
pub expiry_of_term-renewal :
    (plan : Plan) (now end : DateTime) (s : Subscription)
    → s.expires_at ≡ some end
    → s.plan_id ≡ plan.id
    → IsValid now
    → IsValid end
    → plan.duration_unit ≢ DurationUnit.lifetime
    → 1 ≤ plan.duration_count
    → (e : DateTime) × (expiry_of_term plan now (some s) ≡ some e)
      × (moment now < moment e)
      × (moment end < moment e)
unfolding expiry_of_term
expiry_of_term-renewal plan now end s h p v u unit n =
    let (valid, after_now, after_end) = start_of_term-bounds plan now end s h p v u in
    elim (compute_expiry-later (start_of_term plan now (some s)) plan.duration_unit
      plan.duration_count valid) [
        | inl (life, _) ↦ elim (unit life) [ ]
        | inr (_, ends) ↦ let (e, is, later) = ends n in (e, is, omega arith, omega arith)
      ]

-- A running term of the same plan, with its end.
abbrev pub Running : Plan → DateTime → Option Subscription → DateTime → Type 0
Running plan now active end =
    (a : Subscription) × (active ≡ some a)
    × (a.plan_id ≡ plan.id)
    × (a.expires_at ≡ some end)
    × (moment now < moment end)

-- No subscription is active, or it is of another plan, or it has no end, or its end has passed.
abbrev pub NotRunning : Plan → DateTime → Option Subscription → Type 0
NotRunning plan now active =
    (active ≡ none)
    ⊎ ((a : Subscription) × (active ≡ some a)
        × ((a.plan_id ≢ plan.id)
            ⊎ ((a.expires_at ≡ none)
                ⊎ ((end : DateTime) × (a.expires_at ≡ some end) × (moment end ≤ moment now)))))

-- The end of a term that is bought: counted from the end of a running term of the same plan, and
-- otherwise from now.
abbrev pub EndsAt : Plan → DateTime → Option Subscription → Option DateTime → Type 0
EndsAt plan now active e =
    ((end : DateTime) × Running plan now active end
      × (e ≡ compute_expiry end plan.duration_unit plan.duration_count))
    ⊎ (NotRunning plan now active × (e ≡ compute_expiry now plan.duration_unit plan.duration_count))

pub expiry_of_term-EndsAt :
    (plan : Plan) (now : DateTime) (active : Option Subscription)
    → EndsAt plan now active (expiry_of_term plan now active)
unfolding expiry_of_term start_of_term
expiry_of_term-EndsAt plan now none = inr (inl refl, refl)
expiry_of_term-EndsAt plan now (some s) = go s.expires_at refl
  where
    same_nat : (s.plan_id == plan.id) ≡ true → s.plan_id ≡ plan.id
    same_nat h = ground arith

    go :
        (o : Option DateTime)
        → s.expires_at ≡ o
        → EndsAt plan now (some s) (expiry_of_term plan now (some s))
    go none e = inr (inr (s, refl, inr (inl e)), rw e refl)
    go (some end) e = elim (Bool-cases (s.plan_id == plan.id)) [
      | inr other ↦ inr (inr (s, refl, inl (λ k. ground (arith, other, k))), rw (e, other) refl)
      | inl same ↦ elim (Bool-cases (ltb (moment now) (moment end))) [
        | inl ahead ↦
            inl (end, (s, refl, same_nat same, e, ltb→lt _ _ ahead), rw (e, same, ahead) refl)
        | inr past ↦
            inr (inr (s, refl, inr (inr (end, e, ltb→le _ _ past))), rw (e, same, past) refl)
      ]
    ]

-- ===== src/Seeding/Seeded.antt =====
-- `ensure_catalog` is idempotent and only ever adds plans.
use chatfolio_backend.Prelude.{
  ◌≡◌, refl, ap, inl, inr, true, false, some, List, [], ◌∷◌, String, str_eq, str_eq_iff,
  if◌then◌else◌, any_row, first_row, arith, Bool-cases,
}
use chatfolio_backend.Errors.{ok}
use chatfolio_backend.Catalog.{FeatureDef}
use chatfolio_backend.Models.Billing.{Db, Plan}
use chatfolio_backend.Entitlements.Resolve.{default_free_plan}
use chatfolio_backend.Seeding.{
  PlanSeed, default_plans, free_seed, premium_seed, seeded_plan, has_slug, add_plan, add_missing,
  ensure_catalog,
}

-- Every seed has a plan.
abbrev HasAll : List PlanSeed → List Plan → Type 0
HasAll [] plans = Unit
HasAll (s ∷ ss) plans = (any_row (has_slug s.slug) plans ≡ true) × HasAll ss plans

add_missing-idle :
    (existing : List Plan) (seeds : List PlanSeed) (db : Db)
    → HasAll seeds existing
    → add_missing existing seeds db ≡ db
unfolding add_missing
add_missing-idle existing [] db h = refl
add_missing-idle existing (s ∷ ss) db (here, rest) = rw here (add_missing-idle existing ss db rest)

-- What the first run does, by the plans that were there.
added :
    (db : Db)
    → (add_missing db.plans default_plans db).plans ≡ (
        if any_row (has_slug "premium") db.plans
        then (if any_row (has_slug "free") db.plans
            then db.plans
            else (add_plan free_seed db).plans)
        else (if any_row (has_slug "free") db.plans
            then (add_plan premium_seed db).plans
            else (add_plan premium_seed (add_plan free_seed db)).plans))
unfolding add_missing seeded_plan
added db = ground arith

added-HasAll : (db : Db) → HasAll default_plans (add_missing db.plans default_plans db).plans
added-HasAll db = rw (added db) (unfold seeded_plan in ground arith)

-- A second run changes no table of plans.
pub ensure_catalog-idempotent :
    (rows : List FeatureDef) (db : Db)
    → (ensure_catalog (ensure_catalog (rows, db))).1 ≡ (ensure_catalog (rows, db)).1
unfolding ensure_catalog
ensure_catalog-idempotent rows db =
    add_missing-idle _ default_plans (add_missing db.plans default_plans db) (added-HasAll db)

found-any :
    (slug : String) (p : Plan) (plans : List Plan)
    → first_row (has_slug slug) plans ≡ some p
    → any_row (has_slug slug) plans ≡ true
found-any slug p [] h = cc
found-any slug p (x ∷ plans) h = ground (arith, found-any slug p plans)

add_plan-keeps :
    (existing : List Plan) (s : PlanSeed) (db : Db) (slug : String) (p : Plan)
    → first_row (has_slug slug) existing ≡ some p
    → any_row (has_slug s.slug) existing ≡ false
    → first_row (has_slug slug) db.plans ≡ some p
    → first_row (has_slug slug) (add_plan s db).plans ≡ some p
unfolding seeded_plan
add_plan-keeps existing s db slug p there missing h = elim (Bool-cases (str_eq s.slug slug)) [
  | inl e ↦ elim (clash ((str_eq_iff s.slug slug).0 e)) [ ]
  | inr e ↦ rw e h
]
  where
    clash : s.slug ≡ slug → ⊥
    clash e =
        cc (found-any slug p existing there, missing, ap (λ x. any_row (has_slug x) existing) e)

add_missing-keeps :
    (existing : List Plan) (seeds : List PlanSeed) (db : Db) (slug : String) (p : Plan)
    → first_row (has_slug slug) existing ≡ some p
    → first_row (has_slug slug) db.plans ≡ some p
    → first_row (has_slug slug) (add_missing existing seeds db).plans ≡ some p
unfolding add_missing
add_missing-keeps existing [] db slug p there h = h
add_missing-keeps existing (s ∷ ss) db slug p there h =
    elim (Bool-cases (any_row (has_slug s.slug) existing)) [
      | inl e ↦ rw (e, add_missing) (add_missing-keeps existing ss db slug p there h)
      | inr e ↦
          rw (e, add_missing)
            (add_missing-keeps existing ss (add_plan s db) slug p there
              (add_plan-keeps existing s db slug p there e h))
    ]

-- A plan that a query by its slug found before is found as it was.
pub ensure_catalog-keeps :
    (rows : List FeatureDef) (db : Db) (slug : String) (p : Plan)
    → first_row (has_slug slug) db.plans ≡ some p
    → first_row (has_slug slug) (ensure_catalog (rows, db)).1.plans ≡ some p
unfolding ensure_catalog
ensure_catalog-keeps rows db slug p h = add_missing-keeps db.plans default_plans db slug p h h

-- Where no plan has the free plan's slug, there is a default free plan afterwards.
pub ensure_catalog-free :
    (rows : List FeatureDef) (db : Db)
    → any_row (has_slug "free") db.plans ≡ false
    → (p : Plan) × (default_free_plan (ensure_catalog (rows, db)).1 ≡ ok p)
      × (p.is_default_free ≡ true)
unfolding ensure_catalog default_free_plan
ensure_catalog-free rows db h = (
  seeded_plan free_seed db.next_id,
  elim (Bool-cases (any_row (has_slug "premium") db.plans)) [
    | inl e ↦ rw (added db, h, e) (unfold seeded_plan in refl)
    | inr e ↦ rw (added db, h, e) (unfold seeded_plan in refl)
  ],
  unfold seeded_plan in refl,
)

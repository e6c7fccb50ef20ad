-- ===== src/Billing/Overridden.antt =====
-- What an admin's override does to the table and to the entitlements.
use chatfolio_backend.Prelude.{
  ℕ, ◌≡◌, ◌≢◌, refl, ◌∙◌, ◌⊎◌, inl, inr, Bool, true, false, ◌&&◌, none, some, List, [], ◌∷◌, String,
  first_row, any_row, update_first, where_rows, arith, Bool-cases, Option-cases,
}
use chatfolio_backend.Prelude.Rows.{first_row-narrow}
use chatfolio_backend.Errors.{Error, Result, ok, err, not_found, validation_failed}
use chatfolio_backend.Catalog.{FeatureKey, FeatureDef, features_by_key}
use chatfolio_backend.Catalog.Validation.{validate_feature_value}
use chatfolio_backend.Time.Calendar.{DateTime}
use chatfolio_backend.Models.Billing.{EntitlementOverride}
use chatfolio_backend.World.{World}
use chatfolio_backend.Entitlements.Resolve.{applies, unexpired, live_overrides}
use chatfolio_backend.Entitlements.Overrides.{about}
use chatfolio_backend.Billing.Trial.{commit_and_invalidate}
use chatfolio_backend.Billing.Admin.{
  find_user, is_past, OverrideSetRequest, override_of, new_override, put_override, set_override,
}

overwritten :
    (user : ℕ) (key : FeatureKey) (o : EntitlementOverride) (rows : List EntitlementOverride)
    → override_of user key o ≡ true
    → any_row (override_of user key) rows ≡ true
    → first_row (override_of user key) (update_first (override_of user key) (λ _. o) rows) ≡ some o
overwritten user key o [] h a = cc
overwritten user key o (x ∷ rows) h a = ground (arith, overwritten user key o rows)

-- The row that was put is the one that is found.
pub put_override-find :
    (o : EntitlementOverride) (rows : List EntitlementOverride)
    → first_row (override_of o.user_id o.feature_key) (put_override o rows) ≡ some o
unfolding put_override
put_override-find o rows = elim (Bool-cases (any_row (override_of o.user_id o.feature_key) rows)) [
  | inl e ↦ rw e (overwritten o.user_id o.feature_key o rows itself e)
  | inr e ↦ rw (e, itself) refl
]
  where
    itself : override_of o.user_id o.feature_key o ≡ true
    itself = ground arith

update-other :
    (user : ℕ) (key : FeatureKey) (o : EntitlementOverride) (rows : List EntitlementOverride)
    → override_of user key o ≡ false
    → first_row
        (override_of user key)
        (update_first (override_of o.user_id o.feature_key) (λ _. o) rows)
      ≡ first_row (override_of user key) rows
update-other user key o [] h = refl
update-other user key o (x ∷ rows) h = ground (arith, update-other user key o rows h)

-- No other row is touched, of another user or another feature.
pub put_override-other :
    (user : ℕ) (key : FeatureKey) (o : EntitlementOverride) (rows : List EntitlementOverride)
    → override_of user key o ≡ false
    → first_row (override_of user key) (put_override o rows) ≡ first_row (override_of user key) rows
unfolding put_override
put_override-other user key o rows h = ground (arith, update-other user key o rows h)

abbrev live : ℕ → FeatureKey → DateTime → EntitlementOverride → Bool
live user key t o = override_of user key o && unexpired t o.expires_at

live-first :
    (user : ℕ) (key : FeatureKey) (t : DateTime) (rows : List EntitlementOverride)
    → first_row (about key) (where_rows (applies user t) rows) ≡ first_row (live user key t) rows
unfolding applies
live-first user key t [] = refl
live-first user key t (o ∷ rows) = ground (arith, live-first user key t rows)

-- A call is refused with nothing changed, or the row is put and the cache's row dropped; the
-- feature is then a known one and the value fits it.
set_override-cases :
    (admin user : ℕ) (key : String) (p : OverrideSetRequest) (now : DateTime) (w : World)
    → ((e : Error) × (set_override admin user key p now w ≡ (err e, w)))
      ⊎ ((d : FeatureDef) × (features_by_key key ≡ some d)
          × (validate_feature_value d p.int_value p.bool_value none ≡ none)
          × (set_override admin user key p now w ≡ (
            ok tt,
            commit_and_invalidate user (record w {
              db = record w.db {
                overrides = put_override (new_override admin user d.key p) w.db.overrides;
              };
            }),
          )))
unfolding set_override
set_override-cases admin user key p now w = elim (Option-cases (find_user user w)) [
  | inl e ↦ inl (not_found "User not found.", rw e refl)
  | inr (u, e) ↦ elim (Option-cases (features_by_key key)) [
    | inl f ↦ inl (not_found "Unknown feature.", rw (e, f) refl)
    | inr (d, f) ↦ elim (Option-cases (validate_feature_value d p.int_value p.bool_value none)) [
      | inr (x, g) ↦ inl (validation_failed "", rw (e, f, g) refl)
      | inl g ↦ elim (Bool-cases (is_past now p.expires_at)) [
        | inl i ↦ inl (validation_failed "expires_at must be in the future.", rw (e, f, g, i) refl)
        | inr i ↦ inr (d, f, g, rw (e, f, g, i) refl)
      ]
    ]
  ]
]

-- An override that was set for a known feature is the live one of its feature for the user at any
-- time before its end.
pub set_override-live :
    (admin user : ℕ) (key : String) (p : OverrideSetRequest) (now t : DateTime) (w : World)
    (d : FeatureDef)
    → features_by_key key ≡ some d
    → (set_override admin user key p now w).0 ≡ ok tt
    → unexpired t p.expires_at ≡ true
    → first_row (about d.key) (live_overrides (set_override admin user key p now w).1.db user t)
      ≡ some (new_override admin user d.key p)
set_override-live admin user key p now t w d known h ahead =
    elim (set_override-cases admin user key p now w) [
      | inl (e, is) ↦ elim (no_result e (set_override admin user key p now w).0 h (rw is refl)) [ ]
      | inr (d', f, g, is) ↦ rw (is, same d' f) found
    ]
  where
    no_result : (e : Error) (r : Result (Unit {0})) → r ≡ ok tt → r ≢ err e
    no_result e r is k = cc

    same : (d' : FeatureDef) → features_by_key key ≡ some d' → d' ≡ d
    same d' f = ground arith

    found :
        first_row (about d.key) (
          live_overrides
            (record w.db {
              overrides = put_override (new_override admin user d.key p) w.db.overrides;
            })
            user
            t)
        ≡ some (new_override admin user d.key p)
    found =
        unfold live_overrides new_override in
        live-first user d.key t _
        ∙ first_row-narrow (override_of user d.key) (live user d.key t) (λ x k. ground arith) _
            (new_override admin user d.key p)
            (put_override-find (new_override admin user d.key p) w.db.overrides)
            (rw ahead ground arith)

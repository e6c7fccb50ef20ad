-- ===== src/Router/Allowed.antt =====
-- A user is never served a model that the plan does not allow, and is served the one that was
-- accepted.
use chatfolio_backend.Prelude.{
  ℕ, ◌≡◌, refl, sym, ap, ◌∙◌, ◌⊎◌, inl, inr, true, false, Option, none, some, [], ◌∷◌,
  if◌then◌else◌, arith, Bool-cases, Option-cases,
}
use chatfolio_backend.Errors.{Error, ok}
use chatfolio_backend.Catalog.{FeatureKey}
use chatfolio_backend.Entitlements.{Entitlements, enabled}
use chatfolio_backend.Router.{
  LlmSettings, ResolvedModel, ModelCatalog, find_model, default_model, is_default, configured,
  in_plan, usable, preferred, with_default, resolve_model, Preferences, preference_of,
  put_preference, choice_problem, set_preference,
}

-- What makes a model other than the default right for a user.
pub IsAllowed : LlmSettings → Entitlements → ModelCatalog → ℕ → ResolvedModel → Type 0
IsAllowed s e c id m =
    (enabled e FeatureKey.model_selection ≡ true)
    × (find_model id c.models ≡ some m)
    × (in_plan id e.plan_slug c ≡ true)
    × (configured s m ≡ true)

preferred-raw :
    (s : LlmSettings) (d : ResolvedModel) (e : Entitlements) (c : ModelCatalog) (id : ℕ)
    (raw : ResolvedModel)
    → enabled e FeatureKey.model_selection ≡ true
    → find_model id c.models ≡ some raw
    → in_plan id e.plan_slug c ≡ true
    → configured s raw ≡ true
    → preferred s d e c (some id) ≡ (if is_default d raw then d else raw)
unfolding preferred usable
preferred-raw s d e c id raw on found linked keyed = rw (on, found) simp (linked, keyed) refl

preferred-IsAllowed :
    (s : LlmSettings) (d : ResolvedModel) (e : Entitlements) (c : ModelCatalog) (p : Option ℕ)
    → (preferred s d e c p ≡ d)
      ⊎ ((id : ℕ) × (p ≡ some id) × IsAllowed s e c id (preferred s d e c p))
unfolding preferred usable IsAllowed
preferred-IsAllowed s d e c none = inl refl
preferred-IsAllowed s d e c (some id) = elim (Bool-cases (enabled e FeatureKey.model_selection)) [
  | inr off ↦ inl (rw off refl)
  | inl on ↦ elim (Option-cases (find_model id c.models)) [
    | inl nothing ↦ inl (rw (on, nothing) refl)
    | inr (raw, found) ↦ elim (Bool-cases (is_default d raw)) [
      | inl same ↦ inl (rw (on, found) simp (same) refl)
      | inr other ↦ elim (Bool-cases (in_plan id e.plan_slug c)) [
        | inr no_link ↦ inl (rw (on, found) simp (other, no_link) refl)
        | inl linked ↦ elim (Bool-cases (configured s raw)) [
          | inr no_key ↦ inl (rw (on, found) simp (other, linked, no_key) refl)
          | inl keyed ↦ inr (
            id,
            refl,
            (let same : preferred s d e c (some id) ≡ raw =
                  preferred-raw s d e c id raw on found linked keyed ∙ rw other refl in
                unfold IsAllowed in
                (on, found ∙ ap some (sym same), linked, ap (configured s) same ∙ keyed)),
          )
        ]
      ]
    ]
  ]
]

-- Where the default model is configured, a user with entitlements is served the default, or the
-- model that is preferred; the latter only where the plan has the choice of a model, the catalogue
-- and the plan's set have that model, and its provider has a key.
pub resolve_model-IsAllowed :
    (s : LlmSettings) (e : Entitlements) (c : ModelCatalog) (p : Option ℕ) (d m : ResolvedModel)
    → default_model s ≡ ok d
    → resolve_model s (ok e) c p ≡ ok m
    → (m ≡ d) ⊎ ((id : ℕ) × (p ≡ some id) × IsAllowed s e c id m)
unfolding resolve_model
resolve_model-IsAllowed s e c p d m h r = rw same (preferred-IsAllowed s d e c p)
  where
    served : ok (preferred s d e c p) ≡ ok m
    served = ap (with_default s (ok e) c p) (sym h) ∙ r

    same : m ≡ preferred s d e c p
    same = cc served

found-put :
    (user : ℕ) (p : Option ℕ) (l : Preferences) → preference_of user (put_preference user p l) ≡ p
unfolding preference_of put_preference
found-put user p [] = ground arith
found-put user p (x ∷ l) = ground (arith, found-put user p l)

accepted :
    (s : LlmSettings) (e : Entitlements) (c : ModelCatalog) (id : ℕ) (m : ResolvedModel)
    → m.is_fallback ≡ false
    → choice_problem s e c id (some m) ≡ none
    → (in_plan id e.plan_slug c ≡ true) × (configured s m ≡ true)
unfolding choice_problem
accepted s e c id m row h = ground arith

-- A choice that was accepted, of a model of the catalogue that is no fallback row, is the model
-- that is served under the same entitlements and catalogue, or the default where it is the same
-- model.
pub set_preference-served :
    (s : LlmSettings) (e : Entitlements) (c : ModelCatalog) (user id : ℕ) (l : Preferences)
    (d m : ResolvedModel)
    → default_model s ≡ ok d
    → find_model id c.models ≡ some m
    → m.is_fallback ≡ false
    → (set_preference s e c user (some id) l).0 ≡ ok tt
    → resolve_model s (ok e) c (preference_of user (set_preference s e c user (some id) l).1)
      ≡ ok (if is_default d m then d else m)
unfolding set_preference
set_preference-served s e c user id l d m def found row r =
    elim (Bool-cases (enabled e FeatureKey.model_selection)) [
      | inr off ↦ elim (refused off) [ ]
      | inl on ↦ elim (Option-cases (choice_problem s e c id (find_model id c.models))) [
        | inr (x, problem) ↦ elim (problematic on x problem) [ ]
        | inl fine ↦
            let (linked, keyed) = accepted s e c id m row (rw found at fine) in
            rw (on, fine, found-put user (some id) l)
              (unfold resolve_model in
                rw def (ap ok (preferred-raw s d e c id m on found linked keyed)))
      ]
    ]
  where
    refused : enabled e FeatureKey.model_selection ≡ false → ⊥
    refused off = ground arith

    problematic :
        enabled e FeatureKey.model_selection ≡ true
        → (x : Error) → choice_problem s e c id (find_model id c.models) ≡ some x
        → ⊥
    problematic on x problem = ground arith

-- ===== src/PlanAdmin/Matrix.antt =====
-- What a new plan grants: `create_plan` (services/plan_admin_service.py).
use chatfolio_backend.Prelude.{
  ℕ, ◌≡◌, refl, ◌⊎◌, inl, inr, Bool, false, Option, none, some, arith, List, [], ◌∷◌, first_row,
}
use chatfolio_backend.Prelude.Int.{pos}
use chatfolio_backend.Catalog.{
  FeatureKey, FeatureDef, FeatureValueType, features, place, eq_feature,
}
use chatfolio_backend.Models.Billing.{Plan, PlanFeature}
use chatfolio_backend.PlanAdmin.{
  PlanCreateRequest, feature_row_of, closed, closed_or_copied, features_of, complete_matrix,
  new_plan,
}

abbrev def_of : FeatureKey → FeatureDef → Bool
def_of k d = eq_feature d.key k

closed_or_copied-key :
    (d : FeatureDef) (o : Option PlanFeature) → (closed_or_copied d o).feature_key ≡ d.key
closed_or_copied-key d (some f) = refl
closed_or_copied-key d none = go d.value_type
  where
    go : (t : FeatureValueType) → (closed d t).feature_key ≡ d.key
    go FeatureValueType.int = refl
    go FeatureValueType.bool = refl

matrix-row :
    (source : Option Plan) (k : FeatureKey) (d : FeatureDef) (ds : List FeatureDef)
    → first_row (def_of k) ds ≡ some d
    → first_row (feature_row_of k) (complete_matrix source ds)
      ≡ some (closed_or_copied d (first_row (feature_row_of d.key) (features_of source)))
unfolding complete_matrix
matrix-row source k d [] h = cc
matrix-row source k d (c ∷ ds) h = ground (
  arith,
  closed_or_copied-key c (first_row (feature_row_of c.key) (features_of source)),
  matrix-row source k d ds,
)

def-there :
    (k : FeatureKey) → (d : FeatureDef) × (first_row (def_of k) features ≡ some d) × (d.key ≡ k)
unfolding features place
def-there FeatureKey.links_max = (_, refl, refl)
def-there _ = (_, refl, refl)

-- A value that grants nothing.
abbrev pub Denies : PlanFeature → Type 0
Denies f =
    ((f.int_value ≡ some (pos 0)) × (f.bool_value ≡ none))
    ⊎ ((f.int_value ≡ none) × (f.bool_value ≡ some false))

closed-Denies : (d : FeatureDef) (t : FeatureValueType) → Denies (closed d t)
closed-Denies d FeatureValueType.int = inl (refl, refl)
closed-Denies d FeatureValueType.bool = inr (refl, refl)

-- A new plan has a row for every feature of the catalogue: where the plan to clone has one, with the
-- same value and period; otherwise one that grants nothing.
pub new_plan_complete :
    (r : PlanCreateRequest) (source : Option Plan) (id : ℕ) (k : FeatureKey)
    → (f : PlanFeature) × (first_row (feature_row_of k) (new_plan r source id).features ≡ some f)
      × (first_row (feature_row_of k) (features_of source) ≡ none → Denies f)
      × ((g : PlanFeature)
          → first_row (feature_row_of k) (features_of source) ≡ some g
          → (f.int_value ≡ g.int_value) × (f.bool_value ≡ g.bool_value) × (f.period ≡ g.period))
unfolding new_plan
new_plan_complete r source id k =
    let (d, there, key) = def-there k in
    (
      closed_or_copied d (first_row (feature_row_of d.key) (features_of source)),
      matrix-row source k d features there,
      λ h. rw (key, h) (closed-Denies d d.value_type),
      λ g h. rw (key, h) (refl, refl, refl),
    )

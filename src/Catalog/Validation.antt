-- ===== src/Catalog/Validation.antt =====
-- `validate_feature_value`, with a constructor for each message.
use chatfolio_backend.Prelude.{
  ◌≡◌, refl, ◌⊎◌, ◌↔◌, inl, inr, Bool, true, false, not, ◌&&◌, ◌||◌, Option, none, some, is_none,
  arith, if◌then◌else◌, ◌≤◌,
}
use chatfolio_backend.Prelude.Int.{ℤ, neg_part, ltb_ℤ}
use chatfolio_backend.Catalog.{FeatureKey, FeatureKind, FeatureDef, FeatureValueType, unlimited}
use chatfolio_backend.Time.Periods.{QuotaPeriod}

pub data FeatureProblem : Type 0 where
  takes_integer below_unlimited takes_bool no_period : FeatureKey → FeatureProblem

abbrev is_flow : FeatureKind → Bool
is_flow FeatureKind.flow = true
is_flow _ = false

abbrev below : Option ℤ → Bool
below none = false
below (some n) = ltb_ℤ n unlimited

unfoldable pub check_value :
    FeatureKey → FeatureValueType → Option ℤ → Option Bool → Option FeatureProblem
check_value key FeatureValueType.int i b =
    if is_none i || not (is_none b)
    then some (takes_integer key)
    else if below i
    then some (below_unlimited key)
    else none
check_value key FeatureValueType.bool i b =
    if is_none b || not (is_none i) then some (takes_bool key) else none

-- `none` means that the value is acceptable.
unfoldable pub validate_feature_value :
    FeatureDef → Option ℤ → Option Bool → Option QuotaPeriod → Option FeatureProblem
unfolding check_value
validate_feature_value d i b p = elim (check_value d.key d.value_type i b) [
  | some problem ↦ some problem
  | none ↦ if not (is_none p) && not (is_flow d.kind) then some (no_period d.key) else none
]

-- What an acceptable value is: exactly the field of the feature's type, a limit of at least -1,
-- and a period on flow features only.
pub data FitsType : FeatureValueType → Option ℤ → Option Bool → Type 0 where
  limit : (n : ℤ) → neg_part n ≤ 1 → FitsType FeatureValueType.int (some n) none
  switch : (b : Bool) → FitsType FeatureValueType.bool none (some b)

abbrev pub FitsPeriod : FeatureKind → Option QuotaPeriod → Type 0
FitsPeriod k p = (p ≡ none) ⊎ (k ≡ FeatureKind.flow)

check_value-FitsType :
    (k : FeatureKey) (t : FeatureValueType) (i : Option ℤ) (b : Option Bool)
    → check_value k t i b ≡ none
    → FitsType t i b
unfolding check_value
check_value-FitsType k FeatureValueType.int (some n) none h = limit n (ground arith)
check_value-FitsType k FeatureValueType.int none none h = cc
check_value-FitsType k FeatureValueType.int none (some b) h = cc
check_value-FitsType k FeatureValueType.int (some n) (some b) h = cc
check_value-FitsType k FeatureValueType.bool none (some b) h = switch b
check_value-FitsType k FeatureValueType.bool none none h = cc
check_value-FitsType k FeatureValueType.bool (some n) none h = cc
check_value-FitsType k FeatureValueType.bool (some n) (some b) h = cc

FitsType-check_value :
    (k : FeatureKey) {t : FeatureValueType} {i : Option ℤ} {b : Option Bool}
    → FitsType t i b
    → check_value k t i b ≡ none
unfolding check_value
FitsType-check_value k (limit n h) = ground arith
FitsType-check_value k (switch b) = refl

period_ok :
    (k : FeatureKind) (p : Option QuotaPeriod)
    → (not (is_none p) && not (is_flow k) ≡ false) ↔ FitsPeriod k p
period_ok k none = (λ h. inl refl, λ h. refl)
period_ok FeatureKind.flow (some p) = (λ h. inr refl, λ h. refl)
period_ok FeatureKind.stock (some p) = (λ h. cc, λ h. ground arith)
period_ok FeatureKind.session (some p) = (λ h. cc, λ h. ground arith)
period_ok FeatureKind.window (some p) = (λ h. cc, λ h. ground arith)
period_ok FeatureKind.gate (some p) = (λ h. cc, λ h. ground arith)

-- A value passes exactly when it fits the feature's type and kind.
pub validate_feature_value_iff :
    (d : FeatureDef) (i : Option ℤ) (b : Option Bool) (p : Option QuotaPeriod)
    → (validate_feature_value d i b p ≡ none) ↔ (FitsType d.value_type i b × FitsPeriod d.kind p)
unfolding validate_feature_value
validate_feature_value_iff d i b p = (passes, fits)
  where
    passes : validate_feature_value d i b p ≡ none → FitsType d.value_type i b × FitsPeriod d.kind p
    passes h = (
      check_value-FitsType d.key d.value_type i b (ground arith),
      (period_ok d.kind p).0 (ground arith),
    )

    fits : FitsType d.value_type i b × FitsPeriod d.kind p → validate_feature_value d i b p ≡ none
    fits (t, q) = ground (arith, FitsType-check_value d.key t, (period_ok d.kind p).1 q)

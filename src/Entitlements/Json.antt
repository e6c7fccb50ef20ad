-- ===== src/Entitlements/Json.antt =====
-- entitlements/types.py: `to_json` and `from_json`, between which a snapshot stands in Redis. How
-- Python writes and reads a datetime is a parameter.
use chatfolio_backend.Prelude.{
  ◌≡◌, refl, Bool, false, Option, none, some, List, [], ◌∷◌, String, str_eq, if◌then◌else◌,
}
use chatfolio_backend.Prelude.Int.{ℤ}
use chatfolio_backend.Errors.{Result, ok, err, runtime}
use chatfolio_backend.Catalog.{FeatureKey}
use chatfolio_backend.Time.Calendar.{DateTime}
use chatfolio_backend.Time.Periods.{QuotaPeriod}
use chatfolio_backend.Entitlements.{Entitlements, FeatureValue, Source, Values}

-- `isoformat`, and `fromisoformat`, which raises on a text that is no datetime.
pub record IsoFormat : Type 0 where
  pub isoformat : DateTime → String
  pub fromisoformat : String → Result DateTime

pub record FeatureValueJson : Type 0 where
  pub int_value : Option ℤ
  pub bool_value : Option Bool
  pub period : Option String

pub record EntitlementsJson : Type 0 where
  pub plan_slug : String
  pub plan_name : String
  pub source : Source
  pub subscription_expires_at : Option String
  pub valid_until : Option String
  pub values : List (FeatureKey × FeatureValueJson)

-- models/billing.py: the values of `QuotaPeriod`.
unfoldable pub period_value : QuotaPeriod → String
period_value QuotaPeriod.daily = "daily"
period_value QuotaPeriod.monthly = "monthly"
period_value QuotaPeriod.lifetime = "lifetime"

-- `QuotaPeriod(v)`
unfoldable pub period_of : String → Result QuotaPeriod
period_of v =
    if str_eq v "daily"
    then ok QuotaPeriod.daily
    else if str_eq v "monthly"
    then ok QuotaPeriod.monthly
    else if str_eq v "lifetime"
    then ok QuotaPeriod.lifetime
    else err runtime

abbrev pub optional {ℓ κ} : {A : Type ℓ} {B : Type κ} → (A → B) → Option A → Option B
optional f none = none
optional f (some a) = some (f a)

abbrev present {ℓ} : {A : Type ℓ} → Result A → Result (Option A)
present (ok a) = ok (some a)
present (err e) = err e

-- `f(v) if v else None`
abbrev pub parsed {ℓ} : {A : Type ℓ} → (String → Result A) → Option String → Result (Option A)
parsed f none = ok none
parsed f (some v) = if str_eq v "" then ok none else present (f v)

abbrev pub and_then {ℓ κ} : {A : Type ℓ} {B : Type κ} → Result A → (A → Result B) → Result B
and_then (ok a) f = f a
and_then (err e) f = err e

unfoldable pub value_to_json : FeatureValue → FeatureValueJson
value_to_json v = record {
  int_value = v.int_value;
  bool_value = v.bool_value;
  period = optional period_value v.period;
}

unfoldable pub value_from_json : FeatureValueJson → Result FeatureValue
value_from_json v =
    and_then (parsed period_of v.period)
      (λ p. ok (record { int_value = v.int_value; bool_value = v.bool_value; period = p }))

unfoldable pub values_to_json : Values → List (FeatureKey × FeatureValueJson)
values_to_json [] = []
values_to_json ((k, v) ∷ vs) = (k, value_to_json v) ∷ values_to_json vs

unfoldable pub values_from_json : List (FeatureKey × FeatureValueJson) → Result Values
values_from_json [] = ok []
values_from_json ((k, v) ∷ vs) =
    let rest = values_from_json vs in
    and_then (value_from_json v) (λ w. and_then rest (λ ws. ok ((k, w) ∷ ws)))

unfoldable pub to_json : IsoFormat → Entitlements → EntitlementsJson
to_json iso e = record {
  plan_slug = e.plan_slug;
  plan_name = e.plan_name;
  source = e.source;
  subscription_expires_at = optional iso.isoformat e.subscription_expires_at;
  valid_until = optional iso.isoformat e.valid_until;
  values = values_to_json e.values;
}

unfoldable pub from_json : IsoFormat → EntitlementsJson → Result Entitlements
from_json iso d = and_then (parsed iso.fromisoformat d.subscription_expires_at) (λ ends.
    and_then (parsed iso.fromisoformat d.valid_until) (λ until.
      and_then (values_from_json d.values) (λ vs. ok (record {
        plan_slug = d.plan_slug;
        plan_name = d.plan_name;
        source = d.source;
        subscription_expires_at = ends;
        valid_until = until;
        values = vs;
      }))))

-- What Python documents of a datetime: `fromisoformat` reads what `isoformat` wrote, which is not
-- empty.
unfoldable pub IsIso : IsoFormat → Option DateTime → Type 0
IsIso iso o =
    (d : DateTime)
    → o ≡ some d
    → (iso.fromisoformat (iso.isoformat d) ≡ ok d) × (str_eq (iso.isoformat d) "" ≡ false)

parsed-iso :
    (iso : IsoFormat) (o : Option DateTime)
    → IsIso iso o
    → parsed iso.fromisoformat (optional iso.isoformat o) ≡ ok o
unfolding IsIso
parsed-iso iso none good = refl
parsed-iso iso (some d) good = let (back, full) = good d refl in rw (full, back) refl

parsed-period : (o : Option QuotaPeriod) → parsed period_of (optional period_value o) ≡ ok o
unfolding period_of period_value
parsed-period none = refl
parsed-period (some QuotaPeriod.daily) = refl
parsed-period (some QuotaPeriod.monthly) = refl
parsed-period (some QuotaPeriod.lifetime) = refl

value-roundtrip : (v : FeatureValue) → value_from_json (value_to_json v) ≡ ok v
unfolding value_from_json value_to_json
value-roundtrip v = rw (parsed-period v.period) refl

values-roundtrip : (vs : Values) → values_from_json (values_to_json vs) ≡ ok vs
unfolding values_from_json values_to_json
values-roundtrip [] = refl
values-roundtrip ((k, v) ∷ vs) = rw (value-roundtrip v, values-roundtrip vs) refl

-- A snapshot that is read back from its JSON form is the snapshot that was written, when its two
-- datetimes survive `isoformat` and `fromisoformat`.
pub json-roundtrip :
    (iso : IsoFormat) (e : Entitlements)
    → IsIso iso e.subscription_expires_at
    → IsIso iso e.valid_until
    → from_json iso (to_json iso e) ≡ ok e
unfolding from_json to_json
json-roundtrip iso e ends until =
    rw (parsed-iso iso e.subscription_expires_at ends) rw
      (parsed-iso iso e.valid_until until, values-roundtrip e.values) refl

-- ===== src/PlanAdmin/Differences.antt =====
-- services/plan_admin_service.py: the comparisons `old != value` and `before != after`, which decide
-- whether an edit changes anything.
use chatfolio_backend.Prelude.{
  ℕ, ◌≡◌, refl, Bool, true, false, ◌&&◌, not, Option, none, some, List, [], ◌∷◌, str_eq, str_eq_iff,
  ◌==◌, is_none, arith,
}
use chatfolio_backend.Prelude.Int.{eq_ℤ}
use chatfolio_backend.Time.Duration.{DurationUnit}
use chatfolio_backend.Time.Periods.{QuotaPeriod}
use chatfolio_backend.Models.Billing.{PlanFeature, StrategyName}
use chatfolio_backend.Billing.Grant.{same_strategy}

-- A field of a PATCH: left out, null, or a value.
pub data Patch (A : Type 0) : Type 0 where
  unset null : Patch A
  set : A → Patch A

abbrev pub eq_bool : Bool → Bool → Bool
eq_bool true b = b
eq_bool false b = not b

abbrev pub eq_unit : DurationUnit → DurationUnit → Bool
eq_unit DurationUnit.day DurationUnit.day = true
eq_unit DurationUnit.month DurationUnit.month = true
eq_unit DurationUnit.year DurationUnit.year = true
eq_unit DurationUnit.lifetime DurationUnit.lifetime = true
eq_unit _ _ = false

abbrev pub eq_period : QuotaPeriod → QuotaPeriod → Bool
eq_period QuotaPeriod.lifetime QuotaPeriod.lifetime = true
eq_period QuotaPeriod.monthly QuotaPeriod.monthly = true
eq_period QuotaPeriod.daily QuotaPeriod.daily = true
eq_period _ _ = false

abbrev pub eq_strategies : List StrategyName → List StrategyName → Bool
eq_strategies [] [] = true
eq_strategies (a ∷ xs) (b ∷ ys) = same_strategy a b && eq_strategies xs ys
eq_strategies _ _ = false

module _ {A : Type 0} where
  abbrev pub eq_option : (A → A → Bool) → Option A → Option A → Bool
  eq_option eq none none = true
  eq_option eq (some a) (some b) = eq a b
  eq_option eq _ _ = false

  -- A field that the payload sets to another value.
  abbrev pub differs : (A → A → Bool) → A → Patch A → Bool
  differs eq old Patch.unset = false
  differs eq old Patch.null = true
  differs eq old (Patch.set a) = not (eq old a)

  -- The same of a field that can be null.
  abbrev pub differs_or_null : (A → A → Bool) → Option A → Patch A → Bool
  differs_or_null eq old Patch.unset = false
  differs_or_null eq old Patch.null = not (is_none old)
  differs_or_null eq old (Patch.set a) = not (eq_option eq old (some a))

-- `_feature_dict(row)` before and after.
abbrev pub row_differs : Option PlanFeature → PlanFeature → Bool
row_differs none f = true
row_differs (some g) f = not (
    eq_option eq_ℤ g.int_value f.int_value
    && eq_option eq_bool g.bool_value f.bool_value
    && eq_option eq_period g.period f.period)

-- A comparison that holds of equal values only.
abbrev pub IsSound : {A : Type 0} → (A → A → Bool) → Type 0
IsSound {A} eq = (a b : A) → eq a b ≡ true → a ≡ b

pub str_eq-IsSound : IsSound str_eq
str_eq-IsSound a b h = (str_eq_iff a b).0 h

pub eq_nat-IsSound : IsSound (λ (a : ℕ) (b : ℕ). a == b)
eq_nat-IsSound a b h = ground arith

pub eq_bool-IsSound : IsSound eq_bool
eq_bool-IsSound true true h = refl
eq_bool-IsSound true false h = cc
eq_bool-IsSound false true h = cc
eq_bool-IsSound false false h = refl

pub eq_unit-IsSound : IsSound eq_unit
eq_unit-IsSound a b h = ground arith

same_strategy-IsSound : IsSound same_strategy
same_strategy-IsSound a b h = ground arith

pub eq_strategies-IsSound : IsSound eq_strategies
eq_strategies-IsSound [] [] h = refl
eq_strategies-IsSound [] (b ∷ ys) h = cc
eq_strategies-IsSound (a ∷ xs) [] h = cc
eq_strategies-IsSound (a ∷ xs) (b ∷ ys) h =
    ground (arith, same_strategy-IsSound a b, eq_strategies-IsSound xs ys)

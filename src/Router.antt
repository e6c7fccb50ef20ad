-- ===== src/Router.antt =====
-- ModelRouter (llm/model_router.py): which language model answers for a user. The catalogue that a
-- call works with is an argument: `build_catalog` of the tables, or a copy of it from the cache.
pub mod Allowed
pub mod Catalogue
use Prim.Native.String.{compare, ◌++◌ as append}
use Prim.Native.Nat.{Ordering}
use chatfolio_backend.Prelude.{
  ℕ, Bool, true, false, ◌&&◌, ◌||◌, not, Option, none, some, List, [], ◌∷◌, ◌++◌, String, str_eq,
  ◌==◌, ltb, if◌then◌else◌, first_row, any_row, where_rows, is_none, map,
}
use chatfolio_backend.Errors.{
  Error, Result, ok, err, service_unavailable, feature_not_in_plan, not_found, model_not_allowed,
}
use chatfolio_backend.Catalog.{FeatureKey}
use chatfolio_backend.Entitlements.{Entitlements, enabled}

-- config/settings.py
pub data LlmProviderName : Type 0 where
  deepseek openai gemini claude grok openrouter : LlmProviderName

abbrev pub provider_place : LlmProviderName → ℕ
provider_place LlmProviderName.deepseek = 0
provider_place LlmProviderName.openai = 1
provider_place LlmProviderName.gemini = 2
provider_place LlmProviderName.claude = 3
provider_place LlmProviderName.grok = 4
provider_place LlmProviderName.openrouter = 5

-- The member's string.
unfoldable pub provider_value : LlmProviderName → String
provider_value LlmProviderName.deepseek = "deepseek"
provider_value LlmProviderName.openai = "openai"
provider_value LlmProviderName.gemini = "gemini"
provider_value LlmProviderName.claude = "claude"
provider_value LlmProviderName.grok = "grok"
provider_value LlmProviderName.openrouter = "openrouter"

-- What the environment configures.
pub record LlmSettings : Type 0 where
  pub default_provider : LlmProviderName
  pub model_for : LlmProviderName → Option String
  pub base_url_for : LlmProviderName → Option String
  pub api_key_for : LlmProviderName → Option String

-- "default", or the id of a row.
pub data ModelRef : Type 0 where
  default_model_id : ModelRef
  row_id : ℕ → ModelRef

pub record ResolvedModel : Type 0 where
  pub id : ModelRef
  pub provider : LlmProviderName
  pub model_id : String
  pub display_name : String
  pub supports_json_mode : Bool
  pub is_fallback : Bool

-- models/billing.py; costs are for reports only.
pub record LlmModel : Type 0 where
  pub id : ℕ
  pub provider : LlmProviderName
  pub model_id : String
  pub display_name : String
  pub is_active : Bool
  pub supports_json_mode : Bool
  pub sort_order : ℕ

-- The cached catalogue: the models by id, and the ids that a plan may use, by the plan's slug.
pub record ModelCatalog : Type 0 where
  pub models : List (ℕ × ResolvedModel)
  pub plans : List (String × List ℕ)

unfoldable pub find_model : ℕ → List (ℕ × ResolvedModel) → Option ResolvedModel
find_model id [] = none
find_model id ((j, m) ∷ l) = if j == id then some m else find_model id l

unfoldable pub plan_models : String → List (String × List ℕ) → List ℕ
plan_models slug [] = []
plan_models slug ((s, ids) ∷ l) = if str_eq s slug then ids else plan_models slug l

unfoldable pub default_model : LlmSettings → Result ResolvedModel
default_model s = elim (s.base_url_for s.default_provider) [
  | none ↦ err (service_unavailable "")
  | some _ ↦ elim (s.model_for s.default_provider) [
    | none ↦ err (service_unavailable "")
    | some m ↦ ok (record {
      id = default_model_id;
      provider = s.default_provider;
      model_id = m;
      display_name = append (provider_value s.default_provider) (append " (" (append m ")"));
      supports_json_mode = true;
      is_fallback = true;
    })
  ]
]

abbrev pub is_default : ResolvedModel → ResolvedModel → Bool
is_default d raw =
    (provider_place raw.provider == provider_place d.provider) && str_eq raw.model_id d.model_id

abbrev pub configured : LlmSettings → ResolvedModel → Bool
configured s raw = not (is_none (s.api_key_for raw.provider))

abbrev pub in_plan : ℕ → String → ModelCatalog → Bool
in_plan id slug c = any_row (λ j. j == id) (plan_models slug c.plans)

-- The chosen model where it may be used, and otherwise the default.
unfoldable pub usable :
    LlmSettings → ResolvedModel → String → ModelCatalog → ℕ → Option ResolvedModel → ResolvedModel
usable s d slug c id none = d
usable s d slug c id (some raw) =
    if is_default d raw
    then d
    else if not (in_plan id slug c) || not (configured s raw)
    then d
    else raw

unfoldable pub preferred :
    LlmSettings → ResolvedModel → Entitlements → ModelCatalog → Option ℕ → ResolvedModel
preferred s d e c none = d
preferred s d e c (some id) =
    if not (enabled e FeatureKey.model_selection)
    then d
    else usable s d e.plan_slug c id (find_model id c.models)

abbrev pub with_default :
    LlmSettings
    → Result Entitlements
    → ModelCatalog
    → Option ℕ
    → Result ResolvedModel
    → Result ResolvedModel
with_default s e c preference (err x) = err x
with_default s (err x) c preference (ok d) = err x
with_default s (ok e) c preference (ok d) = ok (preferred s d e c preference)

-- `ModelRouter.resolve`, given the entitlements, the catalogue and the stored preference.
unfoldable pub resolve_model :
    LlmSettings → Result Entitlements → ModelCatalog → Option ℕ → Result ResolvedModel
resolve_model s e c preference = with_default s e c preference (default_model s)

-- The preferences, by user; a row's model can be gone.
abbrev pub Preferences : Type 0
Preferences = List (ℕ × Option ℕ)

unfoldable pub preference_of : ℕ → Preferences → Option ℕ
preference_of user [] = none
preference_of user ((u, p) ∷ l) = if u == user then p else preference_of user l

unfoldable pub put_preference : ℕ → Option ℕ → Preferences → Preferences
put_preference user p [] = (user, p) ∷ []
put_preference user p ((u, q) ∷ l) =
    if u == user then (u, p) ∷ l else (u, q) ∷ put_preference user p l

-- Whether a model may be chosen.
unfoldable pub choice_problem :
    LlmSettings → Entitlements → ModelCatalog → ℕ → Option ResolvedModel → Option Error
choice_problem s e c id none = some (not_found "Model not found.")
choice_problem s e c id (some raw) =
    if not (in_plan id e.plan_slug c) && not raw.is_fallback
    then some model_not_allowed
    else if not (configured s raw)
    then some model_not_allowed
    else none

abbrev pub checked : LlmSettings → Entitlements → ModelCatalog → Option ℕ → Option Error
checked s e c none = none
checked s e c (some id) = choice_problem s e c id (find_model id c.models)

abbrev pub or_stored : Option Error → Preferences → Preferences → Result (Unit {0}) × Preferences
or_stored none stored before = (ok tt, stored)
or_stored (some x) stored before = (err x, before)

unfoldable pub set_preference :
    LlmSettings
    → Entitlements
    → ModelCatalog
    → ℕ
    → Option ℕ
    → Preferences
    → Result (Unit {0}) × Preferences
set_preference s e c user id l =
    if not (enabled e FeatureKey.model_selection)
    then (err (feature_not_in_plan FeatureKey.model_selection), l)
    else or_stored (checked s e c id) (put_preference user id l) l

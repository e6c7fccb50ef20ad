-- ===== src/Tests/OfRouter.antt =====
-- The theorems on the choice of a model at concrete inputs.
use chatfolio_backend.Prelude.{ℕ, ◌≡◌, refl, ◌⊎◌, true, false, none, some, [], ◌∷◌}
use chatfolio_backend.Catalog.{FeatureKey}
use chatfolio_backend.Entitlements.{Entitlements, free, enabled}
use chatfolio_backend.Router.{
  LlmSettings, LlmProviderName, ResolvedModel, ModelCatalog, ModelRef, default_model_id, row_id,
  is_default, default_model, resolve_model, set_preference, preference_of,
}
use chatfolio_backend.Router.Allowed.{IsAllowed, resolve_model-IsAllowed}

abbrev env : LlmSettings
env = record {
  default_provider = LlmProviderName.deepseek;
  model_for = λ p. some "chat";
  base_url_for = λ p. some "https://llm.example.org";
  api_key_for = λ p. some "key";
}

abbrev chat : ResolvedModel
chat = record {
  id = default_model_id;
  provider = LlmProviderName.deepseek;
  model_id = "chat";
  display_name = "deepseek (chat)";
  supports_json_mode = true;
  is_fallback = true;
}

abbrev large : ResolvedModel
large = record {
  id = row_id 3;
  provider = LlmProviderName.openai;
  model_id = "large";
  display_name = "Large";
  supports_json_mode = true;
  is_fallback = false;
}

abbrev catalog : ModelCatalog
catalog = record { models = (3, large) ∷ []; plans = ("premium", 3 ∷ []) ∷ [] }

abbrev premium : Entitlements
premium = record {
  plan_slug = "premium";
  plan_name = "Premium";
  source = free;
  subscription_expires_at = none;
  valid_until = none;
  values =
      (
        FeatureKey.model_selection,
        record { int_value = none; bool_value = some true; period = none },
      )
      ∷ [];
}

resolve_model-IsAllowed_example :
    (large ≡ chat) ⊎ ((id : ℕ) × (some 3 ≡ some id) × IsAllowed env premium catalog id large)
unfolding default_model chatfolio_backend.Router.provider_value resolve_model
    chatfolio_backend.Router.preferred enabled chatfolio_backend.Catalog.place
    chatfolio_backend.Router.usable chatfolio_backend.Router.find_model
    chatfolio_backend.Router.plan_models
resolve_model-IsAllowed_example =
    resolve_model-IsAllowed env premium catalog (some 3) chat large refl refl

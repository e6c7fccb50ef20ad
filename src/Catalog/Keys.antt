-- ===== src/Catalog/Keys.antt =====
-- The keys of the catalogue: equality, and the lookup by a key's string.
use chatfolio_backend.Prelude.{ℕ, zero, suc, ◌≡◌, refl, sym, ap, ◌∙◌, some}
use chatfolio_backend.Catalog.{FeatureKey, FeatureDef, features_by_key, value, place}

at_place : ℕ → FeatureKey
at_place zero = FeatureKey.links_max
at_place (suc zero) = FeatureKey.publishes_limit
at_place (suc (suc zero)) = FeatureKey.custom_domains_max
at_place (suc (suc (suc zero))) = FeatureKey.recruiter_chats_limit
at_place (suc (suc (suc (suc zero)))) = FeatureKey.chat_messages_per_session
at_place (suc (suc (suc (suc (suc zero))))) = FeatureKey.ai_tokens_limit
at_place (suc (suc (suc (suc (suc (suc zero)))))) = FeatureKey.chat_history_days
at_place (suc (suc (suc (suc (suc (suc (suc zero))))))) = FeatureKey.recruiter_insights
at_place (suc (suc (suc (suc (suc (suc (suc (suc zero)))))))) = FeatureKey.calendar_booking
at_place (suc (suc (suc (suc (suc (suc (suc (suc (suc zero))))))))) = FeatureKey.meetings_limit
at_place (suc (suc (suc (suc (suc (suc (suc (suc (suc (suc zero)))))))))) = FeatureKey.remove_badge
at_place _ = FeatureKey.model_selection

at_place-place : (k : FeatureKey) → at_place (place k) ≡ k
unfolding at_place place
at_place-place FeatureKey.links_max = refl
at_place-place _ = refl

pub place_injective : (a b : FeatureKey) → place a ≡ place b → a ≡ b
place_injective a b h = sym (at_place-place a) ∙ ap at_place h ∙ at_place-place b

-- Every member of the enumeration is in the catalogue, under its own string: the subscript
-- `FEATURES_BY_KEY[feature.value]` never fails, and gives the definition of that member.
pub features_by_key-value :
    (k : FeatureKey) → (d : FeatureDef) × (features_by_key (value k) ≡ some d) × (d.key ≡ k)
unfolding features_by_key
features_by_key-value FeatureKey.links_max = (_, refl, refl)
features_by_key-value _ = (_, refl, refl)

-- ===== src/Catalog.antt =====
-- entitlements/catalog.py: the feature catalogue that lives in code, and the check of a feature's
-- value. Prose that nothing reads (a feature's description) is left out.
pub mod Validation
pub mod Keys
use chatfolio_backend.Prelude.{
  ℕ, ◌≡◌, Bool, Option, none, some, List, [], ◌∷◌, String, str_eq, first_row, ◌==◌,
}
use chatfolio_backend.Prelude.Int.{ℤ, negsuc}
use chatfolio_backend.Time.Periods.{QuotaPeriod}

abbrev pub unlimited : ℤ
unlimited = negsuc 0

pub data FeatureKind : Type 0 where
  stock flow session window gate : FeatureKind

pub data FeatureValueType : Type 0 where
  int bool : FeatureValueType

pub data FeatureKey : Type 0 where
  links_max publishes_limit custom_domains_max recruiter_chats_limit : FeatureKey
  chat_messages_per_session ai_tokens_limit chat_history_days recruiter_insights : FeatureKey
  calendar_booking meetings_limit remove_badge model_selection : FeatureKey

-- The member's string.
unfoldable pub value : FeatureKey → String
value FeatureKey.links_max = "links_max"
value FeatureKey.publishes_limit = "publishes_limit"
value FeatureKey.custom_domains_max = "custom_domains_max"
value FeatureKey.recruiter_chats_limit = "recruiter_chats_limit"
value FeatureKey.chat_messages_per_session = "chat_messages_per_session"
value FeatureKey.ai_tokens_limit = "ai_tokens_limit"
value FeatureKey.chat_history_days = "chat_history_days"
value FeatureKey.recruiter_insights = "recruiter_insights"
value FeatureKey.calendar_booking = "calendar_booking"
value FeatureKey.meetings_limit = "meetings_limit"
value FeatureKey.remove_badge = "remove_badge"
value FeatureKey.model_selection = "model_selection"

pub record FeatureDef : Type 0 where
  pub key : FeatureKey
  pub kind : FeatureKind
  pub value_type : FeatureValueType
  pub default_period : Option QuotaPeriod

unfoldable pub features : List FeatureDef
features =
    feature FeatureKey.links_max FeatureKind.stock FeatureValueType.int none
    ∷ feature FeatureKey.publishes_limit FeatureKind.flow FeatureValueType.int
        (some QuotaPeriod.lifetime)
    ∷ feature FeatureKey.custom_domains_max FeatureKind.stock FeatureValueType.int none
    ∷ feature FeatureKey.recruiter_chats_limit FeatureKind.flow FeatureValueType.int
        (some QuotaPeriod.monthly)
    ∷ feature FeatureKey.chat_messages_per_session FeatureKind.session FeatureValueType.int none
    ∷ feature FeatureKey.ai_tokens_limit FeatureKind.flow FeatureValueType.int
        (some QuotaPeriod.monthly)
    ∷ feature FeatureKey.chat_history_days FeatureKind.window FeatureValueType.int none
    ∷ feature FeatureKey.recruiter_insights FeatureKind.gate FeatureValueType.bool none
    ∷ feature FeatureKey.calendar_booking FeatureKind.gate FeatureValueType.bool none
    ∷ feature FeatureKey.meetings_limit FeatureKind.flow FeatureValueType.int
        (some QuotaPeriod.lifetime)
    ∷ feature FeatureKey.remove_badge FeatureKind.gate FeatureValueType.bool none
    ∷ feature FeatureKey.model_selection FeatureKind.gate FeatureValueType.bool none
    ∷ []
  where
    feature : FeatureKey → FeatureKind → FeatureValueType → Option QuotaPeriod → FeatureDef
    feature k f t p = record { key = k; kind = f; value_type = t; default_period = p }

-- `FEATURES_BY_KEY.get(key)`
unfoldable pub features_by_key : String → Option FeatureDef
unfolding features value
features_by_key key = first_row (λ f. str_eq (value f.key) key) features

-- A member's place in the enumeration; two members are equal when their places are.
unfoldable pub place : FeatureKey → ℕ
place FeatureKey.links_max = 0
place FeatureKey.publishes_limit = 1
place FeatureKey.custom_domains_max = 2
place FeatureKey.recruiter_chats_limit = 3
place FeatureKey.chat_messages_per_session = 4
place FeatureKey.ai_tokens_limit = 5
place FeatureKey.chat_history_days = 6
place FeatureKey.recruiter_insights = 7
place FeatureKey.calendar_booking = 8
place FeatureKey.meetings_limit = 9
place FeatureKey.remove_badge = 10
place FeatureKey.model_selection = 11

-- Shut `place` makes equal keys a question about numbers.
abbrev pub eq_feature : FeatureKey → FeatureKey → Bool
eq_feature a b = place a == place b

-- ===== src/Tests/OfChat.antt =====
-- The theorems on chats at concrete inputs: one session on a published page.
use chatfolio_backend.Prelude.{◌≡◌, refl, ℕ, true, false, none, some, List, [], ◌∷◌, String}
use chatfolio_backend.Errors.{ok}
use chatfolio_backend.Time.Calendar.{DateTime}
use chatfolio_backend.Models.Site.{ProfileStatus, PublicChatfolio}
use chatfolio_backend.Models.Chat.{ChatDb, ChatSession, MetadataField}
use chatfolio_backend.Chat.{is_rapid, in_session, change_session}
use chatfolio_backend.Chat.Service.{RagService}
use chatfolio_backend.Chat.Metadata.{known, merge_all, merge_all-first}
use chatfolio_backend.Chat.Cooldown.{send_all, refused, send_all-refused}
use chatfolio_backend.Tests.Samples.{day, until, world_with}

abbrev at : ℕ → DateTime
at seconds = record { year = 2026; month = 11; day = 3; micros = seconds }

abbrev visit : ChatSession
visit = record {
  id = 50;
  chatfolio_id = 30;
  last_active_at = some (at 1000000);
  rapid_fire_count = 3;
  is_flagged = false;
}

abbrev page : PublicChatfolio
page = record {
  id = 30;
  profile_id = 20;
  slug = "ann";
  previous_slug = none;
  is_published = true;
  published_at = some (day 2);
  contact_cta_config = [];
  cv_downloadable = true;
}

abbrev pub chat_db : ChatDb
chat_db = record {
  site = record {
    world = world_with (until 20 ∷ []);
    profiles =
        record { id = 20; user_id = 10; full_name = none; status = ProfileStatus.approved } ∷ [];
    sections = [];
    chatfolios = page ∷ [];
    links = [];
    domains = [];
    next_id = 100;
  };
  sessions = visit ∷ [];
  messages = [];
  metadata = [];
  ai_tokens_used = λ p. 0;
  next_id = 100;
}

abbrev rag : RagService
rag = record {
  classify_and_extract = λ m. ("unknown", [], 1);
  generate_reply = λ s p h m i. ok ("Hello.", 2);
}

-- Two messages too early: the session is flagged with the second.
send_all-refused_example :
    send_all rag 50 (("Hi", at 1500000) ∷ ("Hi?", at 2900000) ∷ []) chat_db
    ≡ record chat_db { sessions = record visit { rapid_fire_count = 5; is_flagged = true } ∷ [] }
unfolding change_session refused is_rapid chatfolio_backend.Time.Calendar.instant
    chatfolio_backend.Time.Calendar.ordinal chatfolio_backend.Time.Calendar.days_before_year
    chatfolio_backend.Time.Calendar.days_before_month chatfolio_backend.Time.Calendar.days_in_month
    chatfolio_backend.Time.Calendar.is_leap
send_all-refused_example =
    send_all-refused rag 50 (("Hi", at 1500000) ∷ ("Hi?", at 2900000) ∷ []) visit page chat_db
      (record { session = refl; page_found = refl; published = refl }) (refl, (refl, tt))

-- The visitor names a company twice, and another visitor names one in between.
abbrev mentions : List (ℕ × List (MetadataField × String))
mentions =
    (50, (MetadataField.company, "Acme") ∷ [])
    ∷ (51, (MetadataField.company, "Initech") ∷ [])
    ∷ (50, (MetadataField.company, "Umbrella") ∷ (MetadataField.name, "Bob") ∷ [])
    ∷ []

merge_all-first_example : known 50 MetadataField.company (merge_all mentions []) ≡ some "Acme"
unfolding known chatfolio_backend.Chat.Metadata.first_in
    chatfolio_backend.Chat.Metadata.first_mention
merge_all-first_example = merge_all-first 50 MetadataField.company mentions []

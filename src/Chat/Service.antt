-- ===== src/Chat/Service.antt =====
-- services/chat_service.py: `send_message`, with the answer to a message. What the retrieval service
-- (services/rag_service.py) answers is a parameter.
use chatfolio_backend.Prelude.{
  ℕ, ◌+◌, Bool, true, not, some, List, [], ◌∷◌, String, ◌==◌, is_none, if◌then◌else◌, first_row,
  where_rows, take,
}
use chatfolio_backend.Errors.{Result, err, not_found}
use chatfolio_backend.Action.{Action, proceed, pure, raise_if, modify, or_raise, gets, ◌>>=◌, ◌>>◌}
use chatfolio_backend.Catalog.{FeatureKey}
use chatfolio_backend.Time.Calendar.{DateTime}
use chatfolio_backend.Guard.{guard_release, guard_add_usage}
use chatfolio_backend.Models.Site.{Site, CandidateProfile, PublicChatfolio}
use chatfolio_backend.Models.Chat.{ChatDb, ChatSession, ChatMessage, MessageRole, MetadataField}
use chatfolio_backend.Portfolio.{on_world}
use chatfolio_backend.Chat.Metadata.{merge_recruiter_metadata}
use chatfolio_backend.Chat.{
  Session, on_view, on_site, is_session, change_session, unavailable, enforce_cooldown, admit,
  chats_limit,
}

-- `classify_and_extract` and `generate_reply` with `retrieve`, which read the profile's rows: the
-- intent with the fields it found and the tokens, and the answer with its tokens.
pub record RagService : Type 0 where
  pub classify_and_extract : String → String × List (MetadataField × String) × ℕ
  pub generate_reply :
      Site → CandidateProfile → List ChatMessage → String → String → Result (String × ℕ)

abbrev pub history_window : ℕ
history_window = 5

abbrev reversed : List ChatMessage → List ChatMessage → List ChatMessage
reversed [] later = later
reversed (m ∷ ms) later = reversed ms (m ∷ later)

unfoldable pub recent_history : ℕ → ChatDb → List ChatMessage
recent_history id db =
    reversed (take history_window (where_rows (λ m. m.session_id == id) db.messages)) []

abbrev pub add_message : ℕ → MessageRole → String → String → DateTime → ChatDb → ChatDb
add_message id role content intent now db = record db {
  messages =
      record {
        session_id = id;
        role = role;
        content = content;
        intent = some intent;
        created_at = now;
      }
      ∷ db.messages;
}

abbrev pub merged : ℕ → List (MetadataField × String) → ChatDb → ChatDb
merged id extracted db = record db { metadata = merge_recruiter_metadata id extracted db.metadata }

-- `profile.ai_tokens_used += tokens`
abbrev pub use_tokens : ℕ → ℕ → ChatDb → ChatDb
use_tokens profile tokens db = record db {
  ai_tokens_used = λ p. if p == profile then db.ai_tokens_used p + tokens else db.ai_tokens_used p;
}

abbrev pub just_answered : DateTime → ChatSession → ChatSession
just_answered now c = record c { last_active_at = some now }

unfoldable pub reply :
    RagService → ChatSession → CandidateProfile → String → DateTime → Action ChatDb String
reply rag c profile content now = do
  history ← gets (recent_history c.id)
  let (intent, extracted, intent_tokens) = rag.classify_and_extract content
  modify (add_message c.id MessageRole.recruiter content intent now)
  modify (merged c.id extracted)
  (text, tokens) ← λ db. (rag.generate_reply db.site profile history content intent, db)
  modify (use_tokens profile.id (intent_tokens + tokens))
  on_site (
      on_world
        (guard_add_usage profile.user_id FeatureKey.ai_tokens_limit (intent_tokens + tokens) now))
  modify (add_message c.id MessageRole.assistant text intent now)
  modify (change_session c.id (just_answered now))
  pure text

-- A reserved chat is given back when the answer failed; the error stays, unless giving it back fails.
abbrev pub given_back : Bool → ℕ → DateTime → Result String × ChatDb → Result String × ChatDb
given_back true owner now (err e, db) =
    proceed (on_site (on_world (guard_release owner chats_limit 1 now)) db) (λ _ s. (err e, s))
given_back _ owner now r = r

unfoldable pub admitted_message :
    RagService → ChatSession → CandidateProfile → String → DateTime → Action ChatDb String
admitted_message rag c profile content now = do
  reserved ← admit c.id profile.user_id (is_none c.last_active_at) now
  λ db. given_back reserved profile.user_id now (reply rag c profile content now db)

abbrev pub page_with : ℕ → PublicChatfolio → Bool
page_with id c = c.id == id

unfoldable pub send_message : RagService → ℕ → String → DateTime → Action Session String
send_message rag id content now = do
  c ← on_view (
      gets (λ db. first_row (is_session id) db.sessions)
      >>= or_raise (not_found "Chat session not found."))
  page ← on_view (
      gets (λ db. first_row (page_with c.chatfolio_id) db.site.chatfolios) >>= or_raise unavailable)
  raise_if (not page.is_published) unavailable
  enforce_cooldown c now
  profile ← on_view (
      gets (λ db. first_row (λ p. p.id == page.profile_id) db.site.profiles)
      >>= or_raise unavailable)
  on_view (admitted_message rag c profile content now)

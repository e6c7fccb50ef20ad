-- ===== src/Models/Chat.antt =====
-- models/chat.py: a visitor's chat with a page, its messages, and what became known of the visitor.
use chatfolio_backend.Prelude.{ℕ, Bool, Option, List, String}
use chatfolio_backend.Time.Calendar.{DateTime}
use chatfolio_backend.Models.Site.{Site}

pub data MessageRole : Type 0 where
  recruiter assistant : MessageRole

pub record ChatSession : Type 0 where
  pub id : ℕ
  pub chatfolio_id : ℕ
  pub last_active_at : Option DateTime
  pub rapid_fire_count : ℕ
  pub is_flagged : Bool

pub record ChatMessage : Type 0 where
  pub session_id : ℕ
  pub role : MessageRole
  pub content : String
  pub intent : Option String
  pub created_at : DateTime

-- The columns that a message can fill.
pub data MetadataField : Type 0 where
  name company role required_skills experience_expectation location_pref timeline : MetadataField

-- `getattr(metadata, field)`
pub record RecruiterMetadata : Type 0 where
  pub session_id : ℕ
  pub attribute : MetadataField → Option String

-- These tables beside those of the pages. `ai_tokens_used` is the column of the profiles, by their
-- id; messages stand with the newest first.
pub record ChatDb : Type 0 where
  pub site : Site
  pub sessions : List ChatSession
  pub messages : List ChatMessage
  pub metadata : List RecruiterMetadata
  pub ai_tokens_used : ℕ → ℕ
  pub next_id : ℕ

-- ===== src/Meetings.antt =====
-- services/meeting_service.py with repositories/meeting_repository.py: meetings on the calendar of a
-- candidate, booked by the candidate or by a visitor of the page, without the SMS service.
pub mod Booking
pub mod Spaced
use chatfolio_backend.Prelude.{
  ℕ, ◌+◌, ◌*◌, Bool, true, false, ◌&&◌, ◌||◌, not, Option, none, some, List, [], ◌∷◌, String,
  str_eq, ltb, leb, ◌==◌, if◌then◌else◌, first_row, any_row, update_first, get_or,
}
use chatfolio_backend.Errors.{
  Error, Result, ok, err, integrity, not_found, unauthorized, validation_failed, forbidden,
  conflict, too_many_requests, feature_not_in_plan, limit_reached,
}
use chatfolio_backend.Action.{
  Action, proceed, pure, raise, raise_if, modify, or_raise, gets, lift, ◌>>=◌, ◌>>◌,
}
use chatfolio_backend.Catalog.{FeatureKey}
use chatfolio_backend.Time.Calendar.{DateTime, instant, add_micros}
use chatfolio_backend.Guard.{require_feature, guard_consume, guard_release}
use chatfolio_backend.World.{World}
use chatfolio_backend.Models.Site.{CandidateProfile}
use chatfolio_backend.Models.Chat.{ChatDb}
use chatfolio_backend.Portfolio.{on_world}
use chatfolio_backend.Chat.{on_site, is_session, unavailable}
use chatfolio_backend.Chat.Service.{page_with}

-- models/meeting.py, with the columns that booking uses.
pub record GoogleCalendarConnection : Type 0 where
  pub user_id : ℕ
  pub access_token_encrypted : String
  pub refresh_token_encrypted : Option String
  pub access_token_expires_at : DateTime

pub record MeetingRequestRecord : Type 0 where
  pub chat_session_id : ℕ
  pub user_id : ℕ
  pub created_at : DateTime

pub record Calendars : Type 0 where
  pub chat : ChatDb
  pub connections : List GoogleCalendarConnection

pub record MeetingDb : Type 0 where
  pub calendars : Calendars
  pub requests : List MeetingRequestRecord

pub record MeetingRequest : Type 0 where
  pub start : DateTime
  pub duration_minutes : ℕ
  pub attendee_email : String
  pub additional_attendees : List String

-- What booking takes from outside: the answers of Google, the encryption of tokens, and two text
-- functions. An answer has the new token and the seconds that it lives, if it says so.
pub record Google : Type 0 where
  pub refresh_access_token : String → Result (String × Option ℕ)
  pub create_calendar_event : String → List String → MeetingRequest → DateTime → Result String
  pub encrypt_secret : String → String
  pub decrypt_secret : String → Result String
  pub lower : String → String
  pub mentions_refresh_token : String → Bool

abbrev pub on_owner {ℓ} : {A : Type ℓ} → Action World A → Action Calendars A
on_owner m c = let (r, chat) = on_site (on_world m) c.chat in (r, record c { chat = chat })

abbrev pub on_calendars {ℓ} : {A : Type ℓ} → Action Calendars A → Action MeetingDb A
on_calendars m db = let (r, c) = m db.calendars in (r, record db { calendars = c })

abbrev pub minute : ℕ
minute = 60000000

abbrev pub expiry_buffer : ℕ
expiry_buffer = 5 * minute

abbrev pub public_request_cooldown : ℕ
public_request_cooldown = 5 * minute

abbrev pub connection_of : ℕ → GoogleCalendarConnection → Bool
connection_of user c = c.user_id == user

abbrev pub save_token : Google → ℕ → String → DateTime → Calendars → Calendars
save_token g user token expires s = record s {
  connections =
      update_first (connection_of user)
        (λ c. record c {
          access_token_encrypted = g.encrypt_secret token;
          access_token_expires_at = expires;
        })
        s.connections;
}

abbrev must_reconnect : Error
must_reconnect = unauthorized "Google Calendar access has expired and must be reconnected."

-- `not refresh_token_encrypted`: an empty text counts as none.
abbrev pub stored_text : Option String → Option String
stored_text none = none
stored_text (some t) = if str_eq t "" then none else some t

abbrev pub refreshed_token : Google → GoogleCalendarConnection → DateTime → Action Calendars String
refreshed_token g c now = do
  stored ← or_raise must_reconnect (stored_text c.refresh_token_encrypted)
  token ← lift (g.decrypt_secret stored)
  (fresh, seconds) ← lift (g.refresh_access_token token)
  modify (save_token g c.user_id fresh (add_micros (get_or 3600 seconds * 1000000) now))
  pure fresh

unfoldable pub valid_access_token_for : Google → ℕ → DateTime → Action Calendars String
valid_access_token_for g user now = do
  c ←
      gets (λ s. first_row (connection_of user) s.connections)
      >>= or_raise (not_found "Google Calendar is not connected.")
  if ltb (instant now + expiry_buffer) (instant c.access_token_expires_at)
      then lift (g.decrypt_secret c.access_token_encrypted)
      else refreshed_token g c now

-- The loop over the further attendees, with those that the event has already.
unfoldable pub attendees : Google → List String → List String → List String
attendees g seen [] = []
attendees g seen (extra ∷ extras) =
    let skipped = str_eq extra "" || any_row (λ e. str_eq (g.lower e) (g.lower extra)) seen in
    let rest = attendees g (if skipped then seen else extra ∷ seen) extras in
    if skipped then rest else extra ∷ rest

unfoldable pub schedule_meeting_for :
    Google → ℕ → MeetingRequest → DateTime → Action Calendars String
schedule_meeting_for g user r now = do
  raise_if (leb (instant r.start) (instant now))
      (validation_failed "Meeting start must be in the future.")
  token ← valid_access_token_for g user now
  lift (
      g.create_calendar_event token
        (r.attendee_email ∷ attendees g (r.attendee_email ∷ []) r.additional_attendees) r
        (add_micros (r.duration_minutes * minute) r.start))

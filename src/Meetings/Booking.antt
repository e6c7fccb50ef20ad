-- ===== src/Meetings/Booking.antt =====
-- services/meeting_service.py: `schedule_meeting` of the candidate and `schedule_public_meeting` of a
-- visitor.
use chatfolio_backend.Prelude.{
  ℕ, ◌+◌, Bool, false, not, Option, none, some, List, [], ◌∷◌, String, ltb, ◌==◌, if◌then◌else◌,
  first_row, any_row,
}
use chatfolio_backend.Errors.{
  Error, Result, ok, err, integrity, not_found, unauthorized, validation_failed, forbidden,
  conflict, too_many_requests, feature_not_in_plan, limit_reached,
}
use chatfolio_backend.Action.{Action, proceed, pure, raise_if, or_raise, gets, ◌>>=◌, ◌>>◌}
use chatfolio_backend.Catalog.{FeatureKey}
use chatfolio_backend.Time.Calendar.{DateTime, instant}
use chatfolio_backend.Guard.{require_feature, guard_consume, guard_release}
use chatfolio_backend.Models.Site.{CandidateProfile}
use chatfolio_backend.Chat.{is_session, unavailable, rolled_back}
use chatfolio_backend.Chat.Service.{page_with}
use chatfolio_backend.Meetings.{
  Google, Calendars, MeetingDb, MeetingRequest, MeetingRequestRecord, on_owner, on_calendars,
  public_request_cooldown, schedule_meeting_for,
}

abbrev pub meetings_limit : FeatureKey
meetings_limit = FeatureKey.meetings_limit

-- A failed booking gives the unit back; the error stays, unless giving it back fails.
abbrev pub released_after : ℕ → DateTime → Result String × Calendars → Result String × Calendars
released_after user now (ok id, s) = (ok id, s)
released_after user now (err e, s) =
    proceed (on_owner (guard_release user meetings_limit 1 now) s) (λ _ t. (err e, t))

unfoldable pub schedule_meeting : Google → ℕ → MeetingRequest → DateTime → Action Calendars String
schedule_meeting g user r now = do
  _ ← on_owner (require_feature user FeatureKey.calendar_booking now)
  on_owner (guard_consume user meetings_limit 1 now)
  λ s. released_after user now (schedule_meeting_for g user r now s)

abbrev pub not_accepting : Error
not_accepting = conflict "This candidate isn't accepting meeting requests right now."

-- A visitor learns nothing about plans.
abbrev pub hide_plan {ℓ} : {A : Type ℓ} {S : Type 0} → Result A × S → Result A × S
hide_plan (err (feature_not_in_plan f), s) = (err not_accepting, s)
hide_plan (err (limit_reached f l n), s) = (err not_accepting, s)
hide_plan r = r

unfoldable pub reserve_public_meeting : ℕ → DateTime → Action Calendars (Unit {0})
reserve_public_meeting owner now s = hide_plan (
    (do
      _ ← on_owner (require_feature owner FeatureKey.calendar_booking now)
      on_owner (guard_consume owner meetings_limit 1 now))
      s)

-- Nor whether a calendar is connected, or its access was withdrawn.
abbrev pub hide_connection : Google → Result String × Calendars → Result String × Calendars
hide_connection g (err (not_found m), s) = (err not_accepting, s)
hide_connection g (err (unauthorized m), s) = (err not_accepting, s)
hide_connection g (err (validation_failed m), s) =
    (err (if g.mentions_refresh_token m then not_accepting else validation_failed m), s)
hide_connection g r = r

-- `expected_user_id and expected_user_id != profile.user_id`
abbrev pub is_another : Option ℕ → ℕ → Bool
is_another none user = false
is_another (some expected) user = not (expected == user)

-- The candidate whose page the chat is on.
unfoldable pub candidate_of : ℕ → Option ℕ → Action Calendars CandidateProfile
candidate_of session expected = do
  c ←
      gets (λ s. first_row (is_session session) s.chat.sessions)
      >>= or_raise (not_found "Chat session not found.")
  page ←
      gets (λ s. first_row (page_with c.chatfolio_id) s.chat.site.chatfolios)
      >>= or_raise unavailable
  raise_if (not page.is_published) unavailable
  profile ←
      gets (λ s. first_row (λ p. p.id == page.profile_id) s.chat.site.profiles)
      >>= or_raise unavailable
  raise_if (is_another expected profile.user_id) unavailable
  pure profile

abbrev pub of_session : ℕ → MeetingRequestRecord → Bool
of_session session q = q.chat_session_id == session

unfoldable pub session_has_request : ℕ → List MeetingRequestRecord → Bool
session_has_request session requests = any_row (of_session session) requests

abbrev pub later : ℕ → Option ℕ → Option ℕ
later t none = some t
later t (some u) = some (if ltb u t then t else u)

-- The instant of a candidate's latest request.
unfoldable pub latest_request_at : ℕ → List MeetingRequestRecord → Option ℕ
latest_request_at user [] = none
latest_request_at user (q ∷ qs) =
    let rest = latest_request_at user qs in
    if q.user_id == user then later (instant q.created_at) rest else rest

abbrev pub is_cooling : DateTime → Option ℕ → Bool
is_cooling now none = false
is_cooling now (some latest) = ltb (instant now) (latest + public_request_cooldown)

-- The insert with its unique session. `created_at` is the database's `now()`, the time when the
-- transaction began.
unfoldable pub record_request : ℕ → ℕ → DateTime → Action MeetingDb (Unit {0})
record_request session user begun db =
    if session_has_request session db.requests then (err integrity, db) else (
      ok tt,
      record db {
        requests =
            record { chat_session_id = session; user_id = user; created_at = begun } ∷ db.requests;
      },
    )

-- The booking, whose unit is taken already.
abbrev pub booked_for : Google → ℕ → MeetingRequest → DateTime → Action Calendars String
booked_for g user r now s =
    released_after user now (hide_connection g (schedule_meeting_for g user r now s))

-- What a visitor's request does once the candidate is known. The transaction began at `begun`; the
-- request then waits for the lock of the candidate, and reads the clock at `now`.
unfoldable pub request_meeting :
    Google → ℕ → ℕ → MeetingRequest → DateTime → DateTime → Action MeetingDb String
request_meeting g session user r begun now db =
    (do
      raise_if (session_has_request session db.requests)
          (forbidden "A meeting has already been requested from this chat.")
      raise_if (is_cooling now (latest_request_at user db.requests)) (
          too_many_requests
            "A meeting was just requested with this candidate. Please try again in a few minutes.")
      on_calendars (reserve_public_meeting user now)
      meeting ← on_calendars (booked_for g user r now)
      record_request session user begun
      pure meeting)
      db

unfoldable pub schedule_public_meeting :
    Google → ℕ → MeetingRequest → Option ℕ → DateTime → DateTime → Action MeetingDb String
schedule_public_meeting g session r expected begun now = do
  profile ← on_calendars (candidate_of session expected)
  request_meeting g session profile.user_id r begun now

-- How the database session of a request ends; Redis stays as it is.
abbrev pub settled_request : MeetingDb → Result String × MeetingDb → MeetingDb
settled_request before (ok id, after) = after
settled_request before (err e, after) = record before {
  calendars = record before.calendars {
    chat = rolled_back before.calendars.chat after.calendars.chat;
  };
}

pub record PublicRequest : Type 0 where
  pub session : ℕ
  pub meeting : MeetingRequest
  pub expected : Option ℕ
  pub begun : DateTime
  pub now : DateTime

-- Requests of visitors one after the other, each with what Google answers to it.
unfoldable pub request_all : List (Google × PublicRequest) → MeetingDb → MeetingDb
request_all [] db = db
request_all ((g, q) ∷ qs) db =
    request_all qs (
      settled_request db
        (schedule_public_meeting g q.session q.meeting q.expected q.begun q.now db))

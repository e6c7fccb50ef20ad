-- ===== src/Tests/OfMeetings.antt =====
-- The theorem on meetings at a concrete input: two requests out of one chat.
use chatfolio_backend.Prelude.{false, none, some, [], ◌∷◌}
use chatfolio_backend.Prelude.{arith}
use chatfolio_backend.Time.Calendar.{instant}
use chatfolio_backend.Errors.{ok}
use chatfolio_backend.Meetings.{Google, MeetingDb}
use chatfolio_backend.Meetings.Booking.{PublicRequest, request_all}
use chatfolio_backend.Meetings.Spaced.{IsSpaced, IsPrompt, request_all-IsSpaced}
use chatfolio_backend.Tests.OfChat.{chat_db}
use chatfolio_backend.Tests.Samples.{day}

abbrev google : Google
google = record {
  refresh_access_token = λ t. ok ("fresh", some 3600);
  create_calendar_event = λ t emails r end. ok "event";
  encrypt_secret = λ s. s;
  decrypt_secret = λ s. ok s;
  lower = λ s. s;
  mentions_refresh_token = λ m. false;
}

abbrev meeting_db : MeetingDb
meeting_db = record {
  calendars = record {
    chat = chat_db;
    connections =
        record {
          user_id = 10;
          access_token_encrypted = "token";
          refresh_token_encrypted = none;
          access_token_expires_at = day 9;
        }
        ∷ [];
  };
  requests = record { chat_session_id = 49; user_id = 10; created_at = day 2 } ∷ [];
}

abbrev wanted : PublicRequest
wanted = record {
  session = 50;
  meeting = record {
    start = day 8;
    duration_minutes = 30;
    attendee_email = "bob@example.org";
    additional_attendees = [];
  };
  expected = some 10;
  begun = day 3;
  now = record { year = 2026; month = 11; day = 3; micros = 2000000 };
}

-- The request waits two seconds for the lock of the candidate.
request_all-IsSpaced_example :
    IsSpaced 2000000 (request_all ((google, wanted) ∷ (google, wanted) ∷ []) meeting_db).requests
unfolding chatfolio_backend.Time.Calendar.ordinal
request_all-IsSpaced_example =
    request_all-IsSpaced 2000000 ((google, wanted) ∷ (google, wanted) ∷ []) meeting_db
      (two_seconds, (two_seconds, tt)) (unfold IsSpaced in (tt, tt))
  where
    two_seconds : IsPrompt 2000000 (google, wanted)
    two_seconds = unfold instant in omega arith

-- ===== src/Meetings/Spaced.antt =====
-- services/meeting_service.py: how close the requests of visitors can lie.
use chatfolio_backend.Prelude.{
  ℕ, ◌+◌, ◌≤◌, ◌≡◌, refl, sym, Bool-cases, inl, inr, true, false, Option, none, some, List, [], ◌∷◌,
  arith, All, String, ◌==◌,
}
use chatfolio_backend.Errors.{Result, ok, err}
use chatfolio_backend.Action.Leaves.{Leaves, calls, checks, calls-with}
use chatfolio_backend.Time.Calendar.{DateTime, instant}
use chatfolio_backend.Meetings.{
  Google, Calendars, MeetingDb, MeetingRequest, MeetingRequestRecord, on_calendars,
  public_request_cooldown,
}
use chatfolio_backend.Meetings.Booking.{
  schedule_public_meeting, request_meeting, session_has_request, latest_request_at, is_cooling,
  record_request, candidate_of, later, reserve_public_meeting, booked_for, PublicRequest,
  settled_request, request_all,
}

-- A request and one before it: of another session, and at most `wait` less than five minutes later
-- when the candidate is the same.
unfoldable pub Follows : ℕ → MeetingRequestRecord → MeetingRequestRecord → Type 0
Follows wait q p =
    ((p.chat_session_id == q.chat_session_id) ≡ false)
    × ((p.user_id == q.user_id) ≡ true
        → instant p.created_at + public_request_cooldown ≤ instant q.created_at + wait)

-- Every request follows all that were recorded before it, which stand behind it.
unfoldable pub IsSpaced : ℕ → List MeetingRequestRecord → Type 0
IsSpaced wait [] = Unit
IsSpaced wait (q ∷ qs) = All (Follows wait q) qs × IsSpaced wait qs

-- The clock was read at most `wait` after the transaction began.
abbrev pub IsPrompt : ℕ → Google × PublicRequest → Type 0
IsPrompt wait (g, q) = instant q.now ≤ instant q.begun + wait

later-cooling :
    (now : DateTime) (t : ℕ) (o : Option ℕ)
    → is_cooling now (later t o) ≡ false
    → (t + public_request_cooldown ≤ instant now) × (is_cooling now o ≡ false)
later-cooling now t none h = (ground arith, refl)
later-cooling now t (some u) h = (ground arith, ground arith)

earlier-cooling :
    (now : DateTime) (user : ℕ) (p : MeetingRequestRecord) (qs : List MeetingRequestRecord)
    → is_cooling now (latest_request_at user (p ∷ qs)) ≡ false
    → ((p.user_id == user) ≡ true → instant p.created_at + public_request_cooldown ≤ instant now)
      × (is_cooling now (latest_request_at user qs) ≡ false)
unfolding latest_request_at
earlier-cooling now user p qs h = elim (Bool-cases (p.user_id == user)) [
  | inl same ↦
      let (le, rest) =
        later-cooling now (instant p.created_at) (latest_request_at user qs)
          (rw (sym (step same)) h) in
      (λ e. le, rest)
  | inr other ↦ (λ e. ground arith, ground arith)
]
  where
    step :
        (p.user_id == user) ≡ true
        → is_cooling now (latest_request_at user (p ∷ qs))
          ≡ is_cooling now (later (instant p.created_at) (latest_request_at user qs))
    step e = rw e refl

checked-Follows :
    (wait session user : ℕ) (begun now : DateTime) (qs : List MeetingRequestRecord)
    → instant now ≤ instant begun + wait
    → session_has_request session qs ≡ false
    → is_cooling now (latest_request_at user qs) ≡ false
    → All
        (Follows wait (record { chat_session_id = session; user_id = user; created_at = begun }))
        qs
unfolding session_has_request latest_request_at Follows
checked-Follows wait session user begun now [] soon new cool = tt
checked-Follows wait session user begun now (p ∷ qs) soon new cool =
    let (after, rest) = earlier-cooling now user p qs cool in
    (
      (ground arith, λ same. omega (arith, after same, soon)),
      checked-Follows wait session user begun now qs soon (ground arith) rest,
    )

module _ (wait session user : ℕ) (begun now : DateTime) where
  -- What a request has checked when its record is written.
  record IsReady (db : MeetingDb) : Type 0 where
    spaced : IsSpaced wait db.requests
    soon : instant now ≤ instant begun + wait
    new : session_has_request session db.requests ≡ false
    cool : is_cooling now (latest_request_at user db.requests) ≡ false

Spaced : ℕ → MeetingDb → Type 0
Spaced wait db = IsSpaced wait db.requests

module _ (wait session user : ℕ) (begun now : DateTime) where
  record_request-IsSpaced :
      (db : MeetingDb)
      → IsReady wait session user begun now db
      → Leaves (Spaced wait) (record_request session user begun db)
  unfolding record_request IsSpaced Spaced
  record_request-IsSpaced db t =
      rw t.new
        (checked-Follows wait session user begun now db.requests t.soon t.new t.cool, t.spaced)

  keeps {ℓ} :
      {A : Type ℓ} (m : Result A × Calendars) (db : MeetingDb)
      → IsReady wait session user begun now db
      → Leaves (IsReady wait session user begun now) (m.0, record db { calendars = m.1 })
  keeps m db q = record { spaced = q.spaced; soon = q.soon; new = q.new; cool = q.cool }

  ready-Spaced : (db : MeetingDb) → IsReady wait session user begun now db → Spaced wait db
  unfolding Spaced
  ready-Spaced db q = q.spaced

  request_meeting-Spaced :
      (g : Google) (r : MeetingRequest) (db : MeetingDb)
      → instant now ≤ instant begun + wait
      → Spaced wait db
      → Leaves (Spaced wait) (request_meeting g session user r begun now db)
  unfolding request_meeting
  request_meeting-Spaced g r db soon s =
      let P = Spaced wait in
      let Q = IsReady wait session user begun now in
      checks P (session_has_request session db.requests) _ db _ s (λ new.
        checks P (is_cooling now (latest_request_at user db.requests)) _ db _ s (λ cool.
          let ready : Q db = record {
            spaced = unfold Spaced in s;
            soon = soon;
            new = new;
            cool = cool;
          } in
          calls-with P Q (on_calendars (reserve_public_meeting user now) db) _
            (keeps (reserve_public_meeting user now db.calendars) db ready) ready-Spaced
            (λ a t q.
              calls-with P Q (on_calendars (booked_for g user r now) t) _
                (keeps (booked_for g user r now t.calendars) t q) ready-Spaced
                (λ m u p.
                  calls P (record_request session user begun u) _ (record_request-IsSpaced u p)
                    (λ x v w. w)))))

module _ (wait : ℕ) where
  schedule_public_meeting-Spaced :
      (g : Google) (session : ℕ) (r : MeetingRequest) (expected : Option ℕ) (begun now : DateTime)
      (db : MeetingDb)
      → instant now ≤ instant begun + wait
      → Spaced wait db
      → Leaves (Spaced wait) (schedule_public_meeting g session r expected begun now db)
  unfolding schedule_public_meeting
  schedule_public_meeting-Spaced g session r expected begun now db soon s =
      calls (Spaced wait) (on_calendars (candidate_of session expected) db) _ (unfold Spaced in s)
        (λ profile t q. request_meeting-Spaced wait session profile.user_id begun now g r t soon q)

  settled_request-Spaced :
      (db : MeetingDb) (m : Result String × MeetingDb)
      → Spaced wait db
      → Leaves (Spaced wait) m
      → Spaced wait (settled_request db m)
  unfolding Spaced
  settled_request-Spaced db (ok id, after) s q = q
  settled_request-Spaced db (err e, after) s q = s

  -- Whatever Google answers, visitors' requests that each read the clock within `wait` of the begin
  -- of their transaction keep the recorded requests spaced: no two are of one chat session, and of
  -- two of one candidate the one recorded later has a time at least five minutes less `wait` after
  -- the other's.
  pub request_all-IsSpaced :
      (qs : List (Google × PublicRequest)) (db : MeetingDb)
      → All (IsPrompt wait) qs
      → IsSpaced wait db.requests
      → IsSpaced wait (request_all qs db).requests
  unfolding request_all
  request_all-IsSpaced [] db soon s = s
  request_all-IsSpaced ((g, q) ∷ qs) db (soon, rest) s =
      let after = schedule_public_meeting g q.session q.meeting q.expected q.begun q.now db in
      request_all-IsSpaced qs (settled_request db after) rest (
        unfold Spaced in
        (settled_request-Spaced db after (unfold Spaced in s) (
          schedule_public_meeting-Spaced g q.session q.meeting q.expected q.begun q.now db soon
            (unfold Spaced in s))))

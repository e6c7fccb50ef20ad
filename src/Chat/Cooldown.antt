-- ===== src/Chat/Cooldown.antt =====
-- services/chat_service.py: `_enforce_cooldown` within its request. A message that comes too early is
-- counted although it is refused.
use chatfolio_backend.Prelude.{
  ℕ, suc, ◌+◌, ◌≡◌, refl, sym, ap, ◌∙◌, true, ◌||◌, some, List, [], ◌∷◌, String, arith, All,
  first_row, length, leb, ltb, ◌&&◌,
}
use chatfolio_backend.Prelude.Rows.{
  first_row-passes, update_first-found, update_first-twice, update_first-idle,
}
use chatfolio_backend.Errors.{err, too_many_requests}
use chatfolio_backend.Time.Calendar.{DateTime}
use chatfolio_backend.Models.Site.{PublicChatfolio}
use chatfolio_backend.Models.Chat.{ChatDb, ChatSession}
use chatfolio_backend.Chat.{
  in_session, is_session, change_session, enforce_cooldown, counted_rapid, is_rapid,
  rapid_fire_flag_threshold,
}
use chatfolio_backend.Chat.Service.{RagService, page_with, send_message}

-- A request after another to send a message in one session, each with its text and its time.
unfoldable pub send_all : RagService → ℕ → List (String × DateTime) → ChatDb → ChatDb
send_all rag id [] db = db
send_all rag id ((content, now) ∷ ms) db =
    send_all rag id ms (in_session (send_message rag id content now) db).1

-- The session is there, and its page is published.
pub record IsLive (id : ℕ) (c : ChatSession) (page : PublicChatfolio) (db : ChatDb) : Type 0 where
  pub session : first_row (is_session id) db.sessions ≡ some c
  pub page_found : first_row (page_with c.chatfolio_id) db.site.chatfolios ≡ some page
  pub published : page.is_published ≡ true

send_message-rapid :
    (rag : RagService) (id : ℕ) (content : String) (now : DateTime) (c : ChatSession)
    (page : PublicChatfolio) (db : ChatDb)
    → IsLive id c page db
    → is_rapid c.last_active_at now ≡ true
    → in_session (send_message rag id content now) db ≡ (
      err (too_many_requests "You're sending messages too quickly. Please slow down."),
      change_session c.id counted_rapid db,
    )
unfolding send_message in_session enforce_cooldown
send_message-rapid rag id content now c page db live rapid =
    rw (live.session, live.page_found, live.published, rapid) refl

-- A session after `n` refused messages.
unfoldable pub refused : ℕ → ChatSession → ChatSession
refused n c = record c {
  rapid_fire_count = c.rapid_fire_count + n;
  is_flagged = c.is_flagged || (ltb 0 n && leb rapid_fire_flag_threshold (c.rapid_fire_count + n));
}

refused-counted : (n : ℕ) (c : ChatSession) → refused n (counted_rapid c) ≡ refused (suc n) c
unfolding refused
refused-counted n c = rw (count, flag) refl
  where
    count : c.rapid_fire_count + 1 + n ≡ c.rapid_fire_count + suc n
    count = omega arith

    flag :
        c.is_flagged
          || leb 5 (c.rapid_fire_count + 1)
          || ltb 0 n && leb 5 (c.rapid_fire_count + suc n)
        ≡ c.is_flagged || ltb 0 (suc n) && leb 5 (c.rapid_fire_count + suc n)
    flag = ground arith

refused-none : (c : ChatSession) → refused 0 c ≡ c
unfolding refused
refused-none c = ground arith

-- Messages to a session whose page is published, each within two seconds of the last answer by the
-- time it has, are refused one and all, and leave every table and Redis as they were, but for the
-- session: it has counted each of them although each request was rolled back, and it is flagged when
-- it was before or the count reaches five.
pub send_all-refused :
    (rag : RagService) (id : ℕ) (ms : List (String × DateTime)) (c : ChatSession)
    (page : PublicChatfolio) (db : ChatDb)
    → IsLive id c page db
    → All (λ m. is_rapid c.last_active_at m.1 ≡ true) ms
    → send_all rag id ms db ≡ change_session id (refused (length ms)) db
unfolding send_all change_session
send_all-refused rag id [] c page db live rapid =
    ap (λ l. record db { sessions = l })
      (sym (update_first-idle (is_session id) (refused 0) refused-none db.sessions))
send_all-refused rag id ((content, now) ∷ ms) c page db live (first, rest) =
    rw (send_message-rapid rag id content now c page db live first, same_id)
      (send_all-refused rag id ms (counted_rapid c) page (change_session id counted_rapid db) still
          rest
        ∙ ap (λ l. record db { sessions = l })
            (update_first-twice (is_session id) counted_rapid (λ x. refl) (refused (length ms))
              (refused (suc (length ms))) (refused-counted (length ms)) db.sessions))
  where
    same_id : c.id ≡ id
    same_id = ground (arith, first_row-passes (is_session id) c db.sessions live.session)

    still : IsLive id (counted_rapid c) page (change_session id counted_rapid db)
    still = record {
      session =
          update_first-found (is_session id) counted_rapid (λ x. refl) db.sessions c live.session;
      page_found = live.page_found;
      published = live.published;
    }

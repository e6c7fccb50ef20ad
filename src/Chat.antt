-- ===== src/Chat.antt =====
-- The chat of a visitor with a public page (services/chat_service.py), without the SMS service, which
-- the caller may leave out. A session that commits in the middle of a request keeps what it has
-- committed.
pub mod Metadata
pub mod Cooldown
pub mod Service
use chatfolio_backend.Prelude.{
  ℕ, suc, ◌+◌, Bool, true, false, ◌&&◌, ◌||◌, not, Option, none, some, List, [], ◌∷◌, String, ltb,
  leb, ◌==◌, is_none, if◌then◌else◌, first_row, where_rows, count_rows, update_first, take,
}
use chatfolio_backend.Errors.{
  Error, Result, ok, err, not_found, too_many_requests, limit_reached, chat_unavailable,
}
use chatfolio_backend.Action.{Action, pure, raise_if, modify, or_raise, gets, lift, ◌>>=◌, ◌>>◌}
use chatfolio_backend.Catalog.{FeatureKey}
use chatfolio_backend.Time.Calendar.{DateTime, instant}
use chatfolio_backend.Entitlements.{limit}
use chatfolio_backend.Quota.Tally.{ensure_room}
use chatfolio_backend.Guard.{
  entitled, guard_ensure_open, guard_consume, guard_release, guard_add_usage,
}
use chatfolio_backend.World.{World}
use chatfolio_backend.Models.Site.{Site, CandidateProfile, PublicChatfolio}
use chatfolio_backend.Models.Chat.{
  ChatDb, ChatSession, ChatMessage, MessageRole, MetadataField, RecruiterMetadata,
}
use chatfolio_backend.Portfolio.{on_world}
use chatfolio_backend.Portfolio.Resolver.{resolve_published}

-- The database session of a request: what it sees, and what it committed last.
pub record Session : Type 0 where
  pub view : ChatDb
  pub committed : ChatDb

abbrev pub on_view {ℓ} : {A : Type ℓ} → Action ChatDb A → Action Session A
on_view m s = let (r, db) = m s.view in (r, record s { view = db })

abbrev pub on_site {ℓ} : {A : Type ℓ} → Action Site A → Action ChatDb A
on_site m db = let (r, site) = m db.site in (r, record db { site = site })

abbrev pub commit : Action Session (Unit {0})
commit s = (ok tt, record s { committed = s.view })

-- What is left of a request that raised: the tables as they were committed, and Redis as it is now.
abbrev pub rolled_back : ChatDb → ChatDb → ChatDb
rolled_back kept db = record kept {
  site = record kept.site { world = record kept.site.world { redis = db.site.world.redis } };
}

abbrev pub session_end {ℓ} : {A : Type ℓ} → Result A × Session → Result A × ChatDb
session_end (ok a, s) = (ok a, s.view)
session_end (err e, s) = (err e, rolled_back s.committed s.view)

-- `get_db_session` around a handler.
unfoldable pub in_session {ℓ} : {A : Type ℓ} → Action Session A → Action ChatDb A
in_session handler db = session_end (handler (record { view = db; committed = db }))

abbrev pub unavailable : Error
unavailable = not_found "This Chatfolio is not available."

unfoldable pub start_session : String → DateTime → Action ChatDb ChatSession
start_session slug now = do
  found ← on_site (resolve_published slug now)
  chatfolio ← or_raise unavailable found
  λ db.
      let c : ChatSession = record {
        id = db.next_id;
        chatfolio_id = chatfolio.id;
        last_active_at = none;
        rapid_fire_count = 0;
        is_flagged = false;
      } in
      (ok c, record db { sessions = c ∷ db.sessions; next_id = db.next_id + 1 })

abbrev pub is_session : ℕ → ChatSession → Bool
is_session id c = c.id == id

-- A change of the row that the session loaded.
unfoldable pub change_session : ℕ → (ChatSession → ChatSession) → ChatDb → ChatDb
change_session id f db = record db { sessions = update_first (is_session id) f db.sessions }

abbrev pub cooldown_micros : ℕ
cooldown_micros = 2000000

abbrev pub rapid_fire_flag_threshold : ℕ
rapid_fire_flag_threshold = 5

abbrev pub counted_rapid : ChatSession → ChatSession
counted_rapid c = record c {
  rapid_fire_count = c.rapid_fire_count + 1;
  is_flagged = c.is_flagged || leb rapid_fire_flag_threshold (c.rapid_fire_count + 1);
}

-- `elapsed < timedelta(seconds=COOLDOWN_SECONDS)`, when there was an answer before.
unfoldable pub is_rapid : Option DateTime → DateTime → Bool
is_rapid none now = false
is_rapid (some last) now = ltb (instant now) (instant last + cooldown_micros)

unfoldable pub enforce_cooldown : ChatSession → DateTime → Action Session (Unit {0})
enforce_cooldown c now =
    if is_rapid c.last_active_at now
    then (do
      on_view (modify (change_session c.id counted_rapid))
      commit
      raise_if true (too_many_requests "You're sending messages too quickly. Please slow down."))
    else pure tt

-- The messages of the visitor in one session.
abbrev pub sent_in : ℕ → ChatMessage → Bool
sent_in id m =
    (m.session_id == id)
    && (elim m.role [ MessageRole.recruiter ↦ true | MessageRole.assistant ↦ false ])

unfoldable pub ensure_session_room : ℕ → ℕ → DateTime → Action ChatDb (Unit {0})
ensure_session_room id owner now = do
  e ← on_site (on_world (entitled owner now))
  sent ← gets (λ db. count_rows (sent_in id) db.messages)
  lift (
      ensure_room FeatureKey.chat_messages_per_session
        (limit e FeatureKey.chat_messages_per_session) sent)

-- A visitor is not told that a limit or a plan is involved.
abbrev pub neutral {ℓ} : {A : Type ℓ} {S : Type 0} → Result A × S → Result A × S
neutral (err (limit_reached f l n), s) = (err chat_unavailable, s)
neutral r = r

abbrev pub chats_limit : FeatureKey
chats_limit = FeatureKey.recruiter_chats_limit

unfoldable pub admit : ℕ → ℕ → Bool → DateTime → Action ChatDb Bool
admit id owner is_first now db = neutral (
    (do
      on_site (on_world (guard_ensure_open owner FeatureKey.ai_tokens_limit now))
      reserve is_first)
      db)
  where
    reserve : Bool → Action ChatDb Bool
    reserve true = do on_site (on_world (guard_consume owner chats_limit 1 now)); pure true
    reserve false = do ensure_session_room id owner now; pure false

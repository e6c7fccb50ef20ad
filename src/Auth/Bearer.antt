-- ===== src/Auth/Bearer.antt =====
-- Which signed token opens what: core/security.py, `get_current_user` (api/deps.py) and `login`.
use chatfolio_backend.Prelude.{ℕ, ◌∙◌, lt→ltb, ◌≡◌, ◌≤◌, ◌<◌, refl, true, Option, none, some}
use chatfolio_backend.Errors.{ok}
use chatfolio_backend.Time.Calendar.{DateTime, moment, add_micros}
use chatfolio_backend.Models.Users.{User, UserRole}
use chatfolio_backend.Models.Accounts.{AccountDb}
use chatfolio_backend.Auth.Tokens.{
  SecuritySettings, Jwt, IsJwt, Subject, payload, stamp, minutes, signed, claims_of, stamped,
  get_by_id, create_access_token, create_two_factor_challenge_token,
  create_google_oauth_state_token, decode_two_factor_challenge_token, get_current_user, TokenType,
}

-- A token that was issued at one time and lives for some minutes is read at another.
abbrev pub InTime : DateTime → ℕ → DateTime → Type 0
InTime issued ttl now =
    (moment (stamp issued) ≤ moment now)
    × (moment now < moment (stamp (add_micros (minutes ttl) issued)))

reads :
    (j : Jwt) (type : TokenType) (role : Option UserRole) (user ttl : ℕ) (issued now : DateTime)
    → IsJwt j (claims_of type role user ttl issued)
    → InTime issued ttl now
    → j.decode (signed j type role user ttl issued) now
      ≡ payload (stamped (claims_of type role user ttl issued))
unfolding IsJwt
reads j type role user ttl issued now good (from, until) =
    good now from
    ∙ rw (lt→ltb (moment now) (moment (stamp (add_micros (minutes ttl) issued))) until) refl

-- In its time, the token of a login challenge gives its user back, and the other two kinds of token
-- are no challenge.
pub challenge-roundtrip :
    (j : Jwt) (s : SecuritySettings) (user : ℕ) (role : UserRole) (issued now : DateTime)
    → IsJwt j (
        claims_of TokenType.two_factor_challenge none user s.two_factor_challenge_ttl_minutes
          issued)
    → IsJwt j (claims_of TokenType.access (some role) user s.access_token_ttl_minutes issued)
    → IsJwt j
        (claims_of TokenType.google_oauth_state none user s.google_oauth_state_ttl_minutes issued)
    → InTime issued s.two_factor_challenge_ttl_minutes now
    → InTime issued s.access_token_ttl_minutes now
    → InTime issued s.google_oauth_state_ttl_minutes now
    → (decode_two_factor_challenge_token j (create_two_factor_challenge_token j s user issued) now
        ≡ Subject.subject user)
      × (decode_two_factor_challenge_token j (create_access_token j s user role issued) now
          ≡ Subject.not_valid)
      × (decode_two_factor_challenge_token j (create_google_oauth_state_token j s user issued) now
          ≡ Subject.not_valid)
unfolding decode_two_factor_challenge_token create_two_factor_challenge_token create_access_token
    create_google_oauth_state_token
challenge-roundtrip j s user role issued now g h k a b c = (
  rw (reads j TokenType.two_factor_challenge none user _ issued now g a) refl,
  rw (reads j TokenType.access (some role) user _ issued now h b) refl,
  rw (reads j TokenType.google_oauth_state none user _ issued now k c) refl,
)

-- The token of a login challenge, which is handed out before the second factor, is accepted as the
-- bearer token of its user, for as long as the challenge lives.
pub get_current_user-challenge :
    (j : Jwt) (s : SecuritySettings) (user : User) (issued now : DateTime) (db : AccountDb)
    → IsJwt j (
        claims_of TokenType.two_factor_challenge none user.id s.two_factor_challenge_ttl_minutes
          issued)
    → InTime issued s.two_factor_challenge_ttl_minutes now
    → get_by_id user.id db ≡ some user
    → user.is_active ≡ true
    → get_current_user j (some (create_two_factor_challenge_token j s user.id issued)) now db
      ≡ (ok user, db)
unfolding get_current_user create_two_factor_challenge_token
get_current_user-challenge j s user issued now db good a found on =
    rw (reads j TokenType.two_factor_challenge none user.id _ issued now good a) rw found rw on refl

-- ===== src/Tests/OfAuth.antt =====
-- The theorems on accounts at concrete inputs: a candidate with a session, a login challenge and a
-- forgotten password.
use chatfolio_backend.Prelude.{
  ◌≡◌, refl, arith, false, none, some, List, [], ◌∷◌, String, str_eq, ltb, if◌then◌else◌,
}
use chatfolio_backend.Errors.{ok, err}
use chatfolio_backend.Time.Calendar.{DateTime, moment, add_micros, add_days}
use chatfolio_backend.Models.Users.{UserRole, OtpPurpose, TwoFactorMethod}
use chatfolio_backend.Models.Accounts.{AccountDb, RefreshToken, OtpCode, PasswordResetToken}
use chatfolio_backend.Auth.{Crypto, TokenResponse}
use chatfolio_backend.Auth.Tokens.{
  Jwt, SecuritySettings, TokenType, Claims, Decoded, payload, expired, IsJwt, Subject, claims_of,
  stamped, stamp, minutes, get_by_id, get_current_user, create_two_factor_challenge_token,
  decode_two_factor_challenge_token, create_access_token, create_google_oauth_state_token,
}
use chatfolio_backend.Auth.Login.{refresh, bad_refresh_token}
use chatfolio_backend.Auth.Recovery.{with_password, forgot_password, reset_password}
use chatfolio_backend.Auth.Repository.{get_by_email, get_latest_active_otp}
use chatfolio_backend.Auth.Session.{guess_all, guess_all-forgotten, IsWrong}
use chatfolio_backend.Auth.Bearer.{InTime, challenge-roundtrip, get_current_user-challenge}
use chatfolio_backend.Auth.Runs.{Request, to_register, to_logout, handle_all}
use chatfolio_backend.Auth.Addresses.{IsOneAccount, handle_all-IsOneAccount}
use chatfolio_backend.Auth.Replay.{refresh-once}
use chatfolio_backend.Auth.Reset.{reset_password-ends, forgot_password-roundtrip}
use chatfolio_backend.Tests.Samples.{day, user_with}

abbrev noon : DateTime
noon = record { year = 2026; month = 11; day = 3; micros = 43200000000 }

abbrev a_minute_later : DateTime
a_minute_later = record { year = 2026; month = 11; day = 3; micros = 43260000000 }

abbrev settings : SecuritySettings
settings = record {
  access_token_ttl_minutes = 15;
  refresh_token_ttl_days = 30;
  password_reset_token_ttl_minutes = 30;
  email_change_token_ttl_minutes = 30;
  two_factor_challenge_ttl_minutes = 5;
  otp_ttl_minutes = 10;
  otp_max_attempts = 5;
  google_oauth_state_ttl_minutes = 10;
}

-- A token is named after its type, and reads as the payload of user 10 that was signed at noon.
abbrev name_of : TokenType → String
name_of TokenType.access = "access"
name_of TokenType.two_factor_challenge = "challenge"
name_of TokenType.google_oauth_state = "state"

abbrev signed_at_noon : TokenType → Claims
signed_at_noon TokenType.access = claims_of TokenType.access (some UserRole.candidate) 10 15 noon
signed_at_noon TokenType.two_factor_challenge =
    claims_of TokenType.two_factor_challenge none 10 5 noon
signed_at_noon TokenType.google_oauth_state = claims_of TokenType.google_oauth_state none 10 10 noon

abbrev type_named : String → TokenType
type_named s =
    if str_eq s "access"
    then TokenType.access
    else if str_eq s "challenge"
    then TokenType.two_factor_challenge
    else TokenType.google_oauth_state

abbrev read : Claims → DateTime → Decoded
read c now = if ltb (moment now) (moment (stamp c.exp)) then payload (stamped c) else expired

abbrev jwt : Jwt
jwt = record {
  encode = λ c. name_of c.type;
  decode = λ s now. read (signed_at_noon (type_named s)) now;
}

abbrev crypto_with : String → Crypto
crypto_with token = record {
  settings = settings;
  jwt = jwt;
  hash_password = λ p. p;
  verify_password = str_eq;
  hash_opaque_token = λ t. t;
  opaque_token = token;
  otp_code = "123456";
  bd_mobile = λ s. some s;
  local_part = λ s. s;
  strip = λ s. s;
}

abbrev session : RefreshToken
session = record { user_id = 10; token_hash = "old"; expires_at = day 20; revoked_at = none }

abbrev code_sent : OtpCode
code_sent = record {
  id = 7;
  user_id = 10;
  purpose = OtpPurpose.two_factor_login;
  channel = TwoFactorMethod.email;
  code_hash = "123456";
  expires_at = day 20;
  consumed_at = none;
  attempts = 0;
}

abbrev link : PasswordResetToken
link = record { user_id = 10; token_hash = "link"; expires_at = day 20; used_at = none }

abbrev accounts : AccountDb
accounts = record {
  users = user_with 10 ∷ [];
  refresh_tokens = session ∷ [];
  reset_tokens = link ∷ [];
  email_requests = [];
  otp_codes = code_sent ∷ [];
  next_id = 100;
  tasks = [];
}

-- A minute is less than the lifetime of any token.
soon_5 : InTime noon 5 a_minute_later
unfolding moment add_micros add_days
soon_5 = (omega arith, omega arith)

soon_10 : InTime noon 10 a_minute_later
unfolding moment add_micros add_days
soon_10 = (omega arith, omega arith)

soon_15 : InTime noon 15 a_minute_later
unfolding moment add_micros add_days
soon_15 = (omega arith, omega arith)

challenge-roundtrip_example :
    (decode_two_factor_challenge_token jwt
        (create_two_factor_challenge_token jwt settings 10 noon)
        a_minute_later
      ≡ Subject.subject 10)
    × (decode_two_factor_challenge_token jwt
          (create_access_token jwt settings 10 UserRole.candidate noon)
          a_minute_later
        ≡ Subject.not_valid)
    × (decode_two_factor_challenge_token jwt
          (create_google_oauth_state_token jwt settings 10 noon)
          a_minute_later
        ≡ Subject.not_valid)
unfolding IsJwt
challenge-roundtrip_example =
    challenge-roundtrip jwt settings 10 UserRole.candidate noon a_minute_later (λ now h. refl)
      (λ now h. refl) (λ now h. refl) soon_5 soon_15 soon_10

get_current_user-challenge_example :
    get_current_user jwt
      (some (create_two_factor_challenge_token jwt settings 10 noon))
      a_minute_later
      accounts
    ≡ (ok (user_with 10), accounts)
unfolding IsJwt get_by_id
get_current_user-challenge_example =
    get_current_user-challenge jwt settings (user_with 10) noon a_minute_later accounts
      (λ now h. refl) soon_5 refl refl

wrong :
    (code : String)
    → str_eq code "123456" ≡ false
    → IsWrong (crypto_with "new") "challenge" accounts (code, a_minute_later)
unfolding IsWrong get_latest_active_otp
wrong code h user otp e k = ground (arith, h)

guess_all-forgotten_example :
    guess_all
      (crypto_with "new")
      "challenge"
      (("000000", a_minute_later) ∷ ("000001", a_minute_later) ∷ [])
      accounts
    ≡ accounts
unfolding IsWrong
guess_all-forgotten_example =
    guess_all-forgotten (crypto_with "new") "challenge"
      (("000000", a_minute_later) ∷ ("000001", a_minute_later) ∷ []) accounts
      (wrong "000000" refl, (wrong "000001" refl, tt))

abbrev signed_in : TokenResponse
signed_in = record { access_token = "access"; refresh_token = "new" }

abbrev requests : List (Request × Crypto × DateTime)
requests =
    (to_register "eve@example.org" "secret" none none, crypto_with "x", noon)
    ∷ (to_logout "new", crypto_with "y", noon)
    ∷ []

refresh-once_example :
    refresh
      (crypto_with "newer")
      "old"
      a_minute_later
      (handle_all requests (refresh (crypto_with "new") "old" noon accounts).1)
    ≡ (
      err bad_refresh_token,
      handle_all requests (refresh (crypto_with "new") "old" noon accounts).1,
    )
unfolding refresh chatfolio_backend.Auth.Repository.get_refresh_token_by_hash moment
    chatfolio_backend.Auth.Tokens.get_by_id chatfolio_backend.Auth.Repository.revoke_refresh_token
    chatfolio_backend.Auth.issue_tokens chatfolio_backend.Auth.Repository.add_refresh_token
    create_access_token
refresh-once_example =
    refresh-once (crypto_with "new") (crypto_with "newer") "old" noon a_minute_later accounts
      signed_in requests refl refl

reset_password-ends_example :
    refresh
      (crypto_with "newer")
      "old"
      a_minute_later
      (handle_all requests (reset_password (crypto_with "new") "link" "secret" noon accounts).1)
    ≡ (
      err bad_refresh_token,
      handle_all requests (reset_password (crypto_with "new") "link" "secret" noon accounts).1,
    )
unfolding reset_password chatfolio_backend.Auth.Repository.get_password_reset_token_by_hash moment
    chatfolio_backend.Auth.Tokens.get_by_id
    chatfolio_backend.Auth.Repository.get_refresh_token_by_hash
reset_password-ends_example =
    reset_password-ends (crypto_with "new") (crypto_with "newer") "link" "secret" "old" noon
      a_minute_later accounts link session requests refl refl refl refl

forgot_password-roundtrip_example :
    let asked = (forgot_password (crypto_with "sent") "ann@example.org" noon accounts).1 in
    let reset = reset_password (crypto_with "x") "sent" "secret" a_minute_later asked in
    (reset.0 ≡ ok tt)
    × (get_by_email "ann@example.org" reset.1
        ≡ some (with_password (crypto_with "x") "secret" (user_with 10)))
unfolding get_by_email chatfolio_backend.Auth.Tokens.get_by_id moment add_micros
    chatfolio_backend.Time.Calendar.add_days
forgot_password-roundtrip_example =
    forgot_password-roundtrip (crypto_with "sent") (crypto_with "x") (user_with 10)
      "ann@example.org" "secret" noon a_minute_later accounts refl refl refl refl refl

one_account : IsOneAccount accounts
unfolding IsOneAccount
one_account email = ground arith

handle_all-IsOneAccount_example : IsOneAccount (handle_all requests accounts)
handle_all-IsOneAccount_example = handle_all-IsOneAccount requests accounts one_account

-- ===== src/Auth/Tokens.antt =====
-- core/security.py and `get_current_user` (api/deps.py): the signed tokens. What the `jwt` package
-- does is a parameter.
use chatfolio_backend.Prelude.{
  ℕ, ◌*◌, ◌/◌, ◌≤◌, ◌≡◌, Bool, true, false, not, Option, none, some, String, ◌==◌, ltb, first_row,
  if◌then◌else◌,
}
use chatfolio_backend.Errors.{Result, ok, err, unauthorized, forbidden}
use chatfolio_backend.Action.{Action, gets, lift, pure, raise_if, or_raise, ◌>>=◌, ◌>>◌}
use chatfolio_backend.Time.Calendar.{DateTime, moment, add_micros}
use chatfolio_backend.Models.Users.{User, UserRole}
use chatfolio_backend.Models.Accounts.{AccountDb}

-- config/settings.py: SecuritySettings, as far as accounts use it.
pub record SecuritySettings : Type 0 where
  pub access_token_ttl_minutes : ℕ
  pub refresh_token_ttl_days : ℕ
  pub password_reset_token_ttl_minutes : ℕ
  pub email_change_token_ttl_minutes : ℕ
  pub two_factor_challenge_ttl_minutes : ℕ
  pub otp_ttl_minutes : ℕ
  pub otp_max_attempts : ℕ
  pub google_oauth_state_ttl_minutes : ℕ

pub data TokenType : Type 0 where
  access two_factor_challenge google_oauth_state : TokenType

-- The payload of a token.
pub record Claims : Type 0 where
  pub sub : ℕ
  pub role : Option UserRole
  pub type : TokenType
  pub iat : DateTime
  pub exp : DateTime

-- What `jwt.decode` ends in: a payload, `ExpiredSignatureError` or another `InvalidTokenError`.
pub data Decoded : Type 0 where
  payload : Claims → Decoded
  expired invalid : Decoded

-- `jwt.encode` and `jwt.decode` with the deployment's secret; a token is read at a time.
pub record Jwt : Type 0 where
  pub encode : Claims → String
  pub decode : String → DateTime → Decoded

abbrev pub minutes : ℕ → ℕ
minutes n = n * 60000000

abbrev pub claims_of : TokenType → Option UserRole → ℕ → ℕ → DateTime → Claims
claims_of type role user ttl now = record {
  sub = user;
  role = role;
  type = type;
  iat = now;
  exp = add_micros (minutes ttl) now;
}

abbrev pub signed : Jwt → TokenType → Option UserRole → ℕ → ℕ → DateTime → String
signed j type role user ttl now = j.encode (claims_of type role user ttl now)

unfoldable pub create_access_token : Jwt → SecuritySettings → ℕ → UserRole → DateTime → String
create_access_token j s user role now =
    signed j TokenType.access (some role) user s.access_token_ttl_minutes now

unfoldable pub create_two_factor_challenge_token : Jwt → SecuritySettings → ℕ → DateTime → String
create_two_factor_challenge_token j s user now =
    signed j TokenType.two_factor_challenge none user s.two_factor_challenge_ttl_minutes now

unfoldable pub create_google_oauth_state_token : Jwt → SecuritySettings → ℕ → DateTime → String
create_google_oauth_state_token j s user now =
    signed j TokenType.google_oauth_state none user s.google_oauth_state_ttl_minutes now

abbrev pub same_type : TokenType → TokenType → Bool
same_type TokenType.access TokenType.access = true
same_type TokenType.two_factor_challenge TokenType.two_factor_challenge = true
same_type TokenType.google_oauth_state TokenType.google_oauth_state = true
same_type _ _ = false

-- What `decode_two_factor_challenge_token` and `decode_google_oauth_state_token` end in.
pub data Subject : Type 0 where
  subject : ℕ → Subject
  too_late not_valid : Subject

abbrev pub of_type : TokenType → Decoded → Subject
of_type t (payload c) = if same_type c.type t then Subject.subject c.sub else not_valid
of_type t expired = too_late
of_type t invalid = not_valid

unfoldable pub decode_two_factor_challenge_token : Jwt → String → DateTime → Subject
decode_two_factor_challenge_token j token now =
    of_type TokenType.two_factor_challenge (j.decode token now)

unfoldable pub decode_google_oauth_state_token : Jwt → String → DateTime → Subject
decode_google_oauth_state_token j token now =
    of_type TokenType.google_oauth_state (j.decode token now)

unfoldable pub get_by_id : ℕ → AccountDb → Option User
get_by_id id db = first_row (λ u. u.id == id) db.users

-- The subject of a bearer token.
abbrev pub bearer : Decoded → Result ℕ
bearer (payload c) = ok c.sub
bearer expired = err (unauthorized "Access token has expired.")
bearer invalid = err (unauthorized "Invalid access token.")

abbrev given_token : Option String → Result String
given_token none = err (unauthorized "Missing bearer token.")
given_token (some t) = ok t

unfoldable pub get_current_user : Jwt → Option String → DateTime → Action AccountDb User
get_current_user j credentials now = do
  token ← lift (given_token credentials)
  id ← lift (bearer (j.decode token now))
  user ← gets (get_by_id id) >>= or_raise (unauthorized "Account no longer exists or is disabled.")
  raise_if (not user.is_active) (unauthorized "Account no longer exists or is disabled.")
  pure user

abbrev pub is_admin : UserRole → Bool
is_admin UserRole.admin = true
is_admin UserRole.candidate = false

unfoldable pub require_admin : Jwt → Option String → DateTime → Action AccountDb User
require_admin j credentials now = do
  user ← get_current_user j credentials now
  raise_if (not (is_admin user.role)) (forbidden "Admin access required.")
  pure user

-- A token carries times in whole seconds.
abbrev pub stamp : DateTime → DateTime
stamp d = record d { micros = d.micros / 1000000 * 1000000 }

abbrev pub stamped : Claims → Claims
stamped c = record c { iat = stamp c.iat; exp = stamp c.exp }

-- What the documentation of `jwt` says of the token of a payload: between its issue and its expiry
-- it reads as what was signed, and from its expiry on it is expired.
unfoldable pub IsJwt : Jwt → Claims → Type 0
IsJwt j c =
    (now : DateTime)
    → moment (stamp c.iat) ≤ moment now
    → j.decode (j.encode c) now
      ≡ (if ltb (moment now) (moment (stamp c.exp)) then payload (stamped c) else expired)

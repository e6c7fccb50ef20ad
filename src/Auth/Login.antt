-- ===== src/Auth/Login.antt =====
-- services/auth_service.py: registration, sessions and the second factor.
use chatfolio_backend.Prelude.{
  ℕ, true, false, ◌&&◌, not, Option, none, some, String, str_eq, is_none, if◌then◌else◌,
}
use chatfolio_backend.Errors.{Error, Result, ok, err, unauthorized, conflict, validation_failed}
use chatfolio_backend.Action.{Action, pure, raise_if, gets, modify, lift, or_raise, ◌>>=◌, ◌>>◌}
use chatfolio_backend.Time.Calendar.{DateTime}
use chatfolio_backend.Models.Users.{User, UserRole, OtpPurpose, TwoFactorMethod}
use chatfolio_backend.Models.Accounts.{AccountDb, RefreshToken, OtpCode, Message}
use chatfolio_backend.Billing.Trial.{given, by_phone}
use chatfolio_backend.Auth.Tokens.{
  Subject, create_two_factor_challenge_token, decode_two_factor_challenge_token, get_by_id,
}
use chatfolio_backend.Auth.Repository.{
  get_by_email, create, get_refresh_token_by_hash, revoke_refresh_token, get_latest_active_otp,
  change_user, change_otp,
}
use chatfolio_backend.Auth.{
  Crypto, TokenResponse, LoginResponse, past, issue_tokens, issue_otp, consume_otp, queue_sms,
  normalize_bd_mobile,
}

abbrev pub taken_email : Error
taken_email = conflict "An account with this email already exists."

-- `(full_name or "").strip() or email.partition("@")[0]`
abbrev pub welcome_name : Crypto → Option String → String → String
welcome_name x none email = x.local_part email
welcome_name x (some name) email =
    if str_eq (x.strip name) "" then x.local_part email else x.strip name

unfoldable pub register :
    Crypto → String → String → Option String → Option String → Action AccountDb User
register x email password phone full_name = do
  existing ← gets (get_by_email email)
  raise_if (not (is_none existing)) taken_email
  user ← create (record {
    id = 0;
    email = email;
    hashed_password = x.hash_password password;
    role = UserRole.candidate;
    is_active = true;
    phone = normalize_bd_mobile x phone;
    two_factor_enabled = false;
    two_factor_method = none;
  })
  modify (
      queue_sms (normalize_bd_mobile x user.phone)
        (λ to. Message.welcome_sms to (welcome_name x full_name email)))
  pure user

-- The second factor, where the user has one.
abbrev pub admitted :
    Crypto → User → Option TwoFactorMethod → DateTime → Action AccountDb LoginResponse
admitted x user none now = do t ← issue_tokens x user now; pure (LoginResponse.tokens t)
admitted x user (some method) now = do
  modify (issue_otp x user OtpPurpose.two_factor_login method now)
  pure (
      LoginResponse.challenge (create_two_factor_challenge_token x.jwt x.settings user.id now)
        method)

-- `user.two_factor_enabled and user.two_factor_method is not None`
abbrev pub second_factor : User → Option TwoFactorMethod
second_factor user = if user.two_factor_enabled then user.two_factor_method else none

unfoldable pub login : Crypto → String → String → DateTime → Action AccountDb LoginResponse
login x email password now = do
  user ← gets (get_by_email email) >>= or_raise (unauthorized "Invalid email or password.")
  raise_if (not (x.verify_password password user.hashed_password))
      (unauthorized "Invalid email or password.")
  raise_if (not user.is_active) (unauthorized "This account is disabled.")
  admitted x user (second_factor user) now

abbrev pub account_of : ℕ → Action AccountDb User
account_of id = do
  user ← gets (get_by_id id) >>= or_raise (unauthorized "Account is no longer active.")
  raise_if (not user.is_active) (unauthorized "Account is no longer active.")
  pure user

abbrev pub bad_refresh_token : Error
bad_refresh_token = unauthorized "Refresh token is invalid or has been revoked."

unfoldable pub refresh : Crypto → String → DateTime → Action AccountDb TokenResponse
refresh x raw now = do
  stored ← gets (get_refresh_token_by_hash (x.hash_opaque_token raw)) >>= or_raise bad_refresh_token
  raise_if (not (is_none stored.revoked_at)) bad_refresh_token
  raise_if (past stored.expires_at now) (unauthorized "Refresh token has expired.")
  modify (revoke_refresh_token stored now)
  user ← account_of stored.user_id
  issue_tokens x user now

abbrev pub signed_out : Option RefreshToken → DateTime → AccountDb → AccountDb
signed_out none now db = db
signed_out (some t) now db = if is_none t.revoked_at then revoke_refresh_token t now db else db

unfoldable pub logout : Crypto → String → DateTime → AccountDb → AccountDb
logout x raw now db = signed_out (get_refresh_token_by_hash (x.hash_opaque_token raw) db) now db

-- `if needs_phone and phone: user.phone = phone`
abbrev pub with_phone : TwoFactorMethod → Option String → User → User
with_phone method phone user =
    if by_phone (some method) && given phone then record user { phone = phone } else user

unfoldable pub setup_two_factor :
    Crypto → User → TwoFactorMethod → Option String → DateTime → Action AccountDb TwoFactorMethod
setup_two_factor x user method phone now = do
  let user' = with_phone method phone user
  modify (change_user user.id (with_phone method phone))
  raise_if (by_phone (some method) && not (given user'.phone))
      (validation_failed "A phone number is required for this two-factor method.")
  modify (issue_otp x user' OtpPurpose.two_factor_enroll method now)
  pure method

abbrev pub enrolled : TwoFactorMethod → User → User
enrolled method u = record u { two_factor_enabled = true; two_factor_method = some method }

unfoldable pub verify_two_factor_setup :
    Crypto → User → String → DateTime → Action AccountDb (Unit {0})
verify_two_factor_setup x user code now = do
  otp ← consume_otp x user.id OtpPurpose.two_factor_enroll code now
  modify (change_user user.id (enrolled otp.channel))

abbrev pub challenged : Subject → Result ℕ
challenged (Subject.subject id) = ok id
challenged Subject.too_late =
    err (unauthorized "This login challenge has expired. Please log in again.")
challenged Subject.not_valid = err (unauthorized "This login challenge is invalid.")

-- `_decode_challenge`
unfoldable pub decode_challenge : Crypto → String → DateTime → Result ℕ
decode_challenge x token now = challenged (decode_two_factor_challenge_token x.jwt token now)

unfoldable pub verify_two_factor_login :
    Crypto → String → String → DateTime → Action AccountDb TokenResponse
verify_two_factor_login x token code now = do
  id ← lift (decode_challenge x token now)
  _ ← consume_otp x id OtpPurpose.two_factor_login code now
  user ← account_of id
  issue_tokens x user now

abbrev pub retire : Option OtpCode → DateTime → AccountDb → AccountDb
retire none now db = db
retire (some o) now db = change_otp o.id (λ p. record p { consumed_at = some now }) db

abbrev pub stale_challenge : Error
stale_challenge = unauthorized "This login challenge is no longer valid."

unfoldable pub resend_two_factor_login_code :
    Crypto → String → DateTime → Action AccountDb (Unit {0})
resend_two_factor_login_code x token now = do
  id ← lift (decode_challenge x token now)
  user ← gets (get_by_id id) >>= or_raise stale_challenge
  method ← or_raise stale_challenge (second_factor user)
  previous ← gets (get_latest_active_otp id OtpPurpose.two_factor_login)
  modify (retire previous now)
  modify (issue_otp x user OtpPurpose.two_factor_login method now)

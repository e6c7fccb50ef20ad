-- ===== src/Auth.antt =====
-- Accounts: services/auth_service.py, repositories/user_repository.py and core/security.py. Hashing,
-- fresh secrets and signed tokens come from outside and are a parameter.
pub mod Tokens
pub mod Repository
pub mod Login
pub mod Recovery
pub mod Session
pub mod Bearer
pub mod Kept
pub mod KeptRecovery
pub mod Runs
pub mod Addresses
pub mod Replay
pub mod Reset
use Prim.Native.String.{◌++◌}
use chatfolio_backend.Prelude.{
  ℕ, ◌+◌, Bool, true, false, ◌&&◌, ◌||◌, not, Option, none, some, String, str_eq, ◌==◌, ltb, leb,
  is_none, if◌then◌else◌, update_first,
}
use chatfolio_backend.Errors.{Error, Result, ok, err, unauthorized, conflict, validation_failed}
use chatfolio_backend.Action.{
  Action, pure, raise, raise_if, gets, modify, lift, or_raise, ◌>>=◌, ◌>>◌,
}
use chatfolio_backend.Time.Calendar.{DateTime, moment, add_micros, add_days}
use chatfolio_backend.Models.Users.{User, UserRole, OtpPurpose, TwoFactorMethod}
use chatfolio_backend.Models.Accounts.{
  AccountDb, RefreshToken, PasswordResetToken, EmailChangeRequest, OtpCode, Message,
}
use chatfolio_backend.Billing.Trial.{given, by_phone}
use chatfolio_backend.Auth.Tokens.{
  SecuritySettings, Jwt, Subject, create_access_token, create_two_factor_challenge_token,
  decode_two_factor_challenge_token, get_by_id, minutes,
}
use chatfolio_backend.Auth.Repository.{
  get_by_email, create, add_refresh_token, get_refresh_token_by_hash, revoke_refresh_token,
  get_latest_active_otp, add_otp_code, change_user, change_otp, queue_task,
}

-- What a request is given from outside: the digests, the check of a password, the token and the code
-- that it draws, the group of digits that `re` finds in a Bangladeshi number, and Python's `strip`
-- and `partition("@")[0]`.
pub record Crypto : Type 0 where
  pub settings : SecuritySettings
  pub jwt : Jwt
  pub hash_password : String → String
  pub verify_password : String → String → Bool
  pub hash_opaque_token : String → String
  pub opaque_token : String
  pub otp_code : String
  pub bd_mobile : String → Option String
  pub local_part : String → String
  pub strip : String → String

pub record TokenResponse : Type 0 where
  pub access_token : String
  pub refresh_token : String

-- `TokenResponse | TwoFactorChallengeResponse`
pub data LoginResponse : Type 0 where
  tokens : TokenResponse → LoginResponse
  challenge : String → TwoFactorMethod → LoginResponse

abbrev pub past : DateTime → DateTime → Bool
past expires_at now = ltb (moment expires_at) (moment now)

unfoldable pub issue_tokens : Crypto → User → DateTime → Action AccountDb TokenResponse
issue_tokens x user now = do
  add_refresh_token (record {
    user_id = user.id;
    token_hash = x.hash_opaque_token x.opaque_token;
    expires_at = add_days x.settings.refresh_token_ttl_days now;
    revoked_at = none;
  })
  pure (record {
    access_token = create_access_token x.jwt x.settings user.id user.role now;
    refresh_token = x.opaque_token;
  })

abbrev pub by_email : TwoFactorMethod → Bool
by_email TwoFactorMethod.phone = false
by_email _ = true

abbrev pub country_code : Option String → Option String
country_code none = none
country_code (some digits) = some ("880" ++ digits)

-- services/sms_service.py: `normalize_bd_mobile`.
unfoldable pub normalize_bd_mobile : Crypto → Option String → Option String
normalize_bd_mobile x none = none
normalize_bd_mobile x (some raw) = if str_eq raw "" then none else country_code (x.bd_mobile raw)

-- `SmsService.queue`: only for a number that is well formed.
abbrev pub queue_sms : Option String → (String → Message) → AccountDb → AccountDb
queue_sms none m db = db
queue_sms (some mobile) m db = queue_task (m mobile) db

unfoldable pub issue_otp :
    Crypto → User → OtpPurpose → TwoFactorMethod → DateTime → AccountDb → AccountDb
issue_otp x user purpose method now db =
    let added =
      add_otp_code
        (record {
          id = 0;
          user_id = user.id;
          purpose = purpose;
          channel = method;
          code_hash = x.hash_opaque_token x.otp_code;
          expires_at = add_micros (minutes x.settings.otp_ttl_minutes) now;
          consumed_at = none;
          attempts = 0;
        })
        db in
    let mailed =
      if by_email method
      then queue_task (Message.code_email user.email x.otp_code) added
      else added in
    if by_phone (some method) && given user.phone
    then queue_sms (normalize_bd_mobile x user.phone) (λ to. Message.code_sms to x.otp_code) mailed
    else mailed

-- A wrong code counts, and raises.
abbrev pub compared : Crypto → OtpCode → String → DateTime → Action AccountDb OtpCode
compared x otp code now db =
    if not (str_eq (x.hash_opaque_token code) otp.code_hash)
    then (
      err (unauthorized "Incorrect verification code."),
      change_otp otp.id (λ o. record o { attempts = o.attempts + 1 }) db,
    )
    else (
      ok (record otp { consumed_at = some now }),
      change_otp otp.id (λ o. record o { consumed_at = some now }) db,
    )

unfoldable pub consume_otp : Crypto → ℕ → OtpPurpose → String → DateTime → Action AccountDb OtpCode
consume_otp x user purpose code now = do
  otp ←
      gets (get_latest_active_otp user purpose)
      >>= or_raise (unauthorized "This code is invalid or has expired.")
  raise_if (past otp.expires_at now) (unauthorized "This code is invalid or has expired.")
  raise_if (leb x.settings.otp_max_attempts otp.attempts)
      (unauthorized "Too many incorrect attempts. Request a new code.")
  compared x otp code now

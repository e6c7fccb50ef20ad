-- ===== src/Models/Accounts.antt =====
-- models/user.py: the tables beside the users that a login works on, and what the request's
-- background tasks send.
use chatfolio_backend.Prelude.{ℕ, Option, List, String}
use chatfolio_backend.Time.Calendar.{DateTime}
use chatfolio_backend.Models.Users.{User, OtpPurpose, TwoFactorMethod}

pub record RefreshToken : Type 0 where
  pub user_id : ℕ
  pub token_hash : String
  pub expires_at : DateTime
  pub revoked_at : Option DateTime

pub record PasswordResetToken : Type 0 where
  pub user_id : ℕ
  pub token_hash : String
  pub expires_at : DateTime
  pub used_at : Option DateTime

pub record EmailChangeRequest : Type 0 where
  pub user_id : ℕ
  pub new_email : String
  pub token_hash : String
  pub expires_at : DateTime
  pub used_at : Option DateTime

pub record OtpCode : Type 0 where
  pub id : ℕ
  pub user_id : ℕ
  pub purpose : OtpPurpose
  pub channel : TwoFactorMethod
  pub code_hash : String
  pub expires_at : DateTime
  pub consumed_at : Option DateTime
  pub attempts : ℕ

-- A message of a background task: to whom, and the secret or the name in it.
pub data Message : Type 0 where
  reset_link confirm_link code_email code_sms welcome_sms : String → String → Message

-- Rows that are newer stand first. A background task runs after the response.
pub record AccountDb : Type 0 where
  pub users : List User
  pub refresh_tokens : List RefreshToken
  pub reset_tokens : List PasswordResetToken
  pub email_requests : List EmailChangeRequest
  pub otp_codes : List OtpCode
  pub next_id : ℕ
  pub tasks : List Message

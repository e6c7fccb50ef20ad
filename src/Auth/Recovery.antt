-- ===== src/Auth/Recovery.antt =====
-- services/auth_service.py: forgotten passwords, and changes of password and address.
use chatfolio_backend.Prelude.{◌||◌, not, Option, none, some, String, str_eq, is_none, update_first}
use chatfolio_backend.Errors.{Error, unauthorized}
use chatfolio_backend.Action.{Action, pure, raise_if, gets, modify, or_raise, ◌>>=◌, ◌>>◌}
use chatfolio_backend.Time.Calendar.{DateTime, add_micros}
use chatfolio_backend.Models.Users.{User}
use chatfolio_backend.Models.Accounts.{AccountDb, PasswordResetToken, EmailChangeRequest, Message}
use chatfolio_backend.Auth.Tokens.{get_by_id, minutes}
use chatfolio_backend.Auth.Repository.{
  get_by_email, add_password_reset_token, get_password_reset_token_by_hash,
  add_email_change_request, get_email_change_request_by_hash, revoke_all_refresh_tokens_for_user,
  change_user, queue_task,
}
use chatfolio_backend.Auth.{Crypto, past}
use chatfolio_backend.Auth.Login.{taken_email}

abbrev pub send_reset : Crypto → Option User → DateTime → Action AccountDb (Unit {0})
send_reset x none now = pure tt
send_reset x (some user) now = do
  add_password_reset_token (record {
    user_id = user.id;
    token_hash = x.hash_opaque_token x.opaque_token;
    expires_at = add_micros (minutes x.settings.password_reset_token_ttl_minutes) now;
    used_at = none;
  })
  modify (queue_task (Message.reset_link user.email x.opaque_token))

unfoldable pub forgot_password : Crypto → String → DateTime → Action AccountDb (Unit {0})
forgot_password x email now = do user ← gets (get_by_email email); send_reset x user now

abbrev pub bad_reset_link : Error
bad_reset_link = unauthorized "This reset link is invalid or has expired."

-- `stored.used_at = datetime.now(UTC)`
unfoldable pub use_reset_token : PasswordResetToken → DateTime → AccountDb → AccountDb
use_reset_token t now db = record db {
  reset_tokens =
      update_first (λ r. str_eq r.token_hash t.token_hash) (λ r. record r { used_at = some now })
        db.reset_tokens;
}

abbrev pub with_password : Crypto → String → User → User
with_password x password u = record u { hashed_password = x.hash_password password }

unfoldable pub reset_password : Crypto → String → String → DateTime → Action AccountDb (Unit {0})
reset_password x raw password now = do
  stored ←
      gets (get_password_reset_token_by_hash (x.hash_opaque_token raw)) >>= or_raise bad_reset_link
  raise_if (not (is_none stored.used_at) || past stored.expires_at now) bad_reset_link
  user ← gets (get_by_id stored.user_id) >>= or_raise bad_reset_link
  modify (change_user user.id (with_password x password))
  modify (use_reset_token stored now)
  modify (revoke_all_refresh_tokens_for_user user.id now)

unfoldable pub change_password : Crypto → User → String → String → Action AccountDb (Unit {0})
change_password x user current password = do
  raise_if (not (x.verify_password current user.hashed_password))
      (unauthorized "Current password is incorrect.")
  modify (change_user user.id (with_password x password))

unfoldable pub request_email_change :
    Crypto → User → String → String → DateTime → Action AccountDb (Unit {0})
request_email_change x user new_email password now = do
  raise_if (not (x.verify_password password user.hashed_password))
      (unauthorized "Password is incorrect.")
  existing ← gets (get_by_email new_email)
  raise_if (not (is_none existing)) taken_email
  add_email_change_request (record {
    user_id = user.id;
    new_email = new_email;
    token_hash = x.hash_opaque_token x.opaque_token;
    expires_at = add_micros (minutes x.settings.email_change_token_ttl_minutes) now;
    used_at = none;
  })
  modify (queue_task (Message.confirm_link new_email x.opaque_token))

abbrev pub bad_confirmation : Error
bad_confirmation = unauthorized "This confirmation link is invalid or has expired."

unfoldable pub use_email_request : EmailChangeRequest → DateTime → AccountDb → AccountDb
use_email_request t now db = record db {
  email_requests =
      update_first (λ r. str_eq r.token_hash t.token_hash) (λ r. record r { used_at = some now })
        db.email_requests;
}

abbrev pub with_email : String → User → User
with_email email u = record u { email = email }

unfoldable pub confirm_email_change : Crypto → String → DateTime → Action AccountDb User
confirm_email_change x raw now = do
  stored ←
      gets (get_email_change_request_by_hash (x.hash_opaque_token raw))
      >>= or_raise bad_confirmation
  raise_if (not (is_none stored.used_at) || past stored.expires_at now) bad_confirmation
  existing ← gets (get_by_email stored.new_email)
  raise_if (not (is_none existing)) taken_email
  user ← gets (get_by_id stored.user_id) >>= or_raise bad_confirmation
  modify (change_user user.id (with_email stored.new_email))
  modify (use_email_request stored now)
  pure (with_email stored.new_email user)

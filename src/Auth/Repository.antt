-- ===== src/Auth/Repository.antt =====
-- repositories/user_repository.py: queries and inserts, with the unique columns of models/user.py.
use chatfolio_backend.Prelude.{
  ℕ, ◌+◌, Bool, true, false, ◌&&◌, Option, some, ◌∷◌, String, str_eq, ◌==◌, is_none, first_row,
  any_row, update_first, update_rows, if◌then◌else◌,
}
use chatfolio_backend.Errors.{ok, err, integrity}
use chatfolio_backend.Action.{Action}
use chatfolio_backend.Time.Calendar.{DateTime}
use chatfolio_backend.Models.Users.{User, OtpPurpose}
use chatfolio_backend.Models.Accounts.{
  AccountDb, RefreshToken, PasswordResetToken, EmailChangeRequest, OtpCode, Message,
}

unfoldable pub get_by_email : String → AccountDb → Option User
get_by_email email db = first_row (λ u. str_eq u.email email) db.users

-- The row gets a fresh id.
unfoldable pub create : User → Action AccountDb User
create user db =
    let row = record user { id = db.next_id } in
    if any_row (λ u. str_eq u.email user.email) db.users
    then (err integrity, db)
    else (ok row, record db { users = row ∷ db.users; next_id = db.next_id + 1 })

unfoldable pub add_refresh_token : RefreshToken → Action AccountDb (Unit {0})
add_refresh_token t db =
    if any_row (λ r. str_eq r.token_hash t.token_hash) db.refresh_tokens
    then (err integrity, db)
    else (ok tt, record db { refresh_tokens = t ∷ db.refresh_tokens })

unfoldable pub get_refresh_token_by_hash : String → AccountDb → Option RefreshToken
get_refresh_token_by_hash h db = first_row (λ r. str_eq r.token_hash h) db.refresh_tokens

abbrev pub revoked : DateTime → RefreshToken → RefreshToken
revoked now r = record r { revoked_at = some now }

unfoldable pub revoke_refresh_token : RefreshToken → DateTime → AccountDb → AccountDb
revoke_refresh_token t now db = record db {
  refresh_tokens =
      update_first (λ r. str_eq r.token_hash t.token_hash) (revoked now) db.refresh_tokens;
}

unfoldable pub revoke_all_refresh_tokens_for_user : ℕ → DateTime → AccountDb → AccountDb
revoke_all_refresh_tokens_for_user user now db = record db {
  refresh_tokens =
      update_rows (λ r. (r.user_id == user) && is_none r.revoked_at) (revoked now)
        db.refresh_tokens;
}

unfoldable pub add_password_reset_token : PasswordResetToken → Action AccountDb (Unit {0})
add_password_reset_token t db =
    if any_row (λ r. str_eq r.token_hash t.token_hash) db.reset_tokens
    then (err integrity, db)
    else (ok tt, record db { reset_tokens = t ∷ db.reset_tokens })

unfoldable pub get_password_reset_token_by_hash : String → AccountDb → Option PasswordResetToken
get_password_reset_token_by_hash h db = first_row (λ r. str_eq r.token_hash h) db.reset_tokens

unfoldable pub add_email_change_request : EmailChangeRequest → Action AccountDb (Unit {0})
add_email_change_request t db =
    if any_row (λ r. str_eq r.token_hash t.token_hash) db.email_requests
    then (err integrity, db)
    else (ok tt, record db { email_requests = t ∷ db.email_requests })

unfoldable pub get_email_change_request_by_hash : String → AccountDb → Option EmailChangeRequest
get_email_change_request_by_hash h db = first_row (λ r. str_eq r.token_hash h) db.email_requests

unfoldable pub add_otp_code : OtpCode → AccountDb → AccountDb
add_otp_code o db = record db {
  otp_codes = record o { id = db.next_id } ∷ db.otp_codes;
  next_id = db.next_id + 1;
}

abbrev pub same_purpose : OtpPurpose → OtpPurpose → Bool
same_purpose OtpPurpose.two_factor_enroll OtpPurpose.two_factor_enroll = true
same_purpose OtpPurpose.two_factor_login OtpPurpose.two_factor_login = true
same_purpose _ _ = false

abbrev pub open_for : ℕ → OtpPurpose → OtpCode → Bool
open_for user purpose o =
    (o.user_id == user) && same_purpose o.purpose purpose && is_none o.consumed_at

unfoldable pub get_latest_active_otp : ℕ → OtpPurpose → AccountDb → Option OtpCode
get_latest_active_otp user purpose db = first_row (open_for user purpose) db.otp_codes

-- Changes of an object that the session holds.
unfoldable pub change_user : ℕ → (User → User) → AccountDb → AccountDb
change_user id f db = record db { users = update_first (λ u. u.id == id) f db.users }

unfoldable pub change_otp : ℕ → (OtpCode → OtpCode) → AccountDb → AccountDb
change_otp id f db = record db { otp_codes = update_first (λ o. o.id == id) f db.otp_codes }

unfoldable pub queue_task : Message → AccountDb → AccountDb
queue_task m db = record db { tasks = m ∷ db.tasks }

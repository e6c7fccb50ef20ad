-- ===== src/Auth/Runs.antt =====
-- Histories of services/auth_service.py: requests one after another, each in its own session.
use chatfolio_backend.Prelude.{Option, List, [], ◌∷◌, String}
use chatfolio_backend.Errors.{Result, ok, err}
use chatfolio_backend.Action.Leaves.{Leaves}
use chatfolio_backend.Time.Calendar.{DateTime}
use chatfolio_backend.Models.Users.{User, TwoFactorMethod}
use chatfolio_backend.Models.Accounts.{AccountDb}
use chatfolio_backend.Auth.{Crypto}
use chatfolio_backend.Auth.Login.{
  register, login, refresh, logout, setup_two_factor, verify_two_factor_setup,
  verify_two_factor_login, resend_two_factor_login_code,
}
use chatfolio_backend.Auth.Recovery.{
  forgot_password, reset_password, change_password, request_email_change, confirm_email_change,
}
use chatfolio_backend.Auth.Session.{settled, get_db_session}
use chatfolio_backend.Auth.Kept
use chatfolio_backend.Auth.KeptRecovery

-- A request with its arguments; what it is given from outside may differ from one to the next.
pub data Request : Type 0 where
  to_register : (email password : String) (phone full_name : Option String) → Request
  to_login : (email password : String) → Request
  to_refresh to_logout : (token : String) → Request
  to_forgot : (email : String) → Request
  to_reset : (token password : String) → Request
  to_change_password : (user : User) (current password : String) → Request
  to_request_email : (user : User) (email password : String) → Request
  to_confirm_email : (token : String) → Request
  to_setup : (user : User) (method : TwoFactorMethod) (phone : Option String) → Request
  to_verify_setup : (user : User) (code : String) → Request
  to_verify_login : (token code : String) → Request
  to_resend : (token : String) → Request

-- The tables after the request.
unfoldable pub handle : Request → Crypto → DateTime → AccountDb → AccountDb
handle (to_register email password phone full_name) x now db =
    (get_db_session (register x email password phone full_name) db).1
handle (to_login email password) x now db = (get_db_session (login x email password now) db).1
handle (to_refresh token) x now db = (get_db_session (refresh x token now) db).1
handle (to_logout token) x now db = logout x token now db
handle (to_forgot email) x now db = (get_db_session (forgot_password x email now) db).1
handle (to_reset token password) x now db =
    (get_db_session (reset_password x token password now) db).1
handle (to_change_password user current password) x now db =
    (get_db_session (change_password x user current password) db).1
handle (to_request_email user email password) x now db =
    (get_db_session (request_email_change x user email password now) db).1
handle (to_confirm_email token) x now db = (get_db_session (confirm_email_change x token now) db).1
handle (to_setup user method phone) x now db =
    (get_db_session (setup_two_factor x user method phone now) db).1
handle (to_verify_setup user code) x now db =
    (get_db_session (verify_two_factor_setup x user code now) db).1
handle (to_verify_login token code) x now db =
    (get_db_session (verify_two_factor_login x token code now) db).1
handle (to_resend token) x now db = (get_db_session (resend_two_factor_login_code x token now) db).1

-- A history of requests, each with what it is given from outside and its time.
unfoldable pub handle_all : List (Request × Crypto × DateTime) → AccountDb → AccountDb
handle_all [] db = db
handle_all ((r, x, now) ∷ rs) db = handle_all rs (handle r x now db)

module _ {P : AccountDb → Type 0} (kept : Kept.IsKept P) where
  session {ℓ} :
      {A : Type ℓ} (m : Result A × AccountDb) (db : AccountDb)
      → Leaves P m
      → P db
      → P (settled db m).1
  session (ok a, after) db q p = q
  session (err e, after) db q p = p

  handle-keeps :
      (r : Request) (x : Crypto) (now : DateTime) (db : AccountDb) → P db → P (handle r x now db)
  unfolding handle
  handle-keeps (to_register email password phone full_name) x now db p =
      session (register x email password phone full_name db) db
        (Kept.register-keeps kept x email password phone full_name db p) p
  handle-keeps (to_login email password) x now db p =
      session (login x email password now db) db (Kept.login-keeps kept x email password now db p) p
  handle-keeps (to_refresh token) x now db p =
      session (refresh x token now db) db (Kept.refresh-keeps kept x token now db p) p
  handle-keeps (to_logout token) x now db p = Kept.logout-keeps kept x token now db p
  handle-keeps (to_forgot email) x now db p =
      session (forgot_password x email now db) db
        (KeptRecovery.forgot_password-keeps kept x email now db p) p
  handle-keeps (to_reset token password) x now db p =
      session (reset_password x token password now db) db
        (KeptRecovery.reset_password-keeps kept x token password now db p) p
  handle-keeps (to_change_password user current password) x now db p =
      session (change_password x user current password db) db
        (KeptRecovery.change_password-keeps kept x user current password db p) p
  handle-keeps (to_request_email user email password) x now db p =
      session (request_email_change x user email password now db) db
        (KeptRecovery.request_email_change-keeps kept x user email password now db p) p
  handle-keeps (to_confirm_email token) x now db p =
      session (confirm_email_change x token now db) db
        (KeptRecovery.confirm_email_change-keeps kept x token now db p) p
  handle-keeps (to_setup user method phone) x now db p =
      session (setup_two_factor x user method phone now db) db
        (Kept.setup_two_factor-keeps kept x user method phone now db p) p
  handle-keeps (to_verify_setup user code) x now db p =
      session (verify_two_factor_setup x user code now db) db
        (Kept.verify_two_factor_setup-keeps kept x user code now db p) p
  handle-keeps (to_verify_login token code) x now db p =
      session (verify_two_factor_login x token code now db) db
        (Kept.verify_two_factor_login-keeps kept x token code now db p) p
  handle-keeps (to_resend token) x now db p =
      session (resend_two_factor_login_code x token now db) db
        (Kept.resend_two_factor_login_code-keeps kept x token now db p) p

  pub handle_all-keeps :
      (rs : List (Request × Crypto × DateTime)) (db : AccountDb) → P db → P (handle_all rs db)
  unfolding handle_all
  handle_all-keeps [] db p = p
  handle_all-keeps ((r, x, now) ∷ rs) db p =
      handle_all-keeps rs (handle r x now db) (handle-keeps r x now db p)

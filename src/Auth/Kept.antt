-- ===== src/Auth/Kept.antt =====
-- What every operation of services/auth_service.py keeps, once the repository's calls keep it.
use chatfolio_backend.Prelude.{
  ℕ, ◌≡◌, refl, arith, Bool, Bool-cases, inl, inr, true, false, not, Option, none, some, String,
  is_none, ◌&&◌, leb, if◌then◌else◌, str_eq,
}
use chatfolio_backend.Action.Leaves.{Leaves, calls, finds, checks}
use chatfolio_backend.Action.{Action}
use chatfolio_backend.Time.Calendar.{DateTime}
use chatfolio_backend.Models.Users.{User, OtpPurpose, TwoFactorMethod}
use chatfolio_backend.Models.Accounts.{
  AccountDb, RefreshToken, PasswordResetToken, EmailChangeRequest, OtpCode, Message,
}
use chatfolio_backend.Auth.Repository.{
  get_by_email, create, add_refresh_token, revoke_refresh_token, revoke_all_refresh_tokens_for_user,
  add_password_reset_token, add_email_change_request, add_otp_code, change_user, change_otp,
  queue_task, get_refresh_token_by_hash, get_latest_active_otp,
}
use chatfolio_backend.Billing.Trial.{by_phone, given}
use chatfolio_backend.Auth.Tokens.{get_by_id}
use chatfolio_backend.Auth.{
  past, by_email, Crypto, issue_tokens, issue_otp, consume_otp, compared, queue_sms,
  normalize_bd_mobile,
}
use chatfolio_backend.Auth.Login.{
  register, login, admitted, account_of, refresh, logout, signed_out, setup_two_factor, with_phone,
  enrolled, retire, second_factor, decode_challenge, verify_two_factor_setup,
  verify_two_factor_login, resend_two_factor_login_code,
}
use chatfolio_backend.Auth.Recovery.{use_reset_token, use_email_request, with_email}

-- The state after a call has the property that the state before it had.
abbrev pub Keeps {ℓ} : (AccountDb → Type 0) → {A : Type ℓ} → Action AccountDb A → Type 0
Keeps P m = (db : AccountDb) → P db → P (m db).1

-- A property of the tables that the single writes keep. The address of an account changes only to
-- one that no account has.
pub record IsKept (P : AccountDb → Type 0) : Type 0 where
  pub of_create : (u : User) → Keeps P (create u)
  pub of_add_refresh_token : (t : RefreshToken) → Keeps P (add_refresh_token t)
  pub of_revoke :
      (t : RefreshToken) (now : DateTime) (db : AccountDb)
      → P db
      → P (revoke_refresh_token t now db)
  pub of_revoke_all :
      (user : ℕ) (now : DateTime) (db : AccountDb)
      → P db
      → P (revoke_all_refresh_tokens_for_user user now db)
  pub of_add_reset : (t : PasswordResetToken) → Keeps P (add_password_reset_token t)
  pub of_add_request : (t : EmailChangeRequest) → Keeps P (add_email_change_request t)
  pub of_use_reset :
      (t : PasswordResetToken) (now : DateTime) (db : AccountDb)
      → P db
      → P (use_reset_token t now db)
  pub of_use_request :
      (t : EmailChangeRequest) (now : DateTime) (db : AccountDb)
      → P db
      → P (use_email_request t now db)
  pub of_add_otp : (o : OtpCode) (db : AccountDb) → P db → P (add_otp_code o db)
  pub of_otp : (id : ℕ) (f : OtpCode → OtpCode) (db : AccountDb) → P db → P (change_otp id f db)
  pub of_task : (m : Message) (db : AccountDb) → P db → P (queue_task m db)
  pub of_user :
      (id : ℕ) (f : User → User)
      → ((u : User) → (f u).email ≡ u.email)
      → (db : AccountDb) → P db
      → P (change_user id f db)
  pub of_email :
      (id : ℕ) (email : String) (db : AccountDb)
      → get_by_email email db ≡ none
      → P db
      → P (change_user id (with_email email) db)

module _ {P : AccountDb → Type 0} (kept : IsKept P) where
  pub issue_tokens-keeps :
      (x : Crypto) (user : User) (now : DateTime) (db : AccountDb)
      → P db
      → Leaves P (issue_tokens x user now db)
  unfolding issue_tokens
  issue_tokens-keeps x user now db p =
      calls P (add_refresh_token _ db) _ (kept.of_add_refresh_token _ db p) (λ _ s q. q)

  pub account_of-keeps : (id : ℕ) (db : AccountDb) → P db → Leaves P (account_of id db)
  account_of-keeps id db p =
      finds P (get_by_id id db) _ db _ p (λ u _. checks P (not u.is_active) _ db _ p (λ _. p))

  pub refresh-keeps :
      (x : Crypto) (raw : String) (now : DateTime) (db : AccountDb)
      → P db
      → Leaves P (refresh x raw now db)
  unfolding refresh
  refresh-keeps x raw now db p =
      finds P (get_refresh_token_by_hash (x.hash_opaque_token raw) db) _ db _ p (λ t _.
        checks P (not (is_none t.revoked_at)) _ db _ p (λ _.
          checks P (past t.expires_at now) _ db _ p (λ _.
            calls P (account_of t.user_id (revoke_refresh_token t now db)) _
              (account_of-keeps t.user_id (revoke_refresh_token t now db)
                (kept.of_revoke t now db p))
              (λ u s q. issue_tokens-keeps x u now s q))))

  queue_sms-keeps :
      (o : Option String) (m : String → Message) (db : AccountDb) → P db → P (queue_sms o m db)
  queue_sms-keeps none m db p = p
  queue_sms-keeps (some to) m db p = kept.of_task (m to) db p

  either : (c : Bool) (a b : AccountDb) → P a → P b → P (if c then a else b)
  either true a b p q = p
  either false a b p q = q

  issue_otp-keeps :
      (x : Crypto) (user : User) (purpose : OtpPurpose) (method : TwoFactorMethod) (now : DateTime)
      (db : AccountDb)
      → P db
      → P (issue_otp x user purpose method now db)
  unfolding issue_otp
  issue_otp-keeps x user purpose method now db p =
      let mailed =
        either (by_email method) _ _ (kept.of_task _ _ (kept.of_add_otp _ db p))
          (kept.of_add_otp _ db p) in
      either (by_phone (some method) && given user.phone) _ _
        (queue_sms-keeps (normalize_bd_mobile x user.phone) _ _ mailed) mailed

  compared-keeps :
      (x : Crypto) (o : OtpCode) (code : String) (now : DateTime) (db : AccountDb)
      → P db
      → Leaves P (compared x o code now db)
  compared-keeps x o code now db p =
      elim (Bool-cases (str_eq (x.hash_opaque_token code) o.code_hash)) [
        | inl e ↦ rw e (kept.of_otp _ _ db p)
        | inr e ↦ rw e (kept.of_otp _ _ db p)
      ]

  consume_otp-keeps :
      (x : Crypto) (user : ℕ) (purpose : OtpPurpose) (code : String) (now : DateTime)
      (db : AccountDb)
      → P db
      → Leaves P (consume_otp x user purpose code now db)
  unfolding consume_otp
  consume_otp-keeps x user purpose code now db p =
      finds P (get_latest_active_otp user purpose db) _ db _ p (λ o _.
        checks P (past o.expires_at now) _ db _ p (λ _.
          checks P (leb x.settings.otp_max_attempts o.attempts) _ db _ p
            (λ _. compared-keeps x o code now db p)))

  pub register-keeps :
      (x : Crypto) (email password : String) (phone full_name : Option String) (db : AccountDb)
      → P db
      → Leaves P (register x email password phone full_name db)
  unfolding register
  register-keeps x email password phone full_name db p =
      checks P (not (is_none (get_by_email email db))) _ db _ p (λ _.
        calls P (create _ db) _ (kept.of_create _ db p)
          (λ u s q. queue_sms-keeps (normalize_bd_mobile x u.phone) _ s q))

  admitted-keeps :
      (x : Crypto) (user : User) (o : Option TwoFactorMethod) (now : DateTime) (db : AccountDb)
      → P db
      → Leaves P (admitted x user o now db)
  admitted-keeps x user none now db p =
      calls P (issue_tokens x user now db) _ (issue_tokens-keeps x user now db p) (λ t s q. q)
  admitted-keeps x user (some method) now db p =
      issue_otp-keeps x user OtpPurpose.two_factor_login method now db p

  pub login-keeps :
      (x : Crypto) (email password : String) (now : DateTime) (db : AccountDb)
      → P db
      → Leaves P (login x email password now db)
  unfolding login
  login-keeps x email password now db p = finds P (get_by_email email db) _ db _ p (λ u _.
      checks P (not (x.verify_password password u.hashed_password)) _ db _ p (λ _.
        checks P (not u.is_active) _ db _ p (λ _. admitted-keeps x u (second_factor u) now db p)))

  signed_out-keeps :
      (o : Option RefreshToken) (now : DateTime) (db : AccountDb) → P db → P (signed_out o now db)
  signed_out-keeps none now db p = p
  signed_out-keeps (some t) now db p =
      either (is_none t.revoked_at) _ db (kept.of_revoke t now db p) p

  pub logout-keeps :
      (x : Crypto) (raw : String) (now : DateTime) (db : AccountDb) → P db → P (logout x raw now db)
  unfolding logout
  logout-keeps x raw now db p =
      signed_out-keeps (get_refresh_token_by_hash (x.hash_opaque_token raw) db) now db p

  with_phone-email :
      (method : TwoFactorMethod) (phone : Option String) (u : User)
      → (with_phone method phone u).email ≡ u.email
  with_phone-email method phone u = ground arith

  pub setup_two_factor-keeps :
      (x : Crypto) (user : User) (method : TwoFactorMethod) (phone : Option String) (now : DateTime)
      (db : AccountDb)
      → P db
      → Leaves P (setup_two_factor x user method phone now db)
  unfolding setup_two_factor
  setup_two_factor-keeps x user method phone now db p =
      let stored =
        kept.of_user user.id (with_phone method phone) (with_phone-email method phone) db p in
      checks P (by_phone (some method) && not (given (with_phone method phone user).phone)) _ _ _
        stored
        (λ _.
          issue_otp-keeps x (with_phone method phone user) OtpPurpose.two_factor_enroll method now _
            stored)

  pub verify_two_factor_setup-keeps :
      (x : Crypto) (user : User) (code : String) (now : DateTime) (db : AccountDb)
      → P db
      → Leaves P (verify_two_factor_setup x user code now db)
  unfolding verify_two_factor_setup
  verify_two_factor_setup-keeps x user code now db p =
      calls P (consume_otp x user.id OtpPurpose.two_factor_enroll code now db) _
        (consume_otp-keeps x user.id OtpPurpose.two_factor_enroll code now db p)
        (λ o s q. kept.of_user user.id (enrolled o.channel) (λ u. refl) s q)

  pub verify_two_factor_login-keeps :
      (x : Crypto) (token code : String) (now : DateTime) (db : AccountDb)
      → P db
      → Leaves P (verify_two_factor_login x token code now db)
  unfolding verify_two_factor_login
  verify_two_factor_login-keeps x token code now db p =
      calls P (decode_challenge x token now, db) _ p
        (λ id s q.
          calls P (consume_otp x id OtpPurpose.two_factor_login code now s) _
            (consume_otp-keeps x id OtpPurpose.two_factor_login code now s q)
            (λ o r k.
              calls P (account_of id r) _ (account_of-keeps id r k)
                (λ u v h. issue_tokens-keeps x u now v h)))

  retire-keeps : (o : Option OtpCode) (now : DateTime) (db : AccountDb) → P db → P (retire o now db)
  retire-keeps none now db p = p
  retire-keeps (some o) now db p = kept.of_otp _ _ db p

  pub resend_two_factor_login_code-keeps :
      (x : Crypto) (token : String) (now : DateTime) (db : AccountDb)
      → P db
      → Leaves P (resend_two_factor_login_code x token now db)
  unfolding resend_two_factor_login_code
  resend_two_factor_login_code-keeps x token now db p =
      calls P (decode_challenge x token now, db) _ p
        (λ id s q. finds P (get_by_id id s) _ s _ q (λ u _.
          finds P (second_factor u) _ s _ q (λ method _.
            issue_otp-keeps x u OtpPurpose.two_factor_login method now _
              (retire-keeps (get_latest_active_otp id OtpPurpose.two_factor_login s) now s q))))

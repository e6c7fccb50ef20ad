-- ===== src/Auth/KeptRecovery.antt =====
-- What the recovery of accounts keeps (services/auth_service.py), once the repository's calls keep it.
use chatfolio_backend.Prelude.{◌≡◌, refl, false, not, Option, none, some, String, is_none, ◌||◌}
use chatfolio_backend.Action.Leaves.{Leaves, calls, finds, checks}
use chatfolio_backend.Time.Calendar.{DateTime}
use chatfolio_backend.Models.Users.{User}
use chatfolio_backend.Models.Accounts.{AccountDb}
use chatfolio_backend.Auth.Repository.{
  get_by_email, add_password_reset_token, add_email_change_request,
  get_password_reset_token_by_hash, get_email_change_request_by_hash,
}
use chatfolio_backend.Auth.Tokens.{get_by_id}
use chatfolio_backend.Auth.{past, Crypto}
use chatfolio_backend.Auth.Recovery.{
  forgot_password, send_reset, reset_password, with_password, change_password, request_email_change,
  confirm_email_change,
}
use chatfolio_backend.Auth.Kept.{IsKept}

module _ {P : AccountDb → Type 0} (kept : IsKept P) where
  send_reset-keeps :
      (x : Crypto) (o : Option User) (now : DateTime) (db : AccountDb)
      → P db
      → Leaves P (send_reset x o now db)
  send_reset-keeps x none now db p = p
  send_reset-keeps x (some u) now db p =
      calls P (add_password_reset_token _ db) _ (kept.of_add_reset _ db p)
        (λ _ s q. kept.of_task _ s q)

  pub forgot_password-keeps :
      (x : Crypto) (email : String) (now : DateTime) (db : AccountDb)
      → P db
      → Leaves P (forgot_password x email now db)
  unfolding forgot_password
  forgot_password-keeps x email now db p = send_reset-keeps x (get_by_email email db) now db p

  pub reset_password-keeps :
      (x : Crypto) (raw password : String) (now : DateTime) (db : AccountDb)
      → P db
      → Leaves P (reset_password x raw password now db)
  unfolding reset_password
  reset_password-keeps x raw password now db p =
      finds P (get_password_reset_token_by_hash (x.hash_opaque_token raw) db) _ db _ p (λ t _.
        checks P (not (is_none t.used_at) || past t.expires_at now) _ db _ p (λ _.
          finds P (get_by_id t.user_id db) _ db _ p (λ u _. kept.of_revoke_all u.id now _ (
            kept.of_use_reset t now _
              (kept.of_user u.id (with_password x password) (λ v. refl) db p)))))

  pub change_password-keeps :
      (x : Crypto) (user : User) (current password : String) (db : AccountDb)
      → P db
      → Leaves P (change_password x user current password db)
  unfolding change_password
  change_password-keeps x user current password db p =
      checks P (not (x.verify_password current user.hashed_password)) _ db _ p
        (λ _. kept.of_user user.id (with_password x password) (λ v. refl) db p)

  pub request_email_change-keeps :
      (x : Crypto) (user : User) (email password : String) (now : DateTime) (db : AccountDb)
      → P db
      → Leaves P (request_email_change x user email password now db)
  unfolding request_email_change
  request_email_change-keeps x user email password now db p =
      checks P (not (x.verify_password password user.hashed_password)) _ db _ p (λ _.
        checks P (not (is_none (get_by_email email db))) _ db _ p (λ _.
          calls P (add_email_change_request _ db) _ (kept.of_add_request _ db p)
            (λ _ s q. kept.of_task _ s q)))

  absent : {A : Type 0} (o : Option A) → not (is_none o) ≡ false → o ≡ none
  absent none h = refl
  absent (some a) h = cc

  pub confirm_email_change-keeps :
      (x : Crypto) (raw : String) (now : DateTime) (db : AccountDb)
      → P db
      → Leaves P (confirm_email_change x raw now db)
  unfolding confirm_email_change
  confirm_email_change-keeps x raw now db p =
      finds P (get_email_change_request_by_hash (x.hash_opaque_token raw) db) _ db _ p (λ t _.
        checks P (not (is_none t.used_at) || past t.expires_at now) _ db _ p (λ _.
          checks P (not (is_none (get_by_email t.new_email db))) _ db _ p (λ free.
            finds P (get_by_id t.user_id db) _ db _ p (λ u _.
              kept.of_use_request t now _ (
                kept.of_email u.id t.new_email db (absent (get_by_email t.new_email db) free) p)))))

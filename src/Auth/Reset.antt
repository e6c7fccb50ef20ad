-- ===== src/Auth/Reset.antt =====
-- What a reset of the password ends: `reset_password` (services/auth_service.py).
use chatfolio_backend.Prelude.{
  ℕ, ◌≡◌, refl, true, false, not, ◌&&◌, ◌||◌, none, some, arith, List, [], ◌∷◌, String, str_eq,
  str_eq_iff, any_row, ◌==◌, is_none, first_row, update_rows, update_first,
}
use chatfolio_backend.Prelude.Rows.{first_row-passes}
use chatfolio_backend.Errors.{ok, err}
use chatfolio_backend.Time.Calendar.{DateTime, add_micros}
use chatfolio_backend.Models.Users.{User}
use chatfolio_backend.Models.Accounts.{AccountDb, RefreshToken, PasswordResetToken}
use chatfolio_backend.Auth.Repository.{
  get_by_email, queue_task, add_password_reset_token, get_refresh_token_by_hash,
  get_password_reset_token_by_hash, revoked, change_user, revoke_all_refresh_tokens_for_user,
}
use chatfolio_backend.Auth.{Crypto, past}
use chatfolio_backend.Auth.Tokens.{get_by_id, minutes}
use chatfolio_backend.Auth.Login.{refresh, bad_refresh_token}
use chatfolio_backend.Auth.Recovery.{
  bad_reset_link, forgot_password, reset_password, use_reset_token, with_password,
}
use chatfolio_backend.Auth.Replay.{
  IsRevoked, IsRevoked-forever, OnOk, ok-finds, ok-checks, succeeded, is_dead, has_hash,
}
use chatfolio_backend.Auth.Runs.{Request, handle_all}

eq_nat : (a b : ℕ) → (a == b) ≡ true → a ≡ b
eq_nat a b e = ground arith

all-dead :
    (h : String) (user : ℕ) (t : RefreshToken) (now : DateTime) (ts : List RefreshToken)
    → t.user_id ≡ user
    → first_row (has_hash h) ts ≡ some t
    → is_dead (
        first_row
          (has_hash h)
          (update_rows (λ r. (r.user_id == user) && is_none r.revoked_at) (revoked now) ts))
      ≡ true
all-dead h user t now [] own e = cc
all-dead h user t now (x ∷ ts) own e = ground (arith, all-dead h user t now ts)

reset-IsRevoked :
    (x : Crypto) (password h : String) (now : DateTime) (db : AccountDb) (u : User)
    (link : PasswordResetToken) (t : RefreshToken)
    → get_refresh_token_by_hash h db ≡ some t
    → t.user_id ≡ link.user_id
    → get_by_id link.user_id db ≡ some u
    → IsRevoked h (
        revoke_all_refresh_tokens_for_user u.id now
          (use_reset_token link now (change_user u.id (with_password x password) db)))
unfolding IsRevoked get_refresh_token_by_hash revoke_all_refresh_tokens_for_user use_reset_token
    change_user get_by_id
reset-IsRevoked x password h now db u link t found own is =
    all-dead h u.id t now db.refresh_tokens
      (omega (
        arith,
        own,
        eq_nat u.id link.user_id (first_row-passes (λ v. v.id == link.user_id) u db.users is),
      ))
      found

reset_password-IsRevoked :
    (x : Crypto) (raw password h : String) (now : DateTime) (db : AccountDb)
    (link : PasswordResetToken) (t : RefreshToken)
    → get_password_reset_token_by_hash (x.hash_opaque_token raw) db ≡ some link
    → get_refresh_token_by_hash h db ≡ some t
    → t.user_id ≡ link.user_id
    → OnOk (IsRevoked h) (reset_password x raw password now db)
unfolding reset_password
reset_password-IsRevoked x raw password h now db link t e found own =
    let P = IsRevoked h in
    rw e (
      ok-checks P (not (is_none link.used_at) || past link.expires_at now) _ db _ (
        ok-finds P (get_by_id link.user_id db) _ db _
          (λ u is. reset-IsRevoked x password h now db u link t found own is)))

-- A reset of the password ends every session of the account: a refresh token that the account had
-- then is refused from then on, after any history of requests.
pub reset_password-ends :
    (x y : Crypto) (raw password old : String) (now later : DateTime) (db : AccountDb)
    (link : PasswordResetToken) (t : RefreshToken) (rs : List (Request × Crypto × DateTime))
    → (reset_password x raw password now db).0 ≡ ok tt
    → get_password_reset_token_by_hash (x.hash_opaque_token raw) db ≡ some link
    → get_refresh_token_by_hash (y.hash_opaque_token old) db ≡ some t
    → t.user_id ≡ link.user_id
    → let after = handle_all rs (reset_password x raw password now db).1 in
      refresh y old later after ≡ (err bad_refresh_token, after)
reset_password-ends x y raw password old now later db link t rs done e found own =
    let h = y.hash_opaque_token old in
    IsRevoked-forever h (reset_password x raw password now db).1 rs y old later
      (succeeded (IsRevoked h) tt (reset_password x raw password now db)
        (reset_password-IsRevoked x raw password h now db link t e found own) done)
      refl

-- The part of a link's life that a request changes: a link is good for one reset, and a reset
-- sets the password that the user gave.
spent-refused :
    (x : Crypto) (raw password : String) (now : DateTime) (db : AccountDb)
    (link : PasswordResetToken)
    → get_password_reset_token_by_hash (x.hash_opaque_token raw) db ≡ some link
    → is_none link.used_at ≡ false
    → reset_password x raw password now db ≡ (err bad_reset_link, db)
unfolding reset_password
spent-refused x raw password now db link e used = rw e rw used refl

link-sent :
    (x : Crypto) (user : User) (email : String) (now : DateTime) (db : AccountDb)
    → get_by_email email db ≡ some user
    → any_row (λ r. str_eq r.token_hash (x.hash_opaque_token x.opaque_token)) db.reset_tokens
      ≡ false
    → get_password_reset_token_by_hash
        (x.hash_opaque_token x.opaque_token)
        (forgot_password x email now db).1
      ≡ some (record {
        user_id = user.id;
        token_hash = x.hash_opaque_token x.opaque_token;
        expires_at = add_micros (minutes x.settings.password_reset_token_ttl_minutes) now;
        used_at = none;
      })
unfolding forgot_password add_password_reset_token get_password_reset_token_by_hash queue_task
link-sent x user email now db e fresh =
    rw e rw fresh rw
      ((str_eq_iff (x.hash_opaque_token x.opaque_token) (x.hash_opaque_token x.opaque_token)).1
        refl)
      refl

renewed :
    (x : Crypto) (password email : String) (user : User) (us : List User)
    → str_eq user.email email ≡ true
    → first_row (λ u. str_eq u.email email) us ≡ some user
    → first_row (λ u. u.id == user.id) us ≡ some user
    → first_row
        (λ u. str_eq u.email email)
        (update_first (λ u. u.id == user.id) (with_password x password) us)
      ≡ some (with_password x password user)
renewed x password email user [] m e k = cc
renewed x password email user (u ∷ us) m e k = ground (arith, renewed x password email user us)

forgot_password-users :
    (x : Crypto) (user : User) (email : String) (now : DateTime) (db : AccountDb)
    → get_by_email email db ≡ some user
    → any_row (λ r. str_eq r.token_hash (x.hash_opaque_token x.opaque_token)) db.reset_tokens
      ≡ false
    → (forgot_password x email now db).1.users ≡ db.users
unfolding forgot_password add_password_reset_token queue_task
forgot_password-users x user email now db e fresh = rw e rw fresh refl

-- A forgotten password comes back: for the address of an account, a fresh link is stored, and with
-- it, until it expires, the account gets the hash of the password that is given.
pub forgot_password-roundtrip :
    (x y : Crypto) (user : User) (email password : String) (now later : DateTime) (db : AccountDb)
    → get_by_email email db ≡ some user
    → get_by_id user.id db ≡ some user
    → any_row (λ r. str_eq r.token_hash (x.hash_opaque_token x.opaque_token)) db.reset_tokens
      ≡ false
    → y.hash_opaque_token x.opaque_token ≡ x.hash_opaque_token x.opaque_token
    → past (add_micros (minutes x.settings.password_reset_token_ttl_minutes) now) later ≡ false
    → let asked = (forgot_password x email now db).1 in
      let reset = reset_password y x.opaque_token password later asked in
      (reset.0 ≡ ok tt) × (get_by_email email reset.1 ≡ some (with_password y password user))
unfolding reset_password
forgot_password-roundtrip x y user email password now later db mail found fresh same live =
    let asked = (forgot_password x email now db).1 in
    let us = forgot_password-users x user email now db mail fresh in
    let here : get_by_id user.id asked ≡ some user =
      unfold get_by_id in rw us (unfold get_by_id in found) in
    rw (same, link-sent x user email now db mail fresh) rw (live, here)
      (
        refl,
        unfold get_by_email in
            unfold change_user in
            unfold use_reset_token in
            unfold revoke_all_refresh_tokens_for_user in
            rw us (
              renewed y password email user db.users
                (first_row-passes _ user db.users (unfold get_by_email in mail))
                (unfold get_by_email in mail) (unfold get_by_id in found)),
      )

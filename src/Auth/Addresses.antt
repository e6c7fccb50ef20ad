-- ===== src/Auth/Addresses.antt =====
-- No address belongs to two accounts: `users.email` (models/user.py) under services/auth_service.py.
use chatfolio_backend.Prelude.{
  ℕ, ◌+◌, ◌≤◌, ◌≡◌, refl, Bool, none, arith, List, [], ◌∷◌, String, str_eq, str_eq_iff, ◌==◌,
  count_rows, first_row, update_first, if◌then◌else◌,
}
use chatfolio_backend.Time.Calendar.{DateTime}
use chatfolio_backend.Models.Users.{User}
use chatfolio_backend.Models.Accounts.{AccountDb}
use chatfolio_backend.Billing.OneActive.{count-any}
use chatfolio_backend.Auth.{Crypto}
use chatfolio_backend.Auth.Repository.{
  create, get_by_email, change_user, add_refresh_token, revoke_refresh_token,
  revoke_all_refresh_tokens_for_user, add_password_reset_token, add_email_change_request,
  add_otp_code, change_otp, queue_task,
}
use chatfolio_backend.Auth.Recovery.{use_reset_token, use_email_request, with_email}
use chatfolio_backend.Auth.Kept.{IsKept}
use chatfolio_backend.Auth.Runs.{Request, handle_all, handle_all-keeps}

abbrev pub has_email : String → User → Bool
has_email email u = str_eq u.email email

-- At most one account for each address.
unfoldable pub IsOneAccount : AccountDb → Type 0
IsOneAccount db = (email : String) → count_rows (has_email email) db.users ≤ 1

count-same :
    (id : ℕ) (f : User → User) (same : (u : User) → (f u).email ≡ u.email) (email : String)
    (us : List User)
    → count_rows (has_email email) (update_first (λ u. u.id == id) f us)
      ≡ count_rows (has_email email) us
count-same id f same email [] = refl
count-same id f same email (u ∷ us) = ground (arith, same u, count-same id f same email us)

none-count :
    (email : String) (us : List User)
    → first_row (has_email email) us ≡ none
    → count_rows (has_email email) us ≡ 0
none-count email [] h = refl
none-count email (u ∷ us) h = ground (arith, none-count email us)

-- An address that was free counts once more at most, and no other counts more often.
count-renamed :
    (id : ℕ) (new email : String) (us : List User)
    → count_rows (has_email email) (update_first (λ u. u.id == id) (with_email new) us)
      ≤ count_rows (has_email email) us + (if str_eq new email then 1 else 0)
count-renamed id new email [] = omega arith
count-renamed id new email (u ∷ us) = ground (arith, count-renamed id new email us)

of_create : (u : User) (db : AccountDb) → IsOneAccount db → IsOneAccount (create u db).1
unfolding IsOneAccount create
of_create u db one email =
    ground (arith, one email, count-any (has_email u.email) db.users, str_eq_iff u.email email)

of_email :
    (id : ℕ) (new : String) (db : AccountDb)
    → get_by_email new db ≡ none
    → IsOneAccount db
    → IsOneAccount (change_user id (with_email new) db)
unfolding IsOneAccount change_user get_by_email
of_email id new db free one email = ground (
  arith,
  one email,
  count-renamed id new email db.users,
  none-count new db.users free,
  str_eq_iff new email,
)

-- The writes of the other tables leave the accounts alone.
kept : IsKept IsOneAccount
unfolding IsOneAccount add_refresh_token revoke_refresh_token revoke_all_refresh_tokens_for_user
    add_password_reset_token add_email_change_request add_otp_code change_otp queue_task
    use_reset_token use_email_request change_user
kept = record {
  of_create = of_create;
  of_add_refresh_token = λ t db one email. ground (arith, one email);
  of_revoke = λ t now db one. one;
  of_revoke_all = λ u now db one. one;
  of_add_reset = λ t db one email. ground (arith, one email);
  of_add_request = λ t db one email. ground (arith, one email);
  of_use_reset = λ t now db one. one;
  of_use_request = λ t now db one. one;
  of_add_otp = λ o db one. one;
  of_otp = λ id f db one. one;
  of_task = λ m db one. one;
  of_user = λ id f same db one email. rw (count-same id f same email db.users) (one email);
  of_email = of_email;
}

-- From tables where no address belongs to two accounts, any history of requests leads to such
-- tables: registrations and confirmed changes of an address among them.
pub handle_all-IsOneAccount :
    (rs : List (Request × Crypto × DateTime)) (db : AccountDb)
    → IsOneAccount db
    → IsOneAccount (handle_all rs db)
handle_all-IsOneAccount rs db one = handle_all-keeps kept rs db one

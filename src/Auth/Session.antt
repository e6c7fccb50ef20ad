-- ===== src/Auth/Session.antt =====
-- db/session.py: `get_db_session`, in which every request runs, and what it makes of the count of
-- wrong codes (services/auth_service.py: `_consume_otp`).
use chatfolio_backend.Prelude.{
  ℕ, ◌≡◌, refl, Bool-cases, Option-cases, inl, inr, false, some, List, [], ◌∷◌, String, str_eq, leb,
  All,
}
use chatfolio_backend.Errors.{Result, ok, err, Error}
use chatfolio_backend.Action.{Action, proceed}
use chatfolio_backend.Time.Calendar.{DateTime}
use chatfolio_backend.Models.Users.{OtpPurpose}
use chatfolio_backend.Models.Accounts.{AccountDb, OtpCode}
use chatfolio_backend.Auth.Repository.{get_latest_active_otp}
use chatfolio_backend.Auth.{Crypto, past, consume_otp}
use chatfolio_backend.Auth.Login.{decode_challenge, verify_two_factor_login}

-- Commit after a success, roll back after an exception.
abbrev pub settled {ℓ} : {S : Type 0} {A : Type ℓ} → S → Result A × S → Result A × S
settled before (ok a, after) = (ok a, after)
settled before (err e, after) = (err e, before)

abbrev pub get_db_session {ℓ} : {S : Type 0} {A : Type ℓ} → Action S A → Action S A
get_db_session handler s = settled s (handler s)

-- One request after another to verify a login, each with its code and its time.
unfoldable pub guess_all : Crypto → String → List (String × DateTime) → AccountDb → AccountDb
guess_all x token [] db = db
guess_all x token ((code, now) ∷ guesses) db =
    guess_all x token guesses (get_db_session (verify_two_factor_login x token code now) db).1

-- The code is not the latest one that was sent for the login of the user that the challenge names.
unfoldable pub IsWrong : Crypto → String → AccountDb → String × DateTime → Type 0
IsWrong x token db (code, now) =
    (user : ℕ) (otp : OtpCode)
    → decode_challenge x token now ≡ ok user
    → get_latest_active_otp user OtpPurpose.two_factor_login db ≡ some otp
    → str_eq (x.hash_opaque_token code) otp.code_hash ≡ false

-- The call raises.
abbrev pub Raises {ℓ} : {S : Type 0} {A : Type ℓ} → Result A × S → Type ℓ
Raises (r, s) = (e : Error) × (r ≡ err e)

pub proceed-Raises {ℓ κ} :
    {S : Type 0} {A : Type ℓ} {B : Type κ} (m : Result A × S) (f : A → S → Result B × S)
    → Raises m
    → Raises (proceed m f)
proceed-Raises (ok a, s) f (e, h) = cc
proceed-Raises (err e, s) f h = (e, refl)

consume_otp-Raises :
    (x : Crypto) (user : ℕ) (code : String) (now : DateTime) (db : AccountDb)
    → ((otp : OtpCode)
        → get_latest_active_otp user OtpPurpose.two_factor_login db ≡ some otp
        → str_eq (x.hash_opaque_token code) otp.code_hash ≡ false)
    → Raises (consume_otp x user OtpPurpose.two_factor_login code now db)
unfolding consume_otp
consume_otp-Raises x user code now db wrong =
    elim (Option-cases (get_latest_active_otp user OtpPurpose.two_factor_login db)) [
      | inl e ↦ rw e (_, refl)
      | inr (otp, e) ↦ rw e (elim (Bool-cases (past otp.expires_at now)) [
        | inl a ↦ rw a (_, refl)
        | inr a ↦ rw a (elim (Bool-cases (leb x.settings.otp_max_attempts otp.attempts)) [
          | inl b ↦ rw b (_, refl)
          | inr b ↦ rw (b, wrong otp e) (_, refl)
        ])
      ])
    ]

verify-Raises :
    (x : Crypto) (token : String) (code : String) (now : DateTime) (db : AccountDb) (o : Result ℕ)
    → decode_challenge x token now ≡ o
    → IsWrong x token db (code, now)
    → Raises (verify_two_factor_login x token code now db)
unfolding verify_two_factor_login IsWrong
verify-Raises x token code now db (ok user) e wrong =
    rw e (proceed-Raises _ _ (consume_otp-Raises x user code now db (λ otp. wrong user otp e)))
verify-Raises x token code now db (err er) e wrong = rw e (er, refl)

settled-Raises {ℓ} :
    {S : Type 0} {A : Type ℓ} (s : S) (m : Result A × S) → Raises m → (settled s m).1 ≡ s
settled-Raises s (ok a, _) (e, h) = cc
settled-Raises s (err e, _) h = refl

-- Wrong codes leave no trace: the session of each is rolled back, and with it the count of the
-- attempts. So after any number of them a code meets the tables as they were before the first.
pub guess_all-forgotten :
    (x : Crypto) (token : String) (guesses : List (String × DateTime)) (db : AccountDb)
    → All (IsWrong x token db) guesses
    → guess_all x token guesses db ≡ db
unfolding guess_all
guess_all-forgotten x token [] db wrong = refl
guess_all-forgotten x token ((code, now) ∷ guesses) db (w, ws) =
    rw
      (settled-Raises db (verify_two_factor_login x token code now db)
        (verify-Raises x token code now db (decode_challenge x token now) refl w))
      (guess_all-forgotten x token guesses db ws)

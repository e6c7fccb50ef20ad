-- ===== src/Auth/Replay.antt =====
-- A refresh token and a reset link serve once (services/auth_service.py).
use chatfolio_backend.Prelude.{
  ◌≡◌, refl, Bool, true, false, not, Bool-cases, inl, inr, Option, none, some, arith, List, [], ◌∷◌,
  String, str_eq, str_eq_iff, is_none, any_row, first_row, update_first, update_rows,
}
use chatfolio_backend.Prelude.Rows.{first_row-passes}
use chatfolio_backend.Errors.{Error, Result, ok, err}
use chatfolio_backend.Action.Leaves.{Leaves, calls}
use chatfolio_backend.Action.{Action, proceed, or_raise, raise_if}
use chatfolio_backend.Time.Calendar.{DateTime}
use chatfolio_backend.Models.Accounts.{AccountDb, RefreshToken}
use chatfolio_backend.Auth.Repository.{
  create, get_refresh_token_by_hash, revoked, change_user, add_refresh_token, revoke_refresh_token,
  revoke_all_refresh_tokens_for_user, add_password_reset_token, add_email_change_request,
  add_otp_code, change_otp, queue_task,
}
use chatfolio_backend.Auth.{Crypto, TokenResponse, past}
use chatfolio_backend.Auth.Login.{refresh, account_of, bad_refresh_token}
use chatfolio_backend.Auth.Recovery.{use_reset_token, use_email_request}
use chatfolio_backend.Auth.Kept.{IsKept, account_of-keeps, issue_tokens-keeps}
use chatfolio_backend.Auth.Runs.{Request, handle_all, handle_all-keeps}

abbrev pub has_hash : String → RefreshToken → Bool
has_hash h r = str_eq r.token_hash h

-- A row that is there, and revoked.
abbrev pub is_dead : Option RefreshToken → Bool
is_dead none = false
is_dead (some t) = not (is_none t.revoked_at)

-- The refresh token of this digest is revoked.
unfoldable pub IsRevoked : String → AccountDb → Type 0
IsRevoked h db = is_dead (get_refresh_token_by_hash h db) ≡ true

dead-any :
    (h : String) (ts : List RefreshToken)
    → is_dead (first_row (has_hash h) ts) ≡ true
    → any_row (has_hash h) ts ≡ true
dead-any h [] e = cc
dead-any h (x ∷ ts) e = ground (arith, dead-any h ts)

-- Revoking tokens, any of them, un-revokes none.
still_dead :
    (h : String) (p : RefreshToken → Bool) (now : DateTime) (ts : List RefreshToken)
    → is_dead (first_row (has_hash h) ts) ≡ true
    → is_dead (first_row (has_hash h) (update_first p (revoked now) ts)) ≡ true
still_dead h p now [] e = cc
still_dead h p now (x ∷ ts) e = ground (arith, still_dead h p now ts)

still_dead_all :
    (h : String) (p : RefreshToken → Bool) (now : DateTime) (ts : List RefreshToken)
    → is_dead (first_row (has_hash h) ts) ≡ true
    → is_dead (first_row (has_hash h) (update_rows p (revoked now) ts)) ≡ true
still_dead_all h p now [] e = cc
still_dead_all h p now (x ∷ ts) e = ground (arith, still_dead_all h p now ts)

of_add :
    (h : String) (t : RefreshToken) (db : AccountDb)
    → IsRevoked h db
    → IsRevoked h (add_refresh_token t db).1
unfolding IsRevoked add_refresh_token get_refresh_token_by_hash
of_add h t db e = ground (arith, dead-any h db.refresh_tokens e, str_eq_iff t.token_hash h)

kept : (h : String) → IsKept (IsRevoked h)
unfolding IsRevoked get_refresh_token_by_hash create revoke_refresh_token
    revoke_all_refresh_tokens_for_user add_password_reset_token add_email_change_request
    add_otp_code change_otp queue_task use_reset_token use_email_request change_user
kept h = record {
  of_create = λ u db e. ground (arith, e);
  of_add_refresh_token = of_add h;
  of_revoke = λ t now db e. still_dead h _ now db.refresh_tokens e;
  of_revoke_all = λ u now db e. still_dead_all h _ now db.refresh_tokens e;
  of_add_reset = λ t db e. ground (arith, e);
  of_add_request = λ t db e. ground (arith, e);
  of_use_reset = λ t now db e. e;
  of_use_request = λ t now db e. e;
  of_add_otp = λ o db e. e;
  of_otp = λ id f db e. e;
  of_task = λ m db e. e;
  of_user = λ id f same db e. e;
  of_email = λ id email db free e. e;
}

dead-refused :
    (x : Crypto) (raw : String) (now : DateTime) (db : AccountDb) (o : Option RefreshToken)
    → get_refresh_token_by_hash (x.hash_opaque_token raw) db ≡ o
    → is_dead o ≡ true
    → refresh x raw now db ≡ (err bad_refresh_token, db)
unfolding refresh
dead-refused x raw now db none e d = cc
dead-refused x raw now db (some t) e d =
    rw e (elim (Bool-cases (is_none t.revoked_at)) [ inl n ↦ cc | inr n ↦ rw n refl ])

-- A revoked refresh token is refused after any history of requests.
pub IsRevoked-forever :
    (h : String) (db : AccountDb) (rs : List (Request × Crypto × DateTime)) (x : Crypto)
    (raw : String) (now : DateTime)
    → IsRevoked h db
    → x.hash_opaque_token raw ≡ h
    → refresh x raw now (handle_all rs db) ≡ (err bad_refresh_token, handle_all rs db)
unfolding IsRevoked
IsRevoked-forever h db rs x raw now dead same =
    let after = get_refresh_token_by_hash (x.hash_opaque_token raw) (handle_all rs db) in
    dead-refused x raw now (handle_all rs db) after refl
      (rw same (handle_all-keeps (kept h) rs db dead))

revoke-dead :
    (h : String) (t : RefreshToken) (now : DateTime) (ts : List RefreshToken)
    → t.token_hash ≡ h
    → first_row (has_hash h) ts ≡ some t
    → is_dead (first_row (has_hash h) (update_first (has_hash h) (revoked now) ts)) ≡ true
revoke-dead h t now [] k e = cc
revoke-dead h t now (x ∷ ts) k e = ground (arith, revoke-dead h t now ts)

-- After a success the property holds.
abbrev pub OnOk {ℓ} : (AccountDb → Type 0) → {A : Type ℓ} → Result A × AccountDb → Type 0
OnOk P (ok _, db) = P db
OnOk P (err _, db) = Unit

ok-Leaves {ℓ} :
    (P : AccountDb → Type 0) {A : Type ℓ} (m : Result A × AccountDb) → Leaves P m → OnOk P m
ok-Leaves P (ok a, db) p = p
ok-Leaves P (err e, db) p = tt

module _ (P : AccountDb → Type 0) where
  pub ok-finds {ℓ κ} :
      {A : Type ℓ} {B : Type κ} (o : Option A) (e : Error) (db : AccountDb)
      (f : A → Action AccountDb B)
      → ((a : A) → o ≡ some a → OnOk P (f a db))
      → OnOk P (proceed (or_raise e o db) f)
  ok-finds none e db f g = tt
  ok-finds (some a) e db f g = g a refl

  pub ok-checks {κ} :
      {B : Type κ} (c : Bool) (e : Error) (db : AccountDb) (f : Unit {0} → Action AccountDb B)
      → OnOk P (f tt db)
      → OnOk P (proceed (raise_if c e db) f)
  ok-checks true e db f g = tt
  ok-checks false e db f g = g

revoke-IsRevoked :
    (h : String) (t : RefreshToken) (now : DateTime) (db : AccountDb)
    → get_refresh_token_by_hash h db ≡ some t
    → IsRevoked h (revoke_refresh_token t now db)
unfolding IsRevoked revoke_refresh_token get_refresh_token_by_hash
revoke-IsRevoked h t now db e =
    let same =
      (str_eq_iff t.token_hash h).0 (first_row-passes (has_hash h) t db.refresh_tokens e) in
    rw same (revoke-dead h t now db.refresh_tokens same e)

refresh-IsRevoked :
    (x : Crypto) (raw : String) (now : DateTime) (db : AccountDb)
    → OnOk (IsRevoked (x.hash_opaque_token raw)) (refresh x raw now db)
unfolding refresh
refresh-IsRevoked x raw now db =
    let P = IsRevoked (x.hash_opaque_token raw) in
    let k = kept (x.hash_opaque_token raw) in
    ok-finds P (get_refresh_token_by_hash (x.hash_opaque_token raw) db) _ db _ (λ t found.
      ok-checks P (not (is_none t.revoked_at)) _ db _ (
        ok-checks P (past t.expires_at now) _ db _ (
          let s = revoke_refresh_token t now db in
          ok-Leaves P _ (
            calls P (account_of t.user_id s) _
              (account_of-keeps k t.user_id s
                (revoke-IsRevoked (x.hash_opaque_token raw) t now db found))
              (λ u v q. issue_tokens-keeps k x u now v q)))))

pub succeeded {ℓ} :
    (P : AccountDb → Type 0) {A : Type ℓ} (r : A) (m : Result A × AccountDb)
    → OnOk P m
    → m.0 ≡ ok r
    → P m.1
succeeded P r (ok a, s) p e = p
succeeded P r (err e, s) p h = cc

-- A refresh token that was exchanged once is refused from then on, after any history of requests,
-- whoever presents it.
pub refresh-once :
    (x y : Crypto) (raw : String) (now later : DateTime) (db : AccountDb) (r : TokenResponse)
    (rs : List (Request × Crypto × DateTime))
    → (refresh x raw now db).0 ≡ ok r
    → y.hash_opaque_token raw ≡ x.hash_opaque_token raw
    → let after = handle_all rs (refresh x raw now db).1 in
      refresh y raw later after ≡ (err bad_refresh_token, after)
refresh-once x y raw now later db r rs done same =
    IsRevoked-forever (x.hash_opaque_token raw) (refresh x raw now db).1 rs y raw later
      (succeeded (IsRevoked (x.hash_opaque_token raw)) r (refresh x raw now db)
        (refresh-IsRevoked x raw now db) done)
      same
